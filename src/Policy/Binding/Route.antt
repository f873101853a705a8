-- ===== src/Policy/Binding/Route.antt =====
-- When a binding is minted, what it carries, and where it is accepted.
use quordon.Prelude.{
  true, ◌&&◌, ◌≡◌, refl, ap, ◌≢◌, ◌↔◌, inl, inr, ◌==◌, nat_has_eq, string_has_eq, ==_iff,
  ==_false_iff, String, contains, contains_iff, In, lookup, some, ok, arith, Option-cases,
  Result-cases,
}
use quordon.Domain.{Operation, min_limits}
use quordon.Policy.{Snapshot, Principal, Profile, AuthorizedBinding}
use quordon.Policy.Binding.{assigned_profile, authorize_binding, profile_for_binding}

-- The configuration assigns the profile and the datasource to the principal, and the datasource and
-- the operation to the profile.
pub record Routes (s : Snapshot) (principal profile datasource : String) (operation : Operation)
    (p : Profile) : Type 0 where
  pub account : Principal
  pub known : lookup principal s.principals ≡ some account
  pub account_profile : In profile account.profiles
  pub account_datasource : In datasource account.datasources
  pub configured : lookup profile s.profiles ≡ some p
  pub profile_datasource : In datasource p.datasources
  pub profile_operation : In operation p.operations

module _ (s : Snapshot) (principal profile datasource : String) (operation : Operation) where
  assigned_sound :
      (p : Profile)
      → assigned_profile s principal profile datasource operation ≡ ok p
      → Routes s principal profile datasource operation p
  unfolding assigned_profile
  assigned_sound p h = elim (Option-cases (lookup principal s.principals)) [
    | inl e ↦ absurd (ground arith)
    | inr (account, e) ↦
        let first : (contains account.profiles profile && contains account.datasources datasource)
            ≡ true =
          ground arith in
        let found : lookup profile s.profiles ≡ some p = ground arith in
        let second : (contains p.datasources datasource && contains p.operations operation) ≡ true =
          ground arith in
        record {
          account = account;
          known = e;
          account_profile = (contains_iff account.profiles profile).0 (ground arith);
          account_datasource = (contains_iff account.datasources datasource).0 (ground arith);
          configured = found;
          profile_datasource = (contains_iff p.datasources datasource).0 (ground arith);
          profile_operation = (contains_iff p.operations operation).0 (ground arith);
        }
  ]

  assigned_complete :
      (p : Profile)
      → Routes s principal profile datasource operation p
      → assigned_profile s principal profile datasource operation ≡ ok p
  unfolding assigned_profile
  assigned_complete p r =
      let a = (contains_iff r.account.profiles profile).1 r.account_profile in
      let b = (contains_iff r.account.datasources datasource).1 r.account_datasource in
      let c = (contains_iff p.datasources datasource).1 r.profile_datasource in
      let d = (contains_iff p.operations operation).1 r.profile_operation in
      rw (r.known, r.configured, a, b, c, d)

  -- The token of a route.
  abbrev pub minted : Profile → AuthorizedBinding
  minted p = record {
    owner = s.address;
    principal = principal;
    key = record { profile = profile; datasource = datasource };
    operation = operation;
    limits = min_limits s.hard_limits p.limits;
    policy_hash = s.hash;
  }

  minted_sound :
      (b : AuthorizedBinding)
      → authorize_binding s principal profile datasource operation ≡ ok b
      → (p : Profile) × Routes s principal profile datasource operation p × (b ≡ minted p)
  unfolding authorize_binding
  minted_sound b h =
      elim (Result-cases (assigned_profile s principal profile datasource operation)) [
        | inl (p, e) ↦ (p, assigned_sound p e, ground arith)
        | inr (e, refused) ↦ absurd (ground arith)
      ]

  minted_complete :
      (p : Profile)
      → Routes s principal profile datasource operation p
      → authorize_binding s principal profile datasource operation ≡ ok (minted p)
  unfolding authorize_binding
  minted_complete p r = rw (assigned_complete p r, authorize_binding)

  -- A binding is minted exactly for the routes that the configuration assigns, principal to profile,
  -- principal to datasource, profile to datasource and profile to operation, and it carries that
  -- route, the snapshot's address and hash, and the least of the hard and the profile's limits.
  pub authorize_binding_iff :
      (b : AuthorizedBinding)
      → (authorize_binding s principal profile datasource operation ≡ ok b)
        ↔ ((p : Profile) × Routes s principal profile datasource operation p × (b ≡ minted p))
  authorize_binding_iff b = (minted_sound b, λ (p, r, e). rw e (minted_complete p r))

-- A snapshot accepts a binding for an operation exactly if the binding names this snapshot, its hash
-- and this operation, names a principal, a profile and a datasource, and its route is assigned.
pub record Accepts (s : Snapshot) (b : AuthorizedBinding) (op : Operation) (p : Profile)
    : Type 0 where
  pub owner : b.owner ≡ s.address
  pub policy_hash : b.policy_hash ≡ s.hash
  pub operation : b.operation ≡ op
  pub principal : b.principal ≢ ""
  pub profile : b.key.profile ≢ ""
  pub datasource : b.key.datasource ≢ ""
  pub route : Routes s b.principal b.key.profile b.key.datasource op p

module _ (s : Snapshot) (b : AuthorizedBinding) (operation : Operation) (p : Profile) where
  accepted_sound : profile_for_binding s b operation ≡ ok p → Accepts s b operation p
  unfolding profile_for_binding
  accepted_sound h = record {
    owner = (==_iff b.owner s.address).0 (ground arith);
    policy_hash = (==_iff b.policy_hash s.hash).0 (ground arith);
    operation = (==_iff b.operation operation).0 (ground arith);
    principal = (==_false_iff b.principal "").0 (ground arith);
    profile = (==_false_iff b.key.profile "").0 (ground arith);
    datasource = (==_false_iff b.key.datasource "").0 (ground arith);
    route = assigned_sound s b.principal b.key.profile b.key.datasource operation p (ground arith);
  }

  accepted_complete : Accepts s b operation p → profile_for_binding s b operation ≡ ok p
  unfolding profile_for_binding
  accepted_complete a =
      let owner : (b.owner == s.address) ≡ true = (==_iff b.owner s.address).1 a.owner in
      let hash : (b.policy_hash == s.hash) ≡ true = (==_iff b.policy_hash s.hash).1 a.policy_hash in
      let same : (b.operation == operation) ≡ true = (==_iff b.operation operation).1 a.operation in
      let principal = (==_false_iff b.principal "").1 a.principal in
      let profile = (==_false_iff b.key.profile "").1 a.profile in
      let datasource = (==_false_iff b.key.datasource "").1 a.datasource in
      rw (owner, hash, same, principal, profile, datasource)
        (assigned_complete s b.principal b.key.profile b.key.datasource operation p a.route)

  pub profile_for_binding_iff : (profile_for_binding s b operation ≡ ok p) ↔ Accepts s b operation p
  profile_for_binding_iff = (accepted_sound, accepted_complete)

-- A binding that a snapshot mints for a named route is accepted by that snapshot for its operation,
-- and gives the profile that bounds its limits.
pub minted_binding_accepted :
    (s : Snapshot) (principal profile datasource : String) (operation : Operation)
    (b : AuthorizedBinding)
    → principal ≢ ""
    → profile ≢ ""
    → datasource ≢ ""
    → authorize_binding s principal profile datasource operation ≡ ok b
    → (p : Profile) × (profile_for_binding s b operation ≡ ok p)
      × (b.limits ≡ min_limits s.hard_limits p.limits)
minted_binding_accepted s principal profile datasource operation b u v w h =
    let (p, r, e) = minted_sound s principal profile datasource operation b h in
    let accepts : Accepts s (minted s principal profile datasource operation p) operation p =
      record {
        owner = refl;
        policy_hash = refl;
        operation = refl;
        principal = u;
        profile = v;
        datasource = w;
        route = r;
      } in
    (p, rw e (accepted_complete s _ operation p accepts), rw e)

-- Wherever a minted binding is accepted, the snapshot has the address and the hash of the one that
-- minted it, and the operation is the one that it was minted for.
pub minted_binding_only_here :
    (s : Snapshot) (principal profile datasource : String) (operation : Operation)
    (b : AuthorizedBinding) (t : Snapshot) (other : Operation) (p : Profile)
    → authorize_binding s principal profile datasource operation ≡ ok b
    → profile_for_binding t b other ≡ ok p
    → (t.address ≡ s.address) × (t.hash ≡ s.hash) × (other ≡ operation)
minted_binding_only_here s principal profile datasource operation b t other p h k =
    let (_, _, e) = minted_sound s principal profile datasource operation b h in
    let a = accepted_sound t b other p k in
    (
      cc (ap (λ (x : AuthorizedBinding). x.owner) e, a.owner),
      cc (ap (λ (x : AuthorizedBinding). x.policy_hash) e, a.policy_hash),
      cc (ap (λ (x : AuthorizedBinding). x.operation) e, a.operation),
    )
