-- ===== src/Service/Capabilities/Lists.antt =====
-- internal/queryservice/service.go `Capabilities`: what the loops over profiles, datasources and
-- operations keep.
use quordon.Prelude.{
  ◌≡◌, ◌↔◌, ◌⊎◌, inl, inr, refl, sym, subst, true, false, Bool-cases, List, [], ◌∷◌, string_has_eq,
  contains, In, Any, lookup, String, Option, none, some, arith,
}
use quordon.Domain.{Limits, Operation}
use quordon.Policy.{Profile, BindingKey, binding_key_has_eq}
use quordon.Service.{World, Environment}
use quordon.Service.Capabilities.{
  DatasourceCapability, ProfileCapability, Sorting, offered, offered_operations,
  datasource_capabilities, with_datasources, with_profile, profile_capabilities,
}

abbrev Keeps : (A : Type 0) → (List A → List A) → Type 1
Keeps A sort = (P : A → Type 0) (xs : List A) → Any P (sort xs) ↔ Any P xs

-- Documented: sorting keeps the elements of a list.
abbrev pub Sorts : Sorting → Type 1
Sorts sorting =
    Keeps ProfileCapability sorting.profiles × Keeps DatasourceCapability sorting.datasources

-- An operation is shown for a profile and a datasource.
abbrev pub Offers : String → Operation → DatasourceCapability → Type 0
Offers datasource operation d = (d.name ≡ datasource) × In operation d.operations

abbrev pub Shows : String → String → Operation → ProfileCapability → Type 0
Shows profile datasource operation p =
    (p.name ≡ profile) × Any (Offers datasource operation) p.datasources

module _ (env : Environment) (sorting : Sorting) (w : World) (sorts : Sorts sorting)
    (profile datasource : String) (operation : Operation) where
  offered_operations_lem :
      (key : BindingKey) (operations : List Operation)
      → In operation (offered_operations env sorting w key operations)
        ↔ (In operation operations × (offered env sorting w key operation ≡ true))
  unfolding offered_operations
  offered_operations_lem key [] = ground arith
  offered_operations_lem key (o ∷ operations) =
      let rest = offered_operations_lem key operations in
      elim (Bool-cases (offered env sorting w key o)) [
        | inl shown ↦ rw shown (
          (λ h. elim h [
            | inl same ↦ (inl same, subst (λ x. offered env sorting w key x ≡ true) same shown)
            | inr later ↦ let (a, b) = rest.0 later in (inr a, b)
          ]),
          (λ (h, on). elim h [ inl same ↦ inl same | inr later ↦ inr (rest.1 (later, on)) ]),
        )
        | inr hidden ↦ rw hidden (
          (λ h. let (a, b) = rest.0 h in (inr a, b)),
          (λ (h, on). elim h [ inl same ↦ absurd cc | inr later ↦ rest.1 (later, on) ]),
        )
      ]

  -- Of a datasource among those of a profile.
  unfoldable pub Offered : List String → List Operation → Type 0
  Offered assigned operations =
      (contains assigned datasource ≡ true)
      × In operation operations
      × (offered env sorting w (record { profile = profile; datasource = datasource }) operation
          ≡ true)

  datasource_capabilities_lem :
      (assigned : List String) (operations : List Operation) (datasources : List String)
      → Any
          (Offers datasource operation)
          (datasource_capabilities env sorting w profile assigned operations datasources)
        ↔ (In datasource datasources × Offered assigned operations)
  unfolding datasource_capabilities Offered
  datasource_capabilities_lem assigned operations [] = ground arith
  datasource_capabilities_lem assigned operations (d ∷ datasources) =
      let rest = datasource_capabilities_lem assigned operations datasources in
      let key : BindingKey = record { profile = profile; datasource = datasource } in
      let here = offered_operations_lem key operations in
      elim (Bool-cases (contains assigned d)) [
        | inl known ↦ rw known (
          (λ h. elim h [
            | inl (same, inside) ↦
                let (a, b) = here.0 (
                  subst
                    (λ x. In operation (
                      offered_operations env sorting w
                        (record { profile = profile; datasource = x }) operations))
                    same inside) in
                (inl same, (subst (λ x. contains assigned x ≡ true) same known, a, b))
            | inr later ↦ let (a, b) = rest.0 later in (inr a, b)
          ]),
          (λ (h, on). elim h [
            | inl same ↦ inl (
              same,
              subst
                  (λ x. In operation (
                    offered_operations env sorting w (record { profile = profile; datasource = x })
                      operations))
                  (sym same) (here.1 (on.1, on.2)),
            )
            | inr later ↦ inr (rest.1 (later, on))
          ]),
        )
        | inr unknown ↦ rw unknown (
          (λ h. let (a, b) = rest.0 h in (inr a, b)),
          (λ (h, on). elim h [
            | inl same ↦ absurd (
                let e : contains assigned datasource ≡ false =
                  subst (λ x. contains assigned x ≡ false) same unknown in
                cc)
            | inr later ↦ rest.1 (later, on)
          ]),
        )
      ]

  with_datasources_lem :
      (name : String) (limits : Limits) (ds : List DatasourceCapability)
      (rest : List ProfileCapability)
      → Any
          (Shows profile datasource operation)
          (with_datasources env sorting w name limits ds rest)
        ↔ (((name ≡ profile) × Any (Offers datasource operation) ds)
            ⊎ Any (Shows profile datasource operation) rest)
  with_datasources_lem name limits [] rest =
      (λ h. inr h, λ h. elim h [ inl (_, nothing) ↦ absurd nothing | inr later ↦ later ])
  with_datasources_lem name limits (d ∷ ds) rest = (λ h. h, λ h. h)

  -- A profile that is configured, with this datasource and this operation.
  unfoldable pub Configured : List String → Type 0
  Configured assigned =
      (p : Profile) × (lookup profile env.policy.profiles ≡ some p)
      × In datasource p.datasources
      × Offered assigned p.operations

  with_profile_lem :
      (assigned : List String) (name : String) (o : Option Profile) (rest : List ProfileCapability)
      (more : Type 0)
      → lookup name env.policy.profiles ≡ o
      → Any (Shows profile datasource operation) rest ↔ (more × Configured assigned)
      → Any (Shows profile datasource operation) (with_profile env sorting w assigned name o rest)
        ↔ (((name ≡ profile) ⊎ more) × Configured assigned)
  unfolding Configured
  with_profile_lem assigned name none rest more absent those = (
    (λ h. let (a, b) = those.0 h in (inr a, b)),
    (λ (h, c). elim h [
      | inl same ↦ absurd (
          let e : lookup profile env.policy.profiles ≡ none =
            subst (λ x. lookup x env.policy.profiles ≡ none) same absent in
          cc (e, c.1))
      | inr later ↦ those.1 (later, c)
    ]),
  )
  with_profile_lem assigned name (some p) rest more found those =
      let Here : String → Type 0 = λ n. Any (Offers datasource operation) (
        sorting.datasources
          (datasource_capabilities env sorting w n assigned p.operations p.datasources)) in
      let split =
        with_datasources_lem name p.limits
          (sorting.datasources
            (datasource_capabilities env sorting w name assigned p.operations p.datasources))
          rest in
      let kept =
        sorts.1 (Offers datasource operation)
          (datasource_capabilities env sorting w profile assigned p.operations p.datasources) in
      let here = datasource_capabilities_lem assigned p.operations p.datasources in
      (
        (λ h. elim (split.0 h) [
          | inl (same, inside) ↦
              let (a, b) = here.0 (kept.0 (subst Here same inside)) in
              (inl same, (p, subst (λ x. lookup x env.policy.profiles ≡ some p) same found, a, b))
          | inr later ↦ let (a, b) = those.0 later in (inr a, b)
        ]),
        (λ (h, c). elim h [
          | inl same ↦
              let e : lookup profile env.policy.profiles ≡ some p =
                subst (λ x. lookup x env.policy.profiles ≡ some p) same found in
              let one : c.0 ≡ p = cc (e, c.1) in
              let on : In datasource p.datasources × Offered assigned p.operations =
                subst (λ q. In datasource q.datasources × Offered assigned q.operations) one
                  (c.2, c.3) in
              split.1 (inl (same, subst Here (sym same) (kept.1 (here.1 on))))
          | inr later ↦ split.1 (inr (those.1 (later, c)))
        ]),
      )

  pub profile_capabilities_lem :
      (assigned names : List String)
      → Any (Shows profile datasource operation) (profile_capabilities env sorting w assigned names)
        ↔ (In profile names × Configured assigned)
  unfolding profile_capabilities
  profile_capabilities_lem assigned [] = (λ h. absurd h, λ (h, _). absurd h)
  profile_capabilities_lem assigned (name ∷ names) =
      with_profile_lem assigned name (lookup name env.policy.profiles)
        (profile_capabilities env sorting w assigned names) (In profile names) refl
        (profile_capabilities_lem assigned names)
