-- ===== src/Service/Stages/Keeps.antt =====
-- internal/queryservice: what the steps of the handlers keep, whatever the sink and the adapters
-- answer.
use quordon.Prelude.{
  ℕ, ◌≡◌, refl, Bool, true, false, Bool-cases, List, ◌∷◌, length, contains, string_has_eq, String,
  Option, some, none, inl, inr, Result, ok, err,
}
use quordon.Domain.{Operation, IdentifierSemantics}
use quordon.Policy.{Reason, denied_operation, denied_query_feature, PolicyError, AuthorizedBinding}
use quordon.Policy.Binding.{authorize_binding}
use quordon.Capacity.{Gates}
use quordon.Database.{Failure, identifier_semantics, capabilities, features, adapter_name}
use quordon.Service.{
  ErrorKind, Event, Happening, audited, asked, World, Environment, Caller, M, ◌>>◌, raise, note,
  write_audit, denied, not_implemented, observe_identifier_semantics,
}
use quordon.Service.Triples.{
  Triple, Invariant, Outcome, Triple->>=, Triple-weaken, Triple-write_audit,
}
use quordon.Service.Stages.{
  write_denial, assigned_binding, require_supported, precheck_source_text, complete_error,
  ask_semantics, authorized, allows_source_text, reason_of, observed, classify_database_error,
  classify_database_audit_error, denial_event, bound_event, bound_or_denied,
}

module _ (env : Environment) (caller : Caller) (P : List Happening → Type 0) (g : Gates)
    (audited_keeps : (past : List Happening) (event : Event) (b : Bool)
      → P past
      → P (audited event b ∷ past))
    (asked_keeps : (past : List Happening) (datasource : String)
      → P past
      → P (asked datasource ∷ past)) where
  -- A step that keeps the invariant.
  abbrev pub Keeps : {A : Type 0} → M A → Type 0
  Keeps m = Triple (Invariant P g) m (λ _ w. Invariant P g w) (Invariant P g)

  write_audit-Keeps : (event : Event) → Keeps (write_audit env event)
  write_audit-Keeps event =
      Triple-weaken (Triple-write_audit P g env event (λ past b. audited_keeps past event b))
        (λ _ w q. q.0)

  -- An event, then an error.
  write_raise :
      {A : Type 0} (event : Event) (m : M A) (Q : A → World → Type 0)
      → ((w : World) → Invariant P g w → Outcome Q (Invariant P g) (m w))
      → Triple (Invariant P g) (write_audit env event >> m) Q (Invariant P g)
  write_raise event m Q ends = Triple->>= (write_audit-Keeps event) (λ _. record { run = ends })

  denied_keeps :
      {A : Type 0} (event : Event) (kind : ErrorKind) (reason : Option Reason)
      (Q : A → World → Type 0)
      → Triple (Invariant P g) (write_audit env event >> raise kind reason) Q (Invariant P g)
  denied_keeps event kind reason Q = write_raise event (raise kind reason) Q (λ w p. p)

  bound_keeps :
      (profile datasource : String) (operation : Operation)
      (r : Result PolicyError AuthorizedBinding)
      → Triple
          (Invariant P g)
          (bound_or_denied env caller profile datasource operation r)
          (λ b w. Invariant P g w × (r ≡ ok b))
          (Invariant P g)
  unfolding write_denial
  bound_keeps profile datasource operation (ok b) = record { run = λ w p. (p, refl) }
  bound_keeps profile datasource operation (err e) =
      denied_keeps (denial_event env caller profile datasource operation denied_operation "") denied
        (some denied_operation) (λ b w. Invariant P g w × (err e ≡ ok b))

  pub Triple-assigned_binding :
      (profile datasource : String) (operation : Operation)
      → Triple
          (Invariant P g)
          (assigned_binding env caller profile datasource operation)
          (λ b w.
            Invariant P g w
            × (authorize_binding env.policy caller.principal profile datasource operation ≡ ok b))
          (Invariant P g)
  unfolding assigned_binding
  Triple-assigned_binding profile datasource operation =
      bound_keeps profile datasource operation
        (authorize_binding env.policy caller.principal profile datasource operation)

  pub require_supported-Keeps :
      (type : String) (b : AuthorizedBinding) (shape_hash : String)
      → Keeps (require_supported env caller type b shape_hash)
  unfolding require_supported
  require_supported-Keeps type b shape_hash =
      elim (Bool-cases (contains (capabilities env.databases b.key.datasource) b.operation)) [
        | inl supported ↦ rw supported (record { run = λ w p. p })
        | inr missing ↦ rw missing (
            denied_keeps
              (record (bound_event env caller type b (adapter_name env.databases b.key.datasource)
                shape_hash) { outcome = "not_implemented" })
              not_implemented none (λ _ w. Invariant P g w))
      ]

  pub precheck_source_text-Keeps :
      (b : AuthorizedBinding) (shape_hash : String) (uses : Bool)
      → Keeps (precheck_source_text env caller b shape_hash uses)
  unfolding precheck_source_text write_denial
  precheck_source_text-Keeps b shape_hash false = record { run = λ w p. p }
  precheck_source_text-Keeps b shape_hash true =
      elim (Bool-cases (allows_source_text env caller env.policy b.key.profile)) [
        | inr refused ↦ rw refused (
            denied_keeps
              (denial_event env caller b.key.profile b.key.datasource b.operation
                denied_query_feature shape_hash)
              denied (some denied_query_feature) (λ _ w. Invariant P g w))
        | inl allowed ↦
            elim (Bool-cases (contains (features env.databases b.key.datasource) "source_text")) [
              | inl present ↦ rw (allowed, present) (record { run = λ w p. p })
              | inr missing ↦
                  rw (allowed, missing)
                    (denied_keeps
                      (record (bound_event env caller "query_completion" b
                        (adapter_name env.databases b.key.datasource) shape_hash) {
                          outcome = "not_implemented";
                        })
                      not_implemented none (λ _ w. Invariant P g w))
            ]
      ]

  -- A completion with an error never comes back with a value.
  pub Triple-complete_error :
      {A : Type 0} (completion : Event) (failure : Failure) (Q : A → World → Type 0)
      → Triple (Invariant P g) (complete_error env caller completion failure) Q (Invariant P g)
  unfolding complete_error
  Triple-complete_error completion failure Q =
      denied_keeps
        (record completion {
          outcome = "error";
          error_kind = some (classify_database_audit_error failure);
        })
        (classify_database_error failure) none Q

  observed-Keeps :
      (type : String) (b : AuthorizedBinding) (shape_hash : String)
      (r : Result Failure IdentifierSemantics)
      → Triple
          (Invariant P g)
          (observed env caller type b shape_hash r)
          (λ sem w. Invariant P g w × (r ≡ ok sem))
          (Invariant P g)
  unfolding observe_identifier_semantics
  observed-Keeps type b shape_hash (err failure) =
      Triple-complete_error
        (bound_event env caller type b (adapter_name env.databases b.key.datasource) shape_hash)
        failure (λ sem w. Invariant P g w × (err failure ≡ ok sem))
  observed-Keeps type b shape_hash (ok semantics) = record { run = λ w p. (p, refl) }

  -- The semantics are those that the datasource gave.
  pub Triple-ask_semantics :
      (type : String) (b : AuthorizedBinding) (shape_hash : String)
      → Triple
          (Invariant P g)
          (ask_semantics env caller type b shape_hash)
          (λ sem w.
            Invariant P g w
            × ((now : ℕ) × (identifier_semantics env.databases now b.key.datasource ≡ ok sem)))
          (Invariant P g)
  unfolding ask_semantics
  Triple-ask_semantics type b shape_hash = record {
    run = λ w (p, same).
        let answer = identifier_semantics env.databases (length w.trace) b.key.datasource in
        (Triple-weaken (observed-Keeps type b shape_hash answer)
            (λ sem after (q, e). (q, (length w.trace, e)))).run
          (note (asked b.key.datasource) w) (asked_keeps w.trace b.key.datasource p, same);
  }

  -- A token comes from the policy engine.
  pub Triple-authorized :
      {A : Type 0} (b : AuthorizedBinding) (shape_hash : String) (kind : ErrorKind)
      (reason : Reason → Option Reason) (r : Result PolicyError A)
      → Triple
          (Invariant P g)
          (authorized env caller b shape_hash (λ why. raise kind (reason why)) r)
          (λ token w. Invariant P g w × (r ≡ ok token))
          (Invariant P g)
  unfolding authorized write_denial
  Triple-authorized b shape_hash kind reason (ok token) = record { run = λ w p. (p, refl) }
  Triple-authorized b shape_hash kind reason (err e) =
      denied_keeps
        (denial_event env caller b.key.profile b.key.datasource b.operation (reason_of e)
          shape_hash)
        kind (reason (reason_of e)) (λ token w. Invariant P g w × (err e ≡ ok token))
