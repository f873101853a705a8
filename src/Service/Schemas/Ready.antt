-- ===== src/Service/Schemas/Ready.antt =====
-- internal/queryservice, `ListObjects` and `DescribeObject` up to the call: a token that is granted and
-- on record.
use quordon.Prelude.{
  ◌≡◌, refl, sym, subst, ◌∙◌, string_has_eq, not, List, [], ◌∷◌, String, none, inl, inr, Result, ok,
  Result-cases, arith,
}
use quordon.Domain.{Operation, IdentifierSemantics}
use quordon.Queryspec.{ResourceRef}
use quordon.Policy.{PolicyError, AuthorizedBinding, AuthorizedSchema}
use quordon.Policy.Binding.{authorize_binding, profile_for_binding}
use quordon.Policy.Resource.{authorize_schema}
use quordon.Capacity.{Gates}
use quordon.Encoding.{Utf8}
use quordon.Service.{invalid, not_found, Happening, Environment, Caller, ◌>>◌, pure, write_audit}
use quordon.Service.Discipline.{SchemaCovered, Reported, IsDisciplined}
use quordon.Service.Discipline.Steps.{audited-IsDisciplined, asked-IsDisciplined, fail_when-Still}
use quordon.Service.Triples.{Triple, Invariant, Triple->>=, Triple-write_audit}
use quordon.Service.Stages.{allow_event}
use quordon.Service.Stages.Keeps.{
  Triple-assigned_binding, require_supported-Keeps, Triple-ask_semantics, Triple-authorized,
}
use quordon.Service.Schemas.{valid_schema_coordinates, prepare_schema_operation, admit_schema}

-- The fields of a token that the policy engine made.
record Made (b : AuthorizedBinding) (op : Operation) (object : ResourceRef)
    (token : AuthorizedSchema) : Type 0 where
  operation : token.operation ≡ op
  principal : token.principal ≡ b.principal
  profile : token.profile ≡ b.key.profile
  datasource : token.datasource ≡ b.key.datasource
  schema : token.schema ≡ object.schema
  name : token.object ≡ object.name

made :
    (env : Environment) (b : AuthorizedBinding) (op : Operation) (object : ResourceRef)
    (sem : IdentifierSemantics) (token : AuthorizedSchema)
    → authorize_schema env.policy b op object sem ≡ ok token
    → Made b op object token
unfolding authorize_schema
made env b op object sem token h = elim (Result-cases (profile_for_binding env.policy b op)) [
  | inr (e, refused) ↦ absurd (ground arith)
  | inl (p, e) ↦ record {
    operation = ground arith;
    principal = ground arith;
    profile = ground arith;
    datasource = ground arith;
    schema = ground arith;
    name = ground arith;
  }
]

module _ (env : Environment) (utf8 : Utf8) (caller : Caller) (op : Operation)
    (object : ResourceRef) where
  -- A token of a binding, an operation and an object, that is granted and on record.
  pub record Ready (b : AuthorizedBinding) (token : AuthorizedSchema) (past : List Happening)
      : Type 0 where
    pub good : IsDisciplined env past
    pub covered : SchemaCovered env token past
    pub semantics : IdentifierSemantics
    pub reported : Reported env b.key.datasource semantics
    pub granted : authorize_schema env.policy b op object semantics ≡ ok token

  module _ (g : Gates) where
    pub prepare_schema_operation-Bound :
        (profile datasource : String)
        → Triple
            (Invariant (IsDisciplined env) g)
            (prepare_schema_operation env utf8 caller profile datasource op object)
            (λ b w.
              Invariant (IsDisciplined env) g w
              × (authorize_binding env.policy caller.principal profile datasource op ≡ ok b))
            (Invariant (IsDisciplined env) g)
    unfolding prepare_schema_operation
    prepare_schema_operation-Bound profile datasource =
        Triple->>=
          (fail_when-Still env caller g
            (not (valid_schema_coordinates op object.schema object.name)) invalid)
          (λ _.
            Triple->>=
              (Triple-assigned_binding env caller (IsDisciplined env) g (audited-IsDisciplined env)
                (asked-IsDisciplined env) profile datasource op)
              (λ b. record {
                run = λ w (p, bound).
                    (Triple->>=
                        (require_supported-Keeps env caller (IsDisciplined env) g
                          (audited-IsDisciplined env) (asked-IsDisciplined env)
                          "operation_completion" b "")
                        (λ _. record { run = λ w p. (p, bound) })).run
                      w p;
              }))

    write_audit-Ready :
        (b : AuthorizedBinding) (token : AuthorizedSchema) (sem : IdentifierSemantics)
        → b.operation ≡ op
        → b.principal ≡ caller.principal
        → Reported env b.key.datasource sem
        → authorize_schema env.policy b op object sem ≡ ok token
        → Triple {A = AuthorizedSchema}
            (Invariant (IsDisciplined env) g)
            (write_audit env (allow_event env caller b "" (object ∷ []) []) >> pure token)
            (λ r w. Invariant (Ready b r) g w)
            (Invariant (IsDisciplined env) g)
    write_audit-Ready b token sem bound named reported granted =
        let m = made env b op object sem token granted in
        Triple->>=
          (Triple-write_audit (IsDisciplined env) g env
            (allow_event env caller b "" (object ∷ []) [])
            (λ past taken.
              audited-IsDisciplined env past (allow_event env caller b "" (object ∷ []) []) taken))
          (λ _. record {
            run = λ w ((p, same), (past, latest, before)). (
              record {
                good = p;
                covered = (
                  (
                    b,
                    object,
                    sem,
                    subst (λ d. Reported env d sem) (sym m.datasource) reported,
                    subst (λ o. authorize_schema env.policy b o object sem ≡ ok token)
                        (sym m.operation) granted,
                  ),
                  (
                    allow_event env caller b "" (object ∷ []) [],
                    past,
                    latest,
                    record {
                      decision = refl;
                      policy_hash = refl;
                      principal = sym (m.principal ∙ named);
                      profile = sym m.profile;
                      datasource = sym m.datasource;
                      operation = bound ∙ sym m.operation;
                      resources = rw (m.schema, m.name) refl;
                      fields = refl;
                    },
                  ),
                );
                semantics = sem;
                reported = reported;
                granted = granted;
              },
              same,
            );
          })

    pub admit_schema-Ready :
        (authorize : AuthorizedBinding → IdentifierSemantics → Result PolicyError AuthorizedSchema)
        (b : AuthorizedBinding)
        → ((sem : IdentifierSemantics)
            → authorize b sem ≡ authorize_schema env.policy b op object sem)
        → b.operation ≡ op
        → b.principal ≡ caller.principal
        → Triple {A = AuthorizedSchema}
            (Invariant (IsDisciplined env) g)
            (admit_schema env utf8 caller authorize b object)
            (λ r w. Invariant (Ready b r) g w)
            (Invariant (IsDisciplined env) g)
    unfolding admit_schema
    admit_schema-Ready authorize b calls bound named =
        Triple->>=
          (Triple-ask_semantics env caller (IsDisciplined env) g (audited-IsDisciplined env)
            (asked-IsDisciplined env) "operation_completion" b "")
          (λ semantics. record {
            run = λ w (p, reported).
                (Triple->>=
                    (Triple-authorized env caller (IsDisciplined env) g (audited-IsDisciplined env)
                      (asked-IsDisciplined env) b "" not_found (λ _. none) (authorize b semantics))
                    (λ token. record {
                      run = λ w (p, came).
                          (write_audit-Ready b token semantics bound named reported
                              (sym (calls semantics) ∙ came)).run
                            w p;
                    })).run
                  w p;
          })
