-- ===== src/Service/Queries/Ready.antt =====
-- internal/queryservice, `Explain` and `Select` up to the call: a token that is granted and on record.
use quordon.Prelude.{
  ℕ, ◌≡◌, refl, sym, subst, ◌∙◌, string_has_eq, Bool, ltb, List, String, some, Result, ok, err,
  if◌then◌else◌,
}
use quordon.Domain.{Operation, IdentifierSemantics}
use quordon.Queryspec.{Validated, Checked}
use quordon.Queryspec.Validate.{validate, validate_simple_select}
use quordon.Policy.{PolicyError, AuthorizedBinding, AuthorizedQuery}
use quordon.Policy.Features.{uses_source_text}
use quordon.Policy.Query.Grant.{Granted}
use quordon.Capacity.{Gates}
use quordon.Service.{denied, too_large, Happening, Environment, Caller, ◌>>◌, pure, write_audit}
use quordon.Service.Discipline.{QueryCovered, Reported, IsDisciplined}
use quordon.Service.Discipline.Steps.{
  audited-IsDisciplined, asked-IsDisciplined, Still, fail_when-Still,
}
use quordon.Service.Triples.{Triple, Invariant, Triple->>=, Triple-write_audit}
use quordon.Service.Stages.Keeps.{
  require_supported-Keeps, precheck_source_text-Keeps, Triple-ask_semantics, Triple-authorized,
}
use quordon.Service.Queries.{Request, checked_query, query_allow_event, admit_query}

module _ (env : Environment) (caller : Caller) where
  -- A token of a binding and an operation, that is granted and on record.
  pub record Ready (b : AuthorizedBinding) (op : Operation) (token : AuthorizedQuery)
      (past : List Happening) : Type 0 where
    pub good : IsDisciplined env past
    pub covered : QueryCovered env token past
    pub operation : token.operation ≡ op
    pub principal : token.principal ≡ b.principal
    pub profile : token.profile ≡ b.key.profile
    pub datasource : token.datasource ≡ b.key.datasource

  module _ (g : Gates) where
    checked_query-Still : {A : Type 0} (r : Checked A) → Still env caller g (checked_query r)
    checked_query-Still (ok a) = record { run = λ w p. p }
    checked_query-Still (err e) = record { run = λ w p. p }

    -- The record of the decision, with the token that it is about.
    write_audit-Ready :
        (type : String) (b : AuthorizedBinding) (op : Operation) (shape_hash : String)
        (token : AuthorizedQuery) (q : Validated) (sem : IdentifierSemantics)
        → b.operation ≡ op
        → b.principal ≡ caller.principal
        → Reported env b.key.datasource sem
        → Granted env.policy b op q sem token
        → Triple {A = AuthorizedQuery × String}
            (Invariant (IsDisciplined env) g)
            (write_audit env (query_allow_event env caller type b shape_hash token)
              >> pure (token, shape_hash))
            (λ r w. Invariant (Ready b op r.0) g w)
            (Invariant (IsDisciplined env) g)
    write_audit-Ready type b op shape_hash token q sem bound named reported granted =
        Triple->>=
          (Triple-write_audit (IsDisciplined env) g env
            (query_allow_event env caller type b shape_hash token)
            (λ past taken.
              audited-IsDisciplined env past (query_allow_event env caller type b shape_hash token)
                taken))
          (λ _. record {
            run = λ w ((p, same), (past, latest, before)). (
              record {
                good = p;
                covered = (
                  (
                    b,
                    q,
                    sem,
                    subst (λ d. Reported env d sem) (sym granted.datasource) reported,
                    subst (λ o. Granted env.policy b o q sem token) (sym granted.operation) granted,
                  ),
                  (
                    query_allow_event env caller type b shape_hash token,
                    past,
                    latest,
                    record {
                      decision = refl;
                      policy_hash = refl;
                      principal = sym (granted.principal ∙ named);
                      profile = sym granted.profile;
                      datasource = sym granted.datasource;
                      operation = bound ∙ sym granted.operation;
                      resources = refl;
                      fields = refl;
                    },
                  ),
                );
                operation = granted.operation;
                principal = granted.principal;
                profile = granted.profile;
                datasource = granted.datasource;
              },
              same,
            );
          })

    -- Up to the capacity.
    pub admit_query-Ready :
        (simple : Bool) (type : String)
        (authorize : AuthorizedBinding
          → Validated
          → IdentifierSemantics
          → Result PolicyError AuthorizedQuery)
        (b : AuthorizedBinding) (op : Operation) (body_bytes : ℕ) (request : Request)
        → ((q : Validated) (sem : IdentifierSemantics) (token : AuthorizedQuery)
            → authorize b q sem ≡ ok token
            → Granted env.policy b op q sem token)
        → b.operation ≡ op
        → b.principal ≡ caller.principal
        → Triple {A = AuthorizedQuery × String}
            (Invariant (IsDisciplined env) g)
            (admit_query env caller simple type authorize b body_bytes request)
            (λ r w. Invariant (Ready b op r.0) g w)
            (Invariant (IsDisciplined env) g)
    unfolding admit_query
    admit_query-Ready simple type authorize b op body_bytes request grants bound named =
        Triple->>=
          (fail_when-Still env caller g (ltb b.limits.max_request_bytes body_bytes) too_large)
          (λ _.
            Triple->>= (checked_query-Still (validate env.codec request.query b.limits))
              (λ validated.
                Triple->>=
                  (checked_query-Still (if simple then validate_simple_select validated else ok tt))
                  (λ _.
                    let shape_hash = env.shape_hash validated.spec in
                    Triple->>=
                      (precheck_source_text-Keeps env caller (IsDisciplined env) g
                        (audited-IsDisciplined env) (asked-IsDisciplined env) b shape_hash
                        (uses_source_text validated.spec))
                      (λ _.
                        Triple->>=
                          (require_supported-Keeps env caller (IsDisciplined env) g
                            (audited-IsDisciplined env) (asked-IsDisciplined env) "query_completion"
                            b shape_hash)
                          (λ _.
                            Triple->>=
                              (Triple-ask_semantics env caller (IsDisciplined env) g
                                (audited-IsDisciplined env) (asked-IsDisciplined env)
                                "query_completion" b shape_hash)
                              (λ semantics. record {
                                run = λ w (p, reported).
                                    (Triple->>=
                                        (Triple-authorized env caller (IsDisciplined env) g
                                          (audited-IsDisciplined env) (asked-IsDisciplined env) b
                                          shape_hash denied some (authorize b validated semantics))
                                        (λ token. record {
                                          run = λ w (p, came).
                                              (write_audit-Ready type b op shape_hash token
                                                  validated semantics bound named reported
                                                  (grants validated semantics token came)).run
                                                w p;
                                        })).run
                                      w p;
                              }))))))
