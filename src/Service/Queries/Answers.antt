-- ===== src/Service/Queries/Answers.antt =====
-- internal/queryservice, `Explain` and `Select`: the whole run where nothing fails.
use quordon.Prelude.{
  ℕ, ◌≡◌, refl, string_has_eq, Bool, true, false, not, ◌&&◌, ltb, contains, List, [], ◌∷◌, length,
  String, ok, arith, if◌then◌else◌,
}
use quordon.Domain.{Operation, IdentifierSemantics, operation_explain_select, operation_select}
use quordon.Queryspec.{Validated}
use quordon.Queryspec.Validate.{validate, validate_simple_select}
use quordon.Policy.{AuthorizedBinding, AuthorizedQuery}
use quordon.Policy.Features.{uses_source_text}
use quordon.Policy.Binding.{authorize_binding}
use quordon.Policy.Query.{authorize_query, authorize_explain, authorize_select}
use quordon.Capacity.{Gates, acquire_capacity}
use quordon.Capacity.Release.{release_capacity-acquire_capacity}
use quordon.Encoding.Collect.{SelectResult}
use quordon.Database.{Failure, ExplainResult, capabilities, features, identifier_semantics}
use quordon.Database
use quordon.Service.{
  Event, Happening, audited, asked, queried, World, Environment, Caller, write_audit, with_capacity,
  observe, observe_identifier_semantics,
}
use quordon.Service.Stages.{
  allows_source_text, decision_type, assigned_binding, require_supported, precheck_source_text,
  ask_semantics, authorized,
}
use quordon.Service.Queries.{
  as_number, Request, query_allow_event, query_completion, admit_query, run_explain, run_select,
  explain, select,
}

module _ (env : Environment) (caller : Caller) (body_bytes : ℕ) (request : Request)
    (w : World) where
  -- Every step of a handler before the capacity succeeds, and the sink takes every event.
  pub record Admissible (op : Operation) (b : AuthorizedBinding) (q : Validated)
      (sem : IdentifierSemantics) (token : AuthorizedQuery) (entered : Gates) : Type 0 where
    pub bound :
        authorize_binding env.policy caller.principal request.profile request.datasource op ≡ ok b
    pub small : ltb b.limits.max_request_bytes body_bytes ≡ false
    pub valid : validate env.codec request.query b.limits ≡ ok q
    pub representable :
        (uses_source_text q.spec
          && not (
              allows_source_text env caller env.policy b.key.profile
              && contains (features env.databases b.key.datasource) "source_text"))
        ≡ false
    pub supported : contains (capabilities env.databases b.key.datasource) b.operation ≡ true
    pub semantics : identifier_semantics env.databases (length w.trace) b.key.datasource ≡ ok sem
    pub granted : authorize_query env.policy b op q sem ≡ ok token
    pub taken : (past : List Happening) (event : Event) → env.sink past event ≡ true
    pub room : acquire_capacity b.key w.gates ≡ (entered, true)

  prechecked :
      (b : AuthorizedBinding) (shape_hash : String) (uses : Bool)
      → (uses
          && not (
              allows_source_text env caller env.policy b.key.profile
              && contains (features env.databases b.key.datasource) "source_text"))
        ≡ false
      → precheck_source_text env caller b shape_hash uses w ≡ (ok tt, w)
  unfolding precheck_source_text
  prechecked b shape_hash false fits = refl
  prechecked b shape_hash true fits =
      let allowed : allows_source_text env caller env.policy b.key.profile ≡ true = ground arith in
      let present : contains (features env.databases b.key.datasource) "source_text" ≡ true =
        ground arith in
      rw (allowed, present) refl

  module _ (b : AuthorizedBinding) (q : Validated) (sem : IdentifierSemantics)
      (token : AuthorizedQuery) (g : Gates) where
    -- The world after the decision.
    abbrev pub decided : String → World
    decided type = record {
      gates = w.gates;
      discoveries = observe b.key.datasource sem w.discoveries;
      trace =
          audited (query_allow_event env caller type b (env.shape_hash q.spec) token) true
          ∷ asked b.key.datasource
          ∷ w.trace;
    }

    admitted :
        (op : Operation) (simple : Bool) (type : String)
        → Admissible op b q sem token g
        → (if simple then validate_simple_select q else ok tt) ≡ ok tt
        → admit_query env caller simple type
            (λ b q sem. authorize_query env.policy b op q sem)
            b
            body_bytes
            request
            w
          ≡ (ok (token, env.shape_hash q.spec), decided type)
    unfolding admit_query require_supported ask_semantics observe_identifier_semantics authorized
        write_audit
    admitted op simple type a checked =
        rw
          (
            a.small,
            a.valid,
            checked,
            prechecked b (env.shape_hash q.spec) (uses_source_text q.spec) a.representable,
            a.supported,
            a.semantics,
            a.granted,
            a.taken (asked b.key.datasource ∷ w.trace)
                (query_allow_event env caller type b (env.shape_hash q.spec) token),
          )
          refl

    -- Where the route, the query and its size, the adapter's capability, the policy engine, the capacity
    -- and the sink let it through, and the adapter answers, `explain` answers with the result, and has
    -- done exactly this, in this order: asked for the semantics, had the decision taken by the sink,
    -- called the adapter, and had the completion taken by the sink; the gates are as they were.
    pub explain_lem :
        (result : ExplainResult) (adapter : String)
        → Admissible operation_explain_select b q sem token g
        → Database.explain env.databases (length (decided "query_decision").trace) token
          ≡ (ok result, adapter)
        → explain env caller body_bytes request w ≡ (
          ok (record { adapter = adapter; result = result; limits = b.limits }),
          record (decided "query_decision") {
            trace =
                audited
                  (record (query_completion env caller b adapter (env.shape_hash q.spec) token) {
                    outcome = "success";
                    result_bytes = length result.plan;
                  })
                  true
                ∷ queried token
                ∷ (decided "query_decision").trace;
          },
        )
    unfolding explain authorize_explain assigned_binding with_capacity run_explain write_audit
    explain_lem result adapter a came =
        let completion =
          record (query_completion env caller b adapter (env.shape_hash q.spec) token) {
            outcome = "success";
            result_bytes = length result.plan;
          } in
        rw
          (
            a.bound,
            admitted operation_explain_select false "query_decision" a refl,
            a.room,
            came,
            a.taken (queried token ∷ (decided "query_decision").trace) completion,
            release_capacity-acquire_capacity b.key w.gates g a.room,
          )
          refl

    -- Where the route, the query, a simple select, and its size, the adapter's capability, the policy
    -- engine, the capacity and the sink let it through, and the adapter answers, `select` answers with
    -- the rows, and has done exactly this, in this order: asked for the semantics, had the decision
    -- taken by the sink, called the adapter, and had the completion, with the counts of the rows, taken
    -- by the sink; the gates are as they were.
    pub select_lem :
        (result : SelectResult) (adapter : String)
        → Admissible operation_select b q sem token g
        → validate_simple_select q ≡ ok tt
        → Database.select env.databases (length (decided (decision_type env caller)).trace) token
          ≡ (ok result, adapter)
        → select env caller body_bytes request w ≡ (
          ok (record { adapter = adapter; result = result; limits = b.limits }),
          record (decided (decision_type env caller)) {
            trace =
                audited
                  (record (query_completion env caller b adapter (env.shape_hash q.spec) token) {
                    outcome = "success";
                    result_bytes = result.result_bytes;
                    metadata =
                        ("row_count", result.row_count)
                        ∷ ("truncated", as_number result.truncated)
                        ∷ [];
                  })
                  true
                ∷ queried token
                ∷ (decided (decision_type env caller)).trace;
          },
        )
    unfolding select authorize_select assigned_binding with_capacity run_select write_audit
    select_lem result adapter a checked came =
        let completion =
          record (query_completion env caller b adapter (env.shape_hash q.spec) token) {
            outcome = "success";
            result_bytes = result.result_bytes;
            metadata =
                ("row_count", result.row_count) ∷ ("truncated", as_number result.truncated) ∷ [];
          } in
        rw
          (
            a.bound,
            admitted operation_select true (decision_type env caller) a checked,
            a.room,
            came,
            a.taken (queried token ∷ (decided (decision_type env caller)).trace) completion,
            release_capacity-acquire_capacity b.key w.gates g a.room,
          )
          refl
