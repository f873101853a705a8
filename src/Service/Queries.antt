-- ===== src/Service/Queries.antt =====
-- internal/queryservice: the handlers of queries, `Explain` of service.go and `Select` of
-- operations.go.
pub mod Ready
pub mod Safe
pub mod Answers
use quordon.Prelude.{
  ℕ, Bool, true, false, not, List, [], ◌∷◌, ◌==◌, string_has_eq, ltb, length, Text, String, Option,
  none, some, if◌then◌else◌, Result, ok, err,
}
use quordon.Domain.{
  Limits, Operation, IdentifierSemantics, operation_explain_select, operation_select,
}
use quordon.Queryspec.{ResourceRef, Spec, NormalizedSpec, Validated, Checked}
use quordon.Queryspec.Validate.{validate, validate_simple_select}
use quordon.Policy.{Reason, PolicyError, AuthorizedBinding, AuthorizedQuery}
use quordon.Policy.Features.{referenced_fields, uses_source_text}
use quordon.Policy.Query.{authorize_explain, authorize_select}
use quordon.Encoding.Collect.{SelectResult}
use quordon.Database.{Failure, ExplainResult, Manager, Answer}
use quordon.Database
use quordon.Service.{
  ErrorKind, denied, too_large, invalid, capacity, Event, queried, World, Environment, Caller, M,
  ◌>>=◌, ◌>>◌, pure, raise, fail_when, note, write_audit, observe_identifier_semantics,
  with_capacity,
}
use quordon.Service.Stages.{
  classify_database_error, classify_database_audit_error, decision_type, bound_event, allow_event,
  assigned_binding, require_supported, precheck_source_text, complete_error, ask_semantics,
  authorized,
}

-- `queryspec.Request`
pub record Request : Type 0 where
  pub profile : String
  pub datasource : String
  pub query : Spec

-- The answers of the handlers, without the identifiers that they repeat from the request.
pub record ExplainAnswer : Type 0 where
  pub adapter : String
  pub result : ExplainResult
  pub limits : Limits

pub record SelectAnswer : Type 0 where
  pub adapter : String
  pub result : SelectResult
  pub limits : Limits

-- A refused query.
abbrev pub checked_query : {A : Type 0} → Checked A → M A
checked_query (ok a) = pure a
checked_query (err e) = raise invalid none

abbrev pub as_number : Bool → ℕ
as_number true = 1
as_number false = 0

module _ (env : Environment) (caller : Caller) where
  abbrev pub token_resources : AuthorizedQuery → List ResourceRef
  token_resources token = token.query.spec.source ∷ []

  abbrev pub token_fields : AuthorizedQuery → List Text
  token_fields token = referenced_fields token.query.spec

  -- The record of the decision to run a query.
  abbrev pub query_allow_event : String → AuthorizedBinding → String → AuthorizedQuery → Event
  query_allow_event type b shape_hash token =
      record (allow_event env caller b shape_hash (token_resources token) (token_fields token)) {
        type = type;
      }

  abbrev pub query_completion : AuthorizedBinding → String → String → AuthorizedQuery → Event
  query_completion b adapter shape_hash token =
      record (bound_event env caller "query_completion" b adapter shape_hash) {
        resources = token_resources token;
        fields = token_fields token;
      }

  -- What both handlers do before the capacity: the token, and the shape of its query. `simple` says
  -- whether the query must be a simple select, `type` is that of the event of the decision, and
  -- `authorize` is the call of the policy engine.
  unfoldable pub admit_query :
      Bool
      → String
      → (AuthorizedBinding → Validated → IdentifierSemantics → Result PolicyError AuthorizedQuery)
      → AuthorizedBinding
      → ℕ
      → Request
      → M (AuthorizedQuery × String)
  admit_query simple type authorize b body_bytes request = do
    fail_when (ltb b.limits.max_request_bytes body_bytes) too_large
    validated ← checked_query (validate env.codec request.query b.limits)
    checked_query (if simple then validate_simple_select validated else ok tt)
    let shape_hash = env.shape_hash validated.spec
    precheck_source_text env caller b shape_hash (uses_source_text validated.spec)
    require_supported env caller "query_completion" b shape_hash
    semantics ← ask_semantics env caller "query_completion" b shape_hash
    token ←
        authorized env caller b shape_hash (λ reason. raise denied (some reason))
          (authorize b validated semantics)
    write_audit env (query_allow_event type b shape_hash token)
    pure (token, shape_hash)

  -- With an error the adapter gives the empty result, whose plan has no bytes: so the completion of
  -- a failure counts none, as `query_completion` does.
  abbrev pub explained :
      AuthorizedBinding → String → AuthorizedQuery → Answer ExplainResult → M ExplainAnswer
  explained b shape_hash token (err failure, adapter) =
      complete_error env caller (query_completion b adapter shape_hash token) failure
  explained b shape_hash token (ok result, adapter) = do
    write_audit env (record (query_completion b adapter shape_hash token) {
      outcome = "success";
      result_bytes = length result.plan;
    })
    pure (record { adapter = adapter; result = result; limits = b.limits })

  -- The call of the database manager under `Explain`, and its completion.
  unfoldable pub run_explain : AuthorizedBinding → String → AuthorizedQuery → M ExplainAnswer
  run_explain b shape_hash token w =
      explained b shape_hash token (Database.explain env.databases (length w.trace) token)
        (note (queried token) w)

  abbrev pub selected :
      AuthorizedBinding → String → AuthorizedQuery → Answer SelectResult → M SelectAnswer
  selected b shape_hash token (err failure, adapter) =
      complete_error env caller (query_completion b adapter shape_hash token) failure
  selected b shape_hash token (ok result, adapter) = do
    write_audit env (record (query_completion b adapter shape_hash token) {
      outcome = "success";
      result_bytes = result.result_bytes;
      metadata = ("row_count", result.row_count) ∷ ("truncated", as_number result.truncated) ∷ [];
    })
    pure (record { adapter = adapter; result = result; limits = b.limits })

  -- The call of the database manager under `Select`, and its completion.
  unfoldable pub run_select : AuthorizedBinding → String → AuthorizedQuery → M SelectAnswer
  run_select b shape_hash token w =
      selected b shape_hash token (Database.select env.databases (length w.trace) token)
        (note (queried token) w)

  unfoldable pub explain : ℕ → Request → M ExplainAnswer
  unfolding admit_query run_explain
  explain body_bytes request = do
    b ← assigned_binding env caller request.profile request.datasource operation_explain_select
    admitted ←
        admit_query false "query_decision" (authorize_explain env.policy) b body_bytes request
    with_capacity b.key (run_explain b admitted.1 admitted.0)

  unfoldable pub select : ℕ → Request → M SelectAnswer
  unfolding admit_query run_select
  select body_bytes request = do
    b ← assigned_binding env caller request.profile request.datasource operation_select
    admitted ←
        admit_query true (decision_type env caller) (authorize_select env.policy) b body_bytes
          request
    with_capacity b.key (run_select b admitted.1 admitted.0)
