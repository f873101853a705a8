-- ===== src/Service/Stages.antt =====
-- internal/queryservice: the steps that the handlers are made of, with the events that they write:
-- `assignedBinding`, `writeDenial`, `writeAllowDecision`, `completeQueryError`, `completeSchemaError`
-- and `precheckSourceText`.
pub mod Keeps
use quordon.Prelude.{
  ℕ, Bool, true, false, not, ◌&&◌, ◌||◌, List, [], ◌∷◌, ◌==◌, string_has_eq, length, lookup,
  contains, Text, String, Option, none, some, if◌then◌else◌, Result, ok, err,
}
use quordon.Domain.{Operation, IdentifierSemantics}
use quordon.Queryspec.{ResourceRef}
use quordon.Policy.{
  Snapshot, Reason, denied_operation, denied_query_feature, PolicyError, denial, invalid,
  AuthorizedBinding, BindingKey,
}
use quordon.Policy.Binding.{authorize_binding}
use quordon.Database.{
  Failure, of_kind, foreign, Manager, adapter_name, capabilities, features, identifier_semantics,
}
use quordon.Database
use quordon.Service.{
  ErrorKind, denied, not_implemented, service_unavailable, unavailable, timeout, upstream,
  result_too_large, too_large, not_found, ServiceError, Event, audited, asked, World, Environment,
  Caller, M, ◌>>=◌, ◌>>◌, pure, raise, note, write_audit, observe_identifier_semantics,
}
use quordon.Service

-- `classifyDatabaseError`
unfoldable pub classify_database_error : Failure → ErrorKind
classify_database_error (of_kind Database.not_found) = not_found
classify_database_error (of_kind Database.invalid) = Service.invalid
classify_database_error (of_kind Database.not_implemented) = not_implemented
classify_database_error (of_kind Database.unavailable) = unavailable
classify_database_error (of_kind Database.timeout) = timeout
classify_database_error (of_kind Database.request_too_large) = too_large
classify_database_error (of_kind Database.result_too_large) = result_too_large
classify_database_error (of_kind Database.upstream) = upstream
classify_database_error foreign = upstream

-- `classifyDatabaseAuditError`
unfoldable pub classify_database_audit_error : Failure → ErrorKind
classify_database_audit_error (of_kind Database.request_too_large) = Service.invalid
classify_database_audit_error (of_kind Database.not_found) = Service.invalid
classify_database_audit_error failure = classify_database_error failure

-- `policy.IsDenial` on an error, with the default that the handlers set before it.
abbrev pub reason_of : PolicyError → Reason
reason_of (denial r) = r
reason_of (invalid e) = denied_operation

module _ (env : Environment) (caller : Caller) where
  -- An event with the identity of the request and of the policy.
  abbrev pub event : String → Operation → Event
  event type operation = record {
    type = type;
    request_id = caller.request_id;
    query_id = caller.query_id;
    principal = caller.principal;
    client_identifier = caller.client_identifier;
    policy_profile = "";
    policy_version = env.policy.version;
    policy_hash = env.policy.hash;
    datasource = "";
    adapter = "";
    operation = operation;
    decision = "";
    reason_code = none;
    outcome = "";
    error_kind = none;
    result_bytes = 0;
    query_shape_hash = "";
    requested_profile_hash = "";
    requested_profile_bytes = 0;
    requested_datasource_hash = "";
    requested_datasource_bytes = 0;
    resources = [];
    fields = [];
    metadata = [];
  }

  -- The type of a decision: of a query, or of an operation that has no query.
  abbrev pub decision_type : String
  decision_type = if caller.query_id == "" then "operation_decision" else "query_decision"

  -- The event of `writeDenial`: a route that is not assigned is named by digests only.
  abbrev pub denial_event : String → String → Operation → Reason → String → Event
  denial_event profile datasource operation reason shape_hash =
      let denied_event = record (event decision_type operation) {
        decision = "deny";
        reason_code = some reason;
        query_shape_hash = shape_hash;
      } in
      elim (authorize_binding env.policy caller.principal profile datasource operation) [
        | ok b ↦ record denied_event {
          policy_profile = b.key.profile;
          datasource = b.key.datasource;
          adapter = adapter_name env.databases b.key.datasource;
        }
        | err e ↦ record denied_event {
          requested_profile_hash = env.identifier_hash "quordon/requested-profile/v1\0" profile;
          requested_profile_bytes = env.byte_length profile;
          requested_datasource_hash =
              env.identifier_hash "quordon/requested-datasource/v1\0" datasource;
          requested_datasource_bytes = env.byte_length datasource;
        }
      ]

  unfoldable pub write_denial : String → String → Operation → Reason → String → M (Unit {0})
  write_denial profile datasource operation reason shape_hash =
      write_audit env (denial_event profile datasource operation reason shape_hash)

  abbrev pub bound_or_denied :
      String → String → Operation → Result PolicyError AuthorizedBinding → M AuthorizedBinding
  bound_or_denied profile datasource operation (ok b) = pure b
  bound_or_denied profile datasource operation (err e) = do
    write_denial profile datasource operation denied_operation ""
    raise denied (some denied_operation)

  -- The start of a handler: the binding, or a denial.
  unfoldable pub assigned_binding : String → String → Operation → M AuthorizedBinding
  assigned_binding profile datasource operation =
      bound_or_denied profile datasource operation
        (authorize_binding env.policy caller.principal profile datasource operation)

  -- An event of the datasource of a binding.
  abbrev pub bound_event : String → AuthorizedBinding → String → String → Event
  bound_event type b adapter shape_hash = record (event type b.operation) {
    policy_profile = b.key.profile;
    datasource = b.key.datasource;
    adapter = adapter;
    query_shape_hash = shape_hash;
  }

  -- The test of the adapter's capabilities, which ends with a completion of the given type.
  unfoldable pub require_supported : String → AuthorizedBinding → String → M (Unit {0})
  require_supported type b shape_hash =
      if contains (capabilities env.databases b.key.datasource) b.operation then pure tt else do
        write_audit env
            (record (bound_event type b (adapter_name env.databases b.key.datasource) shape_hash) {
              outcome = "not_implemented";
            })
        raise not_implemented none

  abbrev pub allows_source_text : Snapshot → String → Bool
  allows_source_text s name = elim (lookup name s.profiles) [
    | none ↦ false
    | some p ↦ p.query.allow_source_text
  ]

  unfoldable pub precheck_source_text : AuthorizedBinding → String → Bool → M (Unit {0})
  precheck_source_text b shape_hash false = pure tt
  precheck_source_text b shape_hash true =
      if not (allows_source_text env.policy b.key.profile)
      then (write_denial b.key.profile b.key.datasource b.operation denied_query_feature shape_hash
          >> raise denied (some denied_query_feature))
      else if not (contains (features env.databases b.key.datasource) "source_text")
      then (write_audit env
            (record (bound_event "query_completion" b (adapter_name env.databases b.key.datasource)
              shape_hash) { outcome = "not_implemented" })
          >> raise not_implemented none)
      else pure tt

  -- `completeQueryError` and `completeSchemaError`: the completion with the kind of the failure, which
  -- then ends the request.
  unfoldable pub complete_error : {A : Type 0} → Event → Failure → M A
  unfolding classify_database_error classify_database_audit_error
  complete_error completion failure = do
    write_audit env (record completion {
      outcome = "error";
      error_kind = some (classify_database_audit_error failure);
    })
    raise (classify_database_error failure) none

  abbrev pub observed :
      String
      → AuthorizedBinding
      → String
      → Result Failure IdentifierSemantics
      → M IdentifierSemantics
  observed type b shape_hash (err failure) =
      complete_error (bound_event type b (adapter_name env.databases b.key.datasource) shape_hash)
        failure
  observed type b shape_hash (ok semantics) = do
    observe_identifier_semantics b.key semantics
    pure semantics

  -- The call for the semantics of identifiers; what it answers is observed.
  unfoldable pub ask_semantics : String → AuthorizedBinding → String → M IdentifierSemantics
  unfolding complete_error
  ask_semantics type b shape_hash w =
      observed type b shape_hash
        (identifier_semantics env.databases (length w.trace) b.key.datasource)
        (note (asked b.key.datasource) w)

  -- What the policy engine decided: its token, or a denial and an error of the given kind.
  unfoldable pub authorized :
      {A : Type 0} → AuthorizedBinding → String → (Reason → M A) → Result PolicyError A → M A
  unfolding write_denial
  authorized b shape_hash refused (ok token) = pure token
  authorized b shape_hash refused (err e) = do
    write_denial b.key.profile b.key.datasource b.operation (reason_of e) shape_hash
    refused (reason_of e)

  -- The event of `writeAllowDecision`.
  abbrev pub allow_event : AuthorizedBinding → String → List ResourceRef → List Text → Event
  allow_event b shape_hash resources fields =
      record (bound_event decision_type b (adapter_name env.databases b.key.datasource)
        shape_hash) { decision = "allow"; resources = resources; fields = fields }
