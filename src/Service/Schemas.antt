-- ===== src/Service/Schemas.antt =====
-- internal/queryservice/operations.go: the handlers of schemas, `ListObjects` and `DescribeObject`. A
-- request for these has no query: the `query_id` of its caller is empty.
pub mod Ready
pub mod Shown
pub mod Completed
pub mod Safe
pub mod Answers
use quordon.Prelude.{
  ℕ, Bool, true, false, not, ◌&&◌, List, [], ◌∷◌, ◌==◌, string_has_eq, text_has_eq, length, map,
  Text, String, Option, none, some, if◌then◌else◌, Result, ok, err,
}
use quordon.Domain.{
  Limits, Operation, IdentifierSemantics, operation_list_objects, operation_describe_object,
}
use quordon.Queryspec.{ResourceRef}
use quordon.Queryspec.Identifier.{is_identifier}
use quordon.Policy.{Reason, PolicyError, AuthorizedBinding, AuthorizedSchema}
use quordon.Policy.Features.{add_fields}
use quordon.Policy.Resource.{authorize_list_objects, authorize_describe_object}
use quordon.Encoding.{Utf8}
use quordon.Encoding.Metadata.{
  ColumnDescription, ObjectDescription, bounded_object_list_result,
  bounded_object_description_result,
}
use quordon.Database.{Failure, of_kind, Manager, Answer}
use quordon.Database
use quordon.Service.{
  ErrorKind, invalid, not_found, service_unavailable, ServiceError, Event, inspected, World,
  Environment, Caller, M, ◌>>=◌, ◌>>◌, pure, raise, fail_when, note, write_audit, with_capacity,
}
use quordon.Service.Stages.{
  bound_event, allow_event, assigned_binding, require_supported, complete_error, ask_semantics,
  authorized,
}

-- `validSchemaCoordinates`
unfoldable pub valid_schema_coordinates : Operation → Text → Text → Bool
valid_schema_coordinates operation schema object =
    if operation == operation_list_objects
    then is_identifier schema && object == []
    else if operation == operation_describe_object
    then is_identifier schema && is_identifier object
    else false

-- The compacted names of the columns, in order.
abbrev pub column_fields : List ColumnDescription → List Text
column_fields columns = add_fields (map (λ (c : ColumnDescription). c.name) columns) []

-- An error on an invalid object is one of an object that was not found, unless the sink failed.
abbrev pub unless_unavailable : {A : Type 0} → ErrorKind → ServiceError → M A
unless_unavailable service_unavailable e w = (err e, w)
unless_unavailable kind e w = raise not_found none w

abbrev pub not_found_instead :
    {A : Type 0} → Result ServiceError A × World → Result ServiceError A × World
not_found_instead (ok a, w) = (ok a, w)
not_found_instead (err e, w) = unless_unavailable e.kind e w

abbrev pub as_not_found : {A : Type 0} → Failure → M A → M A
as_not_found (of_kind Database.invalid) m w = not_found_instead (m w)
as_not_found failure m w = m w

module _ (env : Environment) (utf8 : Utf8) (caller : Caller) where
  -- `prepareSchemaOperation`
  unfoldable pub prepare_schema_operation :
      String → String → Operation → ResourceRef → M AuthorizedBinding
  unfolding valid_schema_coordinates
  prepare_schema_operation profile datasource operation object = do
    fail_when (not (valid_schema_coordinates operation object.schema object.name)) invalid
    b ← assigned_binding env caller profile datasource operation
    require_supported env caller "operation_completion" b ""
    pure b

  -- The completion of an operation on an object.
  abbrev pub operation_completion : AuthorizedBinding → String → ResourceRef → List Text → Event
  operation_completion b adapter object fields =
      record (bound_event env caller "operation_completion" b adapter "") {
        resources = object ∷ [];
        fields = fields;
      }

  -- What both handlers do before the capacity; a denial shows as an object that is not there.
  unfoldable pub admit_schema :
      (AuthorizedBinding → IdentifierSemantics → Result PolicyError AuthorizedSchema)
      → AuthorizedBinding
      → ResourceRef
      → M AuthorizedSchema
  admit_schema authorize b object = do
    semantics ← ask_semantics env caller "operation_completion" b ""
    token ← authorized env caller b "" (λ reason. raise not_found none) (authorize b semantics)
    write_audit env (allow_event env caller b "" (object ∷ []) [])
    pure token

  abbrev pub listed_within : Event → List Text → Option ℕ → M (List Text)
  listed_within completion objects none =
      complete_error env caller completion (of_kind Database.result_too_large)
  listed_within completion objects (some size) = do
    write_audit env (record completion {
      outcome = "success";
      result_bytes = size;
      metadata = ("object_count", length objects) ∷ [];
    })
    pure objects

  abbrev pub listed : AuthorizedBinding → ResourceRef → Answer (List Text) → M (List Text)
  listed b object (err failure, adapter) =
      complete_error env caller (operation_completion b adapter object []) failure
  listed b object (ok objects, adapter) =
      listed_within (operation_completion b adapter object []) objects
        (bounded_object_list_result utf8 objects b.limits.max_result_bytes)

  -- The call under `ListObjects`, the test of its size, and its completion.
  unfoldable pub run_list_objects :
      AuthorizedBinding → ResourceRef → AuthorizedSchema → M (List Text)
  run_list_objects b object token w =
      listed b object (Database.list_objects env.databases (length w.trace) token)
        (note (inspected token) w)

  abbrev pub described_within : Event → ObjectDescription → Option ℕ → M ObjectDescription
  described_within completion description none =
      complete_error env caller completion (of_kind Database.result_too_large)
  described_within completion description (some size) = do
    write_audit env (record completion {
      outcome = "success";
      result_bytes = size;
      metadata = ("column_count", length description.columns) ∷ [];
    })
    pure description

  abbrev pub described :
      AuthorizedBinding → ResourceRef → Answer ObjectDescription → M ObjectDescription
  described b object (err failure, adapter) =
      as_not_found failure
        (complete_error env caller (operation_completion b adapter object []) failure)
  described b object (ok description, adapter) =
      described_within (operation_completion b adapter object (column_fields description.columns))
        description (bounded_object_description_result utf8 description b.limits.max_result_bytes)

  -- The call under `DescribeObject`, the test of its size, and its completion.
  unfoldable pub run_describe_object :
      AuthorizedBinding → ResourceRef → AuthorizedSchema → M ObjectDescription
  run_describe_object b object token w =
      described b object (Database.describe_object env.databases (length w.trace) token)
        (note (inspected token) w)

  unfoldable pub list_objects : String → String → Text → M (List Text)
  unfolding prepare_schema_operation admit_schema run_list_objects
  list_objects profile datasource schema =
      let object : ResourceRef = record { schema = schema; name = [] } in
      do
        b ← prepare_schema_operation profile datasource operation_list_objects object
        token ←
            admit_schema (λ b semantics. authorize_list_objects env.policy b schema semantics) b
              object
        with_capacity b.key (run_list_objects b object token)

  unfoldable pub describe_object : String → String → ResourceRef → M ObjectDescription
  unfolding prepare_schema_operation admit_schema run_describe_object
  describe_object profile datasource object = do
    b ← prepare_schema_operation profile datasource operation_describe_object object
    token ←
        admit_schema (λ b semantics. authorize_describe_object env.policy b object semantics) b
          object
    with_capacity b.key (run_describe_object b object token)
