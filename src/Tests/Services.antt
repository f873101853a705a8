-- ===== src/Tests/Services.antt =====
-- The theorems on the handlers of requests, applied.
use quordon.Prelude.{
  ◌≡◌, ◌↔◌, Any, refl, true, false, [], ◌∷◌, text, Text, text_eq, equal_fold, to_lower, lower,
  split, some, ok,
}
use quordon.Domain.{
  IdentifierSemantics, min_limits, Operation, operation_explain_select, operation_select,
  operation_list_objects, operation_describe_object,
}
use quordon.Queryspec.{ResourceRef}
use quordon.Queryspec.Identifier.{
  is_identifier, validate_identifier, identifier_pattern, identifier_byte,
}
use quordon.Queryspec.Predicates.{
  validate_filter, check_node, validate_representation, check_group, validate_predicate,
  operator_arity, validate_values, check_arity, check_value,
}
use quordon.Queryspec.Projection.{validate_selection, validate_sort, validate_grouped_shape}
use quordon.Queryspec.Validate.{
  validate, revalidate, check_count, check_source, check_projection, check_filter, check_group_by,
  check_order_by, check_limit, check_offset, validate_simple_select, check_plain_field,
}
use quordon.Queryspec.Value.{bind_value}
use quordon.Policy.{AuthorizedBinding, BindingKey, AuthorizedQuery, AuthorizedSchema}
use quordon.Policy.Patterns.{match_part, match_parts, match, allowed}
use quordon.Policy.Binding.{assigned_profile, authorize_binding, profile_for_binding}
use quordon.Policy.Features.{
  authorize_features, referenced_fields, uses_source_text, filter_uses_source_text, add_fields,
  add_field, insert_field, collect_fields, collect_operators,
}
use quordon.Policy.Query.{authorize_query, authorize_resources, check_operation}
use quordon.Policy.Resource.{check_coordinates, authorize_schema, allows_object, allows_field}
use quordon.Capacity.{Gates, enter, gate_of, set_gate, acquire_capacity}
use quordon.Encoding.Collect.{SelectResult}
use quordon.Encoding.{json_string_size, json_string_size_from, encoded_bytes, width_less_one}
use quordon.Encoding.Bounded.{add_encoded_size}
use quordon.Encoding.Metadata.{
  object_list_from, columns_from, ObjectDescription, bounded_object_list_result,
  bounded_object_description_result,
}
use quordon.Database.{
  Source, ExplainResult, identifier_semantics, capabilities, allowed_objects, allowed_columns,
  require_capability,
}
use quordon.Database
use quordon.Service.{observe_identifier_semantics, World, Environment, Caller, audited, queried}
use quordon.Service.Triples.{Outcome}
use quordon.Service.Discipline.{IsDisciplined, Settles}
use quordon.Service.Queries.{Request, query_completion, explain, select}
use quordon.Service.Queries.Safe.{ExplainServed, SelectServed, explain-Settles, select-Settles}
use quordon.Service.Queries.Answers.{Admissible, decided, explain_lem, select_lem}
use quordon.Service.Schemas.{
  column_fields, valid_schema_coordinates, operation_completion, list_objects, describe_object,
}
use quordon.Service.Schemas.Shown.{Answered, ObjectsShown, ColumnsShown}
use quordon.Service.Schemas.Safe.{list_objects-Settles, describe_object-Settles}
use quordon.Service.Schemas.Answers as Schemas
use quordon.Service.Schemas.Answers.{finished, list_objects_lem, describe_object_lem}
use quordon.Service.Observed.{Stays, observe_identifier_semantics_lem}
use quordon.Service.Capabilities.{Sorting, service_capabilities}
use quordon.Service.Capabilities.Lists.{Shows}
use quordon.Service.Capabilities.Available.{IsAvailable}
use quordon.Service.Capabilities.Advertised.{service_capabilities_iff}
use quordon.Tests.{
  codec, utf8, limits, source, spec, validated, case_sensitive, profile, snapshot, binding,
}

abbrev plan : ExplainResult
plan = record { format = "json"; plan = text "{}" }

abbrev rows : SelectResult
rows = record { columns = []; rows = []; row_count = 0; result_bytes = 2; truncated = false }

-- An adapter that shows a name that is not an identifier, too.
abbrev main : Source
main = record {
  adapter = some (record {
    identifier_semantics = λ now. ok case_sensitive;
    explain = λ now token. ok plan;
    list_objects = λ now schema. ok (text "users" ∷ text "no name" ∷ []);
    describe_object =
        λ now object. ok (record { schema = object.schema; name = object.name; columns = [] });
    select = λ now token. ok rows;
  });
  adapter_name = "mysql8";
  capabilities =
      operation_explain_select ∷ operation_select ∷ operation_list_objects
      ∷ operation_describe_object ∷ [];
  features = "source_text" ∷ [];
  ready = true;
  implements_schema = true;
  implements_select = true;
}

abbrev environment : Environment
environment = record {
  shape_support = [];
  policy = snapshot;
  databases = ("main", main) ∷ [];
  sink = λ past event. true;
  codec = codec;
  shape_hash = λ s. "shape";
  identifier_hash = λ domain s. "digest";
  byte_length = λ s. 4;
}

abbrev caller : Caller
caller = record { request_id = "r"; query_id = "q"; principal = "ann"; client_identifier = "ann@" }

-- A request without a query.
abbrev schema_caller : Caller
schema_caller = record caller { query_id = "" }

abbrev key : BindingKey
key = record { profile = "reader"; datasource = "main" }

abbrev idle : Gates
idle = record {
  global_capacity = record { capacity = 2; tokens = 0 };
  binding_capacity = (key, record { capacity = 1; tokens = 0 }) ∷ [];
}

abbrev busy : Gates
busy = record {
  global_capacity = record { capacity = 2; tokens = 1 };
  binding_capacity = (key, record { capacity = 1; tokens = 1 }) ∷ [];
}

abbrev all_insensitive : IdentifierSemantics
all_insensitive = record {
  case_insensitive_schemas = true;
  case_insensitive_objects = true;
  case_insensitive_fields = true;
}

abbrev world : World
world = record { gates = idle; discoveries = []; trace = [] }

abbrev request : Request
request = record { profile = "reader"; datasource = "main"; query = spec }

nothing_done : IsDisciplined environment []
unfolding IsDisciplined
nothing_done = tt

abbrev query_token : Operation → AuthorizedQuery
query_token operation = record {
  principal = "ann";
  profile = "reader";
  datasource = "main";
  operation = operation;
  limits = limits;
  query = validated;
}

explain-Settles_example :
    Outcome
      (λ answer after.
        Settles environment world after
        × ExplainServed environment caller "ann" "reader" "main" answer after.trace)
      (Settles environment world)
      (explain environment caller 100 request world)
explain-Settles_example = explain-Settles environment caller 100 request world nothing_done

select-Settles_example :
    Outcome
      (λ answer after.
        Settles environment world after
        × SelectServed environment caller "ann" "reader" "main" answer after.trace)
      (Settles environment world)
      (select environment caller 100 request world)
select-Settles_example = select-Settles environment caller 100 request world nothing_done

list_objects-Settles_example :
    Outcome
      (λ objects after.
        Settles environment world after
        × Answered environment utf8 schema_caller operation_list_objects "reader" "main"
            (ObjectsShown environment utf8 schema_caller (text "app"))
            (bounded_object_list_result utf8)
            objects
            after.trace)
      (Settles environment world)
      (list_objects environment utf8 schema_caller "reader" "main" (text "app") world)
list_objects-Settles_example =
    list_objects-Settles environment utf8 schema_caller "reader" "main" world (text "app")
      nothing_done

describe_object-Settles_example :
    Outcome
      (λ description after.
        Settles environment world after
        × Answered environment utf8 schema_caller operation_describe_object "reader" "main"
            (ColumnsShown environment utf8 schema_caller source)
            (bounded_object_description_result utf8)
            description
            after.trace)
      (Settles environment world)
      (describe_object environment utf8 schema_caller "reader" "main" source world)
describe_object-Settles_example =
    describe_object-Settles environment utf8 schema_caller "reader" "main" world source nothing_done

explain-Admissible :
    Admissible environment caller 100 request world operation_explain_select
      (binding operation_explain_select)
      validated
      case_sensitive
      (query_token operation_explain_select)
      busy
unfolding text_eq validate_filter check_node validate_representation check_group validate_predicate
    validate_identifier identifier_pattern identifier_byte operator_arity validate_values
    check_arity check_value bind_value validate check_count check_source check_projection
    check_filter check_group_by check_order_by check_limit check_offset validate_selection
    validate_sort validate_grouped_shape authorize_binding assigned_profile min_limits
    profile_for_binding authorize_query revalidate check_operation validate_simple_select
    authorize_resources authorize_features referenced_fields allowed match match_parts match_part
    split uses_source_text filter_uses_source_text check_plain_field add_fields add_field
    insert_field collect_fields collect_operators equal_fold to_lower lower acquire_capacity enter
    gate_of set_gate capabilities identifier_semantics Database.features
explain-Admissible = record {
  bound = refl;
  small = refl;
  valid = refl;
  representable = refl;
  supported = refl;
  semantics = refl;
  granted = refl;
  taken = λ past event. refl;
  room = refl;
}

explain_answered :
    Database.explain environment.databases 2 (query_token operation_explain_select)
    ≡ (ok plan, "mysql8")
unfolding Database.explain require_capability
explain_answered = refl

explain_lem_example : explain environment caller 100 request world ≡ (
  ok (record { adapter = "mysql8"; result = plan; limits = limits }),
  record (decided environment caller 100 request world
      (binding operation_explain_select)
      validated
      case_sensitive
      (query_token operation_explain_select)
      busy
      "query_decision") {
        trace =
            audited
              (record (query_completion environment caller
                (binding operation_explain_select)
                "mysql8"
                "shape"
                (query_token operation_explain_select)) { outcome = "success"; result_bytes = 2 })
              true
            ∷ queried (query_token operation_explain_select)
            ∷ (decided environment caller 100 request world
                (binding operation_explain_select)
                validated
                case_sensitive
                (query_token operation_explain_select)
                busy
                "query_decision").trace;
      },
)
explain_lem_example =
    explain_lem environment caller 100 request world (binding operation_explain_select) validated
      case_sensitive (query_token operation_explain_select) busy plan "mysql8" explain-Admissible
      explain_answered

select-Admissible :
    Admissible environment caller 100 request world operation_select
      (binding operation_select)
      validated
      case_sensitive
      (query_token operation_select)
      busy
unfolding text_eq validate_filter check_node validate_representation check_group validate_predicate
    validate_identifier identifier_pattern identifier_byte operator_arity validate_values
    check_arity check_value bind_value validate check_count check_source check_projection
    check_filter check_group_by check_order_by check_limit check_offset validate_selection
    validate_sort validate_grouped_shape authorize_binding assigned_profile min_limits
    profile_for_binding authorize_query revalidate check_operation validate_simple_select
    authorize_resources authorize_features referenced_fields allowed match match_parts match_part
    split uses_source_text filter_uses_source_text check_plain_field add_fields add_field
    insert_field collect_fields collect_operators equal_fold to_lower lower acquire_capacity enter
    gate_of set_gate capabilities identifier_semantics Database.features
select-Admissible = record {
  bound = refl;
  small = refl;
  valid = refl;
  representable = refl;
  supported = refl;
  semantics = refl;
  granted = refl;
  taken = λ past event. refl;
  room = refl;
}

select_answered :
    Database.select environment.databases 2 (query_token operation_select) ≡ (ok rows, "mysql8")
unfolding Database.select require_capability
select_answered = refl

is_simple : validate_simple_select validated ≡ ok tt
unfolding validate_simple_select check_plain_field
is_simple = refl

select_lem_example : select environment caller 100 request world ≡ (
  ok (record { adapter = "mysql8"; result = rows; limits = limits }),
  record (decided environment caller 100 request world
      (binding operation_select)
      validated
      case_sensitive
      (query_token operation_select)
      busy
      "query_decision") {
        trace =
            audited
              (record (query_completion environment caller
                (binding operation_select)
                "mysql8"
                "shape"
                (query_token operation_select)) {
                  outcome = "success";
                  result_bytes = 2;
                  metadata = ("row_count", 0) ∷ ("truncated", 0) ∷ [];
                })
              true
            ∷ queried (query_token operation_select)
            ∷ (decided environment caller 100 request world
                (binding operation_select)
                validated
                case_sensitive
                (query_token operation_select)
                busy
                "query_decision").trace;
      },
)
select_lem_example =
    select_lem environment caller 100 request world (binding operation_select) validated
      case_sensitive (query_token operation_select) busy rows "mysql8" select-Admissible is_simple
      select_answered

abbrev schema_token : Operation → Text → AuthorizedSchema
schema_token operation object = record {
  principal = "ann";
  profile = "reader";
  datasource = "main";
  operation = operation;
  schema = text "app";
  object = object;
  limits = limits;
  resources = profile.resources;
  semantics = case_sensitive;
}

abbrev app : ResourceRef
app = record { schema = text "app"; name = [] }

list_objects-Admissible :
    Schemas.Admissible environment utf8 schema_caller "reader" "main" world operation_list_objects
      app
      (binding operation_list_objects)
      case_sensitive
      (schema_token operation_list_objects [])
      busy
unfolding authorize_binding assigned_profile min_limits profile_for_binding authorize_schema
    check_coordinates is_identifier validate_identifier identifier_pattern identifier_byte allowed
    match match_parts match_part text_eq split acquire_capacity enter gate_of set_gate capabilities
    identifier_semantics valid_schema_coordinates
list_objects-Admissible = record {
  coordinates = refl;
  bound = refl;
  supported = refl;
  semantics = refl;
  granted = refl;
  taken = λ past event. refl;
  room = refl;
}

list_objects_answered :
    Database.list_objects environment.databases 2 (schema_token operation_list_objects [])
    ≡ (ok (text "users" ∷ []), "mysql8")
unfolding Database.list_objects require_capability allowed_objects allowed_columns allows_object
    allows_field is_identifier validate_identifier identifier_pattern identifier_byte allowed match
    match_parts match_part text_eq split
list_objects_answered = refl

list_objects_fits : bounded_object_list_result utf8 (text "users" ∷ []) 4096 ≡ some 30
unfolding bounded_object_list_result object_list_from add_encoded_size json_string_size
    json_string_size_from encoded_bytes width_less_one
list_objects_fits = refl

list_objects_lem_example :
    list_objects environment utf8 schema_caller "reader" "main" (text "app") world ≡ (
      ok (text "users" ∷ []),
      Schemas.finished environment utf8 schema_caller "reader" "main" world
          (binding operation_list_objects)
          case_sensitive
          (schema_token operation_list_objects [])
          busy
          app
          (record (operation_completion environment utf8 schema_caller
            (binding operation_list_objects)
            "mysql8"
            app
            []) { outcome = "success"; result_bytes = 30; metadata = ("object_count", 1) ∷ [] }),
    )
list_objects_lem_example =
    list_objects_lem environment utf8 schema_caller "reader" "main" world
      (binding operation_list_objects) case_sensitive (schema_token operation_list_objects []) busy
      (text "app") (text "users" ∷ []) "mysql8" 30 list_objects-Admissible list_objects_answered
      list_objects_fits

abbrev no_columns : ObjectDescription
no_columns = record { schema = text "app"; name = text "users"; columns = [] }

describe_object-Admissible :
    Schemas.Admissible environment utf8 schema_caller "reader" "main" world
      operation_describe_object source
      (binding operation_describe_object)
      case_sensitive
      (schema_token operation_describe_object (text "users"))
      busy
unfolding authorize_binding assigned_profile min_limits profile_for_binding authorize_schema
    check_coordinates is_identifier validate_identifier identifier_pattern identifier_byte allowed
    match match_parts match_part text_eq split acquire_capacity enter gate_of set_gate capabilities
    identifier_semantics valid_schema_coordinates
describe_object-Admissible = record {
  coordinates = refl;
  bound = refl;
  supported = refl;
  semantics = refl;
  granted = refl;
  taken = λ past event. refl;
  room = refl;
}

describe_object_answered :
    Database.describe_object environment.databases 2
      (schema_token operation_describe_object (text "users"))
    ≡ (ok no_columns, "mysql8")
unfolding Database.describe_object require_capability allowed_objects allowed_columns allows_object
    allows_field is_identifier validate_identifier identifier_pattern identifier_byte allowed match
    match_parts match_part text_eq split
describe_object_answered = refl

describe_object_fits : bounded_object_description_result utf8 no_columns 4096 ≡ some 44
unfolding bounded_object_description_result columns_from json_string_size json_string_size_from
    encoded_bytes width_less_one
describe_object_fits = refl

describe_object_lem_example :
    describe_object environment utf8 schema_caller "reader" "main" source world ≡ (
      ok no_columns,
      Schemas.finished environment utf8 schema_caller "reader" "main" world
          (binding operation_describe_object)
          case_sensitive
          (schema_token operation_describe_object (text "users"))
          busy
          source
          (record (operation_completion environment utf8 schema_caller
            (binding operation_describe_object)
            "mysql8"
            source
            (column_fields [])) {
              outcome = "success";
              result_bytes = 44;
              metadata = ("column_count", 0) ∷ [];
            }),
    )
describe_object_lem_example =
    describe_object_lem environment utf8 schema_caller "reader" "main" world
      (binding operation_describe_object) case_sensitive
      (schema_token operation_describe_object (text "users")) busy source no_columns "mysql8" 44
      describe_object-Admissible describe_object_answered describe_object_fits

abbrev unsorted : Sorting
unsorted = record { profiles = λ ps. ps; datasources = λ ds. ds }

service_capabilities_iff_example :
    Any
      (Shows "reader" "main" operation_select)
      (service_capabilities environment unsorted world "ann").profiles
    ↔ (((b : AuthorizedBinding) × (authorize_binding snapshot "ann" "reader" "main" operation_select
            ≡ ok b))
        × IsAvailable environment world key operation_select)
service_capabilities_iff_example =
    service_capabilities_iff environment unsorted world "ann" "reader" "main" operation_select
      ((λ P xs. (λ h. h, λ h. h)), (λ P xs. (λ h. h, λ h. h)))

-- One discovery of another datasource, and one that was made for other semantics.
abbrev discovering : World
discovering = record world {
  discoveries =
      record { key = key; datasource = "other"; semantics = all_insensitive }
      ∷ record { key = key; datasource = "main"; semantics = all_insensitive }
      ∷ [];
}

observe_identifier_semantics_lem_example :
    ((observe_identifier_semantics key case_sensitive discovering).0 ≡ ok tt)
    × ((observe_identifier_semantics key case_sensitive discovering).1.gates ≡ idle)
    × ((observe_identifier_semantics key case_sensitive discovering).1.trace ≡ [])
    × (Any
          (λ d. d.datasource ≡ "main")
          (observe_identifier_semantics key case_sensitive discovering).1.discoveries
        ↔ Any
            (λ d. (d.datasource ≡ "main") × Stays "main" case_sensitive d)
            discovering.discoveries)
observe_identifier_semantics_lem_example =
    observe_identifier_semantics_lem key case_sensitive discovering (λ d. d.datasource ≡ "main")
