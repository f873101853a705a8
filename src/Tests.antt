-- ===== src/Tests.antt =====
-- A policy, a query and results at which the theorems are applied.
pub mod Queries
pub mod Policies
pub mod Responses
pub mod Services
pub mod Plans
pub mod Configurations
use quordon.Prelude.{ℕ, Bool, true, false, List, [], ◌∷◌, String, Text, text, Option, none, some}
use quordon.Domain.{
  Limits, IdentifierSemantics, operation_select, operation_explain_select, operation_list_objects,
  operation_describe_object,
}
use quordon.Queryspec.{
  Filter, filter, Filters, nil, cons, TypedValue, quoted, number, Selection, Sort, Spec,
  NormalizedSpec, ResourceRef, Stats, Validated,
}
use quordon.Queryspec.Value.{Codec}
use quordon.Policy.{
  Snapshot, Principal, Profile, PatternPolicy, QueryPolicy, ResourcePolicy, BindingKey,
  AuthorizedBinding,
}
use quordon.Encoding.{Utf8}

-- A codec that takes every date-time and no base64.
abbrev pub codec : Codec
codec = record { rfc3339 = λ s. true; base64_decode = λ s. none; base64_encode = λ s. s }

-- A decoder that reads every byte beyond ASCII as an invalid one.
abbrev pub utf8 : Utf8
utf8 = record { rune = λ c s. 65533; width_less_one = λ c s. 0 }

abbrev pub limits : Limits
limits = record {
  deadline_ms = 1000;
  max_request_bytes = 4096;
  max_projection_fields = 4;
  max_group_by_fields = 2;
  max_order_by_fields = 2;
  max_predicates = 3;
  max_expression_depth = 3;
  max_parameters = 8;
  max_rows = 50;
  max_result_bytes = 4096;
  max_offset = 10;
  max_concurrency = 2;
}

abbrev pub equals_seven : Filter
equals_seven =
    filter "" "predicate" (text "id") "eq"
      (some (record { type = "string"; value = some (quoted (text "7")) } ∷ [])) nil

abbrev pub named : Filter
named =
    filter "source_text" "predicate" (text "name") "in"
      (some (
        record { type = "string"; value = some (quoted (text "a")) }
        ∷ record { type = "string"; value = some (quoted (text "b")) }
        ∷ []))
      nil

abbrev pub both : Filter
both = filter "" "group" [] "and" none (cons equals_seven (cons named nil))

abbrev pub source : ResourceRef
source = record { schema = text "app"; name = text "users" }

abbrev pub fields : List Selection
fields =
    record { representation = ""; kind = "field"; field = text "id"; function = ""; alias = [] }
    ∷ record { representation = ""; kind = "field"; field = text "name"; function = ""; alias = [] }
    ∷ []

abbrev pub spec : Spec
spec = record {
  source = source;
  projection = fields;
  where_filter = some both;
  group_by = [];
  order_by = record { representation = ""; field = text "id"; direction = "asc" } ∷ [];
  limit = none;
  offset = none;
}

abbrev pub validated : Validated
validated = record {
  spec = record {
    source = source;
    projection = fields;
    where_filter = some both;
    group_by = [];
    order_by = record { representation = ""; field = text "id"; direction = "asc" } ∷ [];
    limit = 50;
    offset = 0;
  };
  stats = record { predicates = 2; expression_depth = 2; parameters = 5 };
  valid = true;
}

abbrev pub case_sensitive : IdentifierSemantics
case_sensitive = record {
  case_insensitive_schemas = false;
  case_insensitive_objects = false;
  case_insensitive_fields = true;
}

abbrev pub everything : PatternPolicy
everything = record { allow = []; deny = [] }

abbrev pub only_app : PatternPolicy
only_app = record { allow = text "app" ∷ []; deny = [] }

abbrev pub no_secrets : PatternPolicy
no_secrets = record { allow = text "app.users.*" ∷ []; deny = text "app.users.secret" ∷ [] }

abbrev pub profile : Profile
profile = record {
  datasources = "main" ∷ [];
  operations =
      operation_select ∷ operation_explain_select ∷ operation_list_objects
      ∷ operation_describe_object ∷ [];
  resources = record { schemas = only_app; objects = everything; fields = no_secrets };
  query = record {
    allow_source_text = true;
    allow_filtering = true;
    allow_group_by = false;
    allow_sorting = true;
    allowed_filter_operators = "eq" ∷ "in" ∷ "and" ∷ [];
    allowed_aggregates = [];
  };
  limits = limits;
}

abbrev pub snapshot : Snapshot
snapshot = record {
  address = 7;
  version = "1";
  hash = "h";
  hard_limits = limits;
  principals = ("ann", record { profiles = "reader" ∷ []; datasources = "main" ∷ [] }) ∷ [];
  profiles = ("reader", profile) ∷ [];
}

abbrev pub binding : String → AuthorizedBinding
binding operation = record {
  owner = 7;
  principal = "ann";
  key = record { profile = "reader"; datasource = "main" };
  operation = operation;
  limits = limits;
  policy_hash = "h";
}
