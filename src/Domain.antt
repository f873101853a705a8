-- ===== src/Domain.antt =====
-- internal/domain/domain.go: the vocabulary that every part of the program shares. An operation is
-- a string with the values named here. Limits are the numbers of a checked policy, which config.go
-- `validateLimits` holds at 0 or more, so they are natural numbers.
pub mod Meet
use quordon.Prelude.{ℕ, ◌*◌, min, String, Bool}

abbrev pub max_supported_result_bytes : ℕ
max_supported_result_bytes = 16 * 1024 * 1024

abbrev pub Operation : Type 0
Operation = String

abbrev pub operation_list_objects : Operation
operation_list_objects = "list_objects"

abbrev pub operation_describe_object : Operation
operation_describe_object = "describe_object"

abbrev pub operation_explain_select : Operation
operation_explain_select = "explain_select"

abbrev pub operation_select : Operation
operation_select = "select"

abbrev pub operation_select_keyset : Operation
operation_select_keyset = "select_keyset"

abbrev pub operation_aggregate : Operation
operation_aggregate = "aggregate"

abbrev pub operation_list_query_shapes : Operation
operation_list_query_shapes = "list_query_shapes"

abbrev pub operation_describe_object_statistics : Operation
operation_describe_object_statistics = "describe_object_statistics"

-- Which identifiers a datasource compares without regard to case.
pub record IdentifierSemantics : Type 0 where
  pub case_insensitive_schemas : Bool
  pub case_insensitive_objects : Bool
  pub case_insensitive_fields : Bool

pub record Limits : Type 0 where
  pub deadline_ms : ℕ
  pub max_request_bytes : ℕ
  pub max_projection_fields : ℕ
  pub max_group_by_fields : ℕ
  pub max_order_by_fields : ℕ
  pub max_predicates : ℕ
  pub max_expression_depth : ℕ
  pub max_parameters : ℕ
  pub max_rows : ℕ
  pub max_result_bytes : ℕ
  pub max_offset : ℕ
  pub max_concurrency : ℕ

unfoldable pub min_limits : Limits → Limits → Limits
min_limits l other = record {
  deadline_ms = min l.deadline_ms other.deadline_ms;
  max_request_bytes = min l.max_request_bytes other.max_request_bytes;
  max_projection_fields = min l.max_projection_fields other.max_projection_fields;
  max_group_by_fields = min l.max_group_by_fields other.max_group_by_fields;
  max_order_by_fields = min l.max_order_by_fields other.max_order_by_fields;
  max_predicates = min l.max_predicates other.max_predicates;
  max_expression_depth = min l.max_expression_depth other.max_expression_depth;
  max_parameters = min l.max_parameters other.max_parameters;
  max_rows = min l.max_rows other.max_rows;
  max_result_bytes = min l.max_result_bytes other.max_result_bytes;
  max_offset = min l.max_offset other.max_offset;
  max_concurrency = min l.max_concurrency other.max_concurrency;
}
