-- ===== src/Configuration.antt =====
-- internal/config/config.go: checks of a loaded configuration. An error is the message's kind with the
-- names and numbers that it reports.
pub mod Ranges
use quordon.Prelude.{
  ℕ, ◌+◌, ◌*◌, Bool, not, ◌&&◌, ◌||◌, List, [], ◌∷◌, ◌++◌, ◌==◌, nat_has_eq, text_has_eq, ltb,
  length, Text, text, String, Result, ok, err, ◌>>=◌, ◌>>◌, fail_if, split,
}
use quordon.Domain.{Limits, max_supported_result_bytes}
use quordon.Queryspec.{
  protocol_max_identifier_bytes, protocol_max_projection_fields, protocol_max_group_by_fields,
  protocol_max_order_by_fields, protocol_max_rows, protocol_max_offset,
}
use quordon.Queryspec.Identifier.{identifier_pattern}
use quordon.Policy.{PatternPolicy}

pub data ConfigurationError : Type 0 where
  at_least at_most : String → String → ℕ → ConfigurationError
  segments_wanted : Text → ℕ → ConfigurationError
  invalid_segment : Text → ConfigurationError

abbrev pub max_supported_deadline_ms : ℕ
max_supported_deadline_ms = 5 * 60 * 1000

abbrev pub max_supported_request_bytes : ℕ
max_supported_request_bytes = 16 * 1024 * 1024

abbrev pub max_supported_predicates : ℕ
max_supported_predicates = 10000

abbrev pub max_supported_expression_depth : ℕ
max_supported_expression_depth = 64

abbrev pub max_supported_parameters : ℕ
max_supported_parameters = 10000

abbrev pub max_supported_concurrency : ℕ
max_supported_concurrency = 1024

pub record LimitValue : Type 0 where
  pub name : String
  pub value : ℕ
  pub minimum : ℕ
  pub maximum : ℕ

abbrev pub limit_value : String → ℕ → ℕ → ℕ → LimitValue
limit_value name value minimum maximum = record {
  name = name;
  value = value;
  minimum = minimum;
  maximum = maximum;
}

-- The table of `validateLimits`.
abbrev pub limit_values : Limits → List LimitValue
limit_values limits =
    limit_value "deadline_ms" limits.deadline_ms 1 max_supported_deadline_ms
    ∷ limit_value "max_request_bytes" limits.max_request_bytes 1 max_supported_request_bytes
    ∷ limit_value "max_projection_fields" limits.max_projection_fields 1
        protocol_max_projection_fields
    ∷ limit_value "max_group_by_fields" limits.max_group_by_fields 1 protocol_max_group_by_fields
    ∷ limit_value "max_order_by_fields" limits.max_order_by_fields 1 protocol_max_order_by_fields
    ∷ limit_value "max_predicates" limits.max_predicates 1 max_supported_predicates
    ∷ limit_value "max_expression_depth" limits.max_expression_depth 1
        max_supported_expression_depth
    ∷ limit_value "max_parameters" limits.max_parameters 2 max_supported_parameters
    ∷ limit_value "max_rows" limits.max_rows 1 protocol_max_rows
    ∷ limit_value "max_result_bytes" limits.max_result_bytes 1 max_supported_result_bytes
    ∷ limit_value "max_offset" limits.max_offset 0 protocol_max_offset
    ∷ limit_value "max_concurrency" limits.max_concurrency 1 max_supported_concurrency
    ∷ []

abbrev pub Checked : Type 0
Checked = Result ConfigurationError (Unit {0})

-- The loop over the table.
unfoldable pub check_values : String → List LimitValue → Checked
check_values path [] = ok tt
check_values path (item ∷ items) = do
  fail_if (ltb item.value item.minimum) (at_least path item.name item.minimum)
  fail_if (ltb item.maximum item.value) (at_most path item.name item.maximum)
  check_values path items

unfoldable pub validate_limits : String → Limits → Checked
unfolding check_values
validate_limits path limits = check_values path (limit_values limits)

-- `validPortableIdentifier`
abbrev pub valid_portable_identifier : Text → Bool
valid_portable_identifier s =
    not (ltb protocol_max_identifier_bytes (length s)) && identifier_pattern s

unfoldable pub check_parts : Text → List Text → Checked
check_parts pattern [] = ok tt
check_parts pattern (part ∷ parts) = do
  fail_if (not (part == text "*") && not (valid_portable_identifier part)) (invalid_segment pattern)
  check_parts pattern parts

unfoldable pub check_patterns : ℕ → List Text → Checked
unfolding check_parts
check_patterns segments [] = ok tt
check_patterns segments (pattern ∷ patterns) = do
  let parts = split pattern b'.'
  fail_if (not (length parts == segments)) (segments_wanted pattern segments)
  check_parts pattern parts
  check_patterns segments patterns

-- `validatePatterns`
unfoldable pub validate_patterns : PatternPolicy → ℕ → Checked
unfolding check_patterns
validate_patterns policy segments = check_patterns segments (policy.allow ++ policy.deny)
