-- ===== src/Tests/Queries.antt =====
-- The theorems on queries, applied.
use quordon.Prelude.{text_eq, ◌≤◌, ◌+◌, ◌≡◌, refl, true, List, [], length, ◌↔◌, Text, arith, ok}
use quordon.Domain.{Limits, min_limits}
use quordon.Domain.Meet.{Within, min_limits_iff}
use quordon.Queryspec.{Stats}
use quordon.Queryspec.Value.{Bind, bind_value}
use quordon.Queryspec.Predicates.{
  FilterLimits, validate_filter, check_node, validate_representation, check_group,
  validate_predicate, operator_arity, validate_values, check_arity, check_value,
}
use quordon.Queryspec.Identifier.{validate_identifier, identifier_pattern, identifier_byte}
use quordon.Queryspec.Projection.{validate_selection, validate_sort, validate_grouped_shape}
use quordon.Queryspec.Predicates.Counts.{
  IsWellFormed, predicate_count, parameter_count, levels_below,
}
use quordon.Queryspec.Predicates.Sound.{Counted, validate_filter_sound}
use quordon.Queryspec.Validate.{
  validate, revalidate, check_count, check_source, check_projection, check_filter, check_group_by,
  check_order_by, check_limit, check_offset, validate_simple_select, check_plain_field,
}
use quordon.Queryspec.Validate.Bounds.{IsWithin, IsValidSpec, Describes, validate_sound}
use quordon.Queryspec.Validate.Stable.{
  Admits, limited, revalidate_iff, revalidate-validate, revalidate-revalidate,
}
use quordon.Sql.{compile_filter, compile_select}
use quordon.Sql.Statements.{compile_select-validate}
use quordon.Sql.Placeholders.{holes}
use quordon.Sql.Arguments.{compile_filter-validate_filter}
use quordon.Tests.{codec, limits, both, spec, validated}

abbrev start : Stats
start = record { predicates = 0; expression_depth = 0; parameters = 2 }

abbrev after : Stats
after = record { predicates = 2; expression_depth = 2; parameters = 5 }

abbrev bounds : FilterLimits
bounds = record { max_predicates = 3; max_depth = 3; max_parameters = 8 }

accepted_filter : validate_filter codec bounds [] both 1 start ≡ ok after
unfolding text_eq validate_filter check_node validate_representation check_group validate_predicate
    validate_identifier identifier_pattern identifier_byte operator_arity validate_values
    check_arity check_value bind_value
accepted_filter = refl

accepted : validate codec spec limits ≡ ok validated
unfolding text_eq validate_filter check_node validate_representation check_group validate_predicate
    validate_identifier identifier_pattern identifier_byte operator_arity validate_values
    check_arity check_value bind_value validate check_count check_source check_projection
    check_filter check_group_by check_order_by check_limit check_offset validate_selection
    validate_sort validate_grouped_shape
accepted = refl

readmitted : revalidate validated limits ≡ ok validated
unfolding revalidate
readmitted = refl

validate_filter_sound_example :
    IsWellFormed codec both
    × Counted codec bounds start after
        (predicate_count both)
        (parameter_count both)
        (1 + levels_below both)
    × (1 + levels_below both ≤ 3)
    × (2 ≤ 3)
    × (5 ≤ 8)
validate_filter_sound_example =
    validate_filter_sound codec bounds [] both 1 start after (omega arith) (omega arith)
      accepted_filter

validate_sound_example :
    (true ≡ true)
    × IsWithin limits validated
    × IsValidSpec validated.spec
    × Describes codec validated.spec.where_filter validated.stats
validate_sound_example = validate_sound codec spec limits validated accepted

revalidate_iff_example :
    (revalidate validated limits ≡ ok validated)
    ↔ Admits limits validated × (validated ≡ limited validated limits.max_rows)
revalidate_iff_example = revalidate_iff validated limits validated

revalidate-validate_example : revalidate validated limits ≡ ok validated
revalidate-validate_example = revalidate-validate codec spec limits validated (omega arith) accepted

revalidate-revalidate_example :
    revalidate validated limits ≡ revalidate validated (min_limits limits limits)
revalidate-revalidate_example = revalidate-revalidate validated limits limits validated readmitted

compile_filter-validate_filter_example :
    (w : Text) × (args : List Bind) × (compile_filter codec both ≡ ok (w, args))
    × (holes w ≡ length args)
    × (2 + length args ≡ 5)
compile_filter-validate_filter_example =
    compile_filter-validate_filter codec bounds [] both 1 start after (omega arith) (omega arith)
      accepted_filter

is_simple : validate_simple_select validated ≡ ok tt
unfolding validate_simple_select check_plain_field
is_simple = refl

compile_select-validate_example :
    (sql : Text) × (args : List Bind) × (compile_select codec validated.spec 1000 50
      ≡ ok (sql, args))
    × (holes sql ≡ length args)
    × (length args ≡ 5)
compile_select-validate_example =
    compile_select-validate codec spec limits validated 1000 50 accepted is_simple

-- Limits with a lower bound on the rows.
abbrev stricter : Limits
stricter = record limits { max_rows = 7 }

min_limits_iff_example :
    Within limits (min_limits limits stricter) ↔ (Within limits limits × Within limits stricter)
min_limits_iff_example = min_limits_iff limits stricter limits
