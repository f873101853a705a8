-- ===== src/Queryspec/Validate.antt =====
-- internal/queryspec/types.go `Validate`, `Revalidate` and `ValidateSimpleSelect`. The int
-- parameters of the first two are the fields of one `Limits` at every call.
pub mod Portable
pub mod Bounds
pub mod Stable
use quordon.Prelude.{
  ℕ, suc, ◌+◌, min, Bool, true, false, not, ◌&&◌, ◌||◌, List, [], ◌∷◌, ◌++◌, ◌==◌, string_has_eq,
  nat_has_eq, text_has_eq, length, ltb, String, Option, none, some, if◌then◌else◌, Result, ok, err,
  ◌>>=◌, ◌>>◌, fail_if, each_from,
}
use quordon.Prelude.Int.{ℤ, pos, negsuc}
use quordon.Domain.{Limits}
use quordon.Queryspec.{
  PathPart, name, index, at, ◌/+◌, query_at, Checked, Selection, Sort, Filter, Spec, NormalizedSpec,
  Stats, Validated, protocol_max_projection_fields, protocol_max_group_by_fields,
  protocol_max_order_by_fields, protocol_max_rows, protocol_max_offset, default_limit,
}
use quordon.Queryspec.Identifier.{validate_identifier}
use quordon.Queryspec.Value.{Codec}
use quordon.Queryspec.Predicates.{FilterLimits, validate_filter}
use quordon.Queryspec.Projection.{validate_selection, validate_sort, validate_grouped_shape}

-- One list of the query against the protocol's limit and the effective one.
unfoldable pub check_count : String → ℕ → ℕ → ℕ → String → String → Checked (Unit {0})
check_count part count protocol effective beyond_protocol beyond_effective = do
  fail_if (ltb protocol count) (at (query_at part) beyond_protocol)
  fail_if (ltb effective count) (at (query_at part) beyond_effective)

unfoldable pub check_source : Spec → Checked (Unit {0})
check_source spec = do
  validate_identifier (query_at "source" /+ name "schema") spec.source.schema
  validate_identifier (query_at "source" /+ name "name") spec.source.name

unfoldable pub check_projection : Limits → Spec → Checked (Unit {0})
unfolding check_count
check_projection l spec = do
  fail_if (length spec.projection == 0)
      (at (query_at "projection") "must contain at least one selection")
  check_count "projection" (length spec.projection) protocol_max_projection_fields
      l.max_projection_fields "exceeds the protocol projection limit"
      "exceeds the effective projection limit"
  each_from (λ i s. validate_selection (query_at "projection" /+ index i) s) 0 spec.projection

-- LIMIT and OFFSET are always bound: two parameters.
unfoldable pub check_filter : Codec → Limits → Option Filter → Checked Stats
check_filter codec l f =
    let start : Stats = record { predicates = 0; expression_depth = 0; parameters = 2 } in
    let limits : FilterLimits = record {
      max_predicates = l.max_predicates;
      max_depth = l.max_expression_depth;
      max_parameters = l.max_parameters;
    } in
    do
      fail_if (ltb l.max_parameters 2)
          (at (name "query" ∷ []) "exceeds the effective parameter limit")
      elim f [
        | none ↦ ok start
        | some g ↦ validate_filter codec limits (query_at "filter") g 1 start
      ]

unfoldable pub check_group_by : Limits → Spec → Checked (Unit {0})
unfolding check_count
check_group_by l spec = do
  check_count "group_by" (length spec.group_by) protocol_max_group_by_fields l.max_group_by_fields
      "exceeds the protocol group-by limit" "exceeds the effective group-by limit"
  each_from (λ i f. validate_identifier (query_at "group_by" /+ index i) f) 0 spec.group_by

unfoldable pub check_order_by : Limits → Spec → Checked (Unit {0})
unfolding check_count
check_order_by l spec = do
  check_count "order_by" (length spec.order_by) protocol_max_order_by_fields l.max_order_by_fields
      "exceeds the protocol order-by limit" "exceeds the effective order-by limit"
  each_from (λ i s. validate_sort (query_at "order_by" /+ index i) s) 0 spec.order_by

unfoldable pub check_limit : Limits → Option ℤ → Checked ℕ
check_limit l none = ok (if ltb l.max_rows default_limit then l.max_rows else default_limit)
check_limit l (some (negsuc n)) = err (at (query_at "limit") "must be at least 1")
check_limit l (some (pos n)) = do
  fail_if (ltb n 1) (at (query_at "limit") "must be at least 1")
  fail_if (ltb protocol_max_rows n) (at (query_at "limit") "exceeds the protocol row limit")
  ok (if ltb l.max_rows n then l.max_rows else n)

within_offset : Limits → ℕ → Checked ℕ
within_offset l n = do
  fail_if (ltb l.max_offset n) (at (query_at "offset") "exceeds the effective offset limit")
  ok n

unfoldable pub check_offset : Limits → Option ℤ → Checked ℕ
unfolding within_offset
check_offset l none = within_offset l 0
check_offset l (some (negsuc n)) = err (at (query_at "offset") "must not be negative")
check_offset l (some (pos n)) = do
  fail_if (ltb protocol_max_offset n) (at (query_at "offset") "exceeds the protocol offset limit")
  within_offset l n

unfoldable pub validate : Codec → Spec → Limits → Checked Validated
validate codec spec l = do
  check_source spec
  check_projection l spec
  stats ← check_filter codec l spec.where_filter
  check_group_by l spec
  check_order_by l spec
  validate_grouped_shape spec.projection spec.group_by spec.order_by
  limit ← check_limit l spec.limit
  offset ← check_offset l spec.offset
  ok (record {
    spec = record {
      source = spec.source;
      projection = spec.projection;
      where_filter = spec.where_filter;
      group_by = spec.group_by;
      order_by = spec.order_by;
      limit = limit;
      offset = offset;
    };
    stats = stats;
    valid = true;
  })

unfoldable pub revalidate : Validated → Limits → Checked Validated
revalidate query l = do
  fail_if (not query.valid) (at (name "query" ∷ []) "has not been validated")
  fail_if (ltb l.max_projection_fields (length query.spec.projection))
      (at (query_at "projection") "exceeds the effective projection limit")
  fail_if (ltb l.max_group_by_fields (length query.spec.group_by))
      (at (query_at "group_by") "exceeds the effective group-by limit")
  fail_if (ltb l.max_order_by_fields (length query.spec.order_by))
      (at (query_at "order_by") "exceeds the effective order-by limit")
  fail_if (ltb l.max_predicates query.stats.predicates)
      (at (query_at "filter") "exceeds the effective predicate limit")
  fail_if (ltb l.max_expression_depth query.stats.expression_depth)
      (at (query_at "filter") "exceeds the effective expression depth limit")
  fail_if (ltb l.max_parameters query.stats.parameters)
      (at (query_at "filter") "exceeds the effective parameter limit")
  fail_if (ltb l.max_offset query.spec.offset)
      (at (query_at "offset") "exceeds the effective offset limit")
  fail_if (ltb l.max_rows 1) (at (query_at "limit") "effective row limit must be at least 1")
  ok (record {
    spec = record query.spec {
      limit = if ltb l.max_rows query.spec.limit then l.max_rows else query.spec.limit;
    };
    stats = query.stats;
    valid = true;
  })

unfoldable pub check_plain_field : ℕ → Selection → Checked (Unit {0})
check_plain_field i s = fail_if (not (s.kind == "field")) (
    at (query_at "projection" /+ index i)
      "only field projections are supported for executable select")

-- `ValidateSimpleSelect`
unfoldable pub validate_simple_select : Validated → Checked (Unit {0})
validate_simple_select query = do
  fail_if (not query.valid) (at (name "query" ∷ []) "has not been validated")
  fail_if (not (length query.spec.group_by == 0))
      (at (query_at "group_by") "is not supported for executable select")
  each_from check_plain_field 0 query.spec.projection
