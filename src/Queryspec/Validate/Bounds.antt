-- ===== src/Queryspec/Validate/Bounds.antt =====
-- internal/queryspec/types.go `Validate`: an accepted query against its limits and its filter.
use quordon.Prelude.{ℕ, ◌+◌, ◌≤◌, ◌≡◌, true, Option, none, some, ok, length, arith, All}
use quordon.Prelude.Int.{ℤ, pos, negsuc}
use quordon.Domain.{Limits}
use quordon.Queryspec.{query_at, Filter, Spec, NormalizedSpec, Stats, Validated}
use quordon.Queryspec.Identifier.{IsPortable}
use quordon.Queryspec.Value.{Codec}
use quordon.Queryspec.Predicates.{FilterLimits, validate_filter}
use quordon.Queryspec.Predicates.Counts.{
  predicate_count, parameter_count, levels_below, IsWellFormed,
}
use quordon.Queryspec.Predicates.Sound.{validate_filter_sound}
use quordon.Queryspec.Validate.Portable.{
  IsSelection, IsSort, check_source-ok, check_projection-ok, check_group_by-ok, check_order_by-ok,
}
use quordon.Queryspec.Projection.{validate_grouped_shape}
use quordon.Queryspec.Validate.{
  check_source, check_projection, check_filter, check_group_by, check_order_by, check_limit,
  check_offset, validate,
}

-- The numbers of a query that limits bound.
pub record IsWithin (l : Limits) (q : Validated) : Type 0 where
  pub projection : length q.spec.projection ≤ l.max_projection_fields
  pub group_by : length q.spec.group_by ≤ l.max_group_by_fields
  pub order_by : length q.spec.order_by ≤ l.max_order_by_fields
  pub predicates : q.stats.predicates ≤ l.max_predicates
  pub expression_depth : q.stats.expression_depth ≤ l.max_expression_depth
  pub parameters : q.stats.parameters ≤ l.max_parameters
  pub limit : q.spec.limit ≤ l.max_rows
  pub offset : q.spec.offset ≤ l.max_offset

-- `Stats` are those of the filter: its predicates, its levels, its values and the two parameters of
-- LIMIT and OFFSET.
abbrev pub Describes : Codec → Option Filter → Stats → Type 0
Describes codec none s = (s.predicates ≡ 0) × (s.expression_depth ≡ 0) × (s.parameters ≡ 2)
Describes codec (some f) s =
    IsWellFormed codec f
    × (s.predicates ≡ predicate_count f)
    × (s.expression_depth ≡ 1 + levels_below f)
    × (s.parameters ≡ 2 + parameter_count f)

check_filter_sound :
    (codec : Codec) (l : Limits) (f : Option Filter) (s : Stats)
    → check_filter codec l f ≡ ok s
    → Describes codec f s
      × (s.predicates ≤ l.max_predicates)
      × (s.expression_depth ≤ l.max_expression_depth)
      × (s.parameters ≤ l.max_parameters)
unfolding check_filter
check_filter_sound codec l none s h = ground arith
check_filter_sound codec l (some f) s h =
    let start : Stats = record { predicates = 0; expression_depth = 0; parameters = 2 } in
    let limits : FilterLimits = record {
      max_predicates = l.max_predicates;
      max_depth = l.max_expression_depth;
      max_parameters = l.max_parameters;
    } in
    let room : 2 ≤ l.max_parameters = ground arith in
    let pass : validate_filter codec limits (query_at "filter") f 1 start ≡ ok s = ground arith in
    let (wf, (n, m, d), deep, few, small) =
      validate_filter_sound codec limits _ f 1 start s (omega arith) room pass in
    ((wf, omega (arith, n), omega (arith, d), omega (arith, m)), few, omega (arith, d, deep), small)

check_limit-le :
    (l : Limits) (given : Option ℤ) (n : ℕ) → check_limit l given ≡ ok n → n ≤ l.max_rows
unfolding check_limit
check_limit-le l none n h = ground arith
check_limit-le l (some (pos k)) n h = ground arith
check_limit-le l (some (negsuc k)) n h = cc

check_offset-le :
    (l : Limits) (given : Option ℤ) (n : ℕ) → check_offset l given ≡ ok n → n ≤ l.max_offset
unfolding check_offset
check_offset-le l none n h = ground arith
check_offset-le l (some (pos k)) n h = ground arith
check_offset-le l (some (negsuc k)) n h = cc

-- What the stages of `validate` gave, when it accepted.
record Stages (codec : Codec) (spec : Spec) (l : Limits) (q : Validated) : Type 0 where
  source : check_source spec ≡ ok tt
  projection : check_projection l spec ≡ ok tt
  stats : check_filter codec l spec.where_filter ≡ ok q.stats
  group_by : check_group_by l spec ≡ ok tt
  order_by : check_order_by l spec ≡ ok tt
  shape : validate_grouped_shape spec.projection spec.group_by spec.order_by ≡ ok tt
  limit : check_limit l spec.limit ≡ ok q.spec.limit
  offset : check_offset l spec.offset ≡ ok q.spec.offset
  valid : q.valid ≡ true
  same_source : q.spec.source ≡ spec.source
  same_projection : q.spec.projection ≡ spec.projection
  same_filter : q.spec.where_filter ≡ spec.where_filter
  same_group_by : q.spec.group_by ≡ spec.group_by
  same_order_by : q.spec.order_by ≡ spec.order_by

validate-Stages :
    (codec : Codec) (spec : Spec) (l : Limits) (q : Validated)
    → validate codec spec l ≡ ok q
    → Stages codec spec l q
unfolding validate
validate-Stages codec spec l q h = record {
  source = ground arith;
  projection = ground arith;
  stats = ground arith;
  group_by = ground arith;
  order_by = ground arith;
  shape = ground arith;
  limit = ground arith;
  offset = ground arith;
  valid = ground arith;
  same_source = ground arith;
  same_projection = ground arith;
  same_filter = ground arith;
  same_group_by = ground arith;
  same_order_by = ground arith;
}

-- A query whose identifiers are portable and whose projection is not empty.
pub record IsValidSpec (s : NormalizedSpec) : Type 0 where
  pub schema : IsPortable s.source.schema
  pub name : IsPortable s.source.name
  pub selections : 1 ≤ length s.projection
  pub projection : All IsSelection s.projection
  pub group_by : All IsPortable s.group_by
  pub order_by : All IsSort s.order_by

-- An accepted query is marked valid, lies within every limit, has portable identifiers throughout,
-- and carries the counts of its own filter, which is well formed.
pub validate_sound :
    (codec : Codec) (spec : Spec) (l : Limits) (q : Validated)
    → validate codec spec l ≡ ok q
    → (q.valid ≡ true)
      × IsWithin l q
      × IsValidSpec q.spec
      × Describes codec q.spec.where_filter q.stats
validate_sound codec spec l q h =
    let st = validate-Stages codec spec l q h in
    let (schema, table) = check_source-ok spec st.source in
    let (few, some_selections, selections) = check_projection-ok l spec st.projection in
    let (few_groups, groups) = check_group_by-ok l spec st.group_by in
    let (few_sorts, sorts) = check_order_by-ok l spec st.order_by in
    let (describes, predicates, depth, parameters) =
      check_filter_sound codec l spec.where_filter q.stats st.stats in
    (
      st.valid,
      record {
        projection = rw st.same_projection few;
        group_by = rw st.same_group_by few_groups;
        order_by = rw st.same_order_by few_sorts;
        predicates = predicates;
        expression_depth = depth;
        parameters = parameters;
        limit = check_limit-le l spec.limit q.spec.limit st.limit;
        offset = check_offset-le l spec.offset q.spec.offset st.offset;
      },
      record {
        schema = rw st.same_source schema;
        name = rw st.same_source table;
        selections = rw st.same_projection some_selections;
        projection = rw st.same_projection selections;
        group_by = rw st.same_group_by groups;
        order_by = rw st.same_order_by sorts;
      },
      rw st.same_filter describes,
    )
