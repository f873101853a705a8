-- ===== src/Queryspec/Projection.antt =====
-- internal/queryspec/types.go `validateSelection`, `validateGroupedShape` and the checks of the
-- order-by list.
use quordon.Prelude.{
  ℕ, Bool, not, ◌&&◌, ◌||◌, List, [], ◌∷◌, ◌++◌, ◌==◌, string_has_eq, nat_has_eq, text_has_eq,
  length, any, contains, Text, if◌then◌else◌, ok, err, ◌>>◌, fail_if, each_from, equal_fold,
}
use quordon.Queryspec.{PathPart, name, index, at, ◌/+◌, query_at, Checked, Selection, Sort}
use quordon.Queryspec.Identifier.{validate_identifier}
use quordon.Queryspec.Predicates.{validate_representation}

-- `validateIdentifier` on an optional part
unfoldable pub check_optional : List PathPart → Text → Checked (Unit {0})
check_optional path value = if value == [] then ok tt else validate_identifier path value

unfoldable pub check_field : List PathPart → Selection → Checked (Unit {0})
check_field path s = do
  fail_if (not (s.function == ""))
      (at (path /+ name "function") "is only valid for aggregate selections")
  validate_identifier (path /+ name "field") s.field

unfoldable pub check_aggregate : List PathPart → Selection → Checked (Unit {0})
unfolding check_optional
check_aggregate path s =
    if s.function == "count"
    then check_optional (path /+ name "field") s.field
    else if contains ("min" ∷ "max" ∷ "sum" ∷ "avg" ∷ []) s.function
    then validate_identifier (path /+ name "field") s.field
    else err (at (path /+ name "function") "contains an unsupported aggregate")

unfoldable pub validate_selection : List PathPart → Selection → Checked (Unit {0})
unfolding validate_representation check_optional check_field check_aggregate
validate_selection path s = do
  validate_representation path s.representation
  fail_if (not (s.kind == "field") && not (s.representation == ""))
      (at path "representation requires a field")
  if s.kind == "field"
      then check_field path s
      else if s.kind == "aggregate"
      then check_aggregate path s
      else err (at (path /+ name "kind") "must be field or aggregate")
  check_optional (path /+ name "alias") s.alias

unfoldable pub validate_sort : List PathPart → Sort → Checked (Unit {0})
validate_sort path s = do
  validate_representation path s.representation
  validate_identifier (path /+ name "field") s.field
  fail_if (not (s.direction == "asc") && not (s.direction == "desc"))
      (at (path /+ name "direction") "must be asc or desc")

abbrev pub is_aggregate : Selection → Bool
is_aggregate s = s.kind == "aggregate"

-- `fields`: those of the selections that are no aggregates.
pub plain_fields : List Selection → List Text
plain_fields [] = []
plain_fields (s ∷ ss) = if is_aggregate s then plain_fields ss else s.field ∷ plain_fields ss

unfoldable pub contains_identifier : List Text → Text → Bool
contains_identifier identifiers value = any (λ i. equal_fold i value) identifiers

check_grouped_field : List Text → ℕ → Text → Checked (Unit {0})
check_grouped_field group_by i field =
    fail_if (not (any (λ g. equal_fold field g) group_by))
      (at (query_at "projection") "field must be listed in query.group_by")

check_grouped_sort : List Text → ℕ → Sort → Checked (Unit {0})
check_grouped_sort group_by i s = fail_if (not (contains_identifier group_by s.field)) (
    at (query_at "order_by" ++ index i ∷ name "field" ∷ [])
      "must be listed in query.group_by for a grouped or aggregate query")

unfoldable pub validate_grouped_shape : List Selection → List Text → List Sort → Checked (Unit {0})
unfolding check_grouped_field check_grouped_sort
validate_grouped_shape projection group_by order_by =
    let has_aggregate = any is_aggregate projection in
    let fields = plain_fields projection in
    let grouped = not (length group_by == 0) in
    do
      fail_if (has_aggregate && not grouped && not (length fields == 0)) (
          at (query_at "projection")
            "non-aggregate fields require query.group_by when aggregates are projected")
      fail_if ((grouped || has_aggregate) && any (λ s. not (s.representation == "")) projection)
          (at (query_at "projection") "source_text is unsupported in legacy grouped EXPLAIN")
      if not grouped && not has_aggregate
          then ok tt
          else (each_from (check_grouped_field group_by) 0 fields
              >> each_from (check_grouped_sort group_by) 0 order_by)
