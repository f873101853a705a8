-- ===== src/Queryspec/Predicates.antt =====
-- internal/queryspec/types.go `validateFilter`: one pass over the filter that checks every node and
-- carries the counts of `Stats` along.
pub mod Counts
pub mod Sound
use quordon.Prelude.{
  ℕ, suc, ◌+◌, max, Bool, true, false, not, ◌&&◌, ◌||◌, List, [], ◌∷◌, ◌++◌, ◌==◌, string_has_eq,
  nat_has_eq, text_has_eq, ltb, leb, length, String, Option, none, some, if◌then◌else◌, Result, ok,
  err, ◌>>=◌, ◌>>◌, fail_if, each_from, contains, is_some,
}
use quordon.Queryspec.{
  PathPart, name, index, at, ◌/+◌, Checked, Filter, filter, Filters, nil, cons, TypedValue, Stats,
  Representation, representation_valid, representation_source_text, protocol_max_filter_items,
  length_filters, value_list,
}
use quordon.Queryspec.Identifier.{validate_identifier}
use quordon.Queryspec.Value.{Codec, bind_value}

-- `validateRepresentation`
unfoldable pub validate_representation : List PathPart → Representation → Checked (Unit {0})
validate_representation path r =
    fail_if (not (representation_valid r))
      (at (path /+ name "representation") "must be source_text when present")

pub record FilterLimits : Type 0 where
  pub max_predicates : ℕ
  pub max_depth : ℕ
  pub max_parameters : ℕ

-- `expectedValues`: how many values an operator takes; at least one for `in` and `not_in`.
pub data Arity : Type 0 where
  exactly : ℕ → Arity
  some_values : Arity

unfoldable pub operator_arity : String → Option Arity
operator_arity op =
    if contains ("eq" ∷ "ne" ∷ "lt" ∷ "lte" ∷ "gt" ∷ "gte" ∷ "like" ∷ []) op
    then some (exactly 1)
    else if op == "in" || op == "not_in"
    then some some_values
    else if op == "is_null" || op == "is_not_null"
    then some (exactly 0)
    else none

unfoldable pub check_arity : List PathPart → Arity → ℕ → Checked (Unit {0})
check_arity path (exactly n) given =
    fail_if (not (given == n))
      (at path (if n == 0 then "must contain 0 values" else "must contain 1 values"))
check_arity path some_values given =
    fail_if (given == 0) (at path "must contain at least one value")

module _ (codec : Codec) (limits : FilterLimits) where
  -- The body of the loop over the values of a predicate.
  unfoldable pub check_value : List PathPart → Representation → ℕ → TypedValue → Checked (Unit {0})
  check_value path r i v = do
    fail_if (r == representation_source_text && not (v.type == "string"))
        (at (path /+ name "values") "source_text requires string values")
    elim (bind_value codec v) [
      | ok b ↦ ok tt
      | err message ↦ err (at (path ++ name "values" ∷ index i ∷ []) message)
    ]

  -- From the test for nil values on.
  unfoldable pub validate_values :
      List PathPart → Representation → Arity → Option (List TypedValue) → Stats → Checked Stats
  validate_values path r arity none stats = err (at (path /+ name "values") "is required")
  validate_values path r arity (some vs) stats = do
    check_arity (path /+ name "values") arity (length vs)
    fail_if (leb limits.max_predicates stats.predicates)
        (at path "exceeds the effective predicate limit")
    fail_if (ltb limits.max_parameters (stats.parameters + length vs))
        (at (path /+ name "values") "exceeds the effective parameter limit")
    each_from (check_value path r) 0 vs
    ok (record stats {
      predicates = stats.predicates + 1;
      parameters = stats.parameters + length vs;
    })

  -- The case "predicate".
  unfoldable pub validate_predicate : List PathPart → Filter → Stats → Checked Stats
  unfolding validate_values
  validate_predicate path (filter r kind field operator values expressions) stats = do
    fail_if (not (length_filters expressions == 0))
        (at (path /+ name "expressions") "is only valid for filter groups")
    fail_if (ltb protocol_max_filter_items (length (value_list values)))
        (at (path /+ name "values") "exceeds the protocol array limit")
    validate_identifier (path /+ name "field") field
    elim (operator_arity operator) [
      | none ↦ err (at (path /+ name "operator") "contains an unsupported operator")
      | some arity ↦ validate_values path r arity values stats
    ]

  -- The case "group", before the loop over its expressions.
  unfoldable pub check_group : List PathPart → Filter → Checked (Unit {0})
  check_group path (filter r kind field operator values expressions) = do
    fail_if (not (field == []) || is_some values) (at path "group must not contain field or values")
    fail_if (ltb protocol_max_filter_items (length_filters expressions))
        (at (path /+ name "expressions") "exceeds the protocol array limit")
    fail_if (not (operator == "and") && not (operator == "or"))
        (at (path /+ name "operator") "must be and or or")
    fail_if (ltb (length_filters expressions) 2)
        (at (path /+ name "expressions") "must contain at least two expressions")

  -- What stands before the switch on the kind.
  unfoldable pub check_node : List PathPart → Filter → ℕ → Checked (Unit {0})
  check_node path (filter r kind field operator values expressions) depth = do
    validate_representation path r
    fail_if (not (kind == "predicate") && not (r == ""))
        (at path "representation requires a predicate")
    fail_if (ltb limits.max_depth depth) (at path "exceeds the effective expression depth limit")

  unfoldable mutual
    pub validate_filter : List PathPart → Filter → ℕ → Stats → Checked Stats
    validate_filter path (filter r kind field operator values expressions) depth stats =
        let f = filter r kind field operator values expressions in
        let s = record stats { expression_depth = max stats.expression_depth depth } in
        do
          check_node path f depth
          if kind == "predicate"
              then validate_predicate path f s
              else if kind == "group"
              then (check_group path f >> validate_filters path 0 expressions (suc depth) s)
              else err (at (path /+ name "kind") "must be predicate or group")

    -- The loop over the expressions of a group.
    pub validate_filters : List PathPart → ℕ → Filters → ℕ → Stats → Checked Stats
    validate_filters path i nil depth stats = ok stats
    validate_filters path i (cons f fs) depth stats = do
      s ← validate_filter (path ++ name "expressions" ∷ index i ∷ []) f depth stats
      validate_filters path (suc i) fs depth s
