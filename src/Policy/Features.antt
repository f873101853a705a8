-- ===== src/Policy/Features.antt =====
-- internal/policy/policy.go `referencedFields`, `collectFields`, `collectOperators` and
-- `authorizeFeatures`, and internal/queryspec/representation.go `UsesSourceText`.
pub mod Fields
pub mod Grants
pub mod Nodes
use quordon.Prelude.{
  ℕ, Bool, true, false, not, ◌&&◌, ◌||◌, List, [], ◌∷◌, ◌++◌, map, ◌==◌, string_has_eq, nat_has_eq,
  text_has_eq, Text, String, length, any, all, contains, ltb, Option, none, some, if◌then◌else◌,
  Result, ok, err, ◌>>=◌, ◌>>◌, fail_if,
}
use quordon.Queryspec.{
  Filter, filter, Filters, nil, cons, Selection, Sort, NormalizedSpec, representation_source_text,
}
use quordon.Policy.{QueryPolicy, PolicyError, denial, denied_query_feature}

unfoldable mutual
  pub collect_fields : Filter → List Text
  collect_fields (filter r kind field operator values expressions) =
      if kind == "predicate" then field ∷ [] else collect_all_fields expressions

  pub collect_all_fields : Filters → List Text
  collect_all_fields nil = []
  collect_all_fields (cons f fs) = collect_fields f ++ collect_all_fields fs

unfoldable mutual
  pub collect_operators : Filter → List String
  collect_operators (filter r kind field operator values expressions) =
      if kind == "predicate" then operator ∷ [] else collect_all_operators expressions

  pub collect_all_operators : Filters → List String
  collect_all_operators nil = []
  collect_all_operators (cons f fs) = collect_operators f ++ collect_all_operators fs

-- The order of Go's strings, byte by byte.
unfoldable pub text_lt : Text → Text → Bool
text_lt [] [] = false
text_lt [] (b ∷ t) = true
text_lt (a ∷ s) [] = false
text_lt (a ∷ s) (b ∷ t) = ltb a b || a == b && text_lt s t

-- A set of names in order: the keys of `seen`, sorted.
unfoldable pub insert_field : Text → List Text → List Text
unfolding text_lt
insert_field f [] = f ∷ []
insert_field f (g ∷ gs) =
    if f == g then g ∷ gs else if text_lt f g then f ∷ g ∷ gs else g ∷ insert_field f gs

-- `add`
unfoldable pub add_field : Text → List Text → List Text
add_field f seen = if f == [] then seen else insert_field f seen

unfoldable pub add_fields : List Text → List Text → List Text
add_fields [] seen = seen
add_fields (f ∷ fs) seen = add_field f (add_fields fs seen)

abbrev pub filter_fields : Option Filter → List Text
filter_fields none = []
filter_fields (some f) = collect_fields f

-- Every occurrence of a field in the query.
abbrev pub field_occurrences : NormalizedSpec → List Text
field_occurrences s =
    map (λ x. x.field) s.projection
    ++ (filter_fields s.where_filter ++ (s.group_by ++ map (λ x. x.field) s.order_by))

unfoldable pub referenced_fields : NormalizedSpec → List Text
referenced_fields s = add_fields (field_occurrences s) []

unfoldable mutual
  -- `FilterUsesSourceText`
  pub filter_uses_source_text : Filter → Bool
  filter_uses_source_text (filter r kind field operator values expressions) =
      r == representation_source_text || filters_use_source_text expressions

  pub filters_use_source_text : Filters → Bool
  filters_use_source_text nil = false
  filters_use_source_text (cons f fs) = filter_uses_source_text f || filters_use_source_text fs

abbrev pub option_uses_source_text : Option Filter → Bool
option_uses_source_text none = false
option_uses_source_text (some f) = filter_uses_source_text f

unfoldable pub uses_source_text : NormalizedSpec → Bool
uses_source_text s =
    any (λ x. x.representation == representation_source_text) s.projection
    || any (λ x. x.representation == representation_source_text) s.order_by
    || option_uses_source_text s.where_filter

-- The filter's part of `authorizeFeatures`.
unfoldable pub authorize_filter : QueryPolicy → Option Filter → Result PolicyError (Unit {0})
authorize_filter policy none = ok tt
authorize_filter policy (some f) = do
  fail_if (not policy.allow_filtering) (denial denied_query_feature)
  fail_if (not (all (λ op. contains policy.allowed_filter_operators op) (collect_operators f)))
      (denial denied_query_feature)

unfoldable pub authorize_features : QueryPolicy → NormalizedSpec → Result PolicyError (Unit {0})
unfolding authorize_filter
authorize_features policy s = do
  fail_if (uses_source_text s && not policy.allow_source_text) (denial denied_query_feature)
  authorize_filter policy s.where_filter
  fail_if (not (length s.group_by == 0) && not policy.allow_group_by) (denial denied_query_feature)
  fail_if (not (length s.order_by == 0) && not policy.allow_sorting) (denial denied_query_feature)
  fail_if
      (any (λ x. x.kind == "aggregate" && not (contains policy.allowed_aggregates x.function))
        s.projection)
      (denial denied_query_feature)
