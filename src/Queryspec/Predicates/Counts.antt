-- ===== src/Queryspec/Predicates/Counts.antt =====
-- What `validateFilter` accepts and counts, described without its pass: the well-formed filters, and
-- the numbers of predicates, parameters and levels.
use quordon.Prelude.{
  ℕ, suc, ◌+◌, max, ◌≤◌, ◌≡◌, ◌≢◌, ◌⊎◌, true, List, [], ◌==◌, string_has_eq, length, String, Option,
  none, some, ok, All, if◌then◌else◌,
}
use quordon.Queryspec.{
  Filter, filter, Filters, nil, cons, TypedValue, Representation, representation_valid,
  representation_source_text, length_filters, value_list,
}
use quordon.Queryspec.Identifier.{IsPortable}
use quordon.Queryspec.Value.{Codec, Bind, bind_value}
use quordon.Queryspec.Predicates.{Arity, exactly, some_values, operator_arity}

unfoldable mutual
  -- The predicates among the nodes of a filter.
  pub predicate_count : Filter → ℕ
  predicate_count (filter r kind field operator values expressions) =
      if kind == "predicate" then 1 else predicate_counts expressions

  pub predicate_counts : Filters → ℕ
  predicate_counts nil = 0
  predicate_counts (cons f fs) = predicate_count f + predicate_counts fs

unfoldable mutual
  -- The values that its predicates compare with.
  pub parameter_count : Filter → ℕ
  parameter_count (filter r kind field operator values expressions) =
      if kind == "predicate" then length (value_list values) else parameter_counts expressions

  pub parameter_counts : Filters → ℕ
  parameter_counts nil = 0
  parameter_counts (cons f fs) = parameter_count f + parameter_counts fs

unfoldable mutual
  -- The levels below a node.
  pub levels_below : Filter → ℕ
  levels_below (filter r kind field operator values expressions) = levels expressions

  pub levels : Filters → ℕ
  levels nil = 0
  levels (cons f fs) = max (suc (levels_below f)) (levels fs)

abbrev pub Fits : Arity → ℕ → Type 0
Fits (exactly n) given = given ≡ n
Fits some_values given = 1 ≤ given

module _ (codec : Codec) where
  -- A value of the type that it states, a string where the source text is compared.
  abbrev pub Binds : Representation → TypedValue → Type 0
  Binds r v =
      ((b : Bind) × (bind_value codec v ≡ ok b))
      × ((r ≢ representation_source_text) ⊎ (v.type ≡ "string"))

  mutual
    pub data IsWellFormed : Filter → Type 0 where
      a_predicate :
          {r : Representation} {kind operator : String} {field : List ℕ} {vs : List TypedValue}
          {es : Filters} {arity : Arity}
          → kind ≡ "predicate"
          → representation_valid r ≡ true
          → es ≡ nil
          → length vs ≤ 200
          → IsPortable field
          → operator_arity operator ≡ some arity
          → Fits arity (length vs)
          → All (Binds r) vs
          → IsWellFormed (filter r kind field operator (some vs) es)
      a_group :
          {r : Representation} {kind operator : String} {field : List ℕ}
          {values : Option (List TypedValue)} {es : Filters}
          → kind ≡ "group"
          → r ≡ ""
          → field ≡ []
          → values ≡ none
          → (operator ≡ "and") ⊎ (operator ≡ "or")
          → 2 ≤ length_filters es
          → length_filters es ≤ 200
          → AreWellFormed es
          → IsWellFormed (filter r kind field operator values es)

    pub data AreWellFormed : Filters → Type 0 where
      none_left : AreWellFormed nil
      one_more :
          {f : Filter} {fs : Filters}
          → IsWellFormed f
          → AreWellFormed fs
          → AreWellFormed (cons f fs)
