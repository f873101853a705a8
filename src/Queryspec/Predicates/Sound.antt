-- ===== src/Queryspec/Predicates/Sound.antt =====
-- internal/queryspec/types.go `validateFilter` against the well-formed filters and their counts.
use quordon.Prelude.{
  ℕ, suc, ◌+◌, max, ◌≤◌, ◌≡◌, refl, ◌⊎◌, true, false, List, [], ◌∷◌, ◌++◌, ◌==◌, string_has_eq,
  length, String, Option, none, some, ok, All, arith, ==_iff, ==_false_iff, >>=-eq-ok, each_from,
  sym, ap, Bool-cases, Result-cases, Option-cases, inl, inr, not, ◌&&◌, text_has_eq, nat_has_eq,
}
use mathlib.Core.Path.{subst}
use quordon.Queryspec.{
  PathPart, name, index, ◌/+◌, Filter, filter, Filters, nil, cons, TypedValue, Stats,
  Representation, representation_valid, representation_source_text, length_filters, value_list,
}
use quordon.Queryspec.Identifier.{validate_identifier, validate_identifier-ok}
use quordon.Queryspec.Value.{Codec, bind_value}
use quordon.Queryspec.Predicates.{
  Arity, exactly, some_values, operator_arity, FilterLimits, check_value, check_node, check_group,
  validate_values, validate_predicate, validate_filter, validate_filters, check_arity,
  validate_representation,
}
use quordon.Queryspec.Predicates.Counts.{
  predicate_count, predicate_counts, parameter_count, parameter_counts, levels_below, levels, Fits,
  Binds, IsWellFormed, AreWellFormed, a_predicate, a_group, none_left, one_more,
}

module _ (codec : Codec) (limits : FilterLimits) where
  check_value_sound :
      (path : List PathPart) (r : Representation) (i : ℕ) (v : TypedValue) {u : Unit {0}}
      → check_value codec limits path r i v ≡ ok u
      → Binds codec r v
  unfolding check_value
  check_value_sound path r i v h = elim (Result-cases (bind_value codec v)) [
    | inl (b, e) ↦ (
      (b, e),
      elim (Bool-cases (r == representation_source_text)) [
        | inl source ↦ elim (Bool-cases (v.type == "string")) [
          | inl string ↦ inr ((==_iff v.type "string").0 string)
          | inr other ↦ absurd (ground arith)
        ]
        | inr plain ↦ inl ((==_false_iff r representation_source_text).0 plain)
      ],
    )
    | inr (m, e) ↦ ground arith
  ]

  values_sound :
      (path : List PathPart) (r : Representation) (i : ℕ) (vs : List TypedValue) {u : Unit {0}}
      → each_from (check_value codec limits path r) i vs ≡ ok u
      → All (Binds codec r) vs
  values_sound path r i [] h = tt
  values_sound path r i (v ∷ vs) h =
      let (_, here, later) = >>=-eq-ok _ _ h in
      (check_value_sound path r i v here, values_sound path r (suc i) vs later)

  -- What a pass over a part establishes, from the counts before and after it.
  abbrev pub Counted : Stats → Stats → ℕ → ℕ → ℕ → Type 0
  Counted s s' predicates parameters depth =
      (s'.predicates ≡ s.predicates + predicates)
      × (s'.parameters ≡ s.parameters + parameters)
      × (s'.expression_depth ≡ max s.expression_depth depth)

  check_arity_sound :
      (path : List PathPart) (a : Arity) (n : ℕ) {u : Unit {0}}
      → check_arity path a n ≡ ok u
      → Fits a n
  unfolding check_arity
  check_arity_sound path (exactly k) n h = ground arith
  check_arity_sound path some_values n h = ground arith

  nil_of_length : (es : Filters) → length_filters es ≡ 0 → es ≡ nil
  nil_of_length nil h = refl
  nil_of_length (cons f fs) h = absurd (omega arith)

  values_counted :
      (path : List PathPart) (r : Representation) (a : Arity) (values : Option (List TypedValue))
      (s s' : Stats)
      → validate_values codec limits path r a values s ≡ ok s'
      → (vs : List TypedValue) × (values ≡ some vs)
        × Fits a (length vs)
        × All (Binds codec r) vs
        × (s'.predicates ≡ s.predicates + 1)
        × (s'.parameters ≡ s.parameters + length vs)
        × (s'.expression_depth ≡ s.expression_depth)
        × (s'.predicates ≤ limits.max_predicates)
        × (s'.parameters ≤ limits.max_parameters)
  unfolding validate_values
  values_counted path r a none s s' h = cc
  values_counted path r a (some vs) s s' h =
      let fits : check_arity (path /+ name "values") a (length vs) ≡ ok tt = ground arith in
      let bound : each_from (check_value codec limits path r) 0 vs ≡ ok tt = ground arith in
      (
        vs,
        refl,
        check_arity_sound _ a (length vs) fits,
        values_sound path r 0 vs bound,
        ground arith,
        ground arith,
        ground arith,
        ground arith,
        ground arith,
      )

  predicate_sound :
      (path : List PathPart) (r : Representation) (kind : String) (field : List ℕ)
      (operator : String) (values : Option (List TypedValue)) (es : Filters) (s s' : Stats)
      → kind ≡ "predicate"
      → representation_valid r ≡ true
      → validate_predicate codec limits path (filter r kind field operator values es) s ≡ ok s'
      → IsWellFormed codec (filter r kind field operator values es)
        × (s'.predicates ≡ s.predicates + 1)
        × (s'.parameters ≡ s.parameters + length (value_list values))
        × (s'.expression_depth ≡ s.expression_depth)
        × (s'.predicates ≤ limits.max_predicates)
        × (s'.parameters ≤ limits.max_parameters)
        × (es ≡ nil)
  unfolding validate_predicate
  predicate_sound path r kind field operator values es s s' k valid h =
      let leaf : es ≡ nil = nil_of_length es (ground arith) in
      let short : length (value_list values) ≤ 200 = ground arith in
      let field_ok : validate_identifier (path /+ name "field") field ≡ ok tt = ground arith in
      elim (Option-cases (operator_arity operator)) [
        | inl e ↦ absurd (ground arith)
        | inr (arity, e) ↦
            let counted : validate_values codec limits path r arity values s ≡ ok s' =
              ground arith in
            let (vs, some_vs, fits, binds, n, p, d, n_le, p_le) =
              values_counted path r arity values s s' counted in
            let count : length vs ≡ length (value_list values) =
              sym (ap (λ v. length (value_list v)) some_vs) in
            (
              subst (λ v. IsWellFormed codec (filter r kind field operator v es)) (sym some_vs)
                  (a_predicate k valid leaf (omega (arith, count, short))
                    (validate_identifier-ok _ field field_ok) e fits binds),
              n,
              omega arith,
              d,
              n_le,
              p_le,
              leaf,
            )
      ]

  either_operator :
      (op : String) → (not (op == "and") && not (op == "or")) ≡ false → (op ≡ "and") ⊎ (op ≡ "or")
  either_operator op h = elim (Bool-cases (op == "and")) [
    | inl a ↦ inl ((==_iff op "and").0 a)
    | inr a ↦ elim (Bool-cases (op == "or")) [
      | inl o ↦ inr ((==_iff op "or").0 o)
      | inr o ↦ absurd (ground arith)
    ]
  ]

  group_sound :
      (path : List PathPart) (r : Representation) (kind : String) (field : List ℕ)
      (operator : String) (values : Option (List TypedValue)) (es : Filters)
      → kind ≡ "group"
      → r ≡ ""
      → check_group codec limits path (filter r kind field operator values es) ≡ ok tt
      → AreWellFormed codec es
      → IsWellFormed codec (filter r kind field operator values es)
  unfolding check_group
  group_sound path r kind field operator values es k plain h all =
      a_group k plain ((==_iff field []).0 (ground arith)) (ground arith)
        (either_operator operator (ground arith)) (ground arith) (ground arith) all

  node_sound :
      (path : List PathPart) (r : Representation) (kind : String) (field : List ℕ)
      (operator : String) (values : Option (List TypedValue)) (es : Filters) (depth : ℕ)
      → check_node codec limits path (filter r kind field operator values es) depth ≡ ok tt
      → (representation_valid r ≡ true)
        × ((kind == "predicate") ≡ false → r ≡ "")
        × (depth ≤ limits.max_depth)
  unfolding check_node validate_representation
  node_sound path r kind field operator values es depth h =
      (ground arith, (λ other. (==_iff r "").0 (ground arith)), ground arith)

  -- The counts of a pass that begins within the limits end within them.
  abbrev pub Kept : Stats → Stats → Type 0
  Kept s s' =
      (s.predicates ≤ limits.max_predicates → s'.predicates ≤ limits.max_predicates)
      × (s.parameters ≤ limits.max_parameters → s'.parameters ≤ limits.max_parameters)

  mutual
    unfolding validate_filter predicate_count parameter_count levels_below

    filter_sound :
        (path : List PathPart) (f : Filter) (depth : ℕ) (s s' : Stats)
        → validate_filter codec limits path f depth s ≡ ok s'
        → IsWellFormed codec f
          × Counted s s' (predicate_count f) (parameter_count f) (depth + levels_below f)
          × (depth + levels_below f ≤ limits.max_depth)
          × Kept s s'
    filter_sound path (filter r kind field operator values es) depth s s' h =
        let f = filter r kind field operator values es in
        let s₁ : Stats = record s { expression_depth = max s.expression_depth depth } in
        let node : check_node codec limits path f depth ≡ ok tt = ground arith in
        elim (Bool-cases (kind == "predicate")) [
          | inl p ↦
              let step : validate_predicate codec limits path f s₁ ≡ ok s' = ground arith in
              let (valid, _, deep) = node_sound path r kind field operator values es depth node in
              let (wf, n, m, d, n_le, m_le, leaf) =
                predicate_sound path r kind field operator values es s₁ s'
                  ((==_iff kind "predicate").0 p) valid step in
              let flat : levels es ≡ 0 = ap levels leaf in
              (
                wf,
                (rw p n, rw p m, omega (arith, d, flat)),
                omega (arith, deep, flat),
                ((λ _. n_le), λ _. m_le),
              )
          | inr not_p ↦ elim (Bool-cases (kind == "group")) [
            | inl g ↦
                let group : check_group codec limits path f ≡ ok tt = ground arith in
                let step : validate_filters codec limits path 0 es (suc depth) s₁ ≡ ok s' =
                  ground arith in
                let (_, plain, deep) = node_sound path r kind field operator values es depth node in
                let (wfs, (n, m, d), deeps, kept) =
                  filters_sound path 0 es depth s₁ s' (omega arith) deep step in
                (
                  group_sound path r kind field operator values es ((==_iff kind "group").0 g)
                      (plain not_p) group wfs,
                  (rw not_p n, rw not_p m, omega (arith, d)),
                  deeps,
                  kept,
                )
            | inr not_g ↦ absurd (ground arith)
          ]
        ]

    filters_sound :
        (path : List PathPart) (i : ℕ) (fs : Filters) (depth : ℕ) (s s' : Stats)
        → depth ≤ s.expression_depth
        → depth ≤ limits.max_depth
        → validate_filters codec limits path i fs (suc depth) s ≡ ok s'
        → AreWellFormed codec fs
          × Counted s s' (predicate_counts fs) (parameter_counts fs) (depth + levels fs)
          × (depth + levels fs ≤ limits.max_depth)
          × Kept s s'
    filters_sound path i nil depth s s' lo hi h =
        let same : s ≡ s' = cc in
        rw (← same)
          (none_left, (omega arith, omega arith, omega arith), omega arith, ((λ n. n), λ n. n))
    filters_sound path i (cons f fs) depth s s' lo hi h =
        let (s₁, first, rest) =
          >>=-eq-ok
            (validate_filter codec limits (path ++ name "expressions" ∷ index i ∷ []) f (suc depth)
              s)
            (λ t. validate_filters codec limits path (suc i) fs (suc depth) t) h in
        let (wf, (n, m, d), deep, kept) = filter_sound _ f (suc depth) s s₁ first in
        let (wfs, (ns, ms, ds), deeps, kepts) =
          filters_sound path (suc i) fs depth s₁ s' (omega arith) hi rest in
        (
          one_more wf wfs,
          (omega arith, omega arith, omega arith),
          omega arith,
          ((λ n. kepts.0 (kept.0 n)), λ n. kepts.1 (kept.1 n)),
        )

  -- A filter that the pass accepts is well formed, `Stats` grows by exactly the predicates and
  -- parameters that the filter holds, the recorded depth is that of its deepest node, and counts
  -- that begin within the limits end within them.
  pub validate_filter_sound :
      (path : List PathPart) (f : Filter) (depth : ℕ) (s s' : Stats)
      → s.predicates ≤ limits.max_predicates
      → s.parameters ≤ limits.max_parameters
      → validate_filter codec limits path f depth s ≡ ok s'
      → IsWellFormed codec f
        × Counted s s' (predicate_count f) (parameter_count f) (depth + levels_below f)
        × (depth + levels_below f ≤ limits.max_depth)
        × (s'.predicates ≤ limits.max_predicates)
        × (s'.parameters ≤ limits.max_parameters)
  validate_filter_sound path f depth s s' few small h =
      let (wf, counted, deep, (predicates, parameters)) = filter_sound path f depth s s' h in
      (wf, counted, deep, predicates few, parameters small)
