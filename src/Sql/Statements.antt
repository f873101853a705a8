-- ===== src/Sql/Statements.antt =====
-- internal/adapters/mysql8/mysql8.go `compileSelect`: whole statements.
use quordon.Prelude.{
  ℕ, zero, suc, ◌+◌, ◌%◌, ◌/◌, ◌<◌, ◌≡◌, refl, ◌⊎◌, inl, inr, Bool, true, false, List, [], ◌∷◌,
  ◌++◌, map, ◌==◌, string_has_eq, text_has_eq, nat_eq, ltb, length, length-append, All, Text, text,
  text_eq, String, Option, none, some, ok, arith, Bool-cases,
}
use quordon.Domain.{Limits}
use quordon.Queryspec.{
  ResourceRef, Filter, Selection, Sort, Spec, NormalizedSpec, Stats, Validated,
  representation_source_text,
}
use quordon.Queryspec.Identifier.{IsPortable}
use quordon.Queryspec.Value.{Codec, Bind, int}
use quordon.Queryspec.Validate.{validate, validate_simple_select}
use quordon.Queryspec.Validate.Portable.{IsOptional, IsSelection, IsSort}
use quordon.Queryspec.Validate.Bounds.{IsValidSpec, Describes, validate_sound}
use quordon.Policy.Query.Grant.{validate_simple_select_iff}
use quordon.Sql.{
  quote, join_more, join_with, to_upper, qualify_source_field, source_text_expression,
  represented_field, digits, decimal, alias_clause, order_by_clause, where_clause,
  select_expression, compile_select,
}
use quordon.Sql.Placeholders.{holes, holes_append, holes-quote, holes-source_text}
use quordon.Sql.Arguments.{filter-Compiles}

module _ {A : Type 0} (f : A → Text) where
  more_plain :
      (xs : List A) → All (λ x. holes (f x) ≡ 0) xs → holes (join_more (text ", ") (map f xs)) ≡ 0
  more_plain [] plain = refl
  more_plain (x ∷ xs) (first, rest) = let tail = more_plain xs rest in grind (arith, holes_append)

  join_plain :
      (xs : List A) → All (λ x. holes (f x) ≡ 0) xs → holes (join_with (text ", ") (map f xs)) ≡ 0
  join_plain [] plain = refl
  join_plain (x ∷ xs) (first, rest) = let tail = more_plain xs rest in grind (arith, holes_append)

digits_plain : (fuel n : ℕ) (s : Text) → holes s ≡ 0 → holes (digits fuel n s) ≡ 0
unfolding digits
digits_plain zero n s plain = plain
digits_plain (suc fuel) n s plain =
    let low : n % 10 < 10 = omega arith in
    let mark : nat_eq (b'0' + n % 10) b'?' ≡ false = ground arith in
    let rest = digits_plain fuel (n / 10) ((b'0' + n % 10) ∷ s) (rw mark plain) in
    elim (Bool-cases (ltb n 10)) [
      | inl small ↦ let one : nat_eq (b'0' + n) b'?' ≡ false = ground arith in rw (small, one) plain
      | inr large ↦ rw large rest
    ]

decimal_plain : (n : ℕ) → holes (decimal n) ≡ 0
unfolding decimal
decimal_plain n = digits_plain (suc n) n [] refl

qualified_plain :
    (source : ResourceRef) (field : Text)
    → IsPortable source.schema
    → IsPortable source.name
    → IsPortable field
    → holes (qualify_source_field source field) ≡ 0
unfolding qualify_source_field
qualified_plain source field schema name portable =
    let a = holes-quote source.schema schema in
    let b = holes-quote source.name name in
    let c = holes-quote field portable in grind (arith, holes_append)

represented_plain :
    (field : Text) (r : String) (binary : Bool)
    → holes field ≡ 0
    → holes (represented_field field r binary) ≡ 0
unfolding represented_field source_text_expression
represented_plain field r true plain = elim (Bool-cases (r == representation_source_text)) [
  | inl source ↦ rw source (holes-source_text field plain)
  | inr other ↦ rw other plain
]
represented_plain field r false plain = elim (Bool-cases (r == representation_source_text)) [
  | inl source ↦ rw source (grind (arith, holes_append))
  | inr other ↦ rw other plain
]

alias_plain : (s : Selection) → IsPortable s.field → IsOptional s.alias → holes (alias_clause s) ≡ 0
unfolding alias_clause text_eq
alias_plain s field alias =
    let of_field = holes-quote s.field field in
    elim alias [
      | inl absent ↦ elim (Bool-cases (s.representation == representation_source_text)) [
        | inl source ↦ rw (absent, source) (grind (arith, holes_append))
        | inr other ↦ rw (absent, other) refl
      ]
      | inr portable ↦
          let of_alias = holes-quote s.alias portable in
          elim (Bool-cases (s.alias == [])) [
            | inr named ↦ rw named (grind (arith, holes_append))
            | inl empty ↦ elim (Bool-cases (s.representation == representation_source_text)) [
              | inl source ↦ rw (empty, source) (grind (arith, holes_append))
              | inr other ↦ rw (empty, other) refl
            ]
          ]
    ]

direction_plain :
    (direction : String)
    → (direction ≡ "asc") ⊎ (direction ≡ "desc")
    → holes (to_upper direction) ≡ 0
direction_plain direction (inl e) = rw e refl
direction_plain direction (inr e) = rw e refl

module _ (codec : Codec) (spec : NormalizedSpec) (valid : IsValidSpec spec) where
  select_plain :
      (s : Selection)
      → s.kind ≡ "field"
      → IsSelection s
      → holes (select_expression spec.source s) ≡ 0
  unfolding select_expression
  select_plain s simple selection = elim selection.kind [
    | inr (aggregate, _) ↦ absurd cc
    | inl (_, portable) ↦
        let a =
          represented_plain (qualify_source_field spec.source s.field) s.representation false
            (qualified_plain spec.source s.field valid.schema valid.name portable) in
        let b = alias_plain s portable selection.alias in grind (arith, holes_append)
  ]

  selects_plain :
      (xs : List Selection)
      → All (λ (x : Selection). x.kind ≡ "field") xs
      → All IsSelection xs
      → All (λ x. holes (select_expression spec.source x) ≡ 0) xs
  selects_plain [] simple selections = tt
  selects_plain (x ∷ xs) (simple, more) (selection, selections) =
      (select_plain x simple selection, selects_plain xs more selections)

  sort_plain :
      (s : Sort)
      → IsSort s
      → holes (
          represented_field (qualify_source_field spec.source s.field) s.representation true
          ++ text " "
          ++ to_upper s.direction)
        ≡ 0
  sort_plain s sort =
      let a =
        represented_plain (qualify_source_field spec.source s.field) s.representation true
          (qualified_plain spec.source s.field valid.schema valid.name sort.field) in
      let b = direction_plain s.direction sort.direction in grind (arith, holes_append)

  sorts_plain :
      (xs : List Sort)
      → All IsSort xs
      → All
          (λ s.
            holes (
              represented_field (qualify_source_field spec.source s.field) s.representation true
              ++ text " "
              ++ to_upper s.direction)
            ≡ 0)
          xs
  sorts_plain [] sorts = tt
  sorts_plain (x ∷ xs) (sort, sorts) = (sort_plain x sort, sorts_plain xs sorts)

  order_by_plain : (xs : List Sort) → All IsSort xs → holes (order_by_clause spec.source xs) ≡ 0
  unfolding order_by_clause
  order_by_plain [] sorts = refl
  order_by_plain (x ∷ xs) sorts =
      let joined =
        join_plain
          (λ (s : Sort).
            represented_field (qualify_source_field spec.source s.field) s.representation true
            ++ text " "
            ++ to_upper s.direction)
          (x ∷ xs) (sorts_plain (x ∷ xs) sorts) in
      grind (arith, holes_append)

  -- The clause of the filter.
  where_Compiles :
      (f : Option Filter) (stats : Stats)
      → Describes codec f stats
      → (w : Text) × (args : List Bind) × (where_clause codec f ≡ ok (w, args))
        × (holes w ≡ length args)
        × (length args + 2 ≡ stats.parameters)
  unfolding where_clause
  where_Compiles none stats (_, _, parameters) = ([], [], refl, refl, omega (arith, parameters))
  where_Compiles (some f) stats (wf, _, _, parameters) =
      let (w, args, compiled, marks, same) = filter-Compiles codec f wf in
      (
        text " WHERE " ++ w,
        args,
        rw compiled refl,
        grind (arith, holes_append),
        omega (arith, parameters, same),
      )

-- A validated query that is a simple select compiles to a statement with one placeholder for each
-- argument, and the arguments are as many as the parameters that the validation counted.
pub compile_select-validate :
    (codec : Codec) (spec : Spec) (l : Limits) (q : Validated) (deadline_ms row_limit : ℕ)
    → validate codec spec l ≡ ok q
    → validate_simple_select q ≡ ok tt
    → (sql : Text) × (args : List Bind) × (compile_select codec q.spec deadline_ms row_limit
        ≡ ok (sql, args))
      × (holes sql ≡ length args)
      × (length args ≡ q.stats.parameters)
unfolding compile_select
compile_select-validate codec spec l q deadline_ms row_limit h simple =
    let (_, _, valid, describes) = validate_sound codec spec l q h in
    let fields = ((validate_simple_select_iff q).0 simple).fields in
    let (w, args, compiled, marks, same) =
      where_Compiles codec q.spec valid q.spec.where_filter q.stats describes in
    let a =
      join_plain (select_expression q.spec.source) q.spec.projection
        (selects_plain codec q.spec valid q.spec.projection fields valid.projection) in
    let b = order_by_plain codec q.spec valid q.spec.order_by valid.order_by in
    let c = decimal_plain deadline_ms in
    let d = holes-quote q.spec.source.schema valid.schema in
    let e = holes-quote q.spec.source.name valid.name in
    (
      text "SELECT /*+ MAX_EXECUTION_TIME("
          ++ decimal deadline_ms
          ++ text ") */ "
          ++ join_with (text ", ") (map (select_expression q.spec.source) q.spec.projection)
          ++ text " FROM "
          ++ quote q.spec.source.schema
          ++ text "."
          ++ quote q.spec.source.name
          ++ w
          ++ order_by_clause q.spec.source q.spec.order_by
          ++ text " LIMIT ? OFFSET ?",
      args ++ (int row_limit ∷ int q.spec.offset ∷ []),
      rw compiled refl,
      grind (arith, holes_append, length-append args (int row_limit ∷ int q.spec.offset ∷ [])),
      omega (arith, same, length-append args (int row_limit ∷ int q.spec.offset ∷ [])),
    )
