-- ===== src/Queryspec/Validate/Portable.antt =====
-- internal/queryspec/types.go `Validate`: the identifiers of an accepted query.
use quordon.Prelude.{
  ℕ, suc, ◌≤◌, ◌≡◌, ◌⊎◌, inl, inr, Text, ok, length, arith, >>=-eq-ok, each_from, List, [], ◌∷◌,
  All, ==_iff, ◌==◌, string_has_eq, text_has_eq, Bool-cases,
}
use quordon.Queryspec.{PathPart, name, index, query_at, ◌/+◌, Checked, Selection, Sort, Spec}
use quordon.Queryspec.Identifier.{IsPortable, validate_identifier, validate_identifier-ok}
use quordon.Queryspec.Projection.{
  check_optional, check_field, check_aggregate, validate_selection, validate_sort,
}
use quordon.Queryspec.Validate.{check_source, check_projection, check_group_by, check_order_by}
use quordon.Domain.{Limits}

-- Left out, or a portable identifier.
abbrev pub IsOptional : Text → Type 0
IsOptional s = (s ≡ []) ⊎ IsPortable s

pub record IsSelection (s : Selection) : Type 0 where
  pub kind : (s.kind ≡ "field") × IsPortable s.field ⊎ (s.kind ≡ "aggregate") × IsOptional s.field
  pub alias : IsOptional s.alias

pub record IsSort (s : Sort) : Type 0 where
  pub field : IsPortable s.field
  pub direction : (s.direction ≡ "asc") ⊎ (s.direction ≡ "desc")

-- A loop of checks that passes has checked every item.
each_sound :
    {A : Type 0} (P : A → Type 0) (check : ℕ → A → Checked (Unit {0}))
    → ((i : ℕ) (a : A) → check i a ≡ ok tt → P a)
    → (i : ℕ) (xs : List A) → each_from check i xs ≡ ok tt
    → All P xs
each_sound P check sound i [] h = tt
each_sound P check sound i (x ∷ xs) h =
    let (_, here, later) = >>=-eq-ok (check i x) (λ _. each_from check (suc i) xs) h in
    (sound i x here, each_sound P check sound (suc i) xs later)

check_optional-ok : (path : List PathPart) (s : Text) → check_optional path s ≡ ok tt → IsOptional s
unfolding check_optional
check_optional-ok path s h = elim (Bool-cases (s == [])) [
  | inl e ↦ inl ((==_iff s []).0 e)
  | inr e ↦ inr (validate_identifier-ok path s (ground arith))
]

check_field-ok :
    (path : List PathPart) (s : Selection) → check_field path s ≡ ok tt → IsPortable s.field
unfolding check_field
check_field-ok path s h = validate_identifier-ok (path /+ name "field") s.field (ground arith)

check_aggregate-ok :
    (path : List PathPart) (s : Selection) → check_aggregate path s ≡ ok tt → IsOptional s.field
unfolding check_aggregate
check_aggregate-ok path s h = elim (Bool-cases (s.function == "count")) [
  | inl count ↦ check_optional-ok (path /+ name "field") s.field (ground arith)
  | inr other ↦
      let named : validate_identifier (path /+ name "field") s.field ≡ ok tt = ground arith in
      inr (validate_identifier-ok _ s.field named)
]

validate_selection-ok :
    (path : List PathPart) (s : Selection) → validate_selection path s ≡ ok tt → IsSelection s
unfolding validate_selection
validate_selection-ok path s h =
    let alias : check_optional (path /+ name "alias") s.alias ≡ ok tt = ground arith in
    elim (Bool-cases (s.kind == "field")) [
      | inl f ↦
          let checked : check_field path s ≡ ok tt = ground arith in
          record {
            kind = inl ((==_iff s.kind "field").0 f, check_field-ok path s checked);
            alias = check_optional-ok _ s.alias alias;
          }
      | inr not_f ↦ elim (Bool-cases (s.kind == "aggregate")) [
        | inl a ↦
            let checked : check_aggregate path s ≡ ok tt = ground arith in
            record {
              kind = inr ((==_iff s.kind "aggregate").0 a, check_aggregate-ok path s checked);
              alias = check_optional-ok _ s.alias alias;
            }
        | inr not_a ↦ absurd (ground arith)
      ]
    ]

validate_sort-ok : (path : List PathPart) (s : Sort) → validate_sort path s ≡ ok tt → IsSort s
unfolding validate_sort
validate_sort-ok path s h =
    let named : validate_identifier (path /+ name "field") s.field ≡ ok tt = ground arith in
    record {
      field = validate_identifier-ok _ s.field named;
      direction = elim (Bool-cases (s.direction == "asc")) [
        | inl a ↦ inl ((==_iff s.direction "asc").0 a)
        | inr a ↦ inr ((==_iff s.direction "desc").0 (ground arith))
      ];
    }

pub check_source-ok :
    (spec : Spec)
    → check_source spec ≡ ok tt
    → IsPortable spec.source.schema × IsPortable spec.source.name
unfolding check_source
check_source-ok spec h =
    let schema : validate_identifier (query_at "source" /+ name "schema") spec.source.schema
        ≡ ok tt =
      ground arith in
    let named : validate_identifier (query_at "source" /+ name "name") spec.source.name ≡ ok tt =
      ground arith in
    (
      validate_identifier-ok _ spec.source.schema schema,
      validate_identifier-ok _ spec.source.name named,
    )

pub check_projection-ok :
    (l : Limits) (spec : Spec)
    → check_projection l spec ≡ ok tt
    → (length spec.projection ≤ l.max_projection_fields)
      × (1 ≤ length spec.projection)
      × All IsSelection spec.projection
unfolding check_projection
check_projection-ok l spec h =
    let check =
      λ (i : ℕ) (s : Selection). validate_selection (query_at "projection" /+ index i) s in
    let loop : each_from check 0 spec.projection ≡ ok tt = ground arith in
    (
      ground arith,
      ground arith,
      each_sound IsSelection check (λ i s e. validate_selection-ok _ s e) 0 spec.projection loop,
    )

pub check_group_by-ok :
    (l : Limits) (spec : Spec)
    → check_group_by l spec ≡ ok tt
    → (length spec.group_by ≤ l.max_group_by_fields) × All IsPortable spec.group_by
unfolding check_group_by
check_group_by-ok l spec h =
    let check = λ (i : ℕ) (s : Text). validate_identifier (query_at "group_by" /+ index i) s in
    let loop : each_from check 0 spec.group_by ≡ ok tt = ground arith in
    (
      ground arith,
      each_sound IsPortable check (λ i s e. validate_identifier-ok _ s e) 0 spec.group_by loop,
    )

pub check_order_by-ok :
    (l : Limits) (spec : Spec)
    → check_order_by l spec ≡ ok tt
    → (length spec.order_by ≤ l.max_order_by_fields) × All IsSort spec.order_by
unfolding check_order_by
check_order_by-ok l spec h =
    let check = λ (i : ℕ) (s : Sort). validate_sort (query_at "order_by" /+ index i) s in
    let loop : each_from check 0 spec.order_by ≡ ok tt = ground arith in
    (ground arith, each_sound IsSort check (λ i s e. validate_sort-ok _ s e) 0 spec.order_by loop)
