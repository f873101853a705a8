-- ===== src/Policy/Features/Fields.antt =====
-- internal/policy/policy.go `referencedFields` against the names that occur in a query.
use quordon.Prelude.{
  ◌≡◌, ◌≢◌, refl, ◌⊎◌, inl, inr, ◌↔◌, true, false, List, [], ◌∷◌, Text, In, arith, ==_iff, ◌==◌,
  text_has_eq, nat_has_eq, Bool-cases, Any, Option, none, some, map, ◌++◌,
}
use quordon.Queryspec.{NormalizedSpec, Selection, Sort, Filter}
use quordon.Policy.Features.{
  insert_field, add_field, add_fields, field_occurrences, referenced_fields, text_lt, filter_fields,
}
use quordon.Policy.Features.Nodes.{OptionNames, In-append, In-collect_fields}

In-insert : (x f : Text) (gs : List Text) → In x (insert_field f gs) ↔ ((f ≡ x) ⊎ In x gs)
unfolding insert_field
In-insert x f [] = ground arith
In-insert x f (g ∷ gs) = ground (arith, ==_iff f g, In-insert x f gs)

In-add : (x f : Text) (gs : List Text) → In x (add_field f gs) ↔ ((f ≡ x) × (f ≢ []) ⊎ In x gs)
unfolding add_field
In-add x f gs = ground (arith, ==_iff f [], In-insert x f gs)

In-add_fields :
    (x : Text) (fs gs : List Text) → In x (add_fields fs gs) ↔ (In x fs × (x ≢ []) ⊎ In x gs)
unfolding add_fields
In-add_fields x [] gs = ground arith
In-add_fields x (f ∷ fs) gs = ground (arith, In-add x f (add_fields fs gs), In-add_fields x fs gs)

text_lt_total : (f g : Text) → text_lt f g ≡ false → (text_lt g f ≡ true) ⊎ (f ≡ g)
unfolding text_lt
text_lt_total [] [] h = inr refl
text_lt_total [] (b ∷ t) h = cc
text_lt_total (a ∷ s) [] h = inl refl
text_lt_total (a ∷ s) (b ∷ t) h = ground (arith, text_lt_total s t)

text_lt_behind : (f g : Text) → (f == g) ≡ false → text_lt f g ≡ false → text_lt g f ≡ true
text_lt_behind f g other behind = elim (text_lt_total f g behind) [
  | inl later ↦ later
  | inr same ↦ let equal : (f == g) ≡ true = (==_iff f g).1 same in cc
]

-- Strictly in the order of texts: so nothing stands twice.
abbrev pub IsOrdered : List Text → Type 0
IsOrdered [] = Unit
IsOrdered (f ∷ []) = Unit
IsOrdered (f ∷ g ∷ gs) = (text_lt f g ≡ true) × IsOrdered (g ∷ gs)

-- Put behind a lesser head, a new name keeps the order.
insert_behind :
    (h f : Text) (gs : List Text)
    → IsOrdered (h ∷ gs)
    → text_lt h f ≡ true
    → IsOrdered (h ∷ insert_field f gs)
unfolding insert_field
insert_behind h f [] o l = ground arith
insert_behind h f (g ∷ gs) o l = elim (Bool-cases (f == g)) [
  | inl same ↦ rw same o
  | inr other ↦ elim (Bool-cases (text_lt f g)) [
    | inl before ↦ rw (other, before) (l, (before, o.1))
    | inr behind ↦
        rw (other, behind) (o.0, insert_behind g f gs o.1 (text_lt_behind f g other behind))
  ]
]

insert_field-IsOrdered : (f : Text) (gs : List Text) → IsOrdered gs → IsOrdered (insert_field f gs)
unfolding insert_field
insert_field-IsOrdered f [] o = tt
insert_field-IsOrdered f (g ∷ gs) o = elim (Bool-cases (f == g)) [
  | inl same ↦ rw same o
  | inr other ↦ elim (Bool-cases (text_lt f g)) [
    | inl before ↦ rw (other, before) (before, o)
    | inr behind ↦ rw (other, behind) (insert_behind g f gs o (text_lt_behind f g other behind))
  ]
]

add_fields-IsOrdered : (fs gs : List Text) → IsOrdered gs → IsOrdered (add_fields fs gs)
unfolding add_fields add_field
add_fields-IsOrdered [] gs o = o
add_fields-IsOrdered (f ∷ fs) gs o =
    let rest = add_fields-IsOrdered fs gs o in
    elim (Bool-cases (f == [])) [
      | inl empty ↦ rw empty rest
      | inr named ↦ rw named (insert_field-IsOrdered f (add_fields fs gs) rest)
    ]

abbrev pub Selects : Text → List Selection → Type 0
Selects x projection = Any (λ (s : Selection). s.field ≡ x) projection

abbrev pub Sorts : Text → List Sort → Type 0
Sorts x order_by = Any (λ (s : Sort). s.field ≡ x) order_by

In-selected : (x : Text) (ss : List Selection) → In x (map (λ s. s.field) ss) ↔ Selects x ss
In-selected x [] = ground arith
In-selected x (s ∷ ss) = ground (arith, In-selected x ss)

In-sorted : (x : Text) (ss : List Sort) → In x (map (λ s. s.field) ss) ↔ Sorts x ss
In-sorted x [] = ground arith
In-sorted x (s ∷ ss) = ground (arith, In-sorted x ss)

In-filter_fields : (x : Text) (o : Option Filter) → In x (filter_fields o) ↔ OptionNames x o
In-filter_fields x none = ground arith
In-filter_fields x (some f) = In-collect_fields x f

-- A selection, a predicate of the filter, the grouping or a sorting names the field.
abbrev pub Refers : Text → NormalizedSpec → Type 0
Refers x spec =
    Selects x spec.projection
    ⊎ OptionNames x spec.where_filter
    ⊎ In x spec.group_by
    ⊎ Sorts x spec.order_by

occurrences_iff : (spec : NormalizedSpec) (x : Text) → In x (field_occurrences spec) ↔ Refers x spec
occurrences_iff spec x =
    let fields = map (λ s. s.field) spec.projection in
    let sorts = map (λ s. s.field) spec.order_by in
    let filtered = filter_fields spec.where_filter in
    ground (
      arith,
      In-append x fields (filtered ++ (spec.group_by ++ sorts)),
      In-append x filtered (spec.group_by ++ sorts),
      In-append x spec.group_by sorts,
      In-selected x spec.projection,
      In-filter_fields x spec.where_filter,
      In-sorted x spec.order_by,
    )

-- The referenced fields of a query are exactly the names, other than the empty one, that a selection,
-- a predicate of its filter, its grouping or a sorting has; each stands once, in the order of texts.
pub referenced_fields_lem :
    (spec : NormalizedSpec) (x : Text)
    → (In x (referenced_fields spec) ↔ (Refers x spec × (x ≢ [])))
      × IsOrdered (referenced_fields spec)
unfolding referenced_fields
referenced_fields_lem spec x =
    let found = In-add_fields x (field_occurrences spec) [] in
    let named = occurrences_iff spec x in
    (
      (ground (arith, found, named), ground (arith, found, named)),
      add_fields-IsOrdered (field_occurrences spec) [] tt,
    )
