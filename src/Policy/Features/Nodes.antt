-- ===== src/Policy/Features/Nodes.antt =====
-- What the nodes of a query's filter hold, said without the collectors of
-- internal/policy/policy.go and internal/queryspec/representation.go, and what those collect.
use quordon.Prelude.{
  ◌≡◌, ◌≢◌, ◌⊎◌, ◌↔◌, false, List, [], ◌∷◌, ◌++◌, String, Text, Option, none, some, In, All, any,
  arith, ==_iff, ==_false_iff, ◌==◌, string_has_eq, text_has_eq,
}
use quordon.Queryspec.{
  NormalizedSpec, Selection, Sort, Filter, filter, Filters, nil, cons, representation_source_text,
}
use quordon.Policy.Features.{
  collect_fields, collect_all_fields, collect_operators, collect_all_operators,
  filter_uses_source_text, filters_use_source_text, option_uses_source_text, uses_source_text,
}

unfoldable mutual
  -- A predicate of the filter names the field. The expressions of a predicate are not looked at.
  pub Names : Text → Filter → Type 0
  Names x (filter r kind field operator values expressions) =
      ((kind ≡ "predicate") × (field ≡ x)) ⊎ ((kind ≢ "predicate") × SomeNames x expressions)

  pub SomeNames : Text → Filters → Type 0
  SomeNames x nil = ⊥
  SomeNames x (cons f fs) = Names x f ⊎ SomeNames x fs

unfoldable mutual
  -- Each predicate of the filter has a listed operator.
  pub Operates : List String → Filter → Type 0
  Operates listed (filter r kind field operator values expressions) =
      ((kind ≡ "predicate") × In operator listed)
      ⊎ ((kind ≢ "predicate") × AllOperate listed expressions)

  pub AllOperate : List String → Filters → Type 0
  AllOperate listed nil = Unit
  AllOperate listed (cons f fs) = Operates listed f × AllOperate listed fs

unfoldable mutual
  -- No node of the filter, whatever its kind, is on the source text.
  pub IsTyped : Filter → Type 0
  IsTyped (filter r kind field operator values expressions) =
      (r ≢ representation_source_text) × AreTyped expressions

  pub AreTyped : Filters → Type 0
  AreTyped nil = Unit
  AreTyped (cons f fs) = IsTyped f × AreTyped fs

abbrev pub OptionNames : Text → Option Filter → Type 0
OptionNames x none = ⊥
OptionNames x (some f) = Names x f

abbrev pub OptionIsTyped : Option Filter → Type 0
OptionIsTyped none = Unit
OptionIsTyped (some f) = IsTyped f

-- Neither a selection, nor a sorting, nor a node of the filter is on the source text.
pub record LacksSourceText (spec : NormalizedSpec) : Type 0 where
  pub selected :
      All (λ (x : Selection). x.representation ≢ representation_source_text) spec.projection
  pub sorted : All (λ (x : Sort). x.representation ≢ representation_source_text) spec.order_by
  pub filtered : OptionIsTyped spec.where_filter

pub In-append : (x : Text) (xs ys : List Text) → In x (xs ++ ys) ↔ (In x xs ⊎ In x ys)
In-append x [] ys = ground arith
In-append x (y ∷ xs) ys = ground (arith, In-append x xs ys)

All-append : (P : String → Type 0) (xs ys : List String) → All P (xs ++ ys) ↔ (All P xs × All P ys)
All-append P [] ys = ground arith
All-append P (x ∷ xs) ys = ground (arith, All-append P xs ys)

mutual
  unfolding collect_fields Names collect_all_fields SomeNames

  pub In-collect_fields : (x : Text) (f : Filter) → In x (collect_fields f) ↔ Names x f
  In-collect_fields x (filter r kind field operator values expressions) =
      ground (arith, ==_iff kind "predicate", In-collect_all_fields x expressions)

  In-collect_all_fields : (x : Text) (fs : Filters) → In x (collect_all_fields fs) ↔ SomeNames x fs
  In-collect_all_fields x nil = ground arith
  In-collect_all_fields x (cons f fs) =
      let split = In-append x (collect_fields f) (collect_all_fields fs) in
      ground (arith, split, In-collect_fields x f, In-collect_all_fields x fs)

mutual
  unfolding collect_operators Operates collect_all_operators AllOperate

  pub All-collect_operators :
      (listed : List String) (f : Filter)
      → All (λ op. In op listed) (collect_operators f) ↔ Operates listed f
  All-collect_operators listed (filter r kind field operator values expressions) =
      ground (arith, ==_iff kind "predicate", All-collect_all_operators listed expressions)

  All-collect_all_operators :
      (listed : List String) (fs : Filters)
      → All (λ op. In op listed) (collect_all_operators fs) ↔ AllOperate listed fs
  All-collect_all_operators listed nil = ground arith
  All-collect_all_operators listed (cons f fs) =
      let split =
        All-append (λ op. In op listed) (collect_operators f) (collect_all_operators fs) in
      ground (arith, split, All-collect_operators listed f, All-collect_all_operators listed fs)

mutual
  unfolding filter_uses_source_text IsTyped filters_use_source_text AreTyped

  filter_uses_source_text_iff : (f : Filter) → (filter_uses_source_text f ≡ false) ↔ IsTyped f
  filter_uses_source_text_iff (filter r kind field operator values expressions) =
      ground
        (arith, ==_false_iff r representation_source_text, filters_use_source_text_iff expressions)

  filters_use_source_text_iff : (fs : Filters) → (filters_use_source_text fs ≡ false) ↔ AreTyped fs
  filters_use_source_text_iff nil = ground arith
  filters_use_source_text_iff (cons f fs) =
      ground (arith, filter_uses_source_text_iff f, filters_use_source_text_iff fs)

option_uses_source_text_iff :
    (o : Option Filter) → (option_uses_source_text o ≡ false) ↔ OptionIsTyped o
option_uses_source_text_iff none = ground arith
option_uses_source_text_iff (some f) = filter_uses_source_text_iff f

selected_iff :
    (xs : List Selection)
    → (any (λ x. x.representation == representation_source_text) xs ≡ false)
      ↔ All (λ (x : Selection). x.representation ≢ representation_source_text) xs
selected_iff [] = ground arith
selected_iff (x ∷ xs) =
    ground (arith, ==_false_iff x.representation representation_source_text, selected_iff xs)

sorted_iff :
    (xs : List Sort)
    → (any (λ x. x.representation == representation_source_text) xs ≡ false)
      ↔ All (λ (x : Sort). x.representation ≢ representation_source_text) xs
sorted_iff [] = ground arith
sorted_iff (x ∷ xs) =
    ground (arith, ==_false_iff x.representation representation_source_text, sorted_iff xs)

pub uses_source_text_iff :
    (spec : NormalizedSpec) → (uses_source_text spec ≡ false) ↔ LacksSourceText spec
unfolding uses_source_text
uses_source_text_iff spec =
    let a = selected_iff spec.projection in
    let b = sorted_iff spec.order_by in
    let c = option_uses_source_text_iff spec.where_filter in
    (
      (λ h. record {
        selected = a.0 (ground arith);
        sorted = b.0 (ground arith);
        filtered = c.0 (ground arith);
      }),
      λ t. rw (a.1 t.selected, b.1 t.sorted, c.1 t.filtered),
    )
