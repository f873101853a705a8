-- ===== src/Policy/Features/Grants.antt =====
-- internal/policy/policy.go `authorizeFeatures` against the features of the profile's query policy.
use quordon.Prelude.{
  ◌≡◌, ◌≢◌, refl, ◌⊎◌, inl, inr, ◌↔◌, Bool, true, false, not, ◌&&◌, List, [], ◌∷◌, String, Option,
  none, some, In, All, any, length, arith, ==_false_iff, ◌==◌, nat_has_eq, string_has_eq,
  Bool-cases, contains, contains_iff, all_iff, ok,
}
use quordon.Queryspec.{NormalizedSpec, Selection, Filter}
use quordon.Policy.{QueryPolicy}
use quordon.Policy.Features.{
  collect_operators, uses_source_text, authorize_filter, authorize_features,
}
use quordon.Policy.Features.Nodes.{
  Operates, LacksSourceText, All-collect_operators, uses_source_text_iff,
}

-- An aggregate is listed; a plain field needs no listing.
abbrev pub IsListed : List String → Selection → Type 0
IsListed aggregates x = (x.kind ≢ "aggregate") ⊎ In x.function aggregates

abbrev pub Filters : QueryPolicy → Option Filter → Type 0
Filters policy none = Unit
Filters policy (some f) =
    (policy.allow_filtering ≡ true) × Operates policy.allowed_filter_operators f

pub record Grants (policy : QueryPolicy) (spec : NormalizedSpec) : Type 0 where
  pub source_text : LacksSourceText spec ⊎ (policy.allow_source_text ≡ true)
  pub filtering : Filters policy spec.where_filter
  pub grouping : (spec.group_by ≡ []) ⊎ (policy.allow_group_by ≡ true)
  pub sorting : (spec.order_by ≡ []) ⊎ (policy.allow_sorting ≡ true)
  pub aggregates : All (IsListed policy.allowed_aggregates) spec.projection

is_nil : {A : Type 0} (xs : List A) → ((length xs == 0) ≡ true) ↔ (xs ≡ [])
is_nil [] = (λ _. refl, λ _. refl)
is_nil (x ∷ xs) = ground arith

granted_list :
    {A : Type 0} (xs : List A) (allow : Bool)
    → (xs ≡ []) ⊎ (allow ≡ true)
    → (not (length xs == 0) && not allow) ≡ false
granted_list xs allow h = ground (arith, is_nil xs)

filter_iff :
    (policy : QueryPolicy) (f : Option Filter)
    → (authorize_filter policy f ≡ ok tt) ↔ Filters policy f
unfolding authorize_filter
filter_iff policy none = (λ _. tt, λ _. refl)
filter_iff policy (some f) =
    let ops =
      all_iff (λ op. In op policy.allowed_filter_operators)
        (λ op. contains policy.allowed_filter_operators op)
        (λ op. contains_iff policy.allowed_filter_operators op) (collect_operators f) in
    ground (arith, ops, All-collect_operators policy.allowed_filter_operators f)

abbrev unlisted : List String → Selection → Bool
unlisted aggregates x = x.kind == "aggregate" && not (contains aggregates x.function)

unlisted_one :
    (aggregates : List String) (x : Selection)
    → (unlisted aggregates x ≡ false) ↔ IsListed aggregates x
unlisted_one aggregates x = (
  (λ h. elim (Bool-cases (x.kind == "aggregate")) [
    | inl a ↦ inr ((contains_iff aggregates x.function).0 (ground arith))
    | inr o ↦ inl ((==_false_iff x.kind "aggregate").0 o)
  ]),
  λ h. elim h [
    | inl other ↦ rw ((==_false_iff x.kind "aggregate").1 other)
    | inr listed ↦ rw ((contains_iff aggregates x.function).1 listed) (ground arith)
  ],
)

unlisted_iff :
    (aggregates : List String) (xs : List Selection)
    → (any (unlisted aggregates) xs ≡ false) ↔ All (IsListed aggregates) xs
unlisted_iff aggregates [] = (λ _. tt, λ _. refl)
unlisted_iff aggregates (x ∷ xs) =
    ground (arith, unlisted_one aggregates x, unlisted_iff aggregates xs)

source_text_iff :
    (policy : QueryPolicy) (spec : NormalizedSpec)
    → ((uses_source_text spec && not policy.allow_source_text) ≡ false)
      ↔ (LacksSourceText spec ⊎ (policy.allow_source_text ≡ true))
source_text_iff policy spec = ground (arith, uses_source_text_iff spec)

-- A query is granted its features exactly if each that it uses is granted: the source text, unless
-- no selection, no sorting and no node of the filter is on it; the filter, and the operator of each
-- of its predicates; the grouping, the sorting, and each aggregate function of the projection.
pub authorize_features_iff :
    (policy : QueryPolicy) (spec : NormalizedSpec)
    → (authorize_features policy spec ≡ ok tt) ↔ Grants policy spec
unfolding authorize_features
authorize_features_iff policy spec = (
  (λ h. record {
    source_text = (source_text_iff policy spec).0 (ground arith);
    filtering = (filter_iff policy spec.where_filter).0 (ground arith);
    grouping = ground (arith, is_nil spec.group_by);
    sorting = ground (arith, is_nil spec.order_by);
    aggregates = (unlisted_iff policy.allowed_aggregates spec.projection).0 (ground arith);
  }),
  λ g.
      let f = (filter_iff policy spec.where_filter).1 g.filtering in
      let a = (unlisted_iff policy.allowed_aggregates spec.projection).1 g.aggregates in
      rw (
        f,
        a,
        (source_text_iff policy spec).1 g.source_text,
        granted_list spec.group_by policy.allow_group_by g.grouping,
        granted_list spec.order_by policy.allow_sorting g.sorting,
      ),
)
