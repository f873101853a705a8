-- ===== src/Plans.antt =====
-- internal/adapters/mysql8/plan_indexes.go `indexMergeUsesIndex`: whether a merge expression of a plan
-- uses an index. The scan of the key reads its bytes one by one; `name` holds what the inner loop has
-- read of an identity so far. A value of the list of possible keys that is not a string is `none`.
-- `strings.EqualFold`, which folds the letters of names beyond ASCII too, is a parameter.
pub mod Merge
pub mod Key
use quordon.Prelude.{
  ℕ, zero, suc, ◌+◌, ◌*◌, ◌-◌, ◌^◌, Bool, true, false, not, ◌&&◌, ◌||◌, List, [], ◌∷◌, ◌++◌, ◌==◌,
  nat_has_eq, text_has_eq, ltb, leb, nat_eq, all, any, contains, length, Text, text, Option, none,
  some, if◌then◌else◌, split,
}
use quordon.Queryspec.Number.{is_digit}

-- The state of the loop: the count of arguments at the top of the stack and those below it.
pub record Reading : Type 0 where
  pub arguments : ℕ
  pub outer : List ℕ
  pub expect_index : Bool
  pub root_expression : Bool
  pub uses_index : Bool
  pub leaves : ℕ

abbrev pub punctuation : ℕ → Bool
punctuation c = nat_eq c b'(' || nat_eq c b')' || nat_eq c b','

abbrev pub merge_operators : List Text
merge_operators = text "union" ∷ text "intersect" ∷ text "sort_union" ∷ []

abbrev pub valid_index : Option Text → Bool
valid_index none = false
valid_index (some name) = not (name == []) && not (any punctuation name)

-- The names of the possible keys, if all of them are plain.
unfoldable pub native_indexes : List (Option Text) → Option (List Text)
native_indexes [] = some []
native_indexes (none ∷ values) = none
native_indexes (some name ∷ values) =
    if valid_index (some name)
    then elim (native_indexes values) [ none ↦ none | some names ↦ some (name ∷ names) ]
    else none

-- The number that digits spell.
abbrev pub value_from : ℕ → Text → ℕ
value_from n [] = n
value_from n (c ∷ s) = value_from (10 * n + (c - b'0')) s

-- A length is a number of 64 bits without leading zeros.
unfoldable pub valid_length : Text → Bool
valid_length [] = false
valid_length (c ∷ s) =
    not (nat_eq c b'0') && all is_digit (c ∷ s) && ltb (value_from 0 (c ∷ s)) (2 ^ 64)

unfoldable pub index_count : Text → Option ℕ
unfolding valid_length
index_count key_lengths =
    let lengths = split key_lengths b',' in
    if all valid_length lengths then some (length lengths) else none

-- What comes after a step that did not fail.
abbrev pub and_then : {A B : Type 0} → Option A → (A → Option B) → Option B
and_then none next = none
and_then (some a) next = next a

module _ (fold : Text → Text → Bool) (native : List Text) (required : Text) where
  -- The end of an identity that is an index.
  unfoldable pub read_index : Reading → Text → Option Reading
  read_index r name =
      if contains native name
      then some (record r {
        uses_index = r.uses_index || fold name required;
        leaves = r.leaves + 1;
        arguments = r.arguments + 1;
        expect_index = false;
      })
      else none

  -- The end of an identity that is an operator, at its opening parenthesis.
  unfoldable pub read_operator : Reading → Text → Option Reading
  read_operator r name =
      if not (contains merge_operators name) || (r.outer == [] && not (nat_eq r.arguments 0))
      then none
      else some (record r {
        root_expression = r.root_expression || r.outer == [];
        outer = r.arguments ∷ r.outer;
        arguments = 0;
      })

  -- What stands after an argument.
  unfoldable pub read_separator : Reading → ℕ → Option Reading
  read_separator r c =
      if nat_eq c b','
      then if r.outer == [] && r.root_expression
        then none
        else some (record r { expect_index = true })
      else if nat_eq c b')' && leb 2 r.arguments
      then elim r.outer [
        | [] ↦ none
        | o ∷ outer ↦ some (record r { arguments = o + 1; outer = outer })
      ]
      else none

  unfoldable pub scan : Reading → Text → Text → Option Reading
  unfolding read_index read_operator read_separator
  scan r name [] = if r.expect_index && not (name == []) then read_index r name else some r
  scan r name (c ∷ key) =
      if not r.expect_index
      then and_then (read_separator r c) (λ after. scan after [] key)
      else if not (punctuation c)
      then scan r (name ++ (c ∷ [])) key
      else if name == []
      then none
      else if nat_eq c b'('
      then and_then (read_operator r name) (λ after. scan after [] key)
      else and_then (read_index r name)
          (λ after. and_then (read_separator after c) (λ next. scan next [] key))

abbrev pub start : Reading
start = record {
  arguments = 0;
  outer = [];
  expect_index = true;
  root_expression = false;
  uses_index = false;
  leaves = 0;
}

-- The checks after the loop.
abbrev pub finish : ℕ → Reading → Option Bool
finish count r =
    if r.expect_index || not (r.outer == []) || not (nat_eq r.leaves count)
    then none
    else some r.uses_index

-- `none` is the error of a malformed plan.
unfoldable pub index_merge_uses_index :
    (Text → Text → Bool) → Text → Text → Text → List (Option Text) → Option Bool
unfolding native_indexes index_count scan
index_merge_uses_index fold key key_lengths required possible =
    if length possible == 0
    then none
    else and_then (native_indexes possible) (λ native.
      and_then (index_count key_lengths)
        (λ count. and_then (scan fold native required start [] key) (finish count)))
