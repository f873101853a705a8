-- ===== src/Tests/Plans.antt =====
-- The theorem on the indexes of a plan, applied.
use quordon.Prelude.{
  ◌≡◌, refl, true, Option, some, List, [], ◌∷◌, Text, text, text_eq, split, lower, to_lower,
  equal_fold,
}
use quordon.Plans.{native_indexes, index_count, valid_length, index_merge_uses_index}
use quordon.Plans.Merge.{union, intersect, index, combine, nil, IsMerge, uses, leaf_count}
use quordon.Plans.Key.{Key, merged, spell_key, IsKey, index_merge_uses_index-spell_key}

abbrev possible : List (Option Text)
possible = some (text "a") ∷ some (text "b") ∷ some (text "PRIMARY") ∷ []

abbrev native : List Text
native = text "a" ∷ text "b" ∷ text "PRIMARY" ∷ []

-- union(a,intersect(b,PRIMARY))
abbrev key : Key
key =
    merged union (index (text "a"))
      (combine intersect (index (text "b")) (index (text "PRIMARY")) nil) nil

named : native_indexes possible ≡ some native
unfolding native_indexes text_eq
named = refl

counted : index_count (text "4,4,8") ≡ some 3
unfolding index_count valid_length split
counted = refl

known : IsKey equal_fold native (text "primary") key
unfolding IsMerge text_eq
known = (
  (((λ e. cc), (refl, tt)), refl),
  (
    (((λ e. cc), (refl, tt)), refl),
    (((λ e. cc), (refl, (refl, (refl, (refl, (refl, (refl, (refl, tt)))))))), refl),
    tt,
  ),
  tt,
)

index_merge_uses_index-spell_key_example :
    index_merge_uses_index equal_fold (spell_key key) (text "4,4,8") (text "primary") possible
    ≡ some true
unfolding uses leaf_count text_eq equal_fold to_lower lower
index_merge_uses_index-spell_key_example =
    index_merge_uses_index-spell_key equal_fold key (text "4,4,8") (text "primary")
      (some (text "a")) (some (text "b") ∷ some (text "PRIMARY") ∷ []) native 3 named counted known
