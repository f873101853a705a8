-- ===== src/Plans/Key.antt =====
-- internal/adapters/mysql8/plan_indexes.go: whole keys, a list of indexes or a merge of them.
use quordon.Prelude.{
  ℕ, ◌≡◌, ◌+◌, refl, sym, ap, ◌∙◌, inl, Bool, true, false, ◌||◌, List, [], ◌∷◌, ◌++◌, ◌==◌,
  nat_has_eq, text_has_eq, nat_eq, All, contains, length, any, Text, Option, none, some, text_eq,
  arith, if◌then◌else◌,
}
use quordon.Plans.{
  native_indexes, index_count, and_then, scan, start, finish, index_merge_uses_index,
}
use quordon.Plans.Merge.{
  Operator, Merge, combine, Merges, spell, leaf_count, uses, IsPlain, IsMerge, Ends, at, scan_word,
  scan_index, comma_at, or_assoc, or_false, restate, reads_combine, reads_inner, reads_more,
}

pub data Key : Type 0 where
  names : Text → List Text → Key
  merged : Operator → Merge → Merge → Merges → Key

abbrev pub spell_names : List Text → Text
spell_names [] = []
spell_names (n ∷ ns) = b',' ∷ (n ++ spell_names ns)

-- The text of a key.
unfoldable pub spell_key : Key → Text
spell_key (names n ns) = n ++ spell_names ns
spell_key (merged op a b more) = spell (combine op a b more) []

abbrev pub indexes_of : Key → ℕ
indexes_of (names n ns) = 1 + length ns
indexes_of (merged op a b more) = leaf_count (combine op a b more)

module _ (fold : Text → Text → Bool) (native : List Text) (required : Text) where
  abbrev pub key_uses : Key → Bool
  key_uses (names n ns) = fold n required || any (λ m. fold m required) ns
  key_uses (merged op a b more) = uses fold native required (combine op a b more)

  abbrev IsIndex : Text → Type 0
  IsIndex name = IsPlain name × (contains native name ≡ true)

  -- The indexes of the key are possible keys.
  abbrev pub IsKey : Key → Type 0
  IsKey (names n ns) = IsIndex n × All IsIndex ns
  IsKey (merged op a b more) = IsMerge fold native required (combine op a b more)

  spell_names-Ends : (ns : List Text) → Ends (spell_names ns)
  spell_names-Ends [] = tt
  spell_names-Ends (n ∷ ns) = inl refl

  reads_name :
      (k : ℕ) (u : Bool) (l : ℕ) (n : Text) (ns : List Text)
      → IsIndex n
      → scan fold native required
          (at fold native required k [] true false u l)
          []
          (n ++ spell_names ns)
        ≡ scan fold native required
            (at fold native required (k + 1) [] false false (u || fold n required) (l + 1))
            []
            (spell_names ns)
  reads_name k u l n ns (plain, known) =
      scan_word fold native required k [] false u l [] n (spell_names ns) plain.1
      ∙ scan_index fold native required k [] false u l n (spell_names ns) plain known
          (spell_names-Ends ns)

  reads_names :
      (k : ℕ) (u : Bool) (l : ℕ) (ns : List Text)
      → All IsIndex ns
      → scan fold native required (at fold native required k [] false false u l) [] (spell_names ns)
        ≡ scan fold native required
            (at fold native required
              (k + length ns)
              []
              false
              false
              (u || any (λ m. fold m required) ns)
              (l + length ns))
            []
            []
  reads_names k u l [] known =
      restate fold native required [] false [] (omega arith) refl
        (sym (or_false fold native required u)) (omega arith)
  reads_names k u l (n ∷ ns) (first, known) =
      comma_at fold native required k u l (n ++ spell_names ns)
      ∙ reads_name k u l n ns first
      ∙ reads_names (k + 1) (u || fold n required) (l + 1) ns known
      ∙ restate fold native required [] false [] (omega arith) refl
          (or_assoc fold native required u (fold n required) (any (λ m. fold m required) ns))
          (omega arith)

  ended :
      (k : ℕ) (root u : Bool) (l count : ℕ)
      → and_then
          (scan fold native required (at fold native required k [] false root u l) [] [])
          (finish count)
        ≡ (if nat_eq l count then some u else none)
  unfolding scan text_eq
  ended k root u l count = ground arith

  reads_key :
      (key : Key) (count : ℕ)
      → IsKey key
      → and_then (scan fold native required start [] (spell_key key)) (finish count)
        ≡ (if nat_eq (indexes_of key) count then some (key_uses key) else none)
  unfolding spell_key IsMerge text_eq
  reads_key (names n ns) count (first, known) =
      ap (λ r. and_then r (finish count))
        (reads_name 0 false 0 n ns first ∙ reads_names 1 (fold n required) 1 ns known)
      ∙ ended (1 + length ns) false (key_uses (names n ns)) (1 + length ns) count
  reads_key (merged op a b more) count (ma, mb, mm) =
      ap (λ r. and_then r (finish count))
        (reads_combine fold native required op a b more (reads_inner fold native required a ma)
            (reads_inner fold native required b mb) (reads_more fold native required more mm) 0 []
            false false 0 [] refl
          ∙ restate fold native required [] false [] refl refl refl (omega arith))
      ∙ ended 1 true (key_uses (merged op a b more)) (indexes_of (merged op a b more)) count

-- On the text of a key of at least one possible key, all of them plain names, with a list of key
-- lengths, the answer is whether one of the indexes of the key folds to the required one, if the
-- lengths are as many as the indexes, and that the plan is malformed otherwise. The fold may be any
-- test of two texts.
pub index_merge_uses_index-spell_key :
    (fold : Text → Text → Bool) (key : Key) (key_lengths required : Text) (value : Option Text)
    (possible : List (Option Text)) (native : List Text) (count : ℕ)
    → native_indexes (value ∷ possible) ≡ some native
    → index_count key_lengths ≡ some count
    → IsKey fold native required key
    → index_merge_uses_index fold (spell_key key) key_lengths required (value ∷ possible)
      ≡ (if nat_eq (indexes_of key) count then some (key_uses fold native required key) else none)
unfolding index_merge_uses_index
index_merge_uses_index-spell_key fold key key_lengths required value possible native count named
      counted known =
    let some_keys : (length (value ∷ possible) == 0) ≡ false = ground arith in
    rw (named, counted, some_keys) (reads_key fold native required key count known)
