-- ===== src/Plans/Merge.antt =====
-- internal/adapters/mysql8/plan_indexes.go: the expressions that MySQL writes for a merge of indexes,
-- and that the scan reads back what they say.
use quordon.Prelude.{
  ℕ, ◌≡◌, ◌≢◌, ◌+◌, ◌⊎◌, inl, inr, refl, sym, ap, ◌∙◌, Bool, true, false, not, ◌&&◌, ◌||◌, List, [],
  ◌∷◌, ◌++◌, append_assoc, append-nil, ◌==◌, ==_false_iff, nat_has_eq, text_has_eq, nat_eq, leb,
  All, contains, Text, text, text_eq, arith,
}
use quordon.Plans.{Reading, punctuation, read_index, read_operator, read_separator, scan}

pub data Operator : Type 0 where
  union intersect sort_union : Operator

abbrev pub operator_name : Operator → Text
operator_name union = text "union"
operator_name intersect = text "intersect"
operator_name sort_union = text "sort_union"

-- A merge: an index, or an operator on two merges or more.
mutual
  pub data Merge : Type 0 where
    index : Text → Merge
    combine : Operator → Merge → Merge → Merges → Merge

  pub data Merges : Type 0 where
    nil : Merges
    cons : Merge → Merges → Merges

-- The text of a merge, before another.
unfoldable mutual
  pub spell : Merge → Text → Text
  spell (index name) rest = name ++ rest
  spell (combine op a b more) rest =
      operator_name op ++ (b'(' ∷ spell a (b',' ∷ spell b (spell_more more (b')' ∷ rest))))

  pub spell_more : Merges → Text → Text
  spell_more nil rest = rest
  spell_more (cons t ts) rest = b',' ∷ spell t (spell_more ts rest)

unfoldable mutual
  pub leaf_count : Merge → ℕ
  leaf_count (index name) = 1
  leaf_count (combine op a b more) = leaf_count a + (leaf_count b + leaf_count_more more)

  pub leaf_count_more : Merges → ℕ
  leaf_count_more nil = 0
  leaf_count_more (cons t ts) = leaf_count t + leaf_count_more ts

abbrev width : Merges → ℕ
width nil = 0
width (cons t ts) = 1 + width ts

-- A name that the scan reads to its end.
abbrev pub IsPlain : Text → Type 0
IsPlain name = (name ≢ []) × All (λ c. punctuation c ≡ false) name

-- What an identity can stand before.
abbrev pub Ends : Text → Type 0
Ends [] = Unit
Ends (c ∷ rest) = (c ≡ b',') ⊎ (c ≡ b')')

module _ (fold : Text → Text → Bool) (native : List Text) (required : Text) where
  unfoldable mutual
    pub uses : Merge → Bool
    uses (index name) = fold name required
    uses (combine op a b more) = uses a || (uses b || uses_more more)

    pub uses_more : Merges → Bool
    uses_more nil = false
    uses_more (cons t ts) = uses t || uses_more ts

  unfoldable mutual
    -- The indexes of the merge are possible keys.
    pub IsMerge : Merge → Type 0
    IsMerge (index name) = IsPlain name × (contains native name ≡ true)
    IsMerge (combine op a b more) = IsMerge a × IsMerge b × AreMerges more

    pub AreMerges : Merges → Type 0
    AreMerges nil = Unit
    AreMerges (cons t ts) = IsMerge t × AreMerges ts

  abbrev pub at : ℕ → List ℕ → Bool → Bool → Bool → ℕ → Reading
  at arguments outer expect root uses leaves = record {
    arguments = arguments;
    outer = outer;
    expect_index = expect;
    root_expression = root;
    uses_index = uses;
    leaves = leaves;
  }

  module _ (k : ℕ) (outer : List ℕ) (root u : Bool) (l : ℕ) where
    -- A plain word is read to its end.
    pub scan_word :
        (name word rest : Text)
        → All (λ c. punctuation c ≡ false) word
        → scan fold native required (at k outer true root u l) name (word ++ rest)
          ≡ scan fold native required (at k outer true root u l) (name ++ word) rest
    unfolding scan
    scan_word name [] rest plain =
        ap (λ n. scan fold native required (at k outer true root u l) n rest)
          (sym (append-nil name))
    scan_word name (c ∷ word) rest (plain, more) = rw plain (
        scan_word (name ++ (c ∷ [])) word rest more
        ∙ ap (λ n. scan fold native required (at k outer true root u l) n rest)
            (append_assoc name (c ∷ []) word))

    pub scan_index :
        (name rest : Text)
        → IsPlain name
        → contains native name ≡ true
        → Ends rest
        → scan fold native required (at k outer true root u l) name rest
          ≡ scan fold native required
              (at (k + 1) outer false root (u || fold name required) (l + 1))
              []
              rest
    unfolding scan read_index
    scan_index name [] plain known ends =
        let named : (name == []) ≡ false = (==_false_iff name []).1 plain.0 in
        rw (named, known) refl
    scan_index name (c ∷ rest) plain known ends =
        let named : (name == []) ≡ false = (==_false_iff name []).1 plain.0 in
        elim ends [
          | inl comma ↦ rw (comma, named, known) refl
          | inr close ↦ rw (close, named, known) refl
        ]

  -- Below an operator, the scan counts an argument and what it says.
  unfoldable pub InnerReads : Merge → Type 0
  InnerReads t =
      (k o : ℕ) (os : List ℕ) (root u : Bool) (l : ℕ) (rest : Text)
      → Ends rest
      → scan fold native required (at k (o ∷ os) true root u l) [] (spell t rest)
        ≡ scan fold native required
            (at (k + 1) (o ∷ os) false root (u || uses t) (l + leaf_count t)) [] rest

  unfoldable pub MoreReads : Merges → Type 0
  MoreReads ts =
      (k o : ℕ) (os : List ℕ) (root u : Bool) (l : ℕ) (rest : Text)
      → Ends rest
      → scan fold native required (at k (o ∷ os) false root u l) [] (spell_more ts rest)
        ≡ scan fold native required
            (at (k + width ts) (o ∷ os) false root (u || uses_more ts) (l + leaf_count_more ts)) []
            rest

  module _ (k : ℕ) (outer : List ℕ) (root u : Bool) (l : ℕ) where
    opening :
        (op : Operator) (rest : Text)
        → (outer == [] && not (nat_eq k 0)) ≡ false
        → scan fold native required
            (at k outer true root u l)
            []
            (operator_name op ++ (b'(' ∷ rest))
          ≡ scan fold native required (at 0 (k ∷ outer) true (root || outer == []) u l) [] rest
    unfolding scan read_operator text_eq
    opening union rest first = rw first refl
    opening intersect rest first = rw first refl
    opening sort_union rest first = rw first refl

    closing :
        (w : ℕ) (rest : Text)
        → scan fold native required (at (w + 2) (k ∷ outer) false root u l) [] (b')' ∷ rest)
          ≡ scan fold native required (at (k + 1) outer false root u l) [] rest
    unfolding scan read_separator
    closing w rest = let many : leb 2 (w + 2) ≡ true = ground arith in rw many refl

  comma :
      (k o : ℕ) (os : List ℕ) (root u : Bool) (l : ℕ) (rest : Text)
      → scan fold native required (at k (o ∷ os) false root u l) [] (b',' ∷ rest)
        ≡ scan fold native required (at k (o ∷ os) true root u l) [] rest
  unfolding scan read_separator text_eq
  comma k o os root u l rest = refl

  pub comma_at :
      (k : ℕ) (u : Bool) (l : ℕ) (rest : Text)
      → scan fold native required (at k [] false false u l) [] (b',' ∷ rest)
        ≡ scan fold native required (at k [] true false u l) [] rest
  unfolding scan read_separator text_eq
  comma_at k u l rest = refl

  pub or_assoc : (a b c : Bool) → ((a || b) || c) ≡ (a || (b || c))
  or_assoc true b c = refl
  or_assoc false b c = refl

  pub or_false : (a : Bool) → (a || false) ≡ a
  or_false true = refl
  or_false false = refl

  pub restate :
      {k k' : ℕ} (outer : List ℕ) (expect : Bool) {root root' u u' : Bool} {l l' : ℕ} (rest : Text)
      → k ≡ k'
      → root ≡ root'
      → u ≡ u'
      → l ≡ l'
      → scan fold native required (at k outer expect root u l) [] rest
        ≡ scan fold native required (at k' outer expect root' u' l') [] rest
  restate outer expect rest same_k same_root same_u same_l =
      rw (same_k, same_root, same_u, same_l) refl

  spell_more-Ends : (ts : Merges) (rest : Text) → Ends rest → Ends (spell_more ts rest)
  unfolding spell_more
  spell_more-Ends nil rest ends = ends
  spell_more-Ends (cons t ts) rest ends = inl refl

  -- An operator with its arguments.
  pub reads_combine :
      (op : Operator) (a b : Merge) (more : Merges)
      → InnerReads a
      → InnerReads b
      → MoreReads more
      → (k : ℕ) (outer : List ℕ) (root u : Bool) (l : ℕ) (rest : Text)
      → (outer == [] && not (nat_eq k 0)) ≡ false
      → scan fold native required (at k outer true root u l) [] (spell (combine op a b more) rest)
        ≡ scan fold native required
            (at
              (k + 1)
              outer
              false
              (root || outer == [])
              (u || uses (combine op a b more))
              (l + leaf_count (combine op a b more)))
            []
            rest
  unfolding InnerReads MoreReads spell uses leaf_count
  reads_combine op a b more ha hb hm k outer root u l rest first =
      let root' = root || outer == [] in
      let u1 = u || uses a in
      let u2 = u1 || uses b in
      let l1 = l + leaf_count a in
      let l2 = l1 + leaf_count b in
      opening k outer root u l op (spell a (b',' ∷ spell b (spell_more more (b')' ∷ rest)))) first
      ∙ ha 0 k outer root' u l (b',' ∷ spell b (spell_more more (b')' ∷ rest))) (inl refl)
      ∙ comma 1 k outer root' u1 l1 (spell b (spell_more more (b')' ∷ rest)))
      ∙ hb 1 k outer root' u1 l1 (spell_more more (b')' ∷ rest))
          (spell_more-Ends more (b')' ∷ rest) (inr refl))
      ∙ hm 2 k outer root' u2 l2 (b')' ∷ rest) (inr refl)
      ∙ restate (k ∷ outer) false (b')' ∷ rest) (omega arith) refl
          (or_assoc u1 (uses b) (uses_more more) ∙ or_assoc u (uses a) (uses b || uses_more more))
          (omega arith)
      ∙ closing k outer root' (u || uses (combine op a b more))
          (l + leaf_count (combine op a b more)) (width more) rest

  mutual
    unfolding text_eq IsMerge InnerReads MoreReads spell spell_more uses leaf_count

    pub reads_inner : (t : Merge) → IsMerge t → InnerReads t
    reads_inner (index name) (plain, known) k o os root u l rest ends =
        scan_word k (o ∷ os) root u l [] name rest plain.1
        ∙ scan_index k (o ∷ os) root u l name rest plain known ends
    reads_inner (combine op a b more) (ma, mb, mm) k o os root u l rest ends =
        reads_combine op a b more (reads_inner a ma) (reads_inner b mb) (reads_more more mm) k
          (o ∷ os) root u l rest refl
        ∙ restate (o ∷ os) false rest refl (or_false root) refl refl

    pub reads_more : (ts : Merges) → AreMerges ts → MoreReads ts
    reads_more nil merges k o os root u l rest ends =
        restate (o ∷ os) false rest (omega arith) refl (sym (or_false u)) (omega arith)
    reads_more (cons t ts) (m, ms) k o os root u l rest ends =
        comma k o os root u l (spell t (spell_more ts rest))
        ∙ reads_inner t m k o os root u l (spell_more ts rest) (spell_more-Ends ts rest ends)
        ∙ reads_more ts ms (k + 1) o os root (u || uses t) (l + leaf_count t) rest ends
        ∙ restate (o ∷ os) false rest (omega arith) refl (or_assoc u (uses t) (uses_more ts))
            (omega arith)
