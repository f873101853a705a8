-- ===== src/Policy/Patterns/Meaning.antt =====
-- What a pattern and a pattern policy mean, without the code's splitting and loops.
use quordon.Prelude.{
  ◌≡◌, refl, ◌⊎◌, ◌↔◌, Bool, true, false, ◌&&◌, List, [], ◌∷◌, ◌==◌, nat_has_eq, text_has_eq,
  ==_iff, Text, length, any_iff, Any, All, Lacks, split, join, split-join, join-split, to_lower,
  equal_fold_iff, arith,
}
use quordon.Policy.{PatternPolicy}
use quordon.Policy.Patterns.{star, match_part, match_parts, match, allowed}

-- A segment names a value: it is the wildcard, or the same name, up to case on demand.
abbrev pub Names : Bool → Text → Text → Type 0
Names true part value = (part ≡ star) ⊎ (to_lower part ≡ to_lower value)
Names false part value = (part ≡ star) ⊎ (part ≡ value)

-- The segments of a pattern name those of a value, one by one.
abbrev pub AllName : List Bool → List Text → List Text → Type 0
AllName bs [] [] = Unit
AllName (b ∷ bs) (p ∷ ps) (v ∷ vs) = Names b p v × AllName bs ps vs
AllName [] (p ∷ ps) (v ∷ vs) = Names false p v × AllName [] ps vs
AllName bs [] (v ∷ vs) = ⊥
AllName bs (p ∷ ps) [] = ⊥

-- A pattern is segments joined by dots.
abbrev pub Matches : List Bool → List Text → Text → Type 0
Matches bs value pattern =
    (p : Text) × (ps : List Text) × (join (p ∷ ps) b'.' ≡ pattern)
    × Lacks b'.' p
    × All (Lacks b'.') ps
    × AllName bs (p ∷ ps) value

match_part_iff : (b : Bool) (p v : Text) → (match_part p v b ≡ true) ↔ Names b p v
unfolding match_part
match_part_iff true p v = ground (arith, ==_iff p star, equal_fold_iff p v)
match_part_iff false p v = ground (arith, ==_iff p star, ==_iff p v)

match_parts_iff :
    (bs : List Bool) (ps vs : List Text)
    → ((length ps == length vs && match_parts ps vs bs) ≡ true) ↔ AllName bs ps vs
unfolding match_parts
match_parts_iff bs [] [] = (λ _. tt, λ _. refl)
match_parts_iff bs [] (v ∷ vs) = (λ h. ground arith, λ h. absurd h)
match_parts_iff bs (p ∷ ps) [] = (λ h. ground arith, λ h. absurd h)
match_parts_iff [] (p ∷ ps) (v ∷ vs) =
    ground (arith, match_part_iff false p v, match_parts_iff [] ps vs)
match_parts_iff (b ∷ bs) (p ∷ ps) (v ∷ vs) =
    ground (arith, match_part_iff b p v, match_parts_iff bs ps vs)

-- `match` decides the meaning of patterns.
pub match_iff :
    (pattern : Text) (value : List Text) (bs : List Bool)
    → (match pattern value bs ≡ true) ↔ Matches bs value pattern
unfolding match
match_iff pattern value bs = (
  (λ h.
      let (p, ps, e, lacks, all_lack, spells) = join-split pattern b'.' in
      (p, ps, spells, lacks, all_lack, (match_parts_iff bs (p ∷ ps) value).0 (rw e at h))),
  λ (p, ps, spells, lacks, all_lack, names).
      let e : split pattern b'.' ≡ p ∷ ps = rw (← spells) (split-join p ps b'.' lacks all_lack) in
      rw e ((match_parts_iff bs (p ∷ ps) value).1 names),
)

-- A policy permits a value that no deny pattern matches, and that an allow pattern matches unless
-- there is none.
abbrev pub Permits : PatternPolicy → List Bool → List Text → Type 0
Permits policy bs value =
    (¬ (Any (Matches bs value) policy.deny))
    × ((policy.allow ≡ []) ⊎ Any (Matches bs value) policy.allow)

no_patterns : (ps : List Text) → ((length ps == 0) ≡ true) ↔ (ps ≡ [])
no_patterns [] = (λ _. refl, λ _. refl)
no_patterns (p ∷ ps) = ground arith

-- `allowed` holds exactly of the values that the policy permits: a deny pattern that matches
-- excludes whatever is allowed, an empty allow list allows the rest, and any other allow list only
-- what one of its patterns matches, segment by segment between the dots, with wildcards and with
-- the case of letters ignored where it is said so.
pub allowed_iff :
    (policy : PatternPolicy) (value : List Text) (bs : List Bool)
    → (allowed policy value bs ≡ true) ↔ Permits policy bs value
unfolding allowed
allowed_iff policy value bs =
    let matches = λ (p : Text). match p value bs in
    let denied = any_iff (Matches bs value) matches (λ p. match_iff p value bs) policy.deny in
    let granted = any_iff (Matches bs value) matches (λ p. match_iff p value bs) policy.allow in
    ground (arith, denied, granted, no_patterns policy.allow)
