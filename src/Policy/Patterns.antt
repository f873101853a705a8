-- ===== src/Policy/Patterns.antt =====
-- internal/policy/policy.go `match` and `allowed`: dotted patterns, deny before allow.
pub mod Meaning
use quordon.Prelude.{
  ℕ, Bool, true, false, not, ◌&&◌, ◌||◌, List, [], ◌∷◌, ◌==◌, nat_has_eq, text_has_eq, Text, text,
  length, any, split, equal_fold, if◌then◌else◌,
}
use quordon.Policy.{PatternPolicy}

abbrev pub star : Text
star = b'*' ∷ []

-- One segment: the wildcard, or the value itself, with the case of letters ignored on demand.
unfoldable pub match_part : Text → Text → Bool → Bool
match_part part value insensitive =
    part == star || (if insensitive then equal_fold part value else part == value)

-- The loop over the segments. `caseInsensitive` may be shorter than the value.
unfoldable pub match_parts : List Text → List Text → List Bool → Bool
unfolding match_part
match_parts (p ∷ ps) (v ∷ vs) (b ∷ bs) = match_part p v b && match_parts ps vs bs
match_parts (p ∷ ps) (v ∷ vs) [] = match_part p v false && match_parts ps vs []
match_parts _ _ _ = true

unfoldable pub match : Text → List Text → List Bool → Bool
unfolding match_parts
match pattern value case_insensitive =
    let parts = split pattern b'.' in
    length parts == length value && match_parts parts value case_insensitive

unfoldable pub allowed : PatternPolicy → List Text → List Bool → Bool
allowed policy value case_insensitive =
    let matches = λ (p : Text). match p value case_insensitive in
    if any matches policy.deny
    then false
    else if length policy.allow == 0
    then true
    else any matches policy.allow
