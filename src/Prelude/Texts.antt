-- ===== src/Prelude/Texts.antt =====
-- Byte texts: the strings that the program walks. Go's strings are sequences of bytes. The folding
-- of letters is that of ASCII, the range of every identifier and policy pattern (config.go
-- `validatePatterns`, types.go `identifierPattern`).
use Prim.Native.Nat.{ℕ, ◌+◌}
use Prim.Native.Char.{code}
use Prim.Native.String.{String}
use mathlib.Core.Path.{◌≡◌, refl}
use mathlib.Core.Logic.{◌↔◌, ◌≢◌, inl, inr}
use mathlib.Core.Bool.{Bool, true, false, ◌&&◌}
use mathlib.Core.List.{List, [], ◌∷◌, ◌++◌, map}
use native.Mathlib.Omega.{arith}
use quordon.Prelude.Tests.{leb, nat_eq, if◌then◌else◌, Eq, ◌==◌, Bool-cases}
use quordon.Prelude.Lists.{All}

abbrev pub Text : Type 0
Text = List ℕ

-- The bytes of an ASCII literal.
abbrev pub text : String → Text
text String.[] = []
text (String.◌∷◌ c s) = code c ∷ text s

unfoldable pub text_eq : Text → Text → Bool
text_eq [] [] = true
text_eq (a ∷ s) (b ∷ t) = nat_eq a b && text_eq s t
text_eq _ _ = false

pub text_eq_iff : (s t : Text) → (text_eq s t ≡ true) ↔ (s ≡ t)
unfolding text_eq
text_eq_iff [] [] = (λ _. refl, λ _. refl)
text_eq_iff [] (b ∷ t) = (λ h. cc, λ h. cc)
text_eq_iff (a ∷ s) [] = (λ h. cc, λ h. cc)
text_eq_iff (a ∷ s) (b ∷ t) = ground (arith, text_eq_iff s t)

-- `s == ""` for a text that is not empty.
pub text_eq-cons_nil : (a : ℕ) (s : Text) → text_eq (a ∷ s) [] ≡ false
unfolding text_eq
text_eq-cons_nil a s = refl

instance abbrev pub text_has_eq : Eq Text
text_has_eq = record { equals = text_eq; equals_iff = text_eq_iff }

-- `strings.ToLower`, byte by byte.
unfoldable pub lower : ℕ → ℕ
lower c = if leb b'A' c && leb c b'Z' then c + 32 else c

unfoldable pub to_lower : Text → Text
to_lower s = map lower s

-- `strings.EqualFold`.
unfoldable pub equal_fold : Text → Text → Bool
equal_fold s t = to_lower s == to_lower t

pub equal_fold_iff : (s t : Text) → (equal_fold s t ≡ true) ↔ (to_lower s ≡ to_lower t)
unfolding equal_fold
equal_fold_iff s t = text_eq_iff (to_lower s) (to_lower t)

pub to_lower_idem : (s : Text) → to_lower (to_lower s) ≡ to_lower s
unfolding to_lower lower
to_lower_idem [] = refl
to_lower_idem (c ∷ s) =
    let here : lower (lower c) ≡ lower c = ground arith in cc (here, to_lower_idem s)

-- A byte put in front of the first part, or a new first part at a separator.
put_byte : ℕ → ℕ → List Text → List Text
put_byte sep c [] = [] ∷ []
put_byte sep c (p ∷ ps) = if nat_eq c sep then [] ∷ p ∷ ps else (c ∷ p) ∷ ps

-- `strings.Split(s, sep)` and `strings.Join(parts, sep)` for a separator of one byte.
unfoldable pub split : Text → ℕ → List Text
unfolding put_byte
split [] sep = [] ∷ []
split (c ∷ s) sep = put_byte sep c (split s sep)

glue : ℕ → Text → List Text → Text
glue sep p [] = p
glue sep p (q ∷ qs) = p ++ (sep ∷ glue sep q qs)

unfoldable pub join : List Text → ℕ → Text
unfolding glue
join [] sep = []
join (p ∷ ps) sep = glue sep p ps

abbrev pub Lacks : ℕ → Text → Type 0
Lacks b = All (λ c. c ≢ b)

split-ne-nil : (s : Text) (sep : ℕ) → split s sep ≢ []
unfolding split
split-ne-nil [] sep = cc
split-ne-nil (c ∷ s) sep = ground (arith, split-ne-nil s sep)

split-append : (p s : Text) (sep : ℕ) → Lacks sep p → split (p ++ (sep ∷ s)) sep ≡ p ∷ split s sep
unfolding split
split-append [] s sep h = ground (arith, split-ne-nil s sep)
split-append (c ∷ p) s sep h = ground (arith, split-append p s sep)

split-Lacks : (p : Text) (sep : ℕ) → Lacks sep p → split p sep ≡ p ∷ []
unfolding split
split-Lacks [] sep h = refl
split-Lacks (c ∷ p) sep h = ground (arith, split-Lacks p sep)

split-glue :
    (p : Text) (ps : List Text) (sep : ℕ)
    → Lacks sep p
    → All (Lacks sep) ps
    → split (glue sep p ps) sep ≡ p ∷ ps
unfolding glue
split-glue p [] sep h _ = split-Lacks p sep h
split-glue p (q ∷ qs) sep h (k, ks) =
    cc (split-append p (glue sep q qs) sep h, split-glue q qs sep k ks)

-- Splitting a join gives the parts back.
pub split-join :
    (p : Text) (ps : List Text) (sep : ℕ)
    → Lacks sep p
    → All (Lacks sep) ps
    → split (join (p ∷ ps) sep) sep ≡ p ∷ ps
unfolding join
split-join = split-glue

glue-cons : (sep c : ℕ) (p : Text) (ps : List Text) → glue sep (c ∷ p) ps ≡ c ∷ glue sep p ps
unfolding glue
glue-cons sep c p [] = refl
glue-cons sep c p (q ∷ qs) = refl

-- The parts of a split lack the separator and spell the text.
join-split-parts :
    (s : Text) (sep : ℕ)
    → (p : Text) × (ps : List Text) × (split s sep ≡ p ∷ ps)
      × Lacks sep p
      × All (Lacks sep) ps
      × (glue sep p ps ≡ s)
unfolding split glue
join-split-parts [] sep = ([], [], refl, tt, tt, refl)
join-split-parts (c ∷ s) sep =
    let (p, ps, e, lacks_p, lacks_ps, spells) = join-split-parts s sep in
    elim (Bool-cases (nat_eq c sep)) [
      | inl same ↦ ([], p ∷ ps, ground arith, tt, (lacks_p, lacks_ps), ground arith)
      | inr other ↦ (
        c ∷ p,
        ps,
        ground arith,
        (ground arith, lacks_p),
        lacks_ps,
        ground (arith, glue-cons sep c p ps),
      )
    ]

pub join-split :
    (s : Text) (sep : ℕ)
    → (p : Text) × (ps : List Text) × (split s sep ≡ p ∷ ps)
      × Lacks sep p
      × All (Lacks sep) ps
      × (join (p ∷ ps) sep ≡ s)
unfolding join
join-split = join-split-parts
