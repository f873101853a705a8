-- ===== src/Queryspec/Identifier.antt =====
-- internal/queryspec/types.go `validateIdentifier` and its pattern ^[A-Za-z_][A-Za-z0-9_]*$.
use quordon.Prelude.{
  ℕ, ◌≤◌, ◌≡◌, Bool, true, false, ◌&&◌, ◌||◌, List, [], ◌∷◌, ◌==◌, text_has_eq, text_eq_iff, nat_eq,
  ltb, leb, length, all, Lacks, Text, ok, fail_if, ◌>>◌, is_ok, arith, not,
}
use quordon.Queryspec.{Checked, PathPart, at, protocol_max_identifier_bytes}

identifier_start : ℕ → Bool
identifier_start c = leb b'A' c && leb c b'Z' || leb b'a' c && leb c b'z' || nat_eq c b'_'

unfoldable pub identifier_byte : ℕ → Bool
unfolding identifier_start
identifier_byte c = identifier_start c || leb b'0' c && leb c b'9'

unfoldable pub identifier_pattern : Text → Bool
unfolding identifier_byte
identifier_pattern [] = false
identifier_pattern (c ∷ s) = identifier_start c && all identifier_byte s

unfoldable pub validate_identifier : List PathPart → Text → Checked (Unit {0})
validate_identifier path value = do
  fail_if (value == []) (at path "must not be empty")
  fail_if (ltb protocol_max_identifier_bytes (length value)) (at path "exceeds 128 bytes")
  fail_if (not (identifier_pattern value)) (at path "must be a portable SQL identifier")

-- `IsIdentifier`
unfoldable pub is_identifier : Text → Bool
unfolding validate_identifier
is_identifier value = is_ok (validate_identifier [] value)

-- What an accepted identifier is.
abbrev pub IsPortable : Text → Type 0
IsPortable s = (length s ≤ 128) × (identifier_pattern s ≡ true)

pub validate_identifier-ok :
    (path : List PathPart) (s : Text) {u : Unit {0}}
    → validate_identifier path s ≡ ok u
    → IsPortable s
unfolding validate_identifier
validate_identifier-ok path s h = ground arith

pub IsPortable-ok :
    (path : List PathPart) (s : Text) → IsPortable s → validate_identifier path s ≡ ok tt
unfolding validate_identifier identifier_pattern
IsPortable-ok path [] h = ground arith
IsPortable-ok path (c ∷ s) h = ground (arith, text_eq_iff (c ∷ s) [])

-- The bytes that an identifier cannot hold.
abbrev Forbidden : ℕ → Type 0
Forbidden b = identifier_byte b ≡ false

all-Lacks : (b : ℕ) (s : Text) → Forbidden b → all identifier_byte s ≡ true → Lacks b s
all-Lacks b [] h k = tt
all-Lacks b (c ∷ s) h k = (
  (λ e. let forbidden : identifier_byte c ≡ false = rw e h in ground arith),
  all-Lacks b s h (ground arith),
)

pub IsPortable-Lacks : (b : ℕ) (s : Text) → identifier_byte b ≡ false → IsPortable s → Lacks b s
unfolding identifier_pattern
IsPortable-Lacks b [] h (_, k) = tt
IsPortable-Lacks b (c ∷ s) h (_, k) = all-Lacks b (c ∷ s) h (ground arith)
