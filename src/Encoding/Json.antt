-- ===== src/Encoding/Json.antt =====
-- The JSON that Go's `encoding/json` writes for the values of a response, HTML escapes on: what the
-- sizes of internal/queryservice/operations.go and internal/adapters/mysql8/mysql8.go are counted
-- for. The bytes are written here without regard to how those count.
pub mod Descriptions
pub mod Responses
pub mod Selects
use quordon.Prelude.{
  ℕ, zero, suc, ◌+◌, ◌-◌, ◌*◌, ◌/◌, ◌%◌, ◌≤◌, ◌≡◌, refl, Bool, true, false, ◌&&◌, ◌||◌, List, [],
  ◌∷◌, ◌++◌, map, ◌==◌, nat_has_eq, string_has_eq, ltb, leb, length, take, Text, String, text,
  Option, none, some, if◌then◌else◌, arith, length-append, Bool-cases, inl, inr, ap, ◌∙◌,
}
use quordon.Encoding.{
  Utf8, StaysWithin, width_less_one, encoded_bytes, json_string_size_from, json_string_size,
}

-- A lower-case hexadecimal digit.
abbrev hex : ℕ → ℕ
hex n = if ltb n 10 then b'0' + n else b'a' + (n - 10)

-- The bytes for a character of ASCII.
abbrev ascii : ℕ → Text
ascii c =
    if c == b'"'
    then text "\\\""
    else if c == b'\\'
    then text "\\\\"
    else if c == 8
    then text "\\b"
    else if c == 12
    then text "\\f"
    else if c == 10
    then text "\\n"
    else if c == 13
    then text "\\r"
    else if c == 9
    then text "\\t"
    else if ltb c 32 || c == b'<' || c == b'>' || c == b'&'
    then text "\\u00" ++ (hex (c / 16) ∷ hex (c % 16) ∷ [])
    else c ∷ []

-- The texts with a comma between them.
unfoldable pub commas : List Text → Text
commas [] = []
commas (x ∷ []) = x
commas (x ∷ y ∷ xs) = x ++ (b',' ∷ commas (y ∷ xs))

-- A digit of base64.
abbrev base64_digit : ℕ → ℕ
base64_digit n =
    if ltb n 26
    then b'A' + n
    else if ltb n 52
    then b'a' + (n - 26)
    else if ltb n 62
    then b'0' + (n - 52)
    else if n == 62
    then b'+'
    else b'/'

-- The standard encoding, padded.
unfoldable pub base64 : Text → Text
base64 [] = []
base64 (a ∷ []) = base64_digit (a / 4) ∷ base64_digit (a % 4 * 16) ∷ b'=' ∷ b'=' ∷ []
base64 (a ∷ b ∷ []) =
    base64_digit (a / 4)
    ∷ base64_digit (a % 4 * 16 + b / 16)
    ∷ base64_digit (b % 16 * 4)
    ∷ b'='
    ∷ []
base64 (a ∷ b ∷ c ∷ s) =
    base64_digit (a / 4)
    ∷ base64_digit (a % 4 * 16 + b / 16)
    ∷ base64_digit (b % 16 * 4 + c / 64)
    ∷ base64_digit (c % 64)
    ∷ base64 s

pub length-base64 : (s : Text) → length (base64 s) ≡ (length s + 2) / 3 * 4
unfolding base64
length-base64 [] = refl
length-base64 (a ∷ []) = refl
length-base64 (a ∷ b ∷ []) = refl
length-base64 (a ∷ b ∷ c ∷ s) = omega (arith, length-base64 s)

length-take : (n : ℕ) (s : Text) → n ≤ length s → length (take n s) ≡ n
length-take zero s h = refl
length-take (suc n) [] h = omega arith
length-take (suc n) (c ∷ s) h = omega (arith, length-take n s (omega arith))

module _ (utf8 : Utf8) where
  -- The bytes for the rune that a text starts with: a byte that is no UTF-8 is replaced.
  abbrev rune_text : ℕ → Text → Text
  rune_text c s =
      if ltb c 128
      then ascii c
      else if utf8.rune c s == 65533 && utf8.width_less_one c s == 0
      then text "\\ufffd"
      else if utf8.rune c s == 8232
      then text "\\u2028"
      else if utf8.rune c s == 8233
      then text "\\u2029"
      else c ∷ take (utf8.width_less_one c s) s

  -- The bytes of the runes, with the rest of a rune still to pass.
  unfoldable runes : ℕ → Text → Text
  runes skip [] = []
  runes (suc skip) (c ∷ s) = runes skip s
  runes zero (c ∷ s) = rune_text c s ++ runes (if ltb c 128 then 0 else utf8.width_less_one c s) s

  unfoldable pub json_string : Text → Text
  unfolding runes
  json_string s = b'"' ∷ (runes 0 s ++ (b'"' ∷ []))

  module _ (within : StaysWithin utf8) where
    length-ascii : (c : ℕ) (s : Text) → ltb c 128 ≡ true → length (ascii c) ≡ encoded_bytes utf8 c s
    unfolding encoded_bytes
    length-ascii c s h = ground arith

    length-rune_text : (c : ℕ) (s : Text) → length (rune_text c s) ≡ encoded_bytes utf8 c s
    unfolding encoded_bytes
    length-rune_text c s = elim (Bool-cases (ltb c 128)) [
      | inl small ↦
          let here : rune_text c s ≡ ascii c = rw small in
          ap (λ (t : Text). length t) here ∙ length-ascii c s small
      | inr large ↦
          let taken = length-take (utf8.width_less_one c s) s (within c s) in
          rw large (ground (arith, taken))
    ]

    length-runes :
        (size skip : ℕ) (s : Text)
        → json_string_size_from utf8 size skip s ≡ size + length (runes skip s)
    unfolding json_string_size_from runes width_less_one
    length-runes size skip [] = omega arith
    length-runes size (suc skip) (c ∷ s) = length-runes size skip s
    length-runes size zero (c ∷ s) =
        let w = if ltb c 128 then 0 else utf8.width_less_one c s in
        omega (
          arith,
          length-runes (size + encoded_bytes utf8 c s) w s,
          length-append (rune_text c s) (runes w s),
          length-rune_text c s,
        )

    pub length-json_string : (s : Text) → length (json_string s) ≡ json_string_size utf8 s
    unfolding json_string json_string_size
    length-json_string s = omega (arith, length-runes 2 0 s, length-append (runes 0 s) (b'"' ∷ []))
