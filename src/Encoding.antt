-- ===== src/Encoding.antt =====
-- How many bytes the JSON of a response takes, counted without encoding it:
-- internal/queryservice/operations.go counts in full, internal/adapters/mysql8/mysql8.go stops at a
-- maximum. The decoding of UTF-8 (Go's `utf8.DecodeRune`) is a parameter.
pub mod Bounded
pub mod Rows
pub mod Json
pub mod Collect
pub mod Metadata
use quordon.Prelude.{
  ℕ, zero, suc, ◌+◌, ◌-◌, Bool, ◌&&◌, ◌||◌, [], ◌∷◌, ◌==◌, nat_has_eq, ltb, length, Text, String,
  text, Option, none, some, if◌then◌else◌, contains, ◌≤◌, List,
}

-- What `utf8.DecodeRune` answers for a text that starts with a byte and goes on with the others: the
-- rune, and the width less one. The width of a rune of a text that is not empty is 1 or more.
pub record Utf8 : Type 0 where
  pub rune : ℕ → Text → ℕ
  pub width_less_one : ℕ → Text → ℕ

-- Documented: a rune ends where its text does, or before.
abbrev pub StaysWithin : Utf8 → Type 0
StaysWithin utf8 = (c : ℕ) (s : Text) → utf8.width_less_one c s ≤ length s

abbrev pub rune_error : ℕ
rune_error = 65533

-- A text's quotation mark, backslash, and the controls with an escape of their own.
abbrev pub short_escapes : List ℕ
short_escapes = b'\\' ∷ b'"' ∷ 8 ∷ 12 ∷ b'\n' ∷ 13 ∷ 9 ∷ []

abbrev pub html_escapes : List ℕ
html_escapes = b'<' ∷ b'>' ∷ b'&' ∷ []

module _ (utf8 : Utf8) where
  -- `width`, less one.
  unfoldable pub width_less_one : ℕ → Text → ℕ
  width_less_one c s = if ltb c 128 then 0 else utf8.width_less_one c s

  -- `encodedBytes`
  unfoldable pub encoded_bytes : ℕ → Text → ℕ
  encoded_bytes c s =
      if ltb c 128
      then (if contains short_escapes c
          then 2
          else if contains html_escapes c
          then 6
          else if ltb c 32
          then 6
          else 1)
      else if utf8.rune c s == rune_error && utf8.width_less_one c s == 0
      then 6
      else if utf8.rune c s == 8232 || utf8.rune c s == 8233
      then 6
      else suc (utf8.width_less_one c s)

  -- The loop of `encodedJSONStringSize` of operations.go, with the bytes of a rune still to pass.
  unfoldable pub json_string_size_from : ℕ → ℕ → Text → ℕ
  json_string_size_from size skip [] = size
  json_string_size_from size (suc skip) (c ∷ s) = json_string_size_from size skip s
  json_string_size_from size zero (c ∷ s) =
      json_string_size_from (size + encoded_bytes c s) (width_less_one c s) s

  unfoldable pub json_string_size : Text → ℕ
  json_string_size s = json_string_size_from 2 0 s
