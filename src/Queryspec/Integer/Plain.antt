-- ===== src/Queryspec/Integer/Plain.antt =====
-- `parseJSONInteger` on plain integer literals: digits with no point and no exponent.
use mathlib.Core.Option
use quordon.Prelude.{
  ℕ, ◌+◌, ◌-◌, ◌*◌, ◌≤◌, ◌≡◌, refl, ap, Bool, true, false, nat_has_eq, [], ◌∷◌, Text, none, some,
  Option, zero, suc, ◌⊎◌, inl, inr, text, text_eq, All, arith, text_eq-cons_nil, ◌∙◌, leb,
  if◌then◌else◌,
}
use quordon.Prelude.Int.{ℤ, pos, negsuc}
use quordon.Queryspec.Number.{
  drop_digits, drop_minus, json_number_pattern, integer_part, fraction_part, exponent_part,
}
use quordon.Queryspec.Integer.{
  is_point, is_exponent_mark, read_shifted, cut, drop_points, drop_zeros, starts_with_minus,
  shift_digits, parse_unsigned, parse_json_integer, magnitude_limit, signed,
}
use quordon.Queryspec.Integer.Exact.{spelled, IsDigit, bounded, read_digits_exact, le-spelled}

drop_digits-all : (s : Text) → All IsDigit s → drop_digits s ≡ []
unfolding drop_digits
drop_digits-all [] h = refl
drop_digits-all (c ∷ s) h = ground (arith, drop_digits-all s)

cut-none :
    (p : ℕ → Bool) (s : Text)
    → ((c : ℕ) → IsDigit c → p c ≡ false)
    → All IsDigit s
    → cut p s ≡ (s, none)
unfolding cut
cut-none p [] h _ = refl
cut-none p (c ∷ s) h (hc, hs) = rw (h c hc, cut-none p s h hs)

drop_points-digits : (s : Text) → All IsDigit s → drop_points s ≡ s
unfolding drop_points
drop_points-digits [] h = refl
drop_points-digits (c ∷ s) h = ground (arith, drop_points-digits s)

module _ (c : ℕ) (s : Text) (nonzero : b'1' ≤ c) (below : c ≤ b'9') (digits : All IsDigit s) where
  matches : json_number_pattern (c ∷ s) ≡ true
  unfolding json_number_pattern integer_part fraction_part exponent_part drop_minus
  matches = ground (arith, drop_digits-all s)

  matches_negative : json_number_pattern (b'-' ∷ c ∷ s) ≡ true
  unfolding json_number_pattern integer_part fraction_part exponent_part drop_minus
  matches_negative = ground (arith, drop_digits-all s)

  all_digits : All IsDigit (c ∷ s)
  all_digits = (omega arith, digits)

  drop_zeros-plain : drop_zeros (c ∷ s) ≡ c ∷ s
  unfolding drop_zeros
  drop_zeros-plain = ground arith

  read_shifted-plain :
      (negative : Bool)
      → read_shifted negative (c ∷ s) (pos 0)
        ≡ Option.map (signed negative) (bounded (magnitude_limit negative) (spelled 0 (c ∷ s)))
  unfolding read_shifted shift_digits spelled
  read_shifted-plain negative =
      let value = spelled 0 (c ∷ s) in
      let positive : 1 ≤ value = omega (arith, le-spelled (0 * 10 + (c - b'0')) s) in
      let same : value * 1 ≡ value = omega arith in
      rw (text_eq-cons_nil c s) (
        read_digits_exact negative (c ∷ s) 0 all_digits positive
        ∙ ap (λ n. Option.map (signed negative) (bounded (magnitude_limit negative) n)) same)

  parse_unsigned-plain :
      (negative : Bool)
      → parse_unsigned negative (c ∷ s)
        ≡ Option.map (signed negative) (bounded (magnitude_limit negative) (spelled 0 (c ∷ s)))
  unfolding parse_unsigned
  parse_unsigned-plain negative =
      rw (cut-none is_exponent_mark (c ∷ s) (λ d h. ground arith) all_digits) (
        rw (cut-none is_point (c ∷ s) (λ d h. ground arith) all_digits) (
          rw (drop_points-digits (c ∷ s) all_digits)
            (rw drop_zeros-plain (read_shifted-plain negative))))

  unsigned :
      parse_unsigned (starts_with_minus (c ∷ s)) (drop_minus (c ∷ s)) ≡ parse_unsigned false (c ∷ s)
  unfolding starts_with_minus drop_minus
  unsigned = ground arith

  -- Behind its sign or without one.
  read_plain :
      (negative : Bool)
      → parse_json_integer (if negative then b'-' ∷ c ∷ s else c ∷ s)
        ≡ Option.map (signed negative) (bounded (magnitude_limit negative) (spelled 0 (c ∷ s)))
  unfolding parse_json_integer starts_with_minus drop_minus
  read_plain true = rw matches_negative (parse_unsigned-plain true)
  read_plain false = rw matches (rw unsigned (parse_unsigned-plain false))

-- Digits with no leading zero, or a single zero.
abbrev pub IsNumeral : Text → Type 0
IsNumeral [] = ⊥
IsNumeral (c ∷ s) = ((c ≡ b'0') × (s ≡ [])) ⊎ ((b'1' ≤ c) × (c ≤ b'9') × All IsDigit s)

-- The number, from -9223372036854775808 to 9223372036854775807, of a sign and a numeral's value.
abbrev pub int64_of : Bool → ℕ → Option ℤ
int64_of false n = if leb n 9223372036854775807 then some (pos n) else none
int64_of true zero = some (pos 0)
int64_of true (suc n) = if leb n 9223372036854775807 then some (negsuc n) else none

in_range :
    (negative : Bool) (n : ℕ)
    → Option.map (signed negative) (bounded (magnitude_limit negative) n) ≡ int64_of negative n
in_range false n = ground arith
in_range true zero = refl
in_range true (suc n) = ground arith

read_zero :
    (negative : Bool) → parse_json_integer (if negative then text "-0" else text "0") ≡ some (pos 0)
unfolding parse_json_integer starts_with_minus drop_minus parse_unsigned cut drop_points drop_zeros
    json_number_pattern integer_part fraction_part exponent_part read_shifted text_eq
read_zero true = refl
read_zero false = refl

-- An integer literal without point and exponent is read as the number that its digits spell, negated
-- behind a minus sign, if that lies between -9223372036854775808 and 9223372036854775807, and is
-- refused otherwise.
pub parse_json_integer-literal :
    (negative : Bool) (s : Text)
    → IsNumeral s
    → parse_json_integer (if negative then b'-' ∷ s else s) ≡ int64_of negative (spelled 0 s)
unfolding spelled
parse_json_integer-literal negative [] absent = absurd absent
parse_json_integer-literal negative (c ∷ s) (inr (lo, hi, digits)) =
    read_plain c s lo hi digits negative ∙ in_range negative (spelled 0 (c ∷ s))
parse_json_integer-literal true (c ∷ s) (inl (digit, alone)) = rw (digit, alone) (read_zero true)
parse_json_integer-literal false (c ∷ s) (inl (digit, alone)) = rw (digit, alone) (read_zero false)
