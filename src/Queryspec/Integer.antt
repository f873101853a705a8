-- ===== src/Queryspec/Integer.antt =====
-- internal/queryspec/types.go `parseJSONInteger` and `parseSaturatedDecimalExponent`: a JSON number
-- whose value is a whole number, read into int64 with no floating point. `none` is an error.
-- The sums are written over the natural numbers.
pub mod Exact
pub mod Plain
use quordon.Prelude.{
  ℕ, zero, suc, ◌+◌, ◌-◌, ◌*◌, ◌/◌, ◌^◌, Bool, true, false, not, ◌&&◌, ◌||◌, List, [], ◌∷◌, ◌==◌,
  nat_has_eq, ltb, length, all, take, drop, Text, Option, none, some, if◌then◌else◌,
}
use mathlib.Core.Option
use quordon.Prelude.Int.{ℤ, pos, negsuc, sub_ℕ, neg_ℕ}
use quordon.Prelude.{text_has_eq}
use quordon.Queryspec.Number.{json_number_pattern, drop_minus}

-- The text before the first byte of a class, and what follows it.
pub cut : (ℕ → Bool) → Text → Text × Option Text
cut p [] = ([], none)
cut p (c ∷ s) = let (before, after) = cut p s in if p c then ([], some s) else (c ∷ before, after)

-- `mantissa` without the point
pub drop_points : Text → Text
drop_points [] = []
drop_points (c ∷ s) = if c == b'.' then drop_points s else c ∷ drop_points s

pub drop_zeros : Text → Text
drop_zeros [] = []
drop_zeros (c ∷ s) = if c == b'0' then drop_zeros s else c ∷ s

-- `raw[0] == '-'`
unfoldable pub starts_with_minus : Text → Bool
starts_with_minus [] = false
starts_with_minus (c ∷ s) = c == b'-'

-- The loop of `parseSaturatedDecimalExponent`, with its break.
pub saturate : ℕ → ℕ → Text → ℕ
saturate maximum value [] = value
saturate maximum value (c ∷ s) =
    let decimal = c - b'0' in
    let rest = saturate maximum (value * 10 + decimal) s in
    if ltb ((maximum - decimal) / 10) value then maximum else rest

drop_exponent_sign : Text → Text
drop_exponent_sign [] = []
drop_exponent_sign (c ∷ s) = if c == b'-' || c == b'+' then s else c ∷ s

unfoldable pub parse_saturated_decimal_exponent : Text → ℕ → ℤ
unfolding saturate drop_exponent_sign starts_with_minus
parse_saturated_decimal_exponent raw maximum =
    let value = saturate maximum 0 (drop_exponent_sign raw) in
    if starts_with_minus raw then neg_ℕ value else pos value

-- `appendDigit`, and its loops over the digits and over the zeros of the exponent.
unfoldable pub append_digit : ℕ → ℕ → ℕ → Option ℕ
append_digit limit magnitude digit =
    let value = digit - b'0' in
    if ltb ((limit - value) / 10) magnitude then none else some (magnitude * 10 + value)

pub append_digits : ℕ → ℕ → Text → Option ℕ
append_digits limit magnitude [] = some magnitude
append_digits limit magnitude (d ∷ ds) = elim (append_digit limit magnitude d) [
  | none ↦ none
  | some m ↦ append_digits limit m ds
]

pub append_zeros : ℕ → ℕ → ℕ → Option ℕ
append_zeros limit magnitude zero = some magnitude
append_zeros limit magnitude (suc n) = elim (append_digit limit magnitude b'0') [
  | none ↦ none
  | some m ↦ append_zeros limit m n
]

abbrev pub max_int64 : ℕ
max_int64 = 2 ^ 63 - 1

-- `limit`: the absolute value of the least int64 is one larger.
abbrev pub magnitude_limit : Bool → ℕ
magnitude_limit negative = if negative then max_int64 + 1 else max_int64

-- Both branches of the code's last test give the negated magnitude.
abbrev pub signed : Bool → ℕ → ℤ
signed negative magnitude = if negative then neg_ℕ magnitude else pos magnitude

-- The digits with the trailing zeros of a negative exponent taken off, and the exponent left.
unfoldable pub shift_digits : Text → ℤ → Option (Text × ℕ)
shift_digits digits (pos k) = some (digits, k)
shift_digits digits (negsuc k) =
    let kept = length digits - suc k in
    if ltb (length digits) (suc k)
    then none
    else if all (λ c. c == b'0') (drop kept digits)
    then some (take kept digits, 0)
    else none

-- From the appending of digits on: the magnitude, then its sign.
unfoldable pub read_magnitude : ℕ → Text → ℕ → Option ℕ
read_magnitude limit digits exponent = elim (append_digits limit 0 digits) [
  | none ↦ none
  | some m ↦ if ltb 19 exponent then none else append_zeros limit m exponent
]

unfoldable pub read_digits : Bool → Text → ℕ → Option ℤ
read_digits negative digits exponent =
    Option.map (signed negative) (read_magnitude (magnitude_limit negative) digits exponent)

abbrev exponent_of : Option Text → ℕ → ℤ
exponent_of none maximum = pos 0
exponent_of (some e) maximum = parse_saturated_decimal_exponent e maximum

-- `exponent - fractionalDigits`
abbrev sub_fraction : ℤ → ℕ → ℤ
sub_fraction (pos e) f = sub_ℕ e f
sub_fraction (negsuc e) f = negsuc (e + f)

abbrev fractional_digits : Option Text → ℕ
fractional_digits none = 0
fractional_digits (some s) = length s

abbrev pub is_exponent_mark : ℕ → Bool
is_exponent_mark c = c == b'e' || c == b'E'

abbrev pub is_point : ℕ → Bool
is_point c = c == b'.'

-- The digits, shifted by the exponent.
unfoldable pub read_shifted : Bool → Text → ℤ → Option ℤ
read_shifted negative digits exponent =
    if digits == [] then some (pos 0) else elim (shift_digits digits exponent) [
      | none ↦ none
      | some (ds, k) ↦ read_digits negative ds k
    ]

-- The body of `parseJSONInteger` behind the sign.
unfoldable pub parse_unsigned : Bool → Text → Option ℤ
parse_unsigned negative raw =
    let parts = cut is_exponent_mark raw in
    let fraction = fractional_digits (cut is_point parts.0).1 in
    let exponent = exponent_of parts.1 (length raw + 20) in
    read_shifted negative (drop_zeros (drop_points parts.0)) (sub_fraction exponent fraction)

unfoldable pub parse_json_integer : Text → Option ℤ
parse_json_integer raw =
    if not (json_number_pattern raw)
    then none
    else parse_unsigned (starts_with_minus raw) (drop_minus raw)
