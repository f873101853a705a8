-- ===== src/Queryspec/Number.antt =====
-- The patterns of types.go for JSON numbers, fixed-point decimals and UUIDs, as recognisers that
-- consume a text from the left.
use quordon.Prelude.{
  ℕ, zero, suc, Bool, true, false, ◌&&◌, ◌||◌, [], ◌∷◌, ◌==◌, nat_has_eq, leb, Text, Option, none,
  some, if◌then◌else◌,
}

abbrev pub is_digit : ℕ → Bool
is_digit c = leb b'0' c && leb c b'9'

-- [0-9]*
unfoldable pub drop_digits : Text → Text
drop_digits [] = []
drop_digits (c ∷ s) = if is_digit c then drop_digits s else c ∷ s

-- -?
unfoldable pub drop_minus : Text → Text
drop_minus [] = []
drop_minus (c ∷ s) = if c == b'-' then s else c ∷ s

-- (?:0|[1-9][0-9]*)
unfoldable pub integer_part : Text → Option Text
unfolding drop_digits
integer_part [] = none
integer_part (c ∷ s) =
    if c == b'0' then some s else if leb b'1' c && leb c b'9' then some (drop_digits s) else none

some_digits : Text → Option Text
some_digits [] = none
some_digits (c ∷ s) = if is_digit c then some (drop_digits s) else none

-- (?:\.[0-9]+)?
unfoldable pub fraction_part : Text → Option Text
unfolding some_digits drop_digits
fraction_part [] = some []
fraction_part (c ∷ s) = if c == b'.' then some_digits s else some (c ∷ s)

drop_sign : Text → Text
drop_sign [] = []
drop_sign (c ∷ s) = if c == b'+' || c == b'-' then s else c ∷ s

-- (?:[eE][+-]?[0-9]+)?
unfoldable pub exponent_part : Text → Option Text
unfolding some_digits drop_digits drop_sign
exponent_part [] = some []
exponent_part (c ∷ s) = if c == b'e' || c == b'E' then some_digits (drop_sign s) else some (c ∷ s)

abbrev at_end : Option Text → Bool
at_end (some []) = true
at_end _ = false

infixl 5 ◌>>=◌
abbrev ◌>>=◌ : Option Text → (Text → Option Text) → Option Text
none >>= f = none
some s >>= f = f s

-- `decimalPattern`
unfoldable pub decimal_pattern : Text → Bool
unfolding drop_minus integer_part fraction_part
decimal_pattern s = at_end (integer_part (drop_minus s) >>= fraction_part)

-- `jsonNumberPattern`
unfoldable pub json_number_pattern : Text → Bool
unfolding drop_minus integer_part fraction_part exponent_part
json_number_pattern s = at_end (integer_part (drop_minus s) >>= fraction_part >>= exponent_part)

abbrev is_hex : ℕ → Bool
is_hex c = is_digit c || leb b'a' c && leb c b'f' || leb b'A' c && leb c b'F'

-- n bytes of a class
bytes_of : ℕ → (ℕ → Bool) → Text → Option Text
bytes_of zero p s = some s
bytes_of (suc n) p [] = none
bytes_of (suc n) p (c ∷ s) = if p c then bytes_of n p s else none

dash : Text → Option Text
unfolding bytes_of
dash = bytes_of 1 (λ c. c == b'-')

-- `uuidPattern`
unfoldable pub uuid_pattern : Text → Bool
unfolding bytes_of dash
uuid_pattern s = at_end (
    bytes_of 8 is_hex s
    >>= dash
    >>= bytes_of 4 is_hex
    >>= dash
    >>= bytes_of 1 (λ c. leb b'1' c && leb c b'8')
    >>= bytes_of 3 is_hex
    >>= dash
    >>= bytes_of 1 (λ c. c == b'8' || c == b'9' || c == b'a' || c == b'b' || c == b'A' || c == b'B')
    >>= bytes_of 3 is_hex
    >>= dash
    >>= bytes_of 12 is_hex)
