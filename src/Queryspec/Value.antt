-- ===== src/Queryspec/Value.antt =====
-- internal/queryspec/types.go `TypedValue.BindValue`: the values that a query may bind. The parsing
-- of RFC 3339 date-times (Go's `time.Parse`) and of base64 is a parameter: `Codec`.
use quordon.Prelude.{
  ℕ, zero, suc, ◌+◌, ◌*◌, ◌-◌, ◌%◌, Bool, false, not, ◌&&◌, ◌||◌, [], ◌∷◌, ◌==◌, nat_has_eq,
  string_has_eq, text_has_eq, leb, length, take, text, Text, String, Option, none, some,
  if◌then◌else◌, Result, ok, err,
}
use quordon.Prelude.Int.{ℤ}
use quordon.Queryspec.{RawMessage, null, boolean, number, quoted, TypedValue}
use quordon.Queryspec.Number.{is_digit, decimal_pattern, json_number_pattern, uuid_pattern}
use quordon.Queryspec.Integer.{parse_json_integer}

-- `time.Parse(time.RFC3339Nano, …)` and `base64.StdEncoding.Strict()`.
pub record Codec : Type 0 where
  pub rfc3339 : Text → Bool
  pub base64_decode : Text → Option Text
  pub base64_encode : Text → Text

-- The value that is bound, by its Go type.
pub data Bind : Type 0 where
  bool : Bool → Bind
  int64 : ℤ → Bind
  string : Text → Bind
  bytes : Text → Bind
  int : ℕ → Bind

two_digits : ℕ → ℕ → Option ℕ
two_digits a b = if is_digit a && is_digit b then some ((a - b'0') * 10 + (b - b'0')) else none

is_leap : ℕ → Bool
is_leap y = y % 4 == 0 && not (y % 100 == 0) || y % 400 == 0

days_in : ℕ → ℕ → ℕ
days_in y m =
    if m == 2
    then (if is_leap y then 29 else 28)
    else if m == 4 || m == 6 || m == 9 || m == 11
    then 30
    else 31

valid_date : Option ℕ → Option ℕ → Option ℕ → Option ℕ → Bool
unfolding is_leap days_in
valid_date (some century) (some years) (some m) (some d) =
    let y = century * 100 + years in
    leb 1 y && leb 1 m && leb m 12 && leb 1 d && leb d (days_in y m)
valid_date _ _ _ _ = false

-- portable_values.go `ParsePortableDate`: YYYY-MM-DD, a day of the calendar from the year 1 on.
unfoldable pub parse_portable_date : Text → Bool
unfolding two_digits valid_date
parse_portable_date (a ∷ b ∷ c ∷ d ∷ p ∷ e ∷ f ∷ q ∷ g ∷ h ∷ []) =
    p == b'-'
    && q == b'-'
    && valid_date (two_digits a b) (two_digits c d) (two_digits e f) (two_digits g h)
parse_portable_date _ = false

-- The byte at an index, changed if it is the given one.
replace_at : ℕ → ℕ → ℕ → Text → Text
replace_at i old new [] = []
replace_at zero old new (c ∷ s) = (if c == old then new else c) ∷ s
replace_at (suc i) old new (c ∷ s) = c ∷ replace_at i old new s

-- `validateRFC3339DateTime`: a lower-case separator or zone is read as its upper-case spelling.
unfoldable pub validate_rfc3339_date_time : Codec → Text → Bool
unfolding replace_at
validate_rfc3339_date_time codec value =
    not (leb (length value) 11)
    && not (take 4 value == text "0000")
    && codec.rfc3339 (replace_at (length value - 1) b'z' b'Z' (replace_at 10 b't' b'T' value))

bind_integer : RawMessage → Result String Bind
bind_integer (number n) = elim (parse_json_integer n) [
  | none ↦ err "integer type requires an integral JSON number in the signed 64-bit range"
  | some z ↦ ok (int64 z)
]
bind_integer _ = err "integer type requires an integral JSON number in the signed 64-bit range"

bind_decimal : RawMessage → Result String Bind
bind_decimal (quoted s) =
    if decimal_pattern s
    then ok (string s)
    else err "decimal string requires a finite fixed-point base-10 number"
bind_decimal (number n) =
    if json_number_pattern n
    then ok (string n)
    else err "decimal type requires a finite JSON number or fixed-point string"
bind_decimal _ = err "decimal type requires a finite JSON number or fixed-point string"

bind_boolean : RawMessage → Result String Bind
bind_boolean (boolean b) = ok (bool b)
bind_boolean _ = err "boolean type requires a JSON boolean"

-- The types that a JSON string spells, with the test of its text.
bind_quoted : (Text → Option Bind) → String → String → RawMessage → Result String Bind
bind_quoted read not_string refused (quoted s) = elim (read s) [
  | none ↦ err refused
  | some b ↦ ok b
]
bind_quoted read not_string refused _ = err not_string

if_valid : (Text → Bool) → Text → Option Bind
if_valid p s = if p s then some (string s) else none

module _ (codec : Codec) where
  -- Standard base64 in its one canonical spelling.
  bind_base64 : Text → Option Bind
  bind_base64 s = elim (codec.base64_decode s) [
    | none ↦ none
    | some decoded ↦ if codec.base64_encode decoded == s then some (bytes decoded) else none
  ]

  bind_by_type : String → RawMessage → Result String Bind
  unfolding bind_base64 bind_integer bind_decimal bind_boolean bind_quoted if_valid
  bind_by_type type null =
      err "typed bind values do not accept JSON null; use is_null or is_not_null"
  bind_by_type type raw =
      if type == "boolean"
      then bind_boolean raw
      else if type == "integer"
      then bind_integer raw
      else if type == "decimal"
      then bind_decimal raw
      else if type == "string"
      then bind_quoted (λ s. some (string s)) "string type requires a JSON string" "" raw
      else if type == "uuid"
      then bind_quoted (if_valid uuid_pattern) "uuid type requires a canonical UUID string"
          "uuid type requires a canonical UUID string" raw
      else if type == "date"
      then bind_quoted (if_valid parse_portable_date) "date type requires a JSON string"
          "date must use YYYY-MM-DD" raw
      else if type == "datetime"
      then bind_quoted (if_valid (validate_rfc3339_date_time codec))
          "datetime type requires a JSON string" "datetime must use RFC 3339" raw
      else if type == "bytes"
      then bind_quoted bind_base64 "bytes type requires a base64 JSON string"
          "bytes must use canonical standard base64 encoding" raw
      else err "contains an unsupported type"

  unfoldable pub bind_value : TypedValue → Result String Bind
  unfolding bind_by_type
  bind_value v = elim v.value [
    | none ↦ err "value is required"
    | some raw ↦ bind_by_type v.type raw
  ]
