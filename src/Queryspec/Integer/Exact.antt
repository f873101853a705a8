-- ===== src/Queryspec/Integer/Exact.antt =====
-- internal/queryspec/types.go `parseJSONInteger`: its digit loops against the number that digits spell.
use quordon.Prelude.{
  ℕ, zero, suc, ◌+◌, ◌-◌, ◌*◌, ◌^◌, ◌≤◌, ◌<◌, ◌≡◌, ◌⊎◌, inl, inr, Bool, true, false, [], ◌∷◌, Text,
  Option, none, some, All, arith, leb, ltb, ltb→lt, Bool-cases, ap, if◌then◌else◌,
}
use mathlib.Core.Option
use native.Mathlib.Nat.{pow-suc, one-le-pow, pow-le-pow_right, mul-le-mul_right}
use quordon.Queryspec.Integer.{
  append_digit, append_digits, append_zeros, read_magnitude, read_digits, magnitude_limit, signed,
}

-- The number that digits spell behind `n`, with no bound.
unfoldable pub spelled : ℕ → Text → ℕ
spelled n [] = n
spelled n (d ∷ ds) = spelled (n * 10 + (d - b'0')) ds

abbrev pub IsDigit : ℕ → Type 0
IsDigit c = (b'0' ≤ c) × (c ≤ b'9')

append_digit-eq :
    (limit m d : ℕ)
    → 10 ≤ limit
    → IsDigit d
    → (append_digit limit m d ≡ some (m * 10 + (d - b'0'))) × (m * 10 + (d - b'0') ≤ limit)
      ⊎ (append_digit limit m d ≡ none) × (limit < m * 10 + (d - b'0'))
unfolding append_digit
append_digit-eq limit m d h k = ground arith

pub le-spelled : (n : ℕ) (ds : Text) → n ≤ spelled n ds
unfolding spelled
le-spelled n [] = omega arith
le-spelled n (d ∷ ds) = omega (arith, le-spelled (n * 10 + (d - b'0')) ds)

abbrev pub bounded : ℕ → ℕ → Option ℕ
bounded limit n = if leb n limit then some n else none

append_digits_exact :
    (limit m : ℕ) (ds : Text)
    → 10 ≤ limit
    → m ≤ limit
    → All IsDigit ds
    → append_digits limit m ds ≡ bounded limit (spelled m ds)
unfolding append_digits spelled
append_digits_exact limit m [] h k _ = ground arith
append_digits_exact limit m (d ∷ ds) h k (hd, hds) = elim (append_digit-eq limit m d h hd) [
  | inl (e, fits) ↦
      rw (e, append_digits) (append_digits_exact limit (m * 10 + (d - b'0')) ds h fits hds)
  | inr (e, over) ↦ rw (e, append_digits) (ground (arith, le-spelled (m * 10 + (d - b'0')) ds))
]

le-mul-pow : (a k : ℕ) → a ≤ a * 10 ^ k
le-mul-pow a k = let positive : 1 ≤ 10 ^ k = one-le-pow k 10 (omega arith) in grind arith

append_zeros_exact :
    (limit m k : ℕ) → 10 ≤ limit → m ≤ limit → append_zeros limit m k ≡ bounded limit (m * 10 ^ k)
unfolding append_zeros
append_zeros_exact limit m zero h fits = ground arith
append_zeros_exact limit m (suc k) h fits =
    let power : m * 10 ^ suc k ≡ (m * 10 + (b'0' - b'0')) * 10 ^ k =
      omega (arith, ap (λ (t : ℕ). m * t) (pow-suc 10 k)) in
    elim (append_digit-eq limit m b'0' h (omega arith)) [
      | inl (e, small) ↦
          rw (e, append_zeros, power) (append_zeros_exact limit (m * 10 + (b'0' - b'0')) k h small)
      | inr (e, over) ↦
          let above : limit < m * 10 ^ suc k =
            omega (arith, power, le-mul-pow (m * 10 + (b'0' - b'0')) k) in
          rw (e, append_zeros) (ground arith)
    ]

-- The digits and zeros are read exactly, and refused exactly when their value passes the limit.
read_magnitude_exact :
    (limit : ℕ) (ds : Text) (k : ℕ)
    → 10 ≤ limit
    → limit < 10 ^ 20
    → All IsDigit ds
    → 1 ≤ spelled 0 ds
    → read_magnitude limit ds k ≡ bounded limit (spelled 0 ds * 10 ^ k)
unfolding read_magnitude
read_magnitude_exact limit ds k lo hi h nonzero =
    let n = spelled 0 ds in
    let e = append_digits_exact limit 0 ds lo (omega arith) h in
    elim (Bool-cases (leb n limit)) [
      | inl fits ↦ elim (Bool-cases (ltb 19 k)) [
        | inl long ↦
            let huge : 10 ^ 20 ≤ 10 ^ k =
              pow-le-pow_right {n = 10} (omega arith) (ltb→lt 19 k long) in
            let above : limit < n * 10 ^ k =
              omega (arith, mul-le-mul_right (10 ^ k) nonzero, huge) in
            rw (e, read_magnitude) (rw fits (rw long (ground arith)))
        | inr short ↦
            rw (e, read_magnitude)
              (rw (fits, read_magnitude)
                (rw short (append_zeros_exact limit n k lo (ground arith))))
      ]
      | inr over ↦ rw (e, read_magnitude) (rw over (ground (arith, le-mul-pow n k)))
    ]

pub read_digits_exact :
    (negative : Bool) (ds : Text) (k : ℕ)
    → All IsDigit ds
    → 1 ≤ spelled 0 ds
    → read_digits negative ds k
      ≡ Option.map (signed negative) (bounded (magnitude_limit negative) (spelled 0 ds * 10 ^ k))
unfolding read_digits
read_digits_exact true ds k h nonzero =
    ap (Option.map (signed true))
      (read_magnitude_exact (magnitude_limit true) ds k (omega arith) (omega arith) h nonzero)
read_digits_exact false ds k h nonzero =
    ap (Option.map (signed false))
      (read_magnitude_exact (magnitude_limit false) ds k (omega arith) (omega arith) h nonzero)
