-- ===== src/Encoding/Bounded.antt =====
-- internal/adapters/mysql8/mysql8.go: the sizes that stop at a maximum, against the sizes in full.
-- A size that does not fit is `none`; no count is negative.
use quordon.Prelude.{
  ℕ, zero, suc, ◌+◌, ◌-◌, ◌≤◌, ◌≡◌, false, ◌||◌, [], ◌∷◌, ltb, leb, Text, Option, none, some,
  if◌then◌else◌, arith, ◌==◌, nat_has_eq, ◌&&◌, Bool-cases, inl, inr,
}
use quordon.Encoding.{
  Utf8, width_less_one, encoded_bytes, json_string_size_from, json_string_size, rune_error,
}

-- A size, if it is within the maximum.
abbrev pub capped : ℕ → ℕ → Option ℕ
capped max_bytes size = if leb size max_bytes then some size else none

-- `if !ok { return 0, false }`, and on with the size.
abbrev pub and_size : Option ℕ → (ℕ → Option ℕ) → Option ℕ
and_size none f = none
and_size (some n) f = f n

-- `addEncodedSize`, and `addBoundedSize` of operations.go.
unfoldable pub add_encoded_size : ℕ → ℕ → ℕ → Option ℕ
add_encoded_size current increment max_bytes =
    if ltb max_bytes current || ltb (max_bytes - current) increment
    then none
    else some (current + increment)

pub add_encoded_size_lem :
    (current increment max_bytes : ℕ)
    → add_encoded_size current increment max_bytes ≡ capped max_bytes (current + increment)
unfolding add_encoded_size
add_encoded_size_lem current increment max_bytes = ground arith

-- A size that stops at the maximum, added up in two steps.
pub capped_step :
    (max_bytes a b : ℕ) (f : ℕ → Option ℕ)
    → a ≤ b
    → (a ≤ max_bytes → f a ≡ capped max_bytes b)
    → and_size (capped max_bytes a) f ≡ capped max_bytes b
capped_step max_bytes a b f grows next = elim (Bool-cases (leb a max_bytes)) [
  | inl fits ↦ rw fits (next (ground arith))
  | inr over ↦ let beyond : leb b max_bytes ≡ false = ground arith in rw (over, beyond)
]

module _ (utf8 : Utf8) where
  -- The switches of `encodedJSONStringSize`.
  unfoldable pub adapter_encoded_bytes : ℕ → Text → ℕ
  adapter_encoded_bytes c s =
      if ltb c 128
      then (if c == b'\\' || c == b'"' || c == 8 || c == 12 || c == b'\n' || c == 13 || c == 9
          then 2
          else if c == b'<' || c == b'>' || c == b'&'
          then 6
          else if ltb c 32
          then 6
          else 1)
      else if utf8.rune c s == rune_error && utf8.width_less_one c s == 0
      then 6
      else if utf8.rune c s == 8232 || utf8.rune c s == 8233
      then 6
      else suc (utf8.width_less_one c s)

  -- The service's switches give the same.
  pub adapter_encoded_bytes_lem :
      (c : ℕ) (s : Text) → adapter_encoded_bytes c s ≡ encoded_bytes utf8 c s
  unfolding adapter_encoded_bytes encoded_bytes
  adapter_encoded_bytes_lem c s = ground arith

  -- The loop of `encodedJSONStringSize`, with the bytes of a rune still to pass.
  unfoldable pub encoded_string_from : ℕ → ℕ → ℕ → Text → Option ℕ
  encoded_string_from max_bytes size skip [] = some size
  encoded_string_from max_bytes size (suc skip) (c ∷ s) = encoded_string_from max_bytes size skip s
  encoded_string_from max_bytes size zero (c ∷ s) =
      and_size (add_encoded_size size (adapter_encoded_bytes c s) max_bytes)
        (λ n. encoded_string_from max_bytes n (width_less_one utf8 c s) s)

  unfoldable pub encoded_json_string_size : Text → ℕ → Option ℕ
  encoded_json_string_size value max_bytes =
      if ltb max_bytes 2 then none else encoded_string_from max_bytes 2 0 value

  -- A count never goes down.
  pub json_string_size_from_ge :
      (size skip : ℕ) (s : Text) → size ≤ json_string_size_from utf8 size skip s
  unfolding json_string_size_from
  json_string_size_from_ge size skip [] = omega arith
  json_string_size_from_ge size (suc skip) (c ∷ s) = json_string_size_from_ge size skip s
  json_string_size_from_ge size zero (c ∷ s) =
      omega (
        arith,
        json_string_size_from_ge (size + encoded_bytes utf8 c s) (width_less_one utf8 c s) s,
      )

  encoded_string_from_lem :
      (max_bytes size skip : ℕ) (s : Text)
      → size ≤ max_bytes
      → encoded_string_from max_bytes size skip s
        ≡ capped max_bytes (json_string_size_from utf8 size skip s)
  unfolding encoded_string_from json_string_size_from
  encoded_string_from_lem max_bytes size skip [] h = ground arith
  encoded_string_from_lem max_bytes size (suc skip) (c ∷ s) h =
      encoded_string_from_lem max_bytes size skip s h
  encoded_string_from_lem max_bytes size zero (c ∷ s) h =
      let n = size + encoded_bytes utf8 c s in
      let grows = json_string_size_from_ge n (width_less_one utf8 c s) s in
      elim (Bool-cases (leb n max_bytes)) [
        | inl fits ↦
            rw
              (
                adapter_encoded_bytes_lem c s,
                add_encoded_size_lem size (encoded_bytes utf8 c s) max_bytes,
                fits,
              )
              (encoded_string_from_lem max_bytes n (width_less_one utf8 c s) s (ground arith))
        | inr over ↦
            let beyond : leb (json_string_size_from utf8 n (width_less_one utf8 c s) s) max_bytes
                ≡ false =
              ground arith in
            rw (
              adapter_encoded_bytes_lem c s,
              add_encoded_size_lem size (encoded_bytes utf8 c s) max_bytes,
              over,
              beyond,
            )
      ]

  -- The adapter's size of a JSON string is the service's, if that is within the maximum.
  pub encoded_json_string_size_lem :
      (s : Text) (max_bytes : ℕ)
      → encoded_json_string_size s max_bytes ≡ capped max_bytes (json_string_size utf8 s)
  unfolding encoded_json_string_size json_string_size
  encoded_json_string_size_lem s max_bytes =
      let grows = json_string_size_from_ge 2 0 s in
      elim (Bool-cases (ltb max_bytes 2)) [
        | inl small ↦ ground arith
        | inr enough ↦ rw enough (encoded_string_from_lem max_bytes 2 0 s (ground arith))
      ]

  -- A string's size, measured in what the maximum leaves, and added.
  pub string_step :
      (max_bytes size b : ℕ) (s : Text) (f : ℕ → Option ℕ)
      → size ≤ max_bytes
      → size + json_string_size utf8 s ≤ b
      → (size + json_string_size utf8 s ≤ max_bytes
          → f (size + json_string_size utf8 s) ≡ capped max_bytes b)
      → and_size
          (encoded_json_string_size s (max_bytes - size))
          (λ v. and_size (add_encoded_size size v max_bytes) f)
        ≡ capped max_bytes b
  string_step max_bytes size b s f within grows next =
      let n = json_string_size utf8 s in
      rw (encoded_json_string_size_lem s (max_bytes - size))
        (elim (Bool-cases (leb n (max_bytes - size))) [
          | inl fits ↦
              rw (fits, add_encoded_size_lem size n max_bytes)
                (capped_step max_bytes (size + n) b f grows next)
          | inr over ↦ let beyond : leb b max_bytes ≡ false = ground arith in rw (over, beyond)
        ])
