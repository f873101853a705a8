-- ===== src/Encoding/Rows.antt =====
-- internal/adapters/mysql8/mysql8.go `encodedRowSize`: the size of a row as a JSON array, a value
-- in base64 where its column's encoding says so.
use quordon.Prelude.{
  ℕ, ◌+◌, ◌-◌, ◌*◌, ◌/◌, ◌≤◌, ◌≡◌, sym, true, false, not, ◌||◌, List, [], ◌∷◌, ◌==◌, nat_has_eq,
  string_has_eq, ltb, leb, length, Text, String, Option, none, some, if◌then◌else◌, arith,
  Bool-cases, inl, inr, ==_iff,
}
use quordon.Encoding.{Utf8, json_string_size}
use quordon.Encoding.Bounded.{
  capped, and_size, add_encoded_size, add_encoded_size_lem, encoded_json_string_size, capped_step,
  string_step,
}

-- `base64.StdEncoding.EncodedLen`
abbrev pub base64_encoded_len : ℕ → ℕ
base64_encoded_len n = (n + 2) / 3 * 4

module _ (utf8 : Utf8) where
  -- The size of one value in full.
  unfoldable pub value_size : Option Text → String → ℕ
  value_size none encoding = 4
  value_size (some raw) encoding =
      if encoding == "base64"
      then 2 + base64_encoded_len (length raw)
      else json_string_size utf8 raw

  -- The size of the values in full, with a comma before each.
  unfoldable pub values_size : List (Option Text) → List String → ℕ
  values_size (raw ∷ raws) (encoding ∷ encodings) =
      1 + value_size raw encoding + values_size raws encodings
  values_size _ _ = 0

  -- The size of a row in full: the brackets, the values, and commas between them.
  unfoldable pub row_size : List (Option Text) → List String → ℕ
  unfolding values_size
  row_size (raw ∷ raws) (encoding ∷ encodings) =
      2 + value_size raw encoding + values_size raws encodings
  row_size _ _ = 2

  -- The body of the loop, from the comma on.
  unfoldable pub add_value : ℕ → ℕ → Option Text → String → (ℕ → Option ℕ) → Option ℕ
  add_value max_bytes size none encoding next = and_size (add_encoded_size size 4 max_bytes) next
  add_value max_bytes size (some raw) encoding next =
      if encoding == "base64"
      then and_size (add_encoded_size size (2 + base64_encoded_len (length raw)) max_bytes) next
      else and_size (encoded_json_string_size utf8 raw (max_bytes - size))
          (λ v. and_size (add_encoded_size size v max_bytes) next)

  -- The loop, after its first pass.
  unfoldable pub add_values : ℕ → List (Option Text) → List String → ℕ → Option ℕ
  add_values max_bytes (raw ∷ raws) (encoding ∷ encodings) size =
      and_size (add_encoded_size size 1 max_bytes)
        (λ n. add_value max_bytes n raw encoding (add_values max_bytes raws encodings))
  add_values max_bytes _ _ size = some size

  -- The loop with its first pass, which adds no comma.
  unfoldable pub add_row : ℕ → List (Option Text) → List String → Option ℕ
  unfolding add_value add_values
  add_row max_bytes (raw ∷ raws) (encoding ∷ encodings) =
      add_value max_bytes 2 raw encoding (add_values max_bytes raws encodings)
  add_row max_bytes _ _ = some 2

  unfoldable pub encoded_row_size : List (Option Text) → List String → ℕ → Option ℕ
  unfolding add_row
  encoded_row_size raws encodings max_bytes =
      if not (length raws == length encodings) || ltb max_bytes 2
      then none
      else add_row max_bytes raws encodings

  add_value_lem :
      (max_bytes size b : ℕ) (raw : Option Text) (encoding : String) (next : ℕ → Option ℕ)
      → size ≤ max_bytes
      → size + value_size raw encoding ≤ b
      → (size + value_size raw encoding ≤ max_bytes
          → next (size + value_size raw encoding) ≡ capped max_bytes b)
      → add_value max_bytes size raw encoding next ≡ capped max_bytes b
  unfolding add_value value_size
  add_value_lem max_bytes size b none encoding next within grows h =
      rw (add_encoded_size_lem size 4 max_bytes) (capped_step max_bytes (size + 4) b next grows h)
  add_value_lem max_bytes size b (some raw) encoding next within grows h =
      elim (Bool-cases (encoding == "base64")) [
        | inl binary ↦
            let n = 2 + base64_encoded_len (length raw) in
            let size_of : value_size (some raw) encoding ≡ n = rw binary in
            rw (binary, add_encoded_size_lem size n max_bytes)
              (capped_step max_bytes (size + n) b next (rw (sym size_of) grows)
                (rw (sym size_of) h))
        | inr plain ↦
            let n = json_string_size utf8 raw in
            let size_of : value_size (some raw) encoding ≡ n = rw plain in
            rw plain (
              string_step utf8 max_bytes size b raw next within (rw (sym size_of) grows)
                (rw (sym size_of) h))
      ]

  add_values_lem :
      (max_bytes : ℕ) (raws : List (Option Text)) (encodings : List String) (size : ℕ)
      → size ≤ max_bytes
      → add_values max_bytes raws encodings size
        ≡ capped max_bytes (size + values_size raws encodings)
  unfolding add_values values_size
  add_values_lem max_bytes [] encodings size within = ground arith
  add_values_lem max_bytes (raw ∷ raws) [] size within = ground arith
  add_values_lem max_bytes (raw ∷ raws) (encoding ∷ encodings) size within =
      let n = value_size raw encoding in
      let total = size + (1 + n + values_size raws encodings) in
      let last : size + 1 + n ≤ max_bytes
          → add_values max_bytes raws encodings (size + 1 + n) ≡ capped max_bytes total =
        λ fits. rw (add_values_lem max_bytes raws encodings (size + 1 + n) fits) (ground arith) in
      let value : size + 1 ≤ max_bytes
          → add_value max_bytes (size + 1) raw encoding (add_values max_bytes raws encodings)
            ≡ capped max_bytes total =
        λ fits.
          add_value_lem max_bytes (size + 1) total raw encoding
            (add_values max_bytes raws encodings) fits (ground arith) last in
      rw (add_encoded_size_lem size 1 max_bytes) (
        capped_step max_bytes (size + 1) total
          (λ k. add_value max_bytes k raw encoding (add_values max_bytes raws encodings))
          (ground arith) value)

  add_row_lem :
      (max_bytes : ℕ) (raws : List (Option Text)) (encodings : List String)
      → 2 ≤ max_bytes
      → add_row max_bytes raws encodings ≡ capped max_bytes (row_size raws encodings)
  unfolding add_row row_size
  add_row_lem max_bytes [] encodings within = ground arith
  add_row_lem max_bytes (raw ∷ raws) [] within = ground arith
  add_row_lem max_bytes (raw ∷ raws) (encoding ∷ encodings) within =
      let n = value_size raw encoding in
      add_value_lem max_bytes 2 (2 + n + values_size raws encodings) raw encoding
        (add_values max_bytes raws encodings) within (ground arith)
        (λ fits. add_values_lem max_bytes raws encodings (2 + n) fits)

  pub row_size_ge :
      (raws : List (Option Text)) (encodings : List String) → 2 ≤ row_size raws encodings
  unfolding row_size
  row_size_ge [] encodings = omega arith
  row_size_ge (raw ∷ raws) [] = omega arith
  row_size_ge (raw ∷ raws) (encoding ∷ encodings) = omega arith

  -- The adapter's count of a row, with a value for each column, is its count in full, and it refuses
  -- exactly the rows whose count is more than the maximum.
  pub encoded_row_size_lem :
      (raws : List (Option Text)) (encodings : List String) (max_bytes : ℕ)
      → length raws ≡ length encodings
      → encoded_row_size raws encodings max_bytes ≡ capped max_bytes (row_size raws encodings)
  unfolding encoded_row_size
  encoded_row_size_lem raws encodings max_bytes same =
      let equal : (length raws == length encodings) ≡ true =
        (==_iff (length raws) (length encodings)).1 same in
      let least = row_size_ge raws encodings in
      elim (Bool-cases (ltb max_bytes 2)) [
        | inl small ↦
            let beyond : leb (row_size raws encodings) max_bytes ≡ false = ground arith in
            rw (equal, small, beyond)
        | inr enough ↦ rw (equal, enough) (add_row_lem max_bytes raws encodings (ground arith))
      ]
