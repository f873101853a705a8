-- ===== src/Encoding/Metadata/Agree.antt =====
-- The sizes of the adapter (mysql8.go) against those of the service (operations.go).
use quordon.Prelude.{
  ℕ, zero, suc, refl, ◌-◌, ◌+◌, ◌≤◌, ◌≡◌, sym, Bool, List, [], ◌∷◌, Text, Option, none, some, arith,
}
use quordon.Encoding.{Utf8, width_less_one, json_string_size}
use quordon.Encoding.Bounded.{
  capped, and_size, add_encoded_size, add_encoded_size_lem, capped_step, string_step,
  encoded_string_from, encoded_json_string_size, adapter_encoded_bytes,
}
use quordon.Encoding.Metadata.{
  ColumnDescription, schema_object_frame, object_list_frame, column_description_frame,
  json_boolean_size, column_description_size, object_list_from, bounded_object_list_result,
  encoded_metadata_json_string_size, encoded_metadata_string_from, metadata_encoded_bytes,
  metadata_values, encoded_metadata_object_size, add_booleans, encoded_column_description_size,
}

-- The size with an increment, and what follows.
add_step :
    (max_bytes size n b : ℕ) (f : ℕ → Option ℕ)
    → size + n ≤ b
    → (size + n ≤ max_bytes → f (size + n) ≡ capped max_bytes b)
    → and_size (add_encoded_size size n max_bytes) f ≡ capped max_bytes b
add_step max_bytes size n b f grows next =
    rw (add_encoded_size_lem size n max_bytes) (capped_step max_bytes (size + n) b f grows next)

first_step :
    (max_bytes n b : ℕ) (f : ℕ → Option ℕ)
    → n ≤ b
    → (n ≤ max_bytes → f n ≡ capped max_bytes b)
    → and_size (add_encoded_size 0 n max_bytes) f ≡ capped max_bytes b
first_step max_bytes n b f grows next =
    let start : 0 + n ≡ n = omega arith in
    rw (add_encoded_size_lem 0 n max_bytes, start) (capped_step max_bytes n b f grows next)

and_size-agree :
    (o : Option ℕ) (f g : ℕ → Option ℕ) → ((n : ℕ) → f n ≡ g n) → and_size o f ≡ and_size o g
and_size-agree none f g h = refl
and_size-agree (some n) f g h = h n

module _ (utf8 : Utf8) where
  -- The sizes of strings, together.
  abbrev strings_size : List Text → ℕ
  strings_size [] = 0
  strings_size (value ∷ values) = json_string_size utf8 value + strings_size values

  abbrev booleans_size : List Bool → ℕ
  booleans_size [] = 0
  booleans_size (b ∷ bs) = json_boolean_size b + booleans_size bs

  -- The sizes of items with what stands between them.
  abbrev pub listed_size : {A : Type 0} → (A → ℕ) → ℕ → List A → ℕ
  listed_size item separator [] = 0
  listed_size item separator (x ∷ xs) = item x + separator + listed_size item 1 xs

  metadata_encoded_bytes_lem :
      (c : ℕ) (s : Text) → metadata_encoded_bytes utf8 c s ≡ adapter_encoded_bytes utf8 c s
  unfolding metadata_encoded_bytes adapter_encoded_bytes
  metadata_encoded_bytes_lem c s = refl

  -- The adapter's two counts of a string agree.
  encoded_metadata_string_from_lem :
      (max_bytes size skip : ℕ) (s : Text)
      → encoded_metadata_string_from utf8 max_bytes size skip s
        ≡ encoded_string_from utf8 max_bytes size skip s
  unfolding encoded_metadata_string_from encoded_string_from
  encoded_metadata_string_from_lem max_bytes size skip [] = refl
  encoded_metadata_string_from_lem max_bytes size (suc skip) (c ∷ s) =
      encoded_metadata_string_from_lem max_bytes size skip s
  encoded_metadata_string_from_lem max_bytes size zero (c ∷ s) =
      let w = width_less_one utf8 c s in
      rw (metadata_encoded_bytes_lem c s) (
        and_size-agree (add_encoded_size size (adapter_encoded_bytes utf8 c s) max_bytes)
          (λ n. encoded_metadata_string_from utf8 max_bytes n w s)
          (λ n. encoded_string_from utf8 max_bytes n w s)
          (λ n. encoded_metadata_string_from_lem max_bytes n w s))

  encoded_metadata_json_string_size_lem :
      (s : Text) (max_bytes : ℕ)
      → encoded_metadata_json_string_size utf8 s max_bytes
        ≡ encoded_json_string_size utf8 s max_bytes
  unfolding encoded_metadata_json_string_size encoded_json_string_size
  encoded_metadata_json_string_size_lem s max_bytes =
      rw (encoded_metadata_string_from_lem max_bytes 2 0 s)

  metadata_values_lem :
      (max_bytes : ℕ) (values : List Text) (size : ℕ)
      → size ≤ max_bytes
      → metadata_values utf8 max_bytes values size ≡ capped max_bytes (size + strings_size values)
  unfolding metadata_values
  metadata_values_lem max_bytes [] size within = ground arith
  metadata_values_lem max_bytes (value ∷ values) size within =
      let n = json_string_size utf8 value in
      let total = size + (n + strings_size values) in
      let rest : size + n ≤ max_bytes
          → metadata_values utf8 max_bytes values (size + n) ≡ capped max_bytes total =
        λ fits. rw (metadata_values_lem max_bytes values (size + n) fits) (ground arith) in
      rw (encoded_metadata_json_string_size_lem value (max_bytes - size)) (
        string_step utf8 max_bytes size total value (metadata_values utf8 max_bytes values) within
          (ground arith) rest)

  add_booleans_lem :
      (max_bytes : ℕ) (bs : List Bool) (size : ℕ)
      → size ≤ max_bytes
      → add_booleans utf8 max_bytes bs size ≡ capped max_bytes (size + booleans_size bs)
  unfolding add_booleans
  add_booleans_lem max_bytes [] size within = ground arith
  add_booleans_lem max_bytes (b ∷ bs) size within =
      let total = size + (json_boolean_size b + booleans_size bs) in
      let rest : size + json_boolean_size b ≤ max_bytes
          → add_booleans utf8 max_bytes bs (size + json_boolean_size b) ≡ capped max_bytes total =
        λ fits.
          rw (add_booleans_lem max_bytes bs (size + json_boolean_size b) fits) (ground arith) in
      add_step max_bytes size (json_boolean_size b) total (add_booleans utf8 max_bytes bs)
        (ground arith) rest

  encoded_metadata_object_size_lem :
      (base_size max_bytes : ℕ) (values : List Text)
      → encoded_metadata_object_size utf8 base_size max_bytes values
        ≡ capped max_bytes (base_size + strings_size values)
  unfolding encoded_metadata_object_size
  encoded_metadata_object_size_lem base_size max_bytes values =
      first_step max_bytes base_size (base_size + strings_size values)
        (metadata_values utf8 max_bytes values) (ground arith)
        (λ fits. metadata_values_lem max_bytes values base_size fits)

  -- The adapter measures the description of a column as the service does, up to the maximum.
  pub encoded_column_description_size_lem :
      (column : ColumnDescription) (max_bytes : ℕ)
      → encoded_column_description_size utf8 column max_bytes
        ≡ capped max_bytes (column_description_size utf8 column)
  unfolding encoded_column_description_size column_description_size
  encoded_column_description_size_lem column max_bytes =
      let strings = column.name ∷ column.type ∷ column.native_type ∷ [] in
      let booleans = column.nullable ∷ column.primary_key ∷ column.indexed ∷ [] in
      let head = column_description_frame + strings_size strings in
      let regroup : head + booleans_size booleans ≡ column_description_size utf8 column =
        omega arith in
      rw (encoded_metadata_object_size_lem column_description_frame max_bytes strings) (
        capped_step max_bytes head (column_description_size utf8 column)
          (add_booleans utf8 max_bytes booleans) (omega (arith, regroup))
          (λ fits. rw (sym regroup) (add_booleans_lem max_bytes booleans head fits)))

  object_list_from_lem :
      (max_bytes separator : ℕ) (names : List Text) (size : ℕ)
      → size ≤ max_bytes
      → object_list_from utf8 max_bytes separator names size
        ≡ capped max_bytes (
            size
            + listed_size
                (λ name. schema_object_frame + json_string_size utf8 name)
                separator
                names)
  unfolding object_list_from
  object_list_from_lem max_bytes separator [] size within = ground arith
  object_list_from_lem max_bytes separator (name ∷ names) size within =
      let item : Text → ℕ = λ name. schema_object_frame + json_string_size utf8 name in
      let n = item name + separator in
      let total = size + (n + listed_size item 1 names) in
      let rest : size + n ≤ max_bytes
          → object_list_from utf8 max_bytes 1 names (size + n) ≡ capped max_bytes total =
        λ fits. rw (object_list_from_lem max_bytes 1 names (size + n) fits) (ground arith) in
      add_step max_bytes size n total (object_list_from utf8 max_bytes 1 names) (ground arith) rest

  -- The service admits exactly the lists of objects whose count in full is within the maximum: of the
  -- frame, an item for each object, and the commas between them.
  pub bounded_object_list_result_lem :
      (names : List Text) (max_bytes : ℕ)
      → bounded_object_list_result utf8 names max_bytes
        ≡ capped max_bytes (
            object_list_frame
            + listed_size (λ name. schema_object_frame + json_string_size utf8 name) 0 names)
  unfolding bounded_object_list_result
  bounded_object_list_result_lem names max_bytes =
      first_step max_bytes object_list_frame _ (object_list_from utf8 max_bytes 0 names)
        (ground arith) (λ fits. object_list_from_lem max_bytes 0 names object_list_frame fits)
