-- ===== src/Encoding/Json/Responses.antt =====
-- The sizes of internal/adapters/mysql8/mysql8.go and internal/queryservice/operations.go against the
-- bytes of the JSON of a row and of a list of objects.
use quordon.Prelude.{
  ℕ, ◌+◌, ◌≡◌, refl, ap, ◌∙◌, List, [], ◌∷◌, ◌++◌, map, ◌==◌, string_has_eq, length, Text, String,
  text, Option, none, some, if◌then◌else◌, arith, length-append, Bool-cases, inl, inr,
}
use quordon.Encoding.{Utf8, StaysWithin, json_string_size}
use quordon.Encoding.Bounded.{capped}
use quordon.Encoding.Rows.{
  value_size, values_size, row_size, encoded_row_size, encoded_row_size_lem,
}
use quordon.Encoding.Metadata.{object_list_frame, schema_object_frame, bounded_object_list_result}
use quordon.Encoding.Metadata.Agree.{listed_size, bounded_object_list_result_lem}
use quordon.Encoding.Json.{commas, base64, length-base64, json_string, length-json_string}

-- The lengths of texts with a comma before each.
abbrev pub tail_length : List Text → ℕ
tail_length [] = 0
tail_length (x ∷ xs) = 1 + length x + tail_length xs

pub length-commas :
    (x : Text) (xs : List Text) → length (commas (x ∷ xs)) ≡ length x + tail_length xs
unfolding commas
length-commas x [] = omega arith
length-commas x (y ∷ xs) =
    omega (arith, length-append x (b',' ∷ commas (y ∷ xs)), length-commas y xs)

module _ (utf8 : Utf8) where
  -- A value of a row: null, or a string, in base64 where the column says so.
  abbrev json_value : Option Text → String → Text
  json_value none encoding = text "null"
  json_value (some raw) encoding =
      if encoding == "base64" then b'"' ∷ (base64 raw ++ (b'"' ∷ [])) else json_string utf8 raw

  abbrev json_values : List (Option Text) → List String → List Text
  json_values (raw ∷ raws) (encoding ∷ encodings) =
      json_value raw encoding ∷ json_values raws encodings
  json_values _ _ = []

  -- A row is an array of its values.
  abbrev pub json_row : List (Option Text) → List String → Text
  json_row raws encodings = b'[' ∷ (commas (json_values raws encodings) ++ (b']' ∷ []))

  -- An object of a list is its name.
  abbrev json_object : Text → Text
  json_object name = text "{\"name\":" ++ (json_string utf8 name ++ text "}")

  abbrev pub json_object_list : List Text → Text
  json_object_list names = text "{\"objects\":[" ++ (commas (map json_object names) ++ text "]}")

  module _ (within : StaysWithin utf8) where
    length-json_value :
        (raw : Option Text) (encoding : String)
        → length (json_value raw encoding) ≡ value_size utf8 raw encoding
    unfolding value_size
    length-json_value none encoding = refl
    length-json_value (some raw) encoding = elim (Bool-cases (encoding == "base64")) [
      | inl binary ↦
          rw binary (omega (arith, length-base64 raw, length-append (base64 raw) (b'"' ∷ [])))
      | inr plain ↦ rw plain (length-json_string utf8 within raw)
    ]

    tail_length-json_values :
        (raws : List (Option Text)) (encodings : List String)
        → tail_length (json_values raws encodings) ≡ values_size utf8 raws encodings
    unfolding values_size
    tail_length-json_values [] encodings = refl
    tail_length-json_values (raw ∷ raws) [] = refl
    tail_length-json_values (raw ∷ raws) (encoding ∷ encodings) =
        omega (arith, length-json_value raw encoding, tail_length-json_values raws encodings)

    pub length-json_row :
        (raws : List (Option Text)) (encodings : List String)
        → row_size utf8 raws encodings ≡ length (json_row raws encodings)
    unfolding row_size commas
    length-json_row [] encodings = refl
    length-json_row (raw ∷ raws) [] = refl
    length-json_row (raw ∷ raws) (encoding ∷ encodings) =
        let first = json_value raw encoding in
        let others = json_values raws encodings in
        omega (
          arith,
          length-append (commas (first ∷ others)) (b']' ∷ []),
          length-commas first others,
          length-json_value raw encoding,
          tail_length-json_values raws encodings,
        )

    length-json_object :
        (name : Text) → length (json_object name) ≡ schema_object_frame + json_string_size utf8 name
    length-json_object name = omega (
      arith,
      length-append (json_string utf8 name) (text "}"),
      length-json_string utf8 within name,
    )

    tail_length-json_objects :
        (names : List Text)
        → tail_length (map json_object names)
          ≡ listed_size utf8 (λ name. schema_object_frame + json_string_size utf8 name) 1 names
    tail_length-json_objects [] = refl
    tail_length-json_objects (name ∷ names) =
        omega (arith, length-json_object name, tail_length-json_objects names)

    length-json_object_list :
        (names : List Text)
        → object_list_frame
            + listed_size utf8 (λ name. schema_object_frame + json_string_size utf8 name) 0 names
          ≡ length (json_object_list names)
    unfolding commas
    length-json_object_list [] = refl
    length-json_object_list (name ∷ names) =
        let first = json_object name in
        let others = map json_object names in
        omega (
          arith,
          length-append (commas (first ∷ others)) (text "]}"),
          length-commas first others,
          length-json_object name,
          tail_length-json_objects names,
        )

    -- The adapter measures a row, with a value for each column, as the bytes of its JSON, and refuses
    -- exactly the rows whose JSON has more bytes than the maximum. The decoding of UTF-8 may be any
    -- that stays within its text.
    pub encoded_row_size-json_row :
        (raws : List (Option Text)) (encodings : List String) (max_bytes : ℕ)
        → length raws ≡ length encodings
        → encoded_row_size utf8 raws encodings max_bytes
          ≡ capped max_bytes (length (json_row raws encodings))
    encoded_row_size-json_row raws encodings max_bytes same =
        encoded_row_size_lem utf8 raws encodings max_bytes same
        ∙ ap (capped max_bytes) (length-json_row raws encodings)

    -- The service admits exactly the lists of objects whose JSON has no more bytes than the maximum,
    -- and answers how many it has. The decoding of UTF-8 may be any that stays within its text.
    pub bounded_object_list_result-json_object_list :
        (names : List Text) (max_bytes : ℕ)
        → bounded_object_list_result utf8 names max_bytes
          ≡ capped max_bytes (length (json_object_list names))
    bounded_object_list_result-json_object_list names max_bytes =
        bounded_object_list_result_lem utf8 names max_bytes
        ∙ ap (capped max_bytes) (length-json_object_list names)
