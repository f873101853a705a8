-- ===== src/Encoding/Json/Descriptions.antt =====
-- internal/queryservice/operations.go `boundedObjectDescriptionResult` against the bytes of the JSON
-- of a description.
use quordon.Prelude.{
  ℕ, ◌+◌, ◌≤◌, ◌≡◌, refl, ap, ◌∙◌, Bool, true, false, List, [], ◌∷◌, ◌++◌, map, length, Text, text,
  ltb, leb, arith, length-append, Bool-cases, inl, inr,
}
use quordon.Encoding.{Utf8, StaysWithin, json_string_size}
use quordon.Encoding.Bounded.{capped, add_encoded_size_lem, capped_step}
use quordon.Encoding.Metadata.{
  ColumnDescription, ObjectDescription, json_boolean_size, column_description_size, columns_from,
  object_description_frame, bounded_object_description_result,
}
use quordon.Encoding.Metadata.Agree.{listed_size}
use quordon.Encoding.Json.{commas, json_string, length-json_string}
use quordon.Encoding.Json.Responses.{tail_length, length-commas}

abbrev json_boolean : Bool → Text
json_boolean true = text "true"
json_boolean false = text "false"

length-json_boolean : (b : Bool) → length (json_boolean b) ≡ json_boolean_size b
length-json_boolean true = refl
length-json_boolean false = refl

-- The texts, one after the other.
abbrev joined : List Text → Text
joined [] = []
joined (x ∷ xs) = x ++ joined xs

abbrev lengths : List Text → ℕ
lengths [] = 0
lengths (x ∷ xs) = length x + lengths xs

length-joined : (xs : List Text) → length (joined xs) ≡ lengths xs
length-joined [] = refl
length-joined (x ∷ xs) = omega (arith, length-append x (joined xs), length-joined xs)

module _ (utf8 : Utf8) where
  -- The members of a column's object.
  abbrev column_parts : ColumnDescription → List Text
  column_parts column =
      text "{\"name\":"
      ∷ json_string utf8 column.name
      ∷ text ",\"type\":"
      ∷ json_string utf8 column.type
      ∷ text ",\"native_type\":"
      ∷ json_string utf8 column.native_type
      ∷ text ",\"nullable\":"
      ∷ json_boolean column.nullable
      ∷ text ",\"primary_key\":"
      ∷ json_boolean column.primary_key
      ∷ text ",\"indexed\":"
      ∷ json_boolean column.indexed
      ∷ text "}"
      ∷ []

  abbrev json_column : ColumnDescription → Text
  json_column column = joined (column_parts column)

  abbrev description_parts : ObjectDescription → List Text
  description_parts d =
      text "{\"schema\":"
      ∷ json_string utf8 d.schema
      ∷ text ",\"name\":"
      ∷ json_string utf8 d.name
      ∷ text ",\"columns\":["
      ∷ commas (map json_column d.columns)
      ∷ text "]}"
      ∷ []

  abbrev pub json_description : ObjectDescription → Text
  json_description d = joined (description_parts d)

  columns_from_lem :
      (max_bytes separator : ℕ) (columns : List ColumnDescription) (size : ℕ)
      → size ≤ max_bytes
      → columns_from utf8 max_bytes separator columns size
        ≡ capped max_bytes
            (size + listed_size utf8 (column_description_size utf8) separator columns)
  unfolding columns_from
  columns_from_lem max_bytes separator [] size within = ground arith
  columns_from_lem max_bytes separator (column ∷ columns) size within =
      let n = column_description_size utf8 column + separator in
      let total = size + (n + listed_size utf8 (column_description_size utf8) 1 columns) in
      let rest : size + n ≤ max_bytes
          → columns_from utf8 max_bytes 1 columns (size + n) ≡ capped max_bytes total =
        λ fits. rw (columns_from_lem max_bytes 1 columns (size + n) fits) (ground arith) in
      rw (add_encoded_size_lem size n max_bytes) (
        capped_step max_bytes (size + n) total (columns_from utf8 max_bytes 1 columns)
          (ground arith) rest)

  module _ (within : StaysWithin utf8) where
    length-json_column :
        (column : ColumnDescription)
        → length (json_column column) ≡ column_description_size utf8 column
    unfolding column_description_size
    length-json_column column = omega (
      arith,
      length-joined (column_parts column),
      length-json_string utf8 within column.name,
      length-json_string utf8 within column.type,
      length-json_string utf8 within column.native_type,
      length-json_boolean column.nullable,
      length-json_boolean column.primary_key,
      length-json_boolean column.indexed,
    )

    tail_length-json_columns :
        (columns : List ColumnDescription)
        → tail_length (map json_column columns)
          ≡ listed_size utf8 (column_description_size utf8) 1 columns
    tail_length-json_columns [] = refl
    tail_length-json_columns (column ∷ columns) =
        omega (arith, length-json_column column, tail_length-json_columns columns)

    length-json_columns :
        (columns : List ColumnDescription)
        → length (commas (map json_column columns))
          ≡ listed_size utf8 (column_description_size utf8) 0 columns
    unfolding commas
    length-json_columns [] = refl
    length-json_columns (column ∷ columns) = omega (
      arith,
      length-commas (json_column column) (map json_column columns),
      length-json_column column,
      tail_length-json_columns columns,
    )

    length-json_description :
        (d : ObjectDescription)
        → object_description_frame
            + json_string_size utf8 d.schema
            + json_string_size utf8 d.name
            + listed_size utf8 (column_description_size utf8) 0 d.columns
          ≡ length (json_description d)
    length-json_description d = omega (
      arith,
      length-joined (description_parts d),
      length-json_string utf8 within d.schema,
      length-json_string utf8 within d.name,
      length-json_columns d.columns,
    )

    -- The service admits exactly the descriptions of objects whose JSON has no more bytes than the
    -- maximum, and answers how many it has. The decoding of UTF-8 may be any that stays within its
    -- text.
    pub bounded_object_description_result-json_description :
        (d : ObjectDescription) (max_bytes : ℕ)
        → bounded_object_description_result utf8 d max_bytes
          ≡ capped max_bytes (length (json_description d))
    unfolding bounded_object_description_result
    bounded_object_description_result-json_description d max_bytes =
        let size =
          object_description_frame
          + json_string_size utf8 d.schema
          + json_string_size utf8 d.name in
        let total = size + listed_size utf8 (column_description_size utf8) 0 d.columns in
        let bytes = length-json_description d in
        elim (Bool-cases (ltb max_bytes size)) [
          | inl small ↦
              let beyond : leb (length (json_description d)) max_bytes ≡ false =
                ground (arith, bytes) in
              rw (small, beyond)
          | inr room ↦
              let fits : size ≤ max_bytes = ground arith in
              rw room
                (columns_from_lem max_bytes 0 d.columns size fits ∙ ap (capped max_bytes) bytes)
        ]
