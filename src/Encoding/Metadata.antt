-- ===== src/Encoding/Metadata.antt =====
-- The sizes of the lists of objects and of the descriptions of columns, counted in full in
-- internal/queryservice/operations.go and up to a maximum in internal/adapters/mysql8/mysql8.go.
pub mod Agree
use quordon.Prelude.{
  ℕ, zero, suc, ◌+◌, ◌-◌, Bool, true, false, List, [], ◌∷◌, ltb, length, Text, String, text, Option,
  none, some, if◌then◌else◌, ◌==◌, nat_has_eq, ◌&&◌, ◌||◌,
}
use quordon.Encoding.{Utf8, rune_error, width_less_one, json_string_size}
use quordon.Encoding.Bounded.{and_size, add_encoded_size}

-- `database.ColumnDescription`
pub record ColumnDescription : Type 0 where
  pub name : Text
  pub type : Text
  pub native_type : Text
  pub nullable : Bool
  pub primary_key : Bool
  pub indexed : Bool

-- `database.ObjectDescription`
pub record ObjectDescription : Type 0 where
  pub schema : Text
  pub name : Text
  pub columns : List ColumnDescription

abbrev pub schema_object_frame : ℕ
schema_object_frame = length (text "{\"name\":}")

abbrev pub object_list_frame : ℕ
object_list_frame = length (text "{\"objects\":[]}")

abbrev pub object_description_frame : ℕ
object_description_frame = length (text "{\"schema\":,\"name\":,\"columns\":[]}")

abbrev pub column_description_frame : ℕ
column_description_frame =
    length
      (text "{\"name\":,\"type\":,\"native_type\":,\"nullable\":,\"primary_key\":,\"indexed\":}")

abbrev pub json_boolean_size : Bool → ℕ
json_boolean_size true = length (text "true")
json_boolean_size false = length (text "false")

module _ (utf8 : Utf8) where
  -- `encodedColumnDescriptionSize` of operations.go.
  unfoldable pub column_description_size : ColumnDescription → ℕ
  column_description_size column =
      column_description_frame
      + json_string_size utf8 column.name
      + json_string_size utf8 column.type
      + json_string_size utf8 column.native_type
      + json_boolean_size column.nullable
      + json_boolean_size column.primary_key
      + json_boolean_size column.indexed

  unfoldable pub object_list_from : ℕ → ℕ → List Text → ℕ → Option ℕ
  object_list_from max_bytes separator [] size = some size
  object_list_from max_bytes separator (name ∷ names) size =
      and_size
        (add_encoded_size size (schema_object_frame + json_string_size utf8 name + separator)
          max_bytes)
        (object_list_from max_bytes 1 names)

  -- An object of the list is its name. `none` is the error of a result that is too large.
  unfoldable pub bounded_object_list_result : List Text → ℕ → Option ℕ
  unfolding object_list_from
  bounded_object_list_result names max_bytes =
      and_size (add_encoded_size 0 object_list_frame max_bytes) (object_list_from max_bytes 0 names)

  unfoldable pub columns_from : ℕ → ℕ → List ColumnDescription → ℕ → Option ℕ
  columns_from max_bytes separator [] size = some size
  columns_from max_bytes separator (column ∷ columns) size =
      and_size (add_encoded_size size (column_description_size column + separator) max_bytes)
        (columns_from max_bytes 1 columns)

  unfoldable pub bounded_object_description_result : ObjectDescription → ℕ → Option ℕ
  unfolding columns_from
  bounded_object_description_result description max_bytes =
      let size =
        object_description_frame
        + json_string_size utf8 description.schema
        + json_string_size utf8 description.name in
      if ltb max_bytes size then none else columns_from max_bytes 0 description.columns size

  -- The switches of `encodedMetadataJSONStringSize`.
  unfoldable pub metadata_encoded_bytes : ℕ → Text → ℕ
  metadata_encoded_bytes c s =
      if ltb c 128
      then (if c == b'\\' || c == b'"' || c == 8 || c == 12 || c == b'\n' || c == 13 || c == 9
          then 2
          else if c == b'<' || c == b'>' || c == b'&'
          then 6
          else if ltb c 32
          then 6
          else 1)
      else if utf8.rune c s == rune_error && utf8.width_less_one c s == 0
      then 6
      else if utf8.rune c s == 8232 || utf8.rune c s == 8233
      then 6
      else suc (utf8.width_less_one c s)

  -- Its loop, with the bytes of a rune still to pass.
  unfoldable pub encoded_metadata_string_from : ℕ → ℕ → ℕ → Text → Option ℕ
  encoded_metadata_string_from max_bytes size skip [] = some size
  encoded_metadata_string_from max_bytes size (suc skip) (c ∷ s) =
      encoded_metadata_string_from max_bytes size skip s
  encoded_metadata_string_from max_bytes size zero (c ∷ s) =
      and_size (add_encoded_size size (metadata_encoded_bytes c s) max_bytes)
        (λ n. encoded_metadata_string_from max_bytes n (width_less_one utf8 c s) s)

  -- `encodedMetadataJSONStringSize`
  unfoldable pub encoded_metadata_json_string_size : Text → ℕ → Option ℕ
  unfolding encoded_metadata_string_from
  encoded_metadata_json_string_size value max_bytes =
      if ltb max_bytes 2 then none else encoded_metadata_string_from max_bytes 2 0 value

  unfoldable pub metadata_values : ℕ → List Text → ℕ → Option ℕ
  unfolding encoded_metadata_json_string_size
  metadata_values max_bytes [] size = some size
  metadata_values max_bytes (value ∷ values) size =
      and_size (encoded_metadata_json_string_size value (max_bytes - size))
        (λ v. and_size (add_encoded_size size v max_bytes) (metadata_values max_bytes values))

  unfoldable pub encoded_metadata_object_size : ℕ → ℕ → List Text → Option ℕ
  unfolding metadata_values
  encoded_metadata_object_size base_size max_bytes values =
      and_size (add_encoded_size 0 base_size max_bytes) (metadata_values max_bytes values)

  unfoldable pub add_booleans : ℕ → List Bool → ℕ → Option ℕ
  add_booleans max_bytes [] size = some size
  add_booleans max_bytes (b ∷ bs) size =
      and_size (add_encoded_size size (json_boolean_size b) max_bytes) (add_booleans max_bytes bs)

  unfoldable pub encoded_schema_object_size : Text → ℕ → Option ℕ
  unfolding encoded_metadata_object_size
  encoded_schema_object_size name max_bytes =
      encoded_metadata_object_size schema_object_frame max_bytes (name ∷ [])

  unfoldable pub encoded_object_description_base_size : Text → Text → ℕ → Option ℕ
  unfolding encoded_metadata_object_size
  encoded_object_description_base_size schema name max_bytes =
      encoded_metadata_object_size object_description_frame max_bytes (schema ∷ name ∷ [])

  unfoldable pub encoded_column_description_size : ColumnDescription → ℕ → Option ℕ
  unfolding encoded_metadata_object_size add_booleans
  encoded_column_description_size column max_bytes =
      and_size
        (encoded_metadata_object_size column_description_frame max_bytes
          (column.name ∷ column.type ∷ column.native_type ∷ []))
        (add_booleans max_bytes (column.nullable ∷ column.primary_key ∷ column.indexed ∷ []))
