-- ===== src/Tests/Responses.antt =====
-- The theorems on responses, literals and capacity, applied.
use quordon.Prelude.{
  ◌+◌, ◌≤◌, ◌≡◌, refl, true, false, List, [], ◌∷◌, ◌++◌, map, length, Text, text, String, none,
  some, ok, arith, inr, Option, Result,
}
use quordon.Queryspec.Integer.{parse_json_integer}
use quordon.Queryspec.Integer.Plain.{int64_of, parse_json_integer-literal}
use quordon.Queryspec.Integer.Exact.{spelled}
use quordon.Encoding.Bounded.{capped}
use quordon.Encoding.Rows.{encoded_row_size}
use quordon.Encoding.Json.Selects.{answer}
use quordon.Encoding.Json.Descriptions.{
  json_description, bounded_object_description_result-json_description,
}
use quordon.Encoding.Json.Responses.{
  json_row, json_object_list, encoded_row_size-json_row,
  bounded_object_list_result-json_object_list,
}
use quordon.Encoding.Collect.{Row, ResultColumn, SelectResult, collect_select_rows}
use quordon.Encoding.Collect.Prefix.{rows_size, Stops, is_cut, holding, collect_select_rows_lem}
use quordon.Encoding.Metadata.{
  ColumnDescription, ObjectDescription, bounded_object_description_result,
  encoded_column_description_size, column_description_size, bounded_object_list_result,
}
use quordon.Encoding.Metadata.Agree.{encoded_column_description_size_lem}
use quordon.Capacity.{Gates, leave, enter, gate_of, set_gate, acquire_capacity, release_capacity}
use quordon.Capacity.Release.{release_capacity-acquire_capacity, acquire_capacity-refused}
use quordon.Policy.{BindingKey}
use quordon.Tests.{utf8}

abbrev encodings : List String
encodings = "string" ∷ "base64" ∷ []

abbrev columns : List ResultColumn
columns =
    record { name = "name"; type = "text"; encoding = "string"; nullable = false }
    ∷ record { name = "photo"; type = "binary"; encoding = "base64"; nullable = true }
    ∷ []

abbrev one_row : Row
one_row = some (text "a<b") ∷ none ∷ []

abbrev rows : List Row
rows = one_row ∷ one_row ∷ one_row ∷ []

abbrev same_text : Text → Text
same_text s = s

abbrev same_error : String → String
same_error e = e

encoded_row_size-json_row_example :
    encoded_row_size utf8 one_row encodings 100
    ≡ capped 100 (length (json_row utf8 one_row encodings))
encoded_row_size-json_row_example =
    encoded_row_size-json_row utf8 (λ c s. omega arith) one_row encodings 100 refl

collect_select_rows_lem_example :
    (taken : List Row) × (left : List Row) × (taken ++ left ≡ rows)
    × (collect_select_rows utf8 same_text same_error (map ok rows) none encodings 2 100 (record {
      columns = columns;
      rows = [];
      row_count = 0;
      result_bytes = 40;
      truncated = false;
    })
        ≡ ok (holding utf8 same_text same_error columns encodings 2 100 40 taken (is_cut left)))
    × (length taken ≤ 2)
    × (40 + rows_size utf8 encodings taken ≤ 100)
    × Stops utf8 encodings 2 100 40 taken left
collect_select_rows_lem_example =
    collect_select_rows_lem utf8 same_text same_error columns encodings 2 100 40 rows
      (refl, (refl, (refl, tt))) (omega arith)

abbrev column : ColumnDescription
column = record {
  name = text "id";
  type = text "integer";
  native_type = text "int";
  nullable = false;
  primary_key = true;
  indexed = true;
}

encoded_column_description_size_lem_example :
    encoded_column_description_size utf8 column 200
    ≡ capped 200 (column_description_size utf8 column)
encoded_column_description_size_lem_example = encoded_column_description_size_lem utf8 column 200

abbrev names : List Text
names = text "users" ∷ text "orders" ∷ []

bounded_object_list_result-json_object_list_example :
    bounded_object_list_result utf8 names 30 ≡ capped 30 (length (json_object_list utf8 names))
bounded_object_list_result-json_object_list_example =
    bounded_object_list_result-json_object_list utf8 (λ c s. omega arith) names 30

abbrev answered : Option String → Result String SelectResult
answered = answer utf8 same_text same_error "too large" columns (text "[1,2]") 2 100 rows

abbrev users : ObjectDescription
users = record {
  schema = text "app";
  name = text "users";
  columns =
      record {
        name = text "id";
        type = text "integer";
        native_type = text "bigint";
        nullable = false;
        primary_key = true;
        indexed = true;
      }
      ∷ [];
}

bounded_object_description_result-json_description_example :
    bounded_object_description_result utf8 users 200
    ≡ capped 200 (length (json_description utf8 users))
bounded_object_description_result-json_description_example =
    bounded_object_description_result-json_description utf8 (λ c s. omega arith) users 200

parse_json_integer-literal_example :
    parse_json_integer (text "-9223372036854775808")
    ≡ int64_of true (spelled 0 (text "9223372036854775808"))
parse_json_integer-literal_example =
    parse_json_integer-literal true (text "9223372036854775808")
      (inr (omega arith, omega arith, ground arith))

abbrev key : BindingKey
key = record { profile = "reader"; datasource = "main" }

abbrev idle : Gates
idle = record {
  global_capacity = record { capacity = 2; tokens = 0 };
  binding_capacity = (key, record { capacity = 1; tokens = 0 }) ∷ [];
}

abbrev busy : Gates
busy = record {
  global_capacity = record { capacity = 2; tokens = 1 };
  binding_capacity = (key, record { capacity = 1; tokens = 1 }) ∷ [];
}

given : acquire_capacity key idle ≡ (busy, true)
unfolding acquire_capacity enter gate_of set_gate
given = refl

refused : acquire_capacity key busy ≡ (busy, false)
unfolding acquire_capacity enter gate_of leave
refused = refl

release_capacity-acquire_capacity_example : release_capacity key busy ≡ idle
release_capacity-acquire_capacity_example = release_capacity-acquire_capacity key idle busy given

acquire_capacity-refused_example : busy ≡ busy
acquire_capacity-refused_example = acquire_capacity-refused key busy busy refused
