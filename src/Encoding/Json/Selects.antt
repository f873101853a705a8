-- ===== src/Encoding/Json/Selects.antt =====
-- internal/adapters/mysql8/mysql8.go: the result of a select, as `Select` makes it of its rows,
-- against the bytes of its JSON.
use quordon.Prelude.{ℕ, List, ◌++◌, map, length, Text, String, text, ok, Result, Option}
use quordon.Encoding.{Utf8}
use quordon.Encoding.Collect.{Row, ResultColumn, SelectResult, copy_row, select_rows}
use quordon.Encoding.Collect.Prefix.{is_cut}
use quordon.Encoding.Json.{commas}
use quordon.Encoding.Json.Responses.{json_row}

abbrev encodings_of : List ResultColumn → List String
encodings_of columns = map (λ c. c.encoding) columns

module _ (utf8 : Utf8) where
  abbrev json_rows : List String → List Row → List Text
  json_rows encodings rows = map (λ row. json_row utf8 row encodings) rows

  -- The object of the columns, whose JSON is given, and of the rows.
  abbrev pub json_select : Text → List String → List Row → Text
  json_select columns_json encodings rows =
      text "{\"columns\":"
      ++ (columns_json ++ (text ",\"rows\":[" ++ (commas (json_rows encodings rows) ++ text "]}")))

module _ (utf8 : Utf8) (base64_encode : Text → Text) {E K : Type 0} (classify : E → K)
    (too_large : K) (columns : List ResultColumn) (columns_json : Text) (limit max_bytes : ℕ) where
  -- The rows, all of them or those before the cut, and what their JSON takes.
  abbrev pub selection : List Row → List Row → SelectResult
  selection taken left = record {
    columns = columns;
    rows = map (λ row. copy_row base64_encode row (encodings_of columns)) taken;
    row_count = length taken;
    result_bytes = length (json_select utf8 columns_json (encodings_of columns) taken);
    truncated = is_cut left;
  }

  -- What the driver gives, selected.
  abbrev pub answer : List Row → Option E → Result K SelectResult
  answer rows final =
      select_rows utf8 base64_encode classify too_large (map ok rows) final columns columns_json
        limit max_bytes
