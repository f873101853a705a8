-- ===== src/Encoding/Collect.antt =====
-- internal/adapters/mysql8/mysql8.go `collectSelectRows`: the rows of a result, up to a limit of
-- rows and a maximum of bytes. What the driver gives is a parameter: for each `rows.Next` what
-- `Scan` answers, then what `rows.Err` answers; `classifyExecutionError` and base64 are parameters
-- too. A row is the list of its values, a column the name of its encoding.
pub mod Prefix
use quordon.Prelude.{
  ℕ, zero, suc, ◌+◌, ◌-◌, Bool, true, false, List, [], ◌∷◌, ◌++◌, ◌==◌, nat_has_eq, string_has_eq,
  ltb, length, map, Text, String, text, Option, none, some, if◌then◌else◌, Result, ok, err, ◌>>=◌,
}
use quordon.Encoding.{Utf8}
use quordon.Encoding.Rows.{encoded_row_size}

-- `[]sql.RawBytes` and `[]*string`
abbrev pub Row : Type 0
Row = List (Option Text)

-- `database.ResultColumn`
pub record ResultColumn : Type 0 where
  pub name : String
  pub type : String
  pub encoding : String
  pub nullable : Bool

-- `database.SelectResult`
pub record SelectResult : Type 0 where
  pub columns : List ResultColumn
  pub rows : List Row
  pub row_count : ℕ
  pub result_bytes : ℕ
  pub truncated : Bool

module _ (base64_encode : Text → Text) where
  -- The loop that copies the values of a row.
  unfoldable pub copy_row : Row → List String → Row
  copy_row (none ∷ raws) (encoding ∷ encodings) = none ∷ copy_row raws encodings
  copy_row (some raw ∷ raws) (encoding ∷ encodings) =
      some (if encoding == "base64" then base64_encode raw else raw) ∷ copy_row raws encodings
  copy_row _ _ = []

module _ (utf8 : Utf8) (base64_encode : Text → Text) {E K : Type 0} (classify : E → K) where
  -- The body of the loop from the scanned values on. A maximum that is less than the bytes so far
  -- leaves nothing, here as there, and no row fits.
  unfoldable pub append_row : List String → ℕ → Row → SelectResult → SelectResult
  append_row encodings max_bytes raws result =
      let separator = if length result.rows == 0 then 0 else 1 in
      let remaining = max_bytes - result.result_bytes in
      if ltb remaining separator
      then (record result { truncated = true })
      else elim (encoded_row_size utf8 raws encodings (remaining - separator)) [
        | none ↦ record result { truncated = true }
        | some row_bytes ↦ record result {
          rows = result.rows ++ copy_row base64_encode raws encodings ∷ [];
          result_bytes = result.result_bytes + (separator + row_bytes);
        }
      ]

  unfoldable pub scan_row : List String → ℕ → Result E Row → SelectResult → Result K SelectResult
  unfolding append_row
  scan_row encodings max_bytes (err e) result = err (classify e)
  scan_row encodings max_bytes (ok raws) result = ok (append_row encodings max_bytes raws result)

  -- The body of the loop.
  unfoldable pub collect_row :
      List String → ℕ → ℕ → Result E Row → SelectResult → Result K SelectResult
  unfolding scan_row
  collect_row encodings limit max_bytes scanned result =
      if result.truncated
      then ok result
      else if length result.rows == limit
      then ok (record result { truncated = true })
      else scan_row encodings max_bytes scanned result

  unfoldable pub collect_loop :
      List String → ℕ → ℕ → List (Result E Row) → SelectResult → Result K SelectResult
  collect_loop encodings limit max_bytes [] result = ok result
  collect_loop encodings limit max_bytes (scanned ∷ rest) result = do
    next ← collect_row encodings limit max_bytes scanned result
    collect_loop encodings limit max_bytes rest next

  unfoldable pub rows_err : Option E → SelectResult → Result K SelectResult
  rows_err none result = ok result
  rows_err (some e) result = err (classify e)

  unfoldable pub collect_select_rows :
      List (Result E Row) → Option E → List String → ℕ → ℕ → SelectResult → Result K SelectResult
  unfolding rows_err
  collect_select_rows scans final encodings limit max_bytes result = do
    collected ← collect_loop encodings limit max_bytes scans result
    rows_err final collected

  -- From the columns on: `columns_json` is what `json.Marshal` makes of them. An error of the size is
  -- `too_large`. What closes the rows and the transaction is the driver's.
  unfoldable pub select_rows :
      K → List (Result E Row) → Option E → List ResultColumn → Text → ℕ → ℕ → Result K SelectResult
  unfolding collect_select_rows
  select_rows too_large scans final columns columns_json limit max_bytes =
      let base =
        length (text "{\"columns\":") + length columns_json + length (text ",\"rows\":[]}") in
      let empty : SelectResult = record {
        columns = columns;
        rows = [];
        row_count = 0;
        result_bytes = base;
        truncated = false;
      } in
      if ltb max_bytes base
      then err too_large
      else elim (collect_select_rows scans final (map (λ c. c.encoding) columns) limit max_bytes
          empty) [
            | err e ↦ err e
            | ok result ↦ ok (record result { row_count = length result.rows })
          ]
