-- ===== src/Encoding/Collect/Prefix.antt =====
-- internal/adapters/mysql8/mysql8.go `collectSelectRows`: what it keeps of the rows.
use quordon.Prelude.{
  ℕ, ◌+◌, ◌-◌, ◌≤◌, ◌<◌, ◌≡◌, refl, sym, ap, ◌⊎◌, inl, inr, Bool, true, false, List, [], ◌∷◌, ◌++◌,
  ◌==◌, nat_has_eq, ltb, leb, length, map, All, append_assoc, append-nil, length-append, Text,
  String, none, if◌then◌else◌, Result, ok, arith, Bool-cases, leb→le, ==_iff, ==_false_iff,
}
use quordon.Encoding.{Utf8}
use quordon.Encoding.Rows.{encoded_row_size_lem, row_size, row_size_ge}
use quordon.Encoding.Collect.{
  Row, ResultColumn, SelectResult, copy_row, append_row, scan_row, collect_row, collect_loop,
  rows_err, collect_select_rows,
}

abbrev pub separator_size : List Row → ℕ
separator_size [] = 0
separator_size (row ∷ rows) = 1

module _ (utf8 : Utf8) (encodings : List String) where
  -- What rows take that follow others: each has a comma before it.
  unfoldable pub more_rows_size : List Row → ℕ
  more_rows_size [] = 0
  more_rows_size (row ∷ rows) = 1 + row_size utf8 row encodings + more_rows_size rows

  -- What the items of a JSON array of rows take.
  unfoldable pub rows_size : List Row → ℕ
  rows_size [] = 0
  rows_size (row ∷ rows) = row_size utf8 row encodings + more_rows_size rows

  more_rows_size-snoc :
      (rows : List Row) (row : Row)
      → more_rows_size (rows ++ row ∷ []) ≡ more_rows_size rows + (1 + row_size utf8 row encodings)
  unfolding more_rows_size
  more_rows_size-snoc [] row = omega arith
  more_rows_size-snoc (r ∷ rows) row = omega (arith, more_rows_size-snoc rows row)

  rows_size-snoc :
      (rows : List Row) (row : Row)
      → rows_size (rows ++ row ∷ [])
        ≡ rows_size rows + (separator_size rows + row_size utf8 row encodings)
  unfolding rows_size more_rows_size
  rows_size-snoc [] row = omega arith
  rows_size-snoc (r ∷ rows) row = omega (arith, more_rows_size-snoc rows row)

-- Why the collection stopped before the rows that are left: nothing is left, the limit of rows is
-- reached, or the next row would go over the maximum.
module _ (utf8 : Utf8) (encodings : List String) (limit max_bytes base : ℕ) where
  abbrev pub Stops : List Row → List Row → Type 0
  Stops taken [] = Unit
  Stops taken (row ∷ left) =
      (length taken ≡ limit) ⊎ (max_bytes < base + rows_size utf8 encodings (taken ++ row ∷ []))

abbrev pub is_cut : List Row → Bool
is_cut [] = false
is_cut (row ∷ rows) = true

module _ (utf8 : Utf8) (base64_encode : Text → Text) {E K : Type 0} (classify : E → K)
    (columns : List ResultColumn) (encodings : List String) (limit max_bytes base : ℕ) where
  -- The result that holds the given rows, not counted yet.
  abbrev pub holding : List Row → Bool → SelectResult
  holding rows truncated = record {
    columns = columns;
    row_count = 0;
    rows = map (λ row. copy_row base64_encode row encodings) rows;
    result_bytes = base + rows_size utf8 encodings rows;
    truncated = truncated;
  }

  abbrev loop : List Row → SelectResult → Result K SelectResult
  loop rows result =
      collect_loop utf8 base64_encode classify encodings limit max_bytes (map ok rows) result

  -- Nothing is added to a result that is cut off.
  loop-cut :
      (left : List Row) (rows : List Row) (result_bytes : ℕ)
      → let cut : SelectResult = record {
        columns = columns;
        row_count = 0;
        rows = rows;
        result_bytes = result_bytes;
        truncated = true;
      } in
        loop left cut ≡ ok cut
  unfolding collect_loop collect_row
  loop-cut [] rows result_bytes = refl
  loop-cut (row ∷ left) rows result_bytes = loop-cut left rows result_bytes

  abbrev copies : List Row → List Row
  copies rows = map (λ row. copy_row base64_encode row encodings) rows

  length-copies : (rows : List Row) → length (copies rows) ≡ length rows
  length-copies [] = refl
  length-copies (row ∷ rows) = omega (arith, length-copies rows)

  copies-snoc :
      (rows : List Row) (row : Row)
      → copies rows ++ copy_row base64_encode row encodings ∷ [] ≡ copies (rows ++ row ∷ [])
  copies-snoc [] row = refl
  copies-snoc (r ∷ rows) row = rw (copies-snoc rows row)

  separator_lem :
      (rows : List Row) → (if length (copies rows) == 0 then 0 else 1) ≡ separator_size rows
  separator_lem [] = refl
  separator_lem (r ∷ rows) = ground arith

  -- The same for a row that goes over the maximum, and for one that does not.
  module _ (taken : List Row) (row : Row) (same : length row ≡ length encodings) where
    abbrev appended : SelectResult
    appended = append_row utf8 base64_encode classify encodings max_bytes row (holding taken false)

    append_row-over :
        max_bytes < base + rows_size utf8 encodings (taken ++ row ∷ [])
        → appended ≡ holding taken true
    unfolding append_row
    append_row-over over =
        let used = base + rows_size utf8 encodings taken in
        let total = rows_size-snoc utf8 encodings taken row in
        let least = row_size_ge utf8 row encodings in
        elim (Bool-cases (ltb (max_bytes - used) (separator_size taken))) [
          | inl no_room ↦ rw (separator_lem taken, no_room)
          | inr room ↦
              let beyond : leb (row_size utf8 row encodings)
                    (max_bytes - used - separator_size taken)
                  ≡ false =
                ground arith in
              rw (
                separator_lem taken,
                room,
                encoded_row_size_lem utf8 row encodings (max_bytes - used - separator_size taken)
                    same,
                beyond,
              )
        ]

    append_row-fits :
        base + rows_size utf8 encodings (taken ++ row ∷ []) ≤ max_bytes
        → appended ≡ holding (taken ++ row ∷ []) false
    unfolding append_row
    append_row-fits within =
        let used = base + rows_size utf8 encodings taken in
        let total = rows_size-snoc utf8 encodings taken row in
        let room : ltb (max_bytes - used) (separator_size taken) ≡ false = ground arith in
        let fits : leb (row_size utf8 row encodings) (max_bytes - used - separator_size taken)
            ≡ true =
          ground arith in
        rw
          (
            separator_lem taken,
            room,
            encoded_row_size_lem utf8 row encodings (max_bytes - used - separator_size taken) same,
            fits,
            copies-snoc taken row,
            separator_lem taken,
          )
          (ap
            (λ n. record {
              columns = columns;
              row_count = 0;
              rows = copies (taken ++ row ∷ []);
              result_bytes = n;
              truncated = false;
            })
            (omega (arith, total)))

    abbrev collected_row : Result K SelectResult
    collected_row =
        collect_row utf8 base64_encode classify encodings limit max_bytes (ok row)
          (holding taken false)

    collect_row-full : (length taken == limit) ≡ true → collected_row ≡ ok (holding taken true)
    unfolding collect_row
    collect_row-full full = rw (length-copies taken, full)

    collect_row-room : (length taken == limit) ≡ false → collected_row ≡ ok appended
    unfolding collect_row scan_row
    collect_row-room room = rw (length-copies taken, room)

  -- What the loop makes of the rows that follow those taken so far.
  record Collected (taken rows : List Row) : Type 0 where
    more : List Row
    left : List Row
    splits : more ++ left ≡ rows
    returns : loop rows (holding taken false) ≡ ok (holding (taken ++ more) (is_cut left))
    few : length (taken ++ more) ≤ limit
    within : base + rows_size utf8 encodings (taken ++ more) ≤ max_bytes
    stops : Stops utf8 encodings limit max_bytes base (taken ++ more) left

  collected :
      (rows taken : List Row)
      → All (λ row. length row ≡ length encodings) rows
      → length taken ≤ limit
      → base + rows_size utf8 encodings taken ≤ max_bytes
      → Collected taken rows
  unfolding collect_loop
  collected [] taken same few within = record {
    more = [];
    left = [];
    splits = refl;
    returns = rw (append-nil taken);
    few = rw (append-nil taken) few;
    within = rw (append-nil taken) within;
    stops = tt;
  }
  collected (row ∷ rows) taken (same, others) few within =
      elim (Bool-cases (length taken == limit)) [
        | inl full ↦ record {
          more = [];
          left = row ∷ rows;
          splits = refl;
          returns =
              rw (collect_row-full taken row same full, append-nil taken)
                (loop-cut rows (copies taken) (base + rows_size utf8 encodings taken));
          few = rw (append-nil taken) few;
          within = rw (append-nil taken) within;
          stops = rw (append-nil taken) (inl ((==_iff (length taken) limit).0 full));
        }
        | inr room ↦
            elim (Bool-cases
              (leb (base + rows_size utf8 encodings (taken ++ row ∷ [])) max_bytes)) [
                | inl fits ↦
                    let next =
                      collected rows (taken ++ row ∷ []) others
                        (omega (
                          arith,
                          length-append taken (row ∷ []),
                          (==_false_iff (length taken) limit).0 room,
                        ))
                        (leb→le _ _ fits) in
                    let regroup : (taken ++ row ∷ []) ++ next.more ≡ taken ++ row ∷ next.more =
                      append_assoc taken (row ∷ []) next.more in
                    record {
                      more = row ∷ next.more;
                      left = next.left;
                      splits = rw next.splits;
                      returns =
                          rw
                            (
                              collect_row-room taken row same room,
                              append_row-fits taken row same (leb→le _ _ fits),
                            )
                            (rw (sym regroup) next.returns);
                      few = rw (sym regroup) next.few;
                      within = rw (sym regroup) next.within;
                      stops = rw (sym regroup) next.stops;
                    }
                | inr over ↦ record {
                  more = [];
                  left = row ∷ rows;
                  splits = refl;
                  returns =
                      rw
                        (
                          collect_row-room taken row same room,
                          append_row-over taken row same (ground arith),
                          append-nil taken,
                        )
                        (loop-cut rows (copies taken) (base + rows_size utf8 encodings taken));
                  few = rw (append-nil taken) few;
                  within = rw (append-nil taken) within;
                  stops = rw (append-nil taken) (inr (ground arith));
                }
              ]
      ]

  -- When the driver gives rows of one value per column and no error, and the start of the result is
  -- within the maximum, the collection returns, and it returns a prefix of the rows with the count of
  -- its bytes, truncated if it leaves rows out. The prefix has at most `limit` rows and is within the
  -- maximum of bytes, and it stops only where it has `limit` rows or the next would go over the maximum.
  pub collect_select_rows_lem :
      (rows : List Row)
      → All (λ row. length row ≡ length encodings) rows
      → base ≤ max_bytes
      → (taken : List Row) × (left : List Row) × (taken ++ left ≡ rows)
        × (collect_select_rows utf8 base64_encode classify
              (map ok rows)
              none
              encodings
              limit
              max_bytes
              (record {
                columns = columns;
                row_count = 0;
                rows = [];
                result_bytes = base;
                truncated = false;
              })
            ≡ ok (holding taken (is_cut left)))
        × (length taken ≤ limit)
        × (base + rows_size utf8 encodings taken ≤ max_bytes)
        × Stops utf8 encodings limit max_bytes base taken left
  unfolding collect_select_rows rows_err rows_size
  collect_select_rows_lem rows same within =
      let c = collected rows [] same (omega arith) (omega (arith, within)) in
      let empty : ℕ → SelectResult = λ n. record {
        columns = columns;
        row_count = 0;
        rows = [];
        result_bytes = n;
        truncated = false;
      } in
      let start : empty base ≡ holding [] false = ap empty (omega arith) in
      (c.more, c.left, c.splits, rw (start, c.returns), c.few, c.within, c.stops)
