-- ===== src/Response/Lookup.antt =====
-- The lookups of sync/protocol/response.rs in the dictionary of a LowCardinality column.
pub mod Dictionary
pub mod Materialized
use st_clickhouse_lib.Common.{
  ℕ, zero, suc, ◌+◌, ◌-◌, ◌/◌, List, [], ◌∷◌, ◌++◌, ◌||◌, none, some, String, Result, ok, err,
  ◌>>=◌, map_err, length, ltb, ◌==◌, if◌then◌else◌, get_elem?,
}
use st_clickhouse_lib.Common.Bytes.{from_le_bytes}
use st_clickhouse_lib.Error.{Error, protocol, message, num}
use st_clickhouse_lib.Limits.Caps.{
  checked_add, checked_mul, checked_column_bytes, checked_column_len, ok_or,
}
use st_clickhouse_lib.ColumnType.{ColumnType}
use st_clickhouse_lib.ColumnType.Width.{fixed_width}
use st_clickhouse_lib.Wire.Parse.{slice}
use st_clickhouse_lib.Skip.Primitives.{checked_usize}

abbrev pub complain : {A : Type 0} → String → Result A Error
complain text = err (protocol (message text []))

-- `start..start + width` for `start = index * width`, inside `limit`.
unfoldable pub entry_range : ℕ → ℕ → ℕ → String → String → Result (ℕ × ℕ) Error
unfolding checked_mul checked_add
entry_range index width limit overflow outside = do
  start ← ok_or (checked_mul index width) (protocol (message overflow []))
  end ← ok_or (checked_add start width) (protocol (message overflow []))
  if ltb limit end then complain outside else ok (start, end)

unfoldable pub read_lc_index : List ℕ → ℕ → ℕ → Result ℕ Error
unfolding entry_range checked_usize
read_lc_index indexes row width = do
  (start, end) ←
      entry_range row width (length indexes) "LowCardinality index overflow"
        "LowCardinality index data is truncated"
  if (width == 1) || (width == 2) || (width == 4) || (width == 8)
      then checked_usize (from_le_bytes (slice indexes start end)) "LowCardinality index"
      else err (protocol (message "unsupported LowCardinality index width {}" (num width ∷ [])))

-- `for row in row..row + count`, with what `body` pushes for each row.
unfoldable pub each_row : (ℕ → Result (List ℕ) Error) → ℕ → ℕ → Result (List ℕ) Error
each_row body row zero = ok []
each_row body row (suc count) = do
  bs ← body row
  rest ← each_row body (suc row) count
  ok (bs ++ rest)

-- The entry of a dictionary of `width` bytes each.
unfoldable pub fixed_entry : List ℕ → ℕ → ℕ → Result (List ℕ) Error
unfolding entry_range
fixed_entry dict width idx = do
  (start, end) ←
      entry_range idx width (length dict) "LowCardinality index overflow"
        "LowCardinality dictionary index out of bounds"
  ok (slice dict start end)

-- The length is only asked for to size the output, but fails over the cap.
unfoldable pub materialize_lc_fixed : List ℕ → ℕ → List ℕ → ℕ → ℕ → Result (List ℕ) Error
unfolding checked_column_len read_lc_index each_row fixed_entry
materialize_lc_fixed dict width indexes idx_width num_idx = do
  capacity ←
      map_err protocol (checked_column_len num_idx width "LowCardinality materialized column")
  each_row (λ row. (read_lc_index indexes row idx_width >>= fixed_entry dict width)) 0 num_idx

abbrev pub range_len : ℕ × ℕ → ℕ
range_len range = range.1 - range.0

unfoldable pub string_rows : List ℕ → List (ℕ × ℕ) → List ℕ → ℕ → ℕ → ℕ → ℕ → Result (List ℕ) Error
unfolding read_lc_index checked_column_bytes
string_rows dict entries indexes idx_width total row zero = ok []
string_rows dict entries indexes idx_width total row (suc count) = do
  idx ← read_lc_index indexes row idx_width
  range ←
      ok_or (get_elem? entries idx)
        (protocol (message "LowCardinality dictionary index out of bounds" []))
  next ←
      map_err protocol
        (checked_column_bytes total (range_len range) "LowCardinality materialized column")
  rest ← string_rows dict entries indexes idx_width next (suc row) count
  ok (slice dict range.0 range.1 ++ rest)

-- Division by the width and one more is never by zero.
unfoldable pub infer_lc_dictionary_rows : List ℕ → ColumnType → Result ℕ Error
unfolding fixed_width
infer_lc_dictionary_rows dict inner = elim (fixed_width inner) [
  | some width ↦ ok (length dict / (width + 1))
  | none ↦ complain "LowCardinality Nullable variable-width materialization is not supported"
]

-- The null map's byte of a row.
unfoldable pub null_flag : List ℕ → List ℕ → ℕ → ℕ → Result (List ℕ) Error
unfolding read_lc_index
null_flag nulls indexes idx_width row = do
  idx ← read_lc_index indexes row idx_width
  flag ←
      ok_or (get_elem? nulls idx)
        (protocol (message "LowCardinality nullable index out of bounds" []))
  ok (flag ∷ [])
