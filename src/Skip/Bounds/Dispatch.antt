-- ===== src/Skip/Bounds/Dispatch.antt =====
-- The dispatch on the column type, and the whole recursion.
use st_clickhouse_lib.Common.{ℕ, zero, suc, ◌≤◌, List, ◌++◌, String, length, inl, inr, Result-cases}
use st_clickhouse_lib.ColumnType.{ColumnType, ColumnTypes, none_left, one_more}
use st_clickhouse_lib.TypeParser.Parser.{parse_type}
use st_clickhouse_lib.Wire.Reads.{
  Reads, Within, Extends, Reads-pure, Reads-raise, Reads-out_of_fuel,
}
use st_clickhouse_lib.Skip.State
use st_clickhouse_lib.Skip.State.{SkipState, SkipStates, state_at, Skipper}
use st_clickhouse_lib.Skip.Dispatch.{
  skip_rows, skip_column_data, skip_state_prefix, skip_bodies, skip_json_part, skip_dynamic_part,
  skip_raw_rows, skip_body_raw, skipper, skip_decimal, unsupported_aggregate,
  skip_column_data_by_name,
}
use st_clickhouse_lib.Skip.Bounds.Parts.{part_reads, Reads-skip_string_rows}
use st_clickhouse_lib.Skip.Bounds.Columns.{
  ReadsAll, Reads-dynamic_body, Reads-variant_body, Reads-lc_column, Reads-prefixes,
  Reads-dynamic_state, Reads-json_state, Reads-json_body, Reads-columns, Reads-some_rows,
}

Reads-decimal : (p rows : ℕ) → Reads (skip_decimal p rows)
unfolding skip_decimal
Reads-decimal p rows = search part_reads depth 12

Reads-unsupported : (name : String) → Reads (unsupported_aggregate name)
unfolding unsupported_aggregate
Reads-unsupported name = Reads-raise _

module _ (s : Skipper) (r : ReadsAll s) where
  open r use {column, prefix, body}

  ruleset own_reads = (
    part_reads, Reads-decimal, Reads-unsupported, Reads-columns, Reads-some_rows, Reads-lc_column,
    Reads-prefixes, Reads-variant_body, Reads-dynamic_state, Reads-dynamic_body, Reads-json_state,
    Reads-json_body,
  )

  Reads-skip_rows : (ct : ColumnType) (rows : ℕ) → Reads (skip_rows s ct rows)
  unfolding skip_rows
  Reads-skip_rows ColumnType.uint8 rows = search (own_reads, column, prefix, body)
  Reads-skip_rows _ rows = search (own_reads, column, prefix, body)

  Reads-skip_column_data : (ct : ColumnType) (rows : ℕ) → Reads (skip_column_data s ct rows)
  unfolding skip_column_data
  Reads-skip_column_data ct rows = search (part_reads, Reads-skip_rows)

  Reads-skip_state_prefix : (ct : ColumnType) → Reads (skip_state_prefix s ct)
  unfolding skip_state_prefix
  Reads-skip_state_prefix ColumnType.uint8 = search (own_reads, column, prefix, body)
  Reads-skip_state_prefix _ = search (own_reads, column, prefix, body)

  Reads-bodies :
      (elems : ColumnTypes) (parts : SkipStates) (idx rows : ℕ)
      → Reads (skip_bodies s elems parts idx rows)
  unfolding skip_bodies
  Reads-bodies none_left parts idx rows = Reads-pure tt
  Reads-bodies (one_more elem elems) parts idx rows =
      search (own_reads, column, prefix, body, Reads-bodies elems)

  Reads-json_part : (state : SkipState) (rows : ℕ) → Reads (skip_json_part s state rows)
  unfolding skip_json_part
  Reads-json_part (State.json_skip state) rows = search (own_reads, column, prefix, body)
  Reads-json_part _ rows = search (own_reads, column, prefix, body)

  Reads-dynamic_part : (state : SkipState) (rows : ℕ) → Reads (skip_dynamic_part s state rows)
  unfolding skip_dynamic_part
  Reads-dynamic_part (State.dynamic_skip state) rows = search (own_reads, column, prefix, body)
  Reads-dynamic_part _ rows = search (own_reads, column, prefix, body)

  Reads-raw_rows :
      (ct : ColumnType) (state : SkipState) (rows : ℕ) → Reads (skip_raw_rows s ct state rows)
  unfolding skip_raw_rows
  Reads-raw_rows ColumnType.uint8 state rows = search (own_reads, column, prefix, body)
  Reads-raw_rows _ state rows =
      search (own_reads, column, prefix, body, Reads-bodies, Reads-json_part, Reads-dynamic_part)

  Reads-skip_body_raw :
      (ct : ColumnType) (state : SkipState) (rows : ℕ) → Reads (skip_body_raw s ct state rows)
  unfolding skip_body_raw
  Reads-skip_body_raw ct state rows = search (part_reads, Reads-raw_rows)

pub skipper-ReadsAll : (fuel : ℕ) → ReadsAll (skipper fuel)
unfolding skipper
skipper-ReadsAll zero = record {
  column = λ ct rows. Reads-out_of_fuel;
  prefix = λ ct. Reads-out_of_fuel;
  body = λ ct state rows. Reads-out_of_fuel;
}
skipper-ReadsAll (suc fuel) =
    let r = skipper-ReadsAll fuel in
    record {
      column = Reads-skip_column_data (skipper fuel) r;
      prefix = Reads-skip_state_prefix (skipper fuel) r;
      body = Reads-skip_body_raw (skipper fuel) r;
    }

pub Reads-by_name :
    (fuel : ℕ) (name : List ℕ) (rows : ℕ) → Reads (skip_column_data_by_name fuel name rows)
unfolding skip_column_data_by_name
Reads-by_name fuel name rows = elim (Result-cases (parse_type name)) [
  | inl (ct, e) ↦ rw (e, skip_column_data_by_name) ((skipper-ReadsAll fuel).column ct rows)
  | inr (x, e) ↦
      rw (e, skip_column_data_by_name) (Reads-skip_string_rows rows "string value length")
]

-- Skipping a column of any type on any bytes, from a position inside the buffer and with any
-- fuel: where the skipper returns, with success or with an error, it has moved the position
-- forward and never past the end of the buffer; and where it succeeds it reaches the same
-- position when more bytes stand behind the buffer.
pub skip_column_data_by_name-Within :
    (fuel : ℕ) (name : List ℕ) (rows : ℕ) (buf more : List ℕ) (pos : ℕ)
    → pos ≤ length buf
    → Within buf pos (skip_column_data_by_name fuel name rows buf pos)
      × Extends
          (skip_column_data_by_name fuel name rows buf pos)
          (skip_column_data_by_name fuel name rows (buf ++ more) pos)
skip_column_data_by_name-Within fuel name rows buf more pos h =
    let r = Reads-by_name fuel name rows in (r.within buf pos h, r.extends buf more pos h)
