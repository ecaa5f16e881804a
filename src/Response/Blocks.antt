-- ===== src/Response/Blocks.antt =====
-- Blocks of a response in one buffer (sync/protocol/response.rs). The copying parser and the one that
-- shares the buffer each have their function, as in the source.
pub mod Agree
pub mod RoundTrip
pub mod Whole
pub mod Written
use st_clickhouse_lib.Common.{
  ℕ, zero, suc, List, [], ◌∷◌, Result, map_err, length, ◌==◌, if◌then◌else◌, String,
}
use st_clickhouse_lib.Error.{Error, protocol}
use st_clickhouse_lib.Limits.Caps.{checked_count, max_block_rows}
use st_clickhouse_lib.ColumnType.{ColumnType}
use st_clickhouse_lib.Wire.Cursor.{Cursor, pure, lift, out_of_fuel, collect, ◌>>=◌, ◌>>◌}
use st_clickhouse_lib.Wire.Parse.{parse_varint, parse_string}
use st_clickhouse_lib.Skip.State.{Skipper}
use st_clickhouse_lib.Skip.Primitives.{advance_pos}
use st_clickhouse_lib.Skip.Dispatch.{skipper}
use st_clickhouse_lib.Response.Columns.{bad_type, parse_column_type, parse_column}
use st_clickhouse_lib.Block.{Block}

abbrev pub max_block_columns : ℕ
max_block_columns = 65_536

-- `advance`, with the text of the one in shared/skip_column.rs.
unfoldable pub advance : ℕ → Cursor (Unit {0})
unfolding advance_pos
advance len = advance_pos len

-- The loop over the fields; a number that is not known ends it. A round takes a byte at least.
unfoldable pub skip_block_info : ℕ → Cursor (Unit {0})
unfolding parse_varint advance out_of_fuel
skip_block_info zero = out_of_fuel
skip_block_info (suc fuel) = do
  d ← parse_varint
  if d == 0
      then pure tt
      else if d == 1
      then (advance 1 >> skip_block_info fuel)
      else if d == 2
      then (advance 4 >> skip_block_info fuel)
      else if d == 3
      then (parse_varint >> skip_block_info fuel)
      else pure tt

unfoldable pub count_of : String → ℕ → Cursor ℕ
unfolding parse_varint
count_of what limit = do
  value ← parse_varint
  lift (map_err protocol (checked_count value what limit))

module _ (fuel : ℕ) where
  unfoldable pub block_body_with : (List ℕ → Result ColumnType Error) → Cursor Block
  unfolding skip_block_info count_of parse_column skipper
  block_body_with typed = do
    info ← skip_block_info fuel
    num_cols ← count_of "block column" max_block_columns
    num_rows ← count_of "block row" max_block_rows
    columns ← collect num_cols (parse_column (skipper fuel) typed num_rows)
    pure (record { columns = columns; rows = num_rows })

  unfoldable pub parse_block_body : Cursor Block
  unfolding block_body_with bad_type
  parse_block_body = block_body_with bad_type

  unfoldable pub parse_block_body_shared : Cursor Block
  unfolding block_body_with parse_column_type
  parse_block_body_shared = block_body_with parse_column_type

  unfoldable pub parse_block : Cursor Block
  unfolding parse_string parse_block_body
  parse_block = do table ← parse_string; parse_block_body

  unfoldable pub parse_block_shared : Cursor Block
  unfolding parse_string parse_block_body_shared
  parse_block_shared = do table ← parse_string; parse_block_body_shared
