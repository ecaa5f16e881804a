-- ===== src/Response/Ends/Blocks.antt =====
-- Blocks of a buffered response return, and the whole response with them.
use st_clickhouse_lib.Common.{
  ℕ, ◌+◌, ◌*◌, ◌≤◌, ◌<◌, List, [], ◌∷◌, Result, ok, err, map_err, length, arith,
}
use st_clickhouse_lib.Error.{Error, Message, protocol, message, bytes}
use st_clickhouse_lib.ColumnType.{ColumnType, low_cardinality}
use st_clickhouse_lib.ColumnType.Depth.{depth}
use st_clickhouse_lib.TypeParser.Parser.{parse_type}
use st_clickhouse_lib.TypeParser.Nesting.{Shallow, parse_type-Shallow}
use st_clickhouse_lib.Wire.Cursor.{Outcome, done, fail, stuck, lift}
use st_clickhouse_lib.Wire.Ends.{Ends, Any, Returned, Ends-Any, Ends-then, Ends-bind, Ends-collect}
use st_clickhouse_lib.Skip.State.{Skipper}
use st_clickhouse_lib.Skip.Dispatch.{skipper}
use st_clickhouse_lib.Skip.Ends.Parts.{Ends-parse_bytes}
use st_clickhouse_lib.Skip.Ends.Columns.{EndsAll}
use st_clickhouse_lib.Skip.Ends.Dispatch.{skipper-EndsAll}
use st_clickhouse_lib.Response.Columns.{
  bad_type, parse_column_type, parse_column_data, plain_column_data, data_behind, data_between,
  parse_column, materialized_column_data_start,
}
use st_clickhouse_lib.Response.Blocks.{block_body_with, parse_block_body_shared, parse_block_shared}
use st_clickhouse_lib.Response.Blocks.Agree.{parse_column_type-bad_type}
use st_clickhouse_lib.Response.Ends.Parts.{Ends-parse_string, Ends-skip_block_info, Ends-count_of}
use st_clickhouse_lib.Response.Ends.LowCardinality.{Ends-read_low_cardinality}

-- Parsed types nest 263 levels at most.
lift-Shallow :
    (room : ℕ) (name : List ℕ) (parsed : Result ColumnType Message)
    → Shallow 263 parsed
    → Ends room
        (λ ct. depth ct ≤ 263)
        (lift (map_err (λ e. protocol (message "bad type '{}'" (bytes name ∷ []))) parsed))
unfolding Ends lift Shallow
lift-Shallow room name (ok ct) h buf pos inside few = (omega arith, inside, h)
lift-Shallow room name (err e) h buf pos inside few = tt

Ends-parse_column_type :
    (room : ℕ) (name : List ℕ) → Ends room (λ ct. depth ct ≤ 263) (lift (parse_column_type name))
unfolding bad_type
Ends-parse_column_type room name =
    rw (parse_column_type-bad_type name)
      (lift-Shallow room name (parse_type name) (parse_type-Shallow name))

data_between-Returned :
    (start : Result ℕ Error) (buf : List ℕ) (pos end : ℕ)
    → pos ≤ end
    → end ≤ length buf
    → Returned buf pos Any (data_between buf start end)
unfolding data_between
data_between-Returned (ok start) buf pos end h k = (h, k, tt)
data_between-Returned (err e) buf pos end h k = tt

module _ (s : Skipper) (fuel : ℕ) (r : EndsAll s fuel) where
  data_behind-Returned :
      (ct : ColumnType) (rows pos : ℕ) (buf : List ℕ) (o : Outcome (Unit {0}))
      → Returned buf pos Any o
      → Returned buf pos Any (data_behind s ct rows pos buf o)
  unfolding data_behind
  data_behind-Returned ct rows pos buf (done a end) h =
      data_between-Returned (materialized_column_data_start buf pos ct rows) buf pos end h.0 h.1
  data_behind-Returned ct rows pos buf (fail e p) h = tt
  data_behind-Returned ct rows pos buf stuck h = h

  Ends-plain :
      (ct : ColumnType) (rows room : ℕ)
      → depth ct + 265 * room + 2 < fuel
      → Ends room Any (plain_column_data s ct rows)
  unfolding plain_column_data Ends
  Ends-plain ct rows room h buf pos inside few =
      data_behind-Returned ct rows pos buf (s.column ct rows buf pos)
        (r.column ct rows room h buf pos inside few)

  Ends-column_data :
      (ct : ColumnType) (rows room : ℕ)
      → depth ct + 265 * room + 2 < fuel
      → Ends room Any (parse_column_data s ct rows)
  unfolding parse_column_data depth
  Ends-column_data (low_cardinality inner) rows room h =
      Ends-read_low_cardinality s fuel r inner rows room (omega arith)
  Ends-column_data ct rows room h = Ends-plain ct rows room h

  Ends-parse_column :
      (rows room : ℕ)
      → 265 * room + 265 < fuel
      → Ends room Any (parse_column s parse_column_type rows)
  unfolding parse_column
  Ends-parse_column rows room h = Ends-then Any room _ _ (Ends-parse_string room) λ name.
      Ends-then Any room _ _ (Ends-parse_string room) λ type_name.
        Ends-then Any room _ _ (Ends-parse_bytes room 1) λ custom.
          Ends-bind (λ ct. depth ct ≤ 263) Any room _ _ (Ends-parse_column_type room type_name)
            (λ ct shallow.
              Ends-then Any room _ _ (Ends-column_data ct rows room (omega arith))
                (λ bs. Ends-Any room _))

module _ (fuel room : ℕ) (enough : 265 * room + 265 < fuel) where
  pub Ends-parse_block_body_shared : Ends room Any (parse_block_body_shared fuel)
  unfolding parse_block_body_shared block_body_with
  Ends-parse_block_body_shared =
      Ends-then Any room _ _ (Ends-skip_block_info room fuel (omega arith)) λ info.
        Ends-then Any room _ _ (Ends-count_of room "block column" 65_536) λ num_cols.
          Ends-then Any room _ _ (Ends-count_of room "block row" 10_000_000) λ num_rows.
            Ends-then Any room _ _
              (Ends-collect room num_cols _
                (Ends-parse_column (skipper fuel) fuel (skipper-EndsAll fuel) num_rows room enough))
              (λ columns. Ends-Any room _)

  pub Ends-parse_block_shared : Ends room Any (parse_block_shared fuel)
  unfolding parse_block_shared
  Ends-parse_block_shared =
      Ends-then Any room _ _ (Ends-parse_string room) (λ table. Ends-parse_block_body_shared)
