-- ===== src/Response/Ends/LowCardinality.antt =====
-- Reading and materializing LowCardinality columns returns.
use st_clickhouse_lib.Common.{
  ℕ, zero, suc, ◌+◌, ◌-◌, ◌*◌, ◌≤◌, ◌<◌, List, ltb, length, arith, Bool-cases, inl, inr,
}
use st_clickhouse_lib.Limits.Caps.{checked_add}
use st_clickhouse_lib.ColumnType.{
  ColumnType, uint8, uint16, uint32, uint64, uint128, uint256, int8, int16, int32, int64, int128,
  int256, float32, float64, bool, enum8, enum16, fixed_string, date, date32, date_time, date_time64,
  decimal, uuid, ipv4, ipv6, nothing, time, time64, point, string, nullable, array, map, tuple,
  low_cardinality, aggregate_function, simple_aggregate_function, json, variant, dynamic, ring,
  polygon, multi_polygon, other,
}
use st_clickhouse_lib.ColumnType.Depth.{depth}
use st_clickhouse_lib.Wire.Cursor.{Outcome, done, fail, stuck, Cursor}
use st_clickhouse_lib.Wire.Parse.{parse_varint}
use st_clickhouse_lib.Wire.Ends.{
  Ends, Any, Returned, Ends-Any, Ends-raise, Ends-lift, Ends-then, Ends-bind_taken, Takes,
}
use st_clickhouse_lib.Wire.Takes.{Takes-bind, Takes-lift}
use st_clickhouse_lib.Skip.State.{Skipper}
use st_clickhouse_lib.Skip.Ends.Parts.{Ends-read_u64_le}
use st_clickhouse_lib.Skip.Ends.Columns.{EndsAll}
use st_clickhouse_lib.Response.Spans.{spanned, Ends-spanned}
use st_clickhouse_lib.Response.LowCardinality.{
  entry_end, string_entry, string_entries, over, moved, materialize_lc_string,
  materialize_lc_nullable, materialize_low_cardinality_inner, fixed_values, read_lc_rows,
  read_low_cardinality_from_buffer,
}
use st_clickhouse_lib.Response.Ends.Parts.{wire_ends, Takes-parse_varint}

Ends-entry_end : (room n : ℕ) → Ends room Any (entry_end n)
unfolding Ends entry_end checked_add
Ends-entry_end room n dict pos inside few = ground arith

Takes-entry_end : (n : ℕ) → Takes 0 (entry_end n)
unfolding Takes entry_end checked_add
Takes-entry_end n dict pos end p e = ground arith

Ends-string_entry : (room : ℕ) → Ends room Any string_entry
unfolding string_entry
Ends-string_entry room = search (wire_ends, Ends-entry_end)

-- A round takes the byte of a length at least.
Takes-string_entry : Takes 1 string_entry
unfolding string_entry
Takes-string_entry =
    Takes-bind 1 parse_varint _ Takes-parse_varint
      λ value. Takes-bind 0 _ _ (Takes-lift _) (λ len. Takes-entry_end len)

Ends-string_entries : (room fuel : ℕ) → room < fuel → Ends room Any (string_entries fuel)
unfolding string_entries Ends
Ends-string_entries room zero h dict start inside few = absurd (omega arith)
Ends-string_entries room (suc fuel) h dict start inside few =
    elim (Bool-cases (ltb start (length dict))) [
      | inl more ↦
          rw (more, string_entries)
            (Ends-bind_taken Any Any 1 room string_entry _ Takes-string_entry
              (Ends-string_entry room)
              (λ some_room end u.
                Ends-then Any (room - 1) (string_entries fuel) _
                  (Ends-string_entries (room - 1) fuel (omega arith))
                  (λ entries. Ends-Any (room - 1) _))
              dict start inside few)
      | inr gone ↦ rw (gone, string_entries) (omega arith, inside, tt)
    ]

moved-Returned :
    {A : Type 0} (o : Outcome A) (dict buf : List ℕ) (pos : ℕ)
    → pos ≤ length buf
    → Returned dict 0 Any o
    → Returned buf pos Any (moved pos o)
moved-Returned (done a p) dict buf pos inside h = omega arith
moved-Returned (fail e p) dict buf pos inside h = tt
moved-Returned stuck dict buf pos inside h = h

Ends-over :
    {A : Type 0} (room : ℕ) (dict : List ℕ) (m : Cursor A)
    → Ends (length dict) Any m
    → Ends room Any (over dict m)
unfolding Ends over
Ends-over room dict m h buf pos inside few =
    moved-Returned (m dict 0) dict buf pos inside (h dict 0 (omega arith) (omega arith))

Ends-materialize_lc_string :
    (room : ℕ) (dict indexes : List ℕ) (idx_width num_idx : ℕ)
    → Ends room Any (materialize_lc_string dict indexes idx_width num_idx)
unfolding materialize_lc_string
Ends-materialize_lc_string room dict indexes idx_width num_idx =
    search
      (wire_ends, Ends-over, Ends-string_entries (length dict) (suc (length dict)) (omega arith))

Ends-materialize_lc_nullable :
    (room : ℕ) (values : List ℕ → Cursor (List ℕ)) (dict : List ℕ) (inner : ColumnType)
    (indexes : List ℕ) (idx_width num_idx : ℕ)
    → ((bs : List ℕ) → Ends room Any (values bs))
    → Ends room Any (materialize_lc_nullable values dict inner indexes idx_width num_idx)
unfolding materialize_lc_nullable
Ends-materialize_lc_nullable room values dict inner indexes idx_width num_idx h =
    search (wire_ends, Ends-over, h) depth 12

module _ (room : ℕ) (indexes : List ℕ) (idx_width num_idx : ℕ) where
  Ends-fixed_values :
      (width : ℕ) (dict : List ℕ)
      → Ends room Any (fixed_values indexes idx_width num_idx width dict)
  unfolding fixed_values
  Ends-fixed_values width dict = Ends-lift room _

  Ends-materialized :
      (ct : ColumnType) (dict : List ℕ)
      → Ends room Any (materialize_low_cardinality_inner indexes idx_width num_idx ct dict)
  unfolding materialize_low_cardinality_inner
  Ends-materialized uint8 dict = Ends-fixed_values 1 dict
  Ends-materialized int8 dict = Ends-fixed_values 1 dict
  Ends-materialized bool dict = Ends-fixed_values 1 dict
  Ends-materialized enum8 dict = Ends-fixed_values 1 dict
  Ends-materialized uint16 dict = Ends-fixed_values 2 dict
  Ends-materialized int16 dict = Ends-fixed_values 2 dict
  Ends-materialized date dict = Ends-fixed_values 2 dict
  Ends-materialized enum16 dict = Ends-fixed_values 2 dict
  Ends-materialized uint32 dict = Ends-fixed_values 4 dict
  Ends-materialized int32 dict = Ends-fixed_values 4 dict
  Ends-materialized float32 dict = Ends-fixed_values 4 dict
  Ends-materialized date32 dict = Ends-fixed_values 4 dict
  Ends-materialized date_time dict = Ends-fixed_values 4 dict
  Ends-materialized time dict = Ends-fixed_values 4 dict
  Ends-materialized ipv4 dict = Ends-fixed_values 4 dict
  Ends-materialized uint64 dict = Ends-fixed_values 8 dict
  Ends-materialized int64 dict = Ends-fixed_values 8 dict
  Ends-materialized float64 dict = Ends-fixed_values 8 dict
  Ends-materialized (date_time64 scale) dict = Ends-fixed_values 8 dict
  Ends-materialized (time64 scale) dict = Ends-fixed_values 8 dict
  Ends-materialized uint128 dict = Ends-fixed_values 16 dict
  Ends-materialized int128 dict = Ends-fixed_values 16 dict
  Ends-materialized uuid dict = Ends-fixed_values 16 dict
  Ends-materialized ipv6 dict = Ends-fixed_values 16 dict
  Ends-materialized uint256 dict = Ends-fixed_values 32 dict
  Ends-materialized int256 dict = Ends-fixed_values 32 dict
  Ends-materialized (fixed_string n) dict = Ends-fixed_values n dict
  Ends-materialized string dict = Ends-materialize_lc_string room dict indexes idx_width num_idx
  Ends-materialized json dict = Ends-materialize_lc_string room dict indexes idx_width num_idx
  Ends-materialized (other name) dict =
      Ends-materialize_lc_string room dict indexes idx_width num_idx
  Ends-materialized (nullable inner) dict =
      Ends-materialize_lc_nullable room _ dict inner indexes idx_width num_idx
        (Ends-materialized inner)
  Ends-materialized nothing dict = Ends-raise Any room _
  Ends-materialized (decimal p scale) dict = Ends-raise Any room _
  Ends-materialized (array inner) dict = Ends-raise Any room _
  Ends-materialized (map k v) dict = Ends-raise Any room _
  Ends-materialized (tuple elems) dict = Ends-raise Any room _
  Ends-materialized point dict = Ends-raise Any room _
  Ends-materialized ring dict = Ends-raise Any room _
  Ends-materialized polygon dict = Ends-raise Any room _
  Ends-materialized multi_polygon dict = Ends-raise Any room _
  Ends-materialized (low_cardinality inner) dict = Ends-raise Any room _
  Ends-materialized (variant types) dict = Ends-raise Any room _
  Ends-materialized dynamic dict = Ends-raise Any room _
  Ends-materialized aggregate_function dict = Ends-raise Any room _
  Ends-materialized simple_aggregate_function dict = Ends-raise Any room _

module _ (s : Skipper) (fuel : ℕ) (r : EndsAll s fuel) where
  Ends-column_span :
      (ct : ColumnType) (rows room : ℕ)
      → depth ct + 265 * room + 2 < fuel
      → Ends room Any (spanned (s.column ct rows))
  Ends-column_span ct rows room h = Ends-spanned room _ (r.column ct rows room h)

  pub Ends-read_low_cardinality :
      (inner : ColumnType) (rows room : ℕ)
      → depth inner + 265 * room + 2 < fuel
      → Ends room Any (read_low_cardinality_from_buffer s inner rows)
  unfolding read_low_cardinality_from_buffer read_lc_rows
  Ends-read_low_cardinality inner rows room h =
      search
        (wire_ends, Ends-read_u64_le, Ends-materialized, λ (n : ℕ). Ends-column_span inner n room h)
        depth 16
