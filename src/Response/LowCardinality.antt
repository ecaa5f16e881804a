-- ===== src/Response/LowCardinality.antt =====
-- LowCardinality columns in sync/protocol/response.rs: the dictionary is written out, row by row.
use st_clickhouse_lib.Common.{
  ℕ, zero, suc, List, [], ◌∷◌, ◌++◌, not, none, some, map_err, length, take, drop, ltb, ◌==◌,
  if◌then◌else◌,
}
use st_clickhouse_lib.Common.Bytes.{from_le_bytes}
use st_clickhouse_lib.Error.{protocol, message, num}
use st_clickhouse_lib.Limits.Caps.{
  checked_add, checked_column_bytes, checked_column_len, checked_count, max_json_dynamic_items,
}
use st_clickhouse_lib.ColumnType.{
  ColumnType, uint8, uint16, uint32, uint64, uint128, uint256, int8, int16, int32, int64, int128,
  int256, float32, float64, bool, string, fixed_string, date, date32, date_time, date_time64, uuid,
  ipv4, ipv6, enum8, enum16, nullable, time, time64, json, other,
}
use st_clickhouse_lib.Wire.Cursor.{Outcome, Cursor, done, fail, stuck, pure, raise, lift, ◌>>=◌}
use st_clickhouse_lib.Wire.Parse.{parse_varint, parse_bytes}
use st_clickhouse_lib.Skip.State.{Skipper}
use st_clickhouse_lib.Skip.Primitives.{checked_usize, lc_idx_width, read_u64_le}
use st_clickhouse_lib.Response.Spans.{spanned}
use st_clickhouse_lib.Response.Lookup.{
  materialize_lc_fixed, string_rows, infer_lc_dictionary_rows, null_flag, each_row,
}

-- `pos.checked_add(len)`, inside the dictionary.
unfoldable pub entry_end : ℕ → Cursor ℕ
unfolding checked_add
entry_end len dict pos = elim (checked_add pos len) [
  | none ↦ fail (protocol (message "LowCardinality string overflow" [])) pos
  | some end ↦
      if ltb (length dict) end
      then fail (protocol (message "LowCardinality string dictionary is truncated" [])) pos
      else done end end
]

-- One entry with its length in front, up to its end.
unfoldable pub string_entry : Cursor ℕ
unfolding parse_varint checked_usize entry_end
string_entry = do
  value ← parse_varint
  len ← lift (checked_usize value "LowCardinality string")
  entry_end len

-- The loop `while pos < dict.len()` over the entries, as ranges. A round takes a byte at least.
unfoldable pub string_entries : ℕ → Cursor (List (ℕ × ℕ))
unfolding string_entry
string_entries zero dict start = stuck
string_entries (suc fuel) dict start =
    if ltb start (length dict)
    then (string_entry >>= λ end. string_entries fuel >>= λ entries. pure ((start, end) ∷ entries))
        dict start
    else done [] start

abbrev pub moved : {A : Type 0} → ℕ → Outcome A → Outcome A
moved pos (done a p) = done a pos
moved pos (fail e p) = fail e pos
moved pos stuck = stuck

-- Code that runs over another buffer, with a position of its own.
unfoldable pub over : {A : Type 0} → List ℕ → Cursor A → Cursor A
over dict m buf pos = moved pos (m dict 0)

unfoldable pub materialize_lc_string : List ℕ → List ℕ → ℕ → ℕ → Cursor (List ℕ)
unfolding string_entries over string_rows
materialize_lc_string dict indexes idx_width num_idx = do
  entries ← over dict (string_entries (suc (length dict)))
  lift (string_rows dict entries indexes idx_width 0 0 num_idx)

-- `values` materializes the values behind the null map.
unfoldable pub materialize_lc_nullable :
    (List ℕ → Cursor (List ℕ)) → List ℕ → ColumnType → List ℕ → ℕ → ℕ → Cursor (List ℕ)
unfolding infer_lc_dictionary_rows parse_bytes over checked_column_bytes null_flag each_row
materialize_lc_nullable values dict inner indexes idx_width num_idx = do
  dict_rows ← lift (infer_lc_dictionary_rows dict inner)
  nulls ← over dict (parse_bytes dict_rows)
  values_bytes ← values (drop dict_rows dict)
  capacity ← lift (
      map_err protocol
        (checked_column_bytes num_idx (length values_bytes) "LowCardinality materialized column"))
  flags ← lift (each_row (null_flag nulls indexes idx_width) 0 num_idx)
  pure (flags ++ values_bytes)

module _ (indexes : List ℕ) (idx_width num_idx : ℕ) where
  unfoldable pub fixed_values : ℕ → List ℕ → Cursor (List ℕ)
  unfolding materialize_lc_fixed
  fixed_values width dict = lift (materialize_lc_fixed dict width indexes idx_width num_idx)

  -- The type is left out of the message here.
  unfoldable pub materialize_low_cardinality_inner : ColumnType → List ℕ → Cursor (List ℕ)
  unfolding fixed_values materialize_lc_string materialize_lc_nullable
  materialize_low_cardinality_inner uint8 dict = fixed_values 1 dict
  materialize_low_cardinality_inner int8 dict = fixed_values 1 dict
  materialize_low_cardinality_inner bool dict = fixed_values 1 dict
  materialize_low_cardinality_inner enum8 dict = fixed_values 1 dict
  materialize_low_cardinality_inner uint16 dict = fixed_values 2 dict
  materialize_low_cardinality_inner int16 dict = fixed_values 2 dict
  materialize_low_cardinality_inner date dict = fixed_values 2 dict
  materialize_low_cardinality_inner enum16 dict = fixed_values 2 dict
  materialize_low_cardinality_inner uint32 dict = fixed_values 4 dict
  materialize_low_cardinality_inner int32 dict = fixed_values 4 dict
  materialize_low_cardinality_inner float32 dict = fixed_values 4 dict
  materialize_low_cardinality_inner date32 dict = fixed_values 4 dict
  materialize_low_cardinality_inner date_time dict = fixed_values 4 dict
  materialize_low_cardinality_inner time dict = fixed_values 4 dict
  materialize_low_cardinality_inner ipv4 dict = fixed_values 4 dict
  materialize_low_cardinality_inner uint64 dict = fixed_values 8 dict
  materialize_low_cardinality_inner int64 dict = fixed_values 8 dict
  materialize_low_cardinality_inner float64 dict = fixed_values 8 dict
  materialize_low_cardinality_inner (date_time64 scale) dict = fixed_values 8 dict
  materialize_low_cardinality_inner (time64 scale) dict = fixed_values 8 dict
  materialize_low_cardinality_inner uint128 dict = fixed_values 16 dict
  materialize_low_cardinality_inner int128 dict = fixed_values 16 dict
  materialize_low_cardinality_inner uuid dict = fixed_values 16 dict
  materialize_low_cardinality_inner ipv6 dict = fixed_values 16 dict
  materialize_low_cardinality_inner uint256 dict = fixed_values 32 dict
  materialize_low_cardinality_inner int256 dict = fixed_values 32 dict
  materialize_low_cardinality_inner (fixed_string n) dict = fixed_values n dict
  materialize_low_cardinality_inner string dict =
      materialize_lc_string dict indexes idx_width num_idx
  materialize_low_cardinality_inner json dict = materialize_lc_string dict indexes idx_width num_idx
  materialize_low_cardinality_inner (other name) dict =
      materialize_lc_string dict indexes idx_width num_idx
  materialize_low_cardinality_inner (nullable inner) dict =
      materialize_lc_nullable (materialize_low_cardinality_inner inner) dict inner indexes idx_width
        num_idx
  materialize_low_cardinality_inner _ dict =
      raise (protocol (message "LowCardinality materialization is not supported" []))

-- `skip_column_data` is a function for columns here, with its fuel.
module _ (s : Skipper) where
  -- The part behind the early return on no rows.
  unfoldable pub read_lc_rows : ColumnType → ℕ → Cursor (List ℕ)
  unfolding parse_bytes lc_idx_width spanned read_u64_le checked_usize
      materialize_low_cardinality_inner
  read_lc_rows inner rows = do
    meta ← parse_bytes 24
    idx_width ←
        lift (lc_idx_width (from_le_bytes (take 8 meta)) (from_le_bytes (take 8 (drop 8 meta))))
    num_keys ← lift (
        map_err protocol (
          checked_count (from_le_bytes (take 8 (drop 16 meta))) "LowCardinality key"
            max_json_dynamic_items))
    dict_data ← spanned (s.column inner num_keys)
    count ← read_u64_le
    indexes ← lift (checked_usize count "LowCardinality indexes")
    if not (indexes == rows)
        then raise (
            protocol (
              message "LowCardinality index count {} does not match row count {}"
                (num indexes ∷ num rows ∷ [])))
        else (lift (map_err protocol (checked_column_len indexes idx_width "LowCardinality index"))
            >>= parse_bytes
            >>= λ index_data.
                materialize_low_cardinality_inner index_data idx_width indexes inner dict_data)

  unfoldable pub read_low_cardinality_from_buffer : ColumnType → ℕ → Cursor (List ℕ)
  unfolding read_lc_rows
  read_low_cardinality_from_buffer inner rows =
      if rows == 0 then pure [] else read_lc_rows inner rows
