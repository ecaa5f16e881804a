-- ===== src/Response/Skips.antt =====
-- The packets that sync/protocol/response_packets.rs only skips.
use st_clickhouse_lib.Common.{
  ℕ, [], ◌∷◌, Bool, none, some, String, Result, map_err, length, leb, ltb, if◌then◌else◌,
}
use st_clickhouse_lib.Common.Bytes.{from_le_bytes}
use st_clickhouse_lib.Error.{Error, protocol, message, txt}
use st_clickhouse_lib.Limits.Caps.{usize_try_from, checked_add, checked_mul, checked_count, ok_or}
use st_clickhouse_lib.Revision.{
  with_client_write_info, with_server_query_time_in_progress, with_total_bytes_in_progress,
  with_rows_before_aggregation, parallel_replicas_version,
}
use st_clickhouse_lib.Wire.Cursor.{Cursor, done, fail, pure, lift, repeat, ◌>>=◌, ◌>>◌}
use st_clickhouse_lib.Wire.Parse.{parse_varint, parse_bytes, parse_string}

abbrev pub max_part_uuids : ℕ
max_part_uuids = 1_048_576

-- `if b { body?; }`
abbrev pub when : Bool → Cursor (Unit {0}) → Cursor (Unit {0})
when b body = if b then body else pure tt

unfoldable pub skip_varint : Cursor (Unit {0})
unfolding parse_varint
skip_varint = parse_varint >> pure tt

unfoldable pub skip_byte : Cursor (Unit {0})
unfolding parse_bytes
skip_byte = parse_bytes 1 >> pure tt

unfoldable pub skip_text : Cursor (Unit {0})
unfolding parse_string
skip_text = parse_string >> pure tt

unfoldable pub parse_u64_le : Cursor ℕ
unfolding parse_bytes
parse_u64_le = do bs ← parse_bytes 8; pure (from_le_bytes bs)

unfoldable pub skip_u64 : Cursor (Unit {0})
unfolding parse_u64_le
skip_u64 = parse_u64_le >> pure tt

unfoldable pub checked_len : ℕ → ℕ → Result ℕ Error
unfolding checked_mul
checked_len rows width = ok_or (checked_mul rows width) (protocol (message "size overflow" []))

unfoldable pub checked_usize : ℕ → String → Result ℕ Error
unfolding usize_try_from
checked_usize value name =
    ok_or (usize_try_from value) (protocol (message "{} too large" (txt name ∷ [])))

unfoldable pub advance : ℕ → Cursor (Unit {0})
unfolding checked_add
advance len buf pos = elim (checked_add pos len) [
  | none ↦ fail (protocol (message "buffer position overflow" [])) pos
  | some end ↦
      if ltb (length buf) end
      then fail (protocol (message "unexpected end of buffer skipping packet data" [])) pos
      else done tt end
]

unfoldable pub skip_progress : ℕ → Cursor (Unit {0})
unfolding skip_varint
skip_progress revision =
    skip_varint
    >> skip_varint
    >> skip_varint
    >> when (leb with_client_write_info revision) (skip_varint >> skip_varint)
    >> when (leb with_server_query_time_in_progress revision) skip_varint
    >> when (leb with_total_bytes_in_progress revision) skip_varint

unfoldable pub skip_profile_info : ℕ → Cursor (Unit {0})
unfolding skip_varint skip_byte
skip_profile_info revision =
    skip_varint
    >> skip_varint
    >> skip_varint
    >> skip_byte
    >> skip_varint
    >> skip_byte
    >> when (leb with_rows_before_aggregation revision) (skip_byte >> skip_varint)

unfoldable pub skip_part_uuids : Cursor (Unit {0})
unfolding parse_varint checked_len advance
skip_part_uuids = do
  value ← parse_varint
  count ← lift (map_err protocol (checked_count value "PartUUID" max_part_uuids))
  len ← lift (checked_len count 16)
  advance len

-- Version, partition id, first and last block, level, mutation, and a flag.
unfoldable pub skip_merge_tree_part_info : Cursor (Unit {0})
unfolding skip_u64 skip_text skip_byte
skip_merge_tree_part_info =
    skip_u64 >> skip_text >> skip_u64 >> skip_u64 >> skip_u64 >> skip_u64 >> skip_byte

unfoldable pub skip_mark_ranges : Cursor (Unit {0})
unfolding parse_u64_le checked_usize checked_len advance
skip_mark_ranges = do
  value ← parse_u64_le
  count ← lift (checked_usize value "parallel replica mark ranges")
  len ← lift (checked_len count 16)
  advance len

unfoldable pub skip_part_description : ℕ → Cursor (Unit {0})
unfolding skip_merge_tree_part_info skip_mark_ranges skip_varint skip_text
skip_part_description version =
    skip_merge_tree_part_info
    >> skip_mark_ranges
    >> skip_varint
    >> when (leb 5 version) skip_text
    >> when (leb 6 version) skip_varint

unfoldable pub skip_ranges_in_data_parts_description : ℕ → Cursor (Unit {0})
unfolding parse_varint checked_usize repeat skip_part_description
skip_ranges_in_data_parts_description version = do
  value ← parse_varint
  count ← lift (checked_usize value "parallel replica part ranges")
  repeat count (skip_part_description version)

unfoldable pub skip_parallel_read_announcement : Cursor (Unit {0})
unfolding skip_u64 skip_byte skip_ranges_in_data_parts_description skip_varint skip_text
skip_parallel_read_announcement =
    skip_u64
    >> skip_byte
    >> skip_ranges_in_data_parts_description parallel_replicas_version
    >> skip_u64
    >> when (leb 4 parallel_replicas_version) skip_u64
    >> when (leb 5 parallel_replicas_version) skip_varint
    >> when (leb 6 parallel_replicas_version) skip_varint
    >> when (leb 7 parallel_replicas_version) skip_text
