-- ===== src/Skip/Primitives.antt =====
-- The parts of shared/skip_column.rs that recur into no column.
use st_clickhouse_lib.Common.{
  ℕ, zero, suc, ◌^◌, List, [], ◌∷◌, not, none, some, String, Result, ok, err, map_err, bit_and,
  length, take, drop, ltb, ◌==◌, if◌then◌else◌,
}
use st_clickhouse_lib.Common.Bytes.{from_le_bytes}
use st_clickhouse_lib.Error.{Error, protocol, message, num, txt, bytes}
use st_clickhouse_lib.Limits.Caps.{
  max_json_dynamic_items, usize_try_from, checked_add, checked_column_len, checked_string_len,
  checked_monotonic_offset, checked_count,
}
use st_clickhouse_lib.Wire.Cursor.{Cursor, done, fail, pure, raise, lift, ◌>>=◌, repeat, collect}
use st_clickhouse_lib.Wire.Utf8.{is_utf8}
use st_clickhouse_lib.Wire.Parse.{parse_varint, parse_bytes, parse_string_bytes, slice}

-- Each check of src/limits.rs, with its message as a protocol error.
unfoldable pub checked_len : ℕ → ℕ → Result ℕ Error
unfolding checked_column_len
checked_len rows width = map_err protocol (checked_column_len rows width "column byte length")

unfoldable pub checked_usize : ℕ → String → Result ℕ Error
unfolding usize_try_from
checked_usize value name = elim (usize_try_from value) [
  | none ↦ err (protocol (message "{} count too large" (txt name ∷ [])))
  | some n ↦ ok n
]

-- `*pos += len`, unless that passes the end of the buffer.
unfoldable pub advance_pos : ℕ → Cursor (Unit {0})
unfolding checked_add
advance_pos len buf pos = elim (checked_add pos len) [
  | none ↦ fail (protocol (message "buffer position overflow" [])) pos
  | some end ↦
      if ltb (length buf) end
      then fail (protocol (message "unexpected end of buffer skipping column data" [])) pos
      else done tt end
]

unfoldable pub advance_rows : ℕ → ℕ → Cursor (Unit {0})
unfolding checked_len advance_pos
advance_rows rows width = do len ← lift (checked_len rows width); advance_pos len

unfoldable pub read_u64_le : Cursor ℕ
unfolding parse_bytes
read_u64_le = do bs ← parse_bytes 8; pure (from_le_bytes bs)

unfoldable pub skip_string_rows : ℕ → String → Cursor (Unit {0})
unfolding repeat parse_varint advance_pos
skip_string_rows rows length_name = repeat rows do
  value ← parse_varint
  len ← lift (map_err protocol (checked_string_len value length_name))
  advance_pos len

-- `as_chunks` and `chunks_exact`: the pieces of `width` bytes, `count` of them.
unfoldable pub chunks : ℕ → ℕ → List ℕ → List (List ℕ)
chunks width zero bs = []
chunks width (suc count) bs = take width bs ∷ chunks width count (drop width bs)

-- The loop over the offsets, which returns the last one.
unfoldable pub offsets_loop : ℕ → List (List ℕ) → String → Result ℕ Error
unfolding checked_monotonic_offset from_le_bytes
offsets_loop total [] name = ok total
offsets_loop total (chunk ∷ rest) name =
    elim (checked_monotonic_offset total (from_le_bytes chunk) name) [
      | ok next ↦ offsets_loop next rest name
      | err e ↦ err (protocol e)
    ]

-- The part of `skip_offsets` behind the length of the offsets.
unfoldable pub offsets_within : ℕ → ℕ → String → Cursor ℕ
unfolding checked_add offsets_loop chunks
offsets_within rows len name buf pos = elim (checked_add pos len) [
  | none ↦ fail (protocol (message "buffer position overflow" [])) pos
  | some off_end ↦
      if ltb (length buf) off_end
      then fail (protocol (message "unexpected end of buffer parsing array offsets" [])) pos
      else elim (offsets_loop 0 (chunks 8 rows (slice buf pos off_end)) name) [
        | ok total ↦ done total off_end
        | err e ↦ fail e pos
      ]
]

unfoldable pub skip_offsets : ℕ → String → Cursor ℕ
unfolding checked_len offsets_within
skip_offsets rows name = do len ← lift (checked_len rows 8); offsets_within rows len name

-- Header bits: the low two give the index width, bit 8 and bit 9 are flags.
unfoldable pub lc_idx_width : ℕ → ℕ → Result ℕ Error
lc_idx_width version serial_type =
    if not (version == 1)
    then err (
        protocol
          (message "unsupported LowCardinality key serialization version {}" (num version ∷ [])))
    else if not (bit_and serial_type (2 ^ 8) == 0)
    then err (protocol (message "LowCardinality global dictionaries are not supported" []))
    else if bit_and serial_type (2 ^ 9) == 0
    then err (protocol (message "LowCardinality additional keys flag is missing" []))
    else ok (2 ^ bit_and serial_type 3)

unfoldable pub dynamic_discriminator_width : ℕ → ℕ
dynamic_discriminator_width type_count =
    if ltb type_count (2 ^ 8)
    then 1
    else if ltb type_count (2 ^ 16)
    then 2
    else if ltb type_count (2 ^ 32)
    then 4
    else 8

unfoldable pub decode_dynamic_discriminator : List ℕ → Result ℕ Error
unfolding checked_usize
decode_dynamic_discriminator bs =
    let width = length bs in
    if width == 1
    then checked_usize (from_le_bytes bs) "Dynamic discriminator"
    else if width == 2
    then checked_usize (from_le_bytes bs) "Dynamic discriminator"
    else if width == 4
    then checked_usize (from_le_bytes bs) "Dynamic discriminator"
    else if width == 8
    then checked_usize (from_le_bytes bs) "Dynamic discriminator"
    else err (protocol (message "unsupported Dynamic discriminator width" []))

-- One name of `read_type_names`.
unfoldable pub read_type_name : Cursor (List ℕ)
unfolding parse_string_bytes
read_type_name = do
  bs ← parse_string_bytes
  if is_utf8 bs
      then pure bs
      else raise (protocol (message "dynamic type name utf8: {}" (bytes bs ∷ [])))

unfoldable pub read_type_names : String → Cursor (List (List ℕ))
unfolding parse_varint collect read_type_name
read_type_names count_name = do
  value ← parse_varint
  type_count ← lift (map_err protocol (checked_count value count_name max_json_dynamic_items))
  collect type_count read_type_name
