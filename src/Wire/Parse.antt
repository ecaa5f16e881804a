-- ===== src/Wire/Parse.antt =====
-- The buffer parsers of shared/wire.rs.
use st_clickhouse_lib.Common.{
  ℕ, zero, suc, ◌+◌, ◌-◌, ◌*◌, ◌%◌, ◌^◌, List, [], ◌∷◌, Bool, ◌&&◌, none, some, Result, ok, err,
  bit_and, bit_or, ltb, ◌==◌, if◌then◌else◌, length, get_elem?, take, drop,
}
use st_clickhouse_lib.Common.Bytes.{from_le_bytes}
use st_clickhouse_lib.Error.{Error, protocol, Message, message, num}
use st_clickhouse_lib.Limits.Caps.{max_string_bytes, usize_try_from, checked_add}
use st_clickhouse_lib.Wire.Utf8.{is_utf8}
use st_clickhouse_lib.Wire.Cursor.{Cursor, done, fail, stuck, lift, ◌>>=◌}

abbrev pub varint_overflow : Error
varint_overflow = protocol (message "varint overflow" [])

abbrev pub end_of_buffer : Message → Error
end_of_buffer = protocol

abbrev pub varint_truncated : Error
varint_truncated = protocol (message "unexpected end of buffer parsing varint" [])

-- `r | ((byte & 0x7F) as u64) << shift`
abbrev pub add_group : ℕ → ℕ → ℕ → ℕ
add_group r byte shift = bit_or r (bit_and byte 0x7f * 2 ^ shift % 2 ^ 64)

-- The tests that `parse_varint` makes on a byte, before it adds the byte's group.
abbrev pub overflows : ℕ → ℕ → Bool
overflows byte shift = shift == 63 && ltb 1 (bit_and byte 0x7f)

unfoldable pub parse_varint_loop : ℕ → ℕ → ℕ → Cursor ℕ
parse_varint_loop zero r shift buf pos = stuck
parse_varint_loop (suc fuel) r shift buf pos = elim (get_elem? buf pos) [
  | none ↦ fail varint_truncated pos
  | some byte ↦
      let rest = parse_varint_loop fuel (add_group r byte shift) (shift + 7) buf (pos + 1) in
      if ltb 63 shift
      then fail varint_overflow (pos + 1)
      else if overflows byte shift
      then fail varint_overflow (pos + 1)
      else if bit_and byte 0x80 == 0
      then done (add_group r byte shift) (pos + 1)
      else rest
]

-- The shift passes 63 in the eleventh round, which always returns.
unfoldable pub parse_varint : Cursor ℕ
unfolding parse_varint_loop
parse_varint = parse_varint_loop 11 0 0

unfoldable pub checked_string_len : ℕ → Result ℕ Error
unfolding usize_try_from
checked_string_len value = elim (usize_try_from value) [
  | none ↦ err (protocol (message "string length too large" []))
  | some n ↦
      if ltb max_string_bytes n
      then err (
          protocol (
            message "string length {} exceeds clickhouse-cpp limit {}"
              (num n ∷ num max_string_bytes ∷ [])))
      else ok n
]

-- The slice `&buf[pos..end]`, once the tests have passed.
abbrev pub slice : List ℕ → ℕ → ℕ → List ℕ
slice buf pos end = take (end - pos) (drop pos buf)

unfoldable pub parse_bytes : ℕ → Cursor (List ℕ)
unfolding checked_add
parse_bytes n buf pos = elim (checked_add pos n) [
  | none ↦ fail (protocol (message "byte length overflow" [])) pos
  | some end ↦
      if ltb (length buf) end
      then fail (protocol (message "unexpected end of buffer parsing bytes" [])) pos
      else done (slice buf pos end) end
]

unfoldable pub parse_string_bytes : Cursor (List ℕ)
unfolding ◌>>=◌ lift
parse_string_bytes = do value ← parse_varint; len ← lift (checked_string_len value); parse_bytes len

-- The part of `parse_string` behind the length.
unfoldable pub parse_utf8 : ℕ → Cursor (List ℕ)
unfolding checked_add
parse_utf8 len buf pos = elim (checked_add pos len) [
  | none ↦ fail (protocol (message "string length overflow" [])) pos
  | some end ↦
      if ltb (length buf) end
      then fail (protocol (message "unexpected end of buffer parsing string" [])) pos
      else if is_utf8 (slice buf pos end)
      then done (slice buf pos end) end
      else fail (protocol (message "invalid utf8 in response" [])) pos
]

unfoldable pub parse_string : Cursor (List ℕ)
unfolding ◌>>=◌ lift parse_utf8
parse_string = do value ← parse_varint; len ← lift (checked_string_len value); parse_utf8 len

-- The value is the bit pattern of the `i32`.
unfoldable pub parse_i32 : Cursor ℕ
unfolding checked_add
parse_i32 buf pos = elim (checked_add pos 4) [
  | none ↦ fail (protocol (message "i32 length overflow" [])) pos
  | some end ↦
      if ltb (length buf) end
      then fail (protocol (message "unexpected end of buffer parsing i32" [])) pos
      else done (from_le_bytes (slice buf pos end)) end
]
