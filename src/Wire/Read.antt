-- ===== src/Wire/Read.antt =====
-- The readers of shared/wire.rs. A `std::io::Read` is the list of the bytes still to come, with
-- the end of the stream behind them; `read_exact` fails there with `UnexpectedEof`.
use st_clickhouse_lib.Common.{
  ℕ, ◌+◌, List, [], ◌∷◌, Result, ok, err, ◌>>=◌, bit_and, ltb, leb, ◌==◌, if◌then◌else◌, length,
  take, drop,
}
use st_clickhouse_lib.Error.{Error, protocol, io, unexpected_eof, message, bytes}
use st_clickhouse_lib.Wire.Utf8.{is_utf8}
use st_clickhouse_lib.Wire.Parse.{add_group, overflows, varint_overflow, checked_string_len}

abbrev pub Reader : Type 0 → Type 0
Reader A = List ℕ → Result (A × List ℕ) Error

unfoldable pub read_exact : ℕ → Reader (List ℕ)
read_exact n src =
    if ltb (length src) n then err (io unexpected_eof) else ok (take n src, drop n src)

unfoldable pub read_varint_loop : List ℕ → ℕ → ℕ → Result (ℕ × List ℕ) Error
read_varint_loop [] r shift = if leb 64 shift then err varint_overflow else err (io unexpected_eof)
read_varint_loop (byte ∷ src) r shift =
    let rest = read_varint_loop src (add_group r byte shift) (shift + 7) in
    if leb 64 shift
    then err varint_overflow
    else if overflows byte shift
    then err varint_overflow
    else if bit_and byte 0x80 == 0
    then ok (add_group r byte shift, src)
    else rest

-- The loop reads one byte a round, so it is a recursion on the source.
unfoldable pub read_varint : Reader ℕ
unfolding read_varint_loop
read_varint src = read_varint_loop src 0 0

unfoldable pub read_string_bytes : Reader (List ℕ)
unfolding read_exact
read_string_bytes src = do
  (value, src) ← read_varint src
  len ← checked_string_len value
  read_exact len src

unfoldable pub read_string : Reader (List ℕ)
unfolding read_exact
read_string src = do
  (value, src) ← read_varint src
  len ← checked_string_len value
  (buf, src) ← read_exact len src
  if is_utf8 buf
      then ok (buf, src)
      else err (protocol (message "invalid utf8: {}" (bytes buf ∷ [])))

unfoldable pub read_bytes : ℕ → Reader (List ℕ)
unfolding read_exact
read_bytes n src = read_exact n src
