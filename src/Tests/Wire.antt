-- ===== src/Tests/Wire.antt =====
-- Runs of the wire format, and its theorems at concrete inputs.
use st_clickhouse_lib.Common.{All, ℕ, List, [], ◌∷◌, ◌++◌, ◌≡◌, refl, length, ◌+◌, arith, ◌≤◌}
use st_clickhouse_lib.Common.Bytes.{IsByte}
use st_clickhouse_lib.Wire.Cursor.{done}
use st_clickhouse_lib.Wire.Utf8.{is_utf8}
use st_clickhouse_lib.Wire.Parse.{parse_varint, parse_string, parse_string_bytes}
use st_clickhouse_lib.Wire.Read.{read_varint}
use st_clickhouse_lib.Wire.Write.{write_varint, write_string, varint_len, encode_varint}
use st_clickhouse_lib.Wire.RoundTrip.{parse_varint-write_varint}
use st_clickhouse_lib.Wire.Encoding.{write_varint_shape}
use st_clickhouse_lib.Wire.Strings.{parse_string-write_string}
use st_clickhouse_lib.Wire.Agreement.{Agrees, parse_varint-read_varint}

write_300 : write_varint 300 ≡ 0xac ∷ 0x02 ∷ []
unfolding write_varint
write_300 = refl

parse_varint-write_varint_example :
    parse_varint ((7 ∷ []) ++ (write_varint 300 ++ (9 ∷ []))) (length {A = ℕ} (7 ∷ []))
    ≡ done 300 (length {A = ℕ} (7 ∷ []) + length (write_varint 300))
parse_varint-write_varint_example = parse_varint-write_varint 300 (7 ∷ []) (9 ∷ []) (omega arith)

write_varint_shape_example :
    All IsByte (write_varint 300)
    × (1 ≤ length (write_varint 300))
    × (length (write_varint 300) ≤ 10)
    × (varint_len 300 ≡ length (write_varint 300))
    × (encode_varint (7 ∷ []) 300 ≡ (7 ∷ []) ++ write_varint 300)
write_varint_shape_example = write_varint_shape 300 (7 ∷ []) (omega arith)

-- A truncated varint.
parse_varint-read_varint_example :
    Agrees (0xac ∷ 0x82 ∷ []) (parse_varint (0xac ∷ 0x82 ∷ []) 0) (read_varint (0xac ∷ 0x82 ∷ []))
parse_varint-read_varint_example = parse_varint-read_varint (0xac ∷ 0x82 ∷ []) 0 (omega arith)

-- The two bytes `hi` between a byte 7 and a byte 9.
abbrev hello : List ℕ
hello = 104 ∷ 105 ∷ []

parse_string-write_string_example :
    (parse_string_bytes ((7 ∷ []) ++ (write_string hello ++ (9 ∷ []))) 1
      ≡ done hello (1 + length (write_string hello)))
    × (parse_string ((7 ∷ []) ++ (write_string hello ++ (9 ∷ []))) 1
        ≡ done hello (1 + length (write_string hello)))
unfolding is_utf8
parse_string-write_string_example =
    parse_string-write_string hello (7 ∷ []) (9 ∷ []) (omega arith)
      (unfold write_string write_varint in omega arith)
