-- ===== src/Tests/Response.antt =====
-- Blocks, packets and exception chains at concrete bytes.
use st_clickhouse_lib.Common.{
  ℕ, zero, suc, ◌+◌, ◌-◌, ◌*◌, ◌^◌, ◌≡◌, refl, List, [], ◌∷◌, ◌++◌, ok, length, map, length-append,
  length-replicate, replicate, All, arith,
}
use st_clickhouse_lib.Common.Bytes.{to_le_bytes}
use st_clickhouse_lib.ColumnType.{uint16, string}
use st_clickhouse_lib.ColumnType.Width.{fixed_width}
use st_clickhouse_lib.TypeParser.Text.{codes, bytes_eq, starts_with, ends_with, find, trim}
use st_clickhouse_lib.TypeParser.Keywords.{find_type}
use st_clickhouse_lib.TypeParser.Parser.{parse_type, parse_type_rec, parse_trimmed, parse_simple}
use st_clickhouse_lib.Wire.Cursor.{done, fail}
use st_clickhouse_lib.Wire.Utf8.{is_utf8}
use st_clickhouse_lib.Wire.Lossy.{from_utf8_lossy}
use st_clickhouse_lib.Wire.Parse.{parse_varint}
use st_clickhouse_lib.Wire.Write.{write_varint, write_string}
use st_clickhouse_lib.Wire.Ends.{Returned, Any}
use st_clickhouse_lib.Compression.Frame.{stored, compress, decode_frame}
use st_clickhouse_lib.Tests.Compression.{toy, toy_laws}
use st_clickhouse_lib.Block.{ColumnInfo, Block}
use st_clickhouse_lib.Block.Write.{
  block_capacity, data_packet_capacity, write_block, write_data_packet,
  write_data_packet_compressed, block_info_bytes, write_columns, write_column,
}
use st_clickhouse_lib.Block.Capacity.{data_packet_capacity-length}
use st_clickhouse_lib.Response.Columns.{nested_json_below, contains_nested_json}
use st_clickhouse_lib.Response.Blocks.{
  parse_block, parse_block_shared, parse_block_body, parse_block_body_shared,
}
use st_clickhouse_lib.Response.Blocks.Agree.{parse_block-parse_block_shared}
use st_clickhouse_lib.Response.Blocks.RoundTrip.{ColumnFits}
use st_clickhouse_lib.Response.Blocks.Whole.{Parses-fixed, Parses-strings, string_bytes}
use st_clickhouse_lib.Response.Blocks.Written.{
  BlockFits, parse_block_body-write_block, parse_block-write_data_packet,
  write_data_packet_compressed-decoded,
}
use st_clickhouse_lib.Response.Exceptions.{
  Chain, parse_exception_chain, join, part, i32_text, decimal_text,
}
use st_clickhouse_lib.Response.Exceptions.RoundTrip.{
  Frame, FrameFits, SaysAll, frame_bytes, chain_bytes, level_of, too_deep,
  parse_exception_chain-chain_bytes, parse_exception_chain-too_deep,
}
use st_clickhouse_lib.Response.Exceptions.Texts.{IsTextual, parse_exception_chain-IsTextual}
use st_clickhouse_lib.Response.Packets.{parse_response}
use st_clickhouse_lib.Response.Ends.Loop.{parse_response-Returned}

-- Two rows of a UInt16 and of a String column.
abbrev ids : ColumnInfo
ids = record {
  name = codes "id";
  type_name = codes "UInt16";
  data_bytes = 1 ∷ 0 ∷ 2 ∷ 1 ∷ [];
  lc_materialized = [];
}

abbrev texts : List (List ℕ)
texts = codes "a" ∷ codes "bc" ∷ []

abbrev names : ColumnInfo
names = record {
  name = codes "name";
  type_name = codes "String";
  data_bytes = string_bytes texts;
  lc_materialized = [];
}

abbrev table : Block
table = record { columns = ids ∷ names ∷ []; rows = 2 }

ids_fit : ColumnFits 9 2 ids
unfolding is_utf8 parse_type parse_type_rec parse_trimmed parse_simple find_type bytes_eq
    starts_with ends_with find trim contains_nested_json nested_json_below fixed_width
ids_fit = record {
  ct = uint16;
  name_utf8 = refl;
  name_short = omega arith;
  type_utf8 = refl;
  type_short = omega arith;
  typed = refl;
  no_dictionary = refl;
  no_json = refl;
  no_nested_json = refl;
  whole = Parses-fixed 8 uint16 2 2 (1 ∷ 0 ∷ 2 ∷ 1 ∷ []) refl refl (omega arith);
  unmaterialized = refl;
}

names_fit : ColumnFits 9 2 names
unfolding is_utf8 parse_type parse_type_rec parse_trimmed parse_simple find_type bytes_eq
    starts_with ends_with find trim contains_nested_json nested_json_below
names_fit = record {
  ct = string;
  name_utf8 = refl;
  name_short = omega arith;
  type_utf8 = refl;
  type_short = omega arith;
  typed = refl;
  no_dictionary = refl;
  no_json = refl;
  no_nested_json = refl;
  whole = Parses-strings 8 texts (omega arith, (omega arith, tt));
  unmaterialized = refl;
}

table_fits : BlockFits 9 table
table_fits = record {
  few_columns = omega arith;
  few_rows = omega arith;
  columns_fit = (ids_fit, (names_fit, tt));
}

parse_block_body-write_block_example :
    parse_block_body 9 ((7 ∷ []) ++ (write_block table ++ (9 ∷ []))) 1
    ≡ done table (1 + length (write_block table))
parse_block_body-write_block_example =
    parse_block_body-write_block 9 table (7 ∷ []) (9 ∷ []) (omega arith) table_fits (
      unfold write_block block_info_bytes write_columns write_column write_string write_varint
        to_le_bytes string_bytes in
      omega arith)

block_length : length (write_block table) ≡ 43
unfolding write_block block_info_bytes write_columns write_column write_string write_varint
    to_le_bytes string_bytes
block_length = refl

data_packet_capacity-length_example :
    (block_capacity table ≡ length (write_block table))
    × (data_packet_capacity (codes "t") table ≡ length (write_data_packet (codes "t") table))
data_packet_capacity-length_example =
    data_packet_capacity-length (codes "t") table (omega arith) (omega arith) (omega arith)
      ((omega arith, omega arith), ((omega arith, omega arith), tt))

parse_block-write_data_packet_example :
    (parse_varint (write_data_packet (codes "t") table ++ (9 ∷ [])) 0
      ≡ done 2 (length (write_varint 2)))
    × (parse_block 9 (write_data_packet (codes "t") table ++ (9 ∷ [])) (length (write_varint 2))
        ≡ done table (length (write_data_packet (codes "t") table)))
unfolding is_utf8
parse_block-write_data_packet_example =
    parse_block-write_data_packet 9 (codes "t") table (9 ∷ []) (omega arith) table_fits refl
      (omega arith)
      (unfold write_data_packet write_block block_info_bytes write_columns write_column write_string
          write_varint to_le_bytes string_bytes in
        omega arith)

stored_body : compress toy stored (write_block table) ≡ ok (write_block table)
unfolding compress
stored_body = refl

write_data_packet_compressed-decoded_example :
    (frame : List ℕ) × (write_data_packet_compressed toy (codes "t") table stored
      ≡ ok (write_varint 2 ++ (write_string (codes "t") ++ frame)))
    × (decode_frame toy (frame ++ (9 ∷ [])) ≡ ok (write_block table, 9 ∷ []))
    × (parse_block_body 9 (write_block table) 0 ≡ done table (length (write_block table)))
write_data_packet_compressed-decoded_example =
    write_data_packet_compressed-decoded toy toy_laws stored 9 (codes "t") table (write_block table)
      (9 ∷ []) (omega arith) table_fits stored_body (omega (arith, block_length))
      (omega (arith, block_length))

-- A header block of no columns and no rows, with a field that is not known.
parse_block-parse_block_shared_example :
    (parse_block_body 9 (5 ∷ 0 ∷ 0 ∷ []) 0 ≡ parse_block_body_shared 9 (5 ∷ 0 ∷ 0 ∷ []) 0)
    × (parse_block 9 (5 ∷ 0 ∷ 0 ∷ []) 0 ≡ parse_block_shared 9 (5 ∷ 0 ∷ 0 ∷ []) 0)
parse_block-parse_block_shared_example = parse_block-parse_block_shared 9 (5 ∷ 0 ∷ 0 ∷ []) 0

-- A progress packet, and the end of the stream.
parse_response-Returned_example :
    Returned (3 ∷ 1 ∷ 2 ∷ 3 ∷ 5 ∷ []) 0 Any (parse_response 1591 (3 ∷ 1 ∷ 2 ∷ 3 ∷ 5 ∷ []) 54000)
parse_response-Returned_example =
    parse_response-Returned 1591 (3 ∷ 1 ∷ 2 ∷ 3 ∷ 5 ∷ []) 54000 (omega arith)

-- Where the name is no UTF-8.
parse_exception_chain-IsTextual_example :
    Returned
      (46 ∷ 0 ∷ 0 ∷ 0 ∷ 1 ∷ 255 ∷ 0 ∷ 0 ∷ 0 ∷ [])
      0
      IsTextual
      (parse_exception_chain (46 ∷ 0 ∷ 0 ∷ 0 ∷ 1 ∷ 255 ∷ 0 ∷ 0 ∷ 0 ∷ []) 0)
parse_exception_chain-IsTextual_example =
    parse_exception_chain-IsTextual (46 ∷ 0 ∷ 0 ∷ 0 ∷ 1 ∷ 255 ∷ 0 ∷ 0 ∷ 0 ∷ []) 0 (omega arith)

abbrev outer : Frame
outer = record { code = 60; name = codes "DB"; text = codes "x"; stack = [] }

abbrev inner : Frame
inner = record { code = 2 ^ 32 - 1; name = codes "DB"; text = codes "y"; stack = codes "s" }

fits_outer : FrameFits outer
fits_outer = (omega arith, omega arith, omega arith, omega arith)

fits_inner : FrameFits inner
fits_inner = (omega arith, omega arith, omega arith, omega arith)

-- The code of the inner exception is -1.
joined_text :
    join (map level_of (outer ∷ inner ∷ [])) ≡ codes "DB (code 60): x | nested: DB (code -1): y"
unfolding join part i32_text decimal_text from_utf8_lossy
joined_text = refl

parse_exception_chain-chain_bytes_example :
    (chain : Chain) × (chain.root_code ≡ outer.code)
    × (chain.root_name ≡ from_utf8_lossy outer.name)
    × SaysAll outer (inner ∷ []) chain.joined
    × (parse_exception_chain (chain_bytes outer (inner ∷ []) ++ (9 ∷ [])) 0
        ≡ done chain (length (chain_bytes outer (inner ∷ []))))
parse_exception_chain-chain_bytes_example =
    parse_exception_chain-chain_bytes outer (inner ∷ []) (9 ∷ []) fits_outer (fits_inner, tt)
      (omega arith)
      (unfold chain_bytes frame_bytes write_string write_varint to_le_bytes in omega arith)

-- A thousand and one exceptions.
All-FrameFits : (n : ℕ) → All FrameFits (replicate n outer)
All-FrameFits zero = tt
All-FrameFits (suc n) = (fits_outer, All-FrameFits n)

chain_length : (n : ℕ) → length (chain_bytes outer (replicate n outer)) ≡ 11 * n + 11
unfolding chain_bytes frame_bytes write_string write_varint to_le_bytes
chain_length zero = refl
chain_length (suc n) = omega (arith, chain_length n)

parse_exception_chain-too_deep_example :
    (p : ℕ) × (parse_exception_chain (chain_bytes outer (replicate 1000 outer) ++ []) 0
      ≡ fail too_deep p)
parse_exception_chain-too_deep_example =
    parse_exception_chain-too_deep outer (replicate 1000 outer) [] fits_outer (All-FrameFits 1000)
      (omega (arith, length-replicate 1000 outer))
      (omega
        (arith, chain_length 1000, length-append (chain_bytes outer (replicate 1000 outer)) []))
