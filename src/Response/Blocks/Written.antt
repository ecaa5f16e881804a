-- ===== src/Response/Blocks/Written.antt =====
-- Whole Data packets of shared/block_writer.rs, plain and compressed, as sync/protocol/response.rs
-- reads their blocks.
use st_clickhouse_lib.Common.{
  ℕ, ◌+◌, ◌^◌, ◌≤◌, ◌<◌, ◌≡◌, refl, ap, ◌∙◌, List, [], ◌++◌, length, length-append, append-nil,
  true, ok, All, arith,
}
use st_clickhouse_lib.Limits.Caps.{max_string_bytes, max_block_rows}
use st_clickhouse_lib.Wire.Cursor.{done}
use st_clickhouse_lib.Wire.Utf8.{is_utf8}
use st_clickhouse_lib.Wire.Parse.{parse_varint, parse_string}
use st_clickhouse_lib.Wire.Write.{write_varint, write_string}
use st_clickhouse_lib.Wire.Parses.{
  At, At-behind, At-assoc, At-middle, Parses, Parses-bind, Parses-parse_varint, Parses-parse_string,
}
use st_clickhouse_lib.Compression.Frame.{
  Codecs, CompressionMethod, max_frame_size, compress, decode_frame,
}
use st_clickhouse_lib.Compression.RoundTrip.{CodecLaws, decode_frame-encode_frame}
use st_clickhouse_lib.Block.{Block}
use st_clickhouse_lib.Block.Write.{write_block, write_data_packet, write_data_packet_compressed}
use st_clickhouse_lib.Response.Blocks.{max_block_columns, parse_block_body, parse_block}
use st_clickhouse_lib.Response.Blocks.RoundTrip.{ColumnFits, Parses-parse_block_body}

-- A block that the parser accepts as it stands.
pub record BlockFits (fuel : ℕ) (block : Block) : Type 0 where
  pub few_columns : length block.columns ≤ max_block_columns
  pub few_rows : block.rows ≤ max_block_rows
  pub columns_fit : All (ColumnFits fuel block.rows) block.columns

module _ (fuel : ℕ) (block : Block) (rounds : 2 < fuel) (fits : BlockFits fuel block) where
  Parses-block : Parses (parse_block_body fuel) block (write_block block)
  Parses-block =
      Parses-parse_block_body fuel block rounds fits.few_columns fits.few_rows fits.columns_fit

  Parses-parse_block :
      (table_name : List ℕ)
      → is_utf8 table_name ≡ true
      → length table_name ≤ max_string_bytes
      → Parses (parse_block fuel) block (write_string table_name ++ write_block block)
  unfolding parse_block
  Parses-parse_block table_name utf8 short =
      Parses-bind parse_string _ table_name block (write_string table_name) (write_block block)
        (Parses-parse_string table_name short utf8) Parses-block

-- A written block reads back anywhere in a buffer shorter than 2^64 bytes, and the reader stops right
-- behind it, where the block keeps within the parser's limits on rows and columns and each of its
-- columns holds one whole column of its type under UTF-8 names that are not too long; LowCardinality
-- columns, columns of JSON or with JSON inside, and materialized data are left out.
pub parse_block_body-write_block :
    (fuel : ℕ) (block : Block) (before behind : List ℕ)
    → 2 < fuel
    → BlockFits fuel block
    → length (before ++ (write_block block ++ behind)) < 2 ^ 64
    → parse_block_body fuel (before ++ (write_block block ++ behind)) (length before)
      ≡ done block (length before + length (write_block block))
unfolding Parses
parse_block_body-write_block fuel block before behind rounds fits small =
    Parses-block fuel block rounds fits _ behind (length before)
      (At-middle before (write_block block) behind small)

-- A written Data packet starts with its code, 2, and behind the code the parser reads the block
-- back and stops right behind the packet: where the table name is at most 2^24 - 1 bytes of UTF-8,
-- the block keeps within the parser's limits, and each column holds one whole column of its type,
-- neither LowCardinality nor JSON, under UTF-8 names that are not too long.
pub parse_block-write_data_packet :
    (fuel : ℕ) (table_name : List ℕ) (block : Block) (behind : List ℕ)
    → 2 < fuel
    → BlockFits fuel block
    → is_utf8 table_name ≡ true
    → length table_name ≤ max_string_bytes
    → length (write_data_packet table_name block ++ behind) < 2 ^ 64
    → (parse_varint (write_data_packet table_name block ++ behind) 0
        ≡ done 2 (length (write_varint 2)))
      × (parse_block fuel (write_data_packet table_name block ++ behind) (length (write_varint 2))
          ≡ done block (length (write_data_packet table_name block)))
unfolding Parses write_data_packet
parse_block-write_data_packet fuel table_name block behind rounds fits utf8 short small = (
  Parses-parse_varint 2 (omega arith) packet (body ++ behind) 0 start,
  Parses-parse_block fuel block rounds fits table_name utf8 short packet behind
        (length (write_varint 2)) (At-behind packet (write_varint 2) (body ++ behind) 0 start)
      ∙ ap (λ (p : ℕ). done block p) (omega (arith, length-append (write_varint 2) body)),
)
  where
    body : List ℕ
    body = write_string table_name ++ write_block block

    packet : List ℕ
    packet = (write_varint 2 ++ body) ++ behind

    start : At packet 0 (write_varint 2 ++ (body ++ behind))
    start =
        At-assoc packet (write_varint 2) body behind 0
          (At-middle [] (write_varint 2 ++ body) behind small)

parse_alone :
    (fuel : ℕ) (block : Block)
    → 2 < fuel
    → BlockFits fuel block
    → length (write_block block) < 2 ^ 64
    → parse_block_body fuel (write_block block) 0 ≡ done block (length (write_block block))
parse_alone fuel block rounds fits small =
    rw (append-nil (write_block block)) at (
      parse_block_body-write_block fuel block [] [] rounds fits
        (omega (arith, small, length-append (write_block block) [])))
    ∙ ap (λ (p : ℕ). done block p) (omega arith)

-- With a hash of two 64-bit halves and decompressors that undo their compressors: where the written
-- block and its compressed form with the header keep within the cap of 64 MiB, writing the compressed
-- packet succeeds with the code, the table name and a frame, and from that frame, whatever follows it
-- on the stream, `decode_frame` and the block parser read the block back, to its last byte.
pub write_data_packet_compressed-decoded :
    (cs : Codecs) (laws : CodecLaws cs) (method : CompressionMethod) (fuel : ℕ)
    (table_name : List ℕ) (block : Block) (body rest : List ℕ)
    → 2 < fuel
    → BlockFits fuel block
    → compress cs method (write_block block) ≡ ok body
    → 9 + length body ≤ max_frame_size
    → length (write_block block) ≤ max_frame_size
    → (frame : List ℕ) × (write_data_packet_compressed cs table_name block method
        ≡ ok (write_varint 2 ++ (write_string table_name ++ frame)))
      × (decode_frame cs (frame ++ rest) ≡ ok (write_block block, rest))
      × (parse_block_body fuel (write_block block) 0 ≡ done block (length (write_block block)))
unfolding write_data_packet_compressed
write_data_packet_compressed-decoded cs laws method fuel table_name block body rest rounds fits e k
      l =
    let (frame, encoded, decoded) =
      decode_frame-encode_frame cs laws method (write_block block) body rest e k l in
    (frame, (rw encoded refl), decoded, parse_alone fuel block rounds fits (omega arith))
