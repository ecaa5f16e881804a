-- ===== src/Tests/Compression.antt =====
-- The compression frames at concrete bytes.
use st_clickhouse_lib.Common.{
  ℕ, ◌%◌, ◌^◌, ◌≡◌, refl, sym, List, [], ◌∷◌, ◌++◌, true, Result, ok, err, length, take, drop,
  arith,
}
use st_clickhouse_lib.Common.Bytes.{from_le_bytes, to_le_bytes}
use st_clickhouse_lib.Wire.Read.{read_exact}
use st_clickhouse_lib.Wire.Source.{Source, read_all}
use st_clickhouse_lib.Wire.Source.Refines.{Simulates}
use st_clickhouse_lib.Chunked.Framing.{Framed, ends as no_chunks, chunk}
use st_clickhouse_lib.Chunked.Reader.{ChunkedReader, chunked_source, new_reader}
use st_clickhouse_lib.Chunked.Reader.Stream.{new_reader-Holds}
use st_clickhouse_lib.Chunked.Reader.Stream as Chunks
use st_clickhouse_lib.Chunked.Reader.Refines.{chunked_laws}
use st_clickhouse_lib.Compression.Frame.{
  Codecs, lz4, encode_frame, decode_frame, compress, decompress, parse_header, decode_body,
  method_of, from_byte, check_sizes, check_hash, check_length,
}
use st_clickhouse_lib.Compression.RoundTrip.{CodecLaws, decode_frame-encode_frame}
use st_clickhouse_lib.Compression.Genuine.{Genuine, decode_frame-Genuine}
use st_clickhouse_lib.Compression.Reader.{
  DecompressingReader, new_decompressing, after_sniff, decompressing,
}
use st_clickhouse_lib.Compression.Reader.Frames.{ends}
use st_clickhouse_lib.Compression.Reader.Stream.{Holds}
use st_clickhouse_lib.Compression.Reader.Opens.{compressed, decompressing-Simulates}
use st_clickhouse_lib.Compression.Reader.Budget.{IsBounded, opened, Reached-IsBounded}

abbrev unpack : List ℕ → ℕ → Result (List ℕ) (List ℕ)
unpack [] size = err []
unpack (x ∷ xs) size = ok xs

-- A hash of the length, and codecs that put one byte in front, or none.
abbrev pub toy : Codecs
toy = record {
  city_hash_128 = λ bs. (length bs % 2 ^ 64, 7);
  lz4_feature = true;
  lz4_compress = λ plain. 0 ∷ plain;
  lz4_decompress = unpack;
  zstd_feature = true;
  zstd_encode_all = λ plain. ok plain;
  zstd_decompress = λ packed size. ok packed;
}

pub toy_laws : CodecLaws toy
toy_laws = record {
  lo_fits = λ bs. omega arith;
  hi_fits = λ bs. omega arith;
  lz4_undone = λ plain. refl;
  zstd_undone = λ plain packed e. sym e;
}

packed : compress toy lz4 (1 ∷ 2 ∷ 3 ∷ []) ≡ ok (0 ∷ 1 ∷ 2 ∷ 3 ∷ [])
unfolding compress
packed = refl

decode_frame-encode_frame_example :
    (frame : List ℕ) × (encode_frame toy (1 ∷ 2 ∷ 3 ∷ []) lz4 ≡ ok frame)
    × (decode_frame toy (frame ++ (9 ∷ [])) ≡ ok (1 ∷ 2 ∷ 3 ∷ [], 9 ∷ []))
decode_frame-encode_frame_example =
    decode_frame-encode_frame toy toy_laws lz4 (1 ∷ 2 ∷ 3 ∷ []) (0 ∷ 1 ∷ 2 ∷ 3 ∷ []) (9 ∷ []) packed
      (omega arith) (omega arith)

-- The stored frame of three bytes.
abbrev frame_bytes : List ℕ
frame_bytes =
    12 ∷ 0 ∷ 0 ∷ 0 ∷ 0 ∷ 0 ∷ 0 ∷ 0 ∷ 7 ∷ 0 ∷ 0 ∷ 0 ∷ 0 ∷ 0 ∷ 0 ∷ 0 ∷ 2 ∷ 12 ∷ 0 ∷ 0 ∷ 0 ∷ 3 ∷ 0 ∷ 0
    ∷ 0 ∷ 1 ∷ 2 ∷ 3 ∷ []

decodes : decode_frame toy frame_bytes ≡ ok (1 ∷ 2 ∷ 3 ∷ [], [])
unfolding decode_frame read_exact parse_header method_of from_byte check_sizes decode_body
    check_hash decompress check_length from_le_bytes
decodes = refl

decode_frame-Genuine_example : Genuine toy frame_bytes (1 ∷ 2 ∷ 3 ∷ []) []
decode_frame-Genuine_example = decode_frame-Genuine toy frame_bytes (1 ∷ 2 ∷ 3 ∷ []) [] decodes

-- The frame inside one chunk of the transport below it.
abbrev chunked_wire : List ℕ
chunked_wire = 28 ∷ 0 ∷ 0 ∷ 0 ∷ frame_bytes

chunked_wire-Framed : Framed chunked_wire frame_bytes
unfolding to_le_bytes
chunked_wire-Framed = chunk frame_bytes no_chunks (omega arith) (omega arith) refl refl

decompressing-Simulates_example :
    (r : DecompressingReader ChunkedReader) × (new_decompressing chunked_source toy
        (new_reader chunked_wire)
      ≡ ok r)
    × Simulates
        (Holds chunked_source Chunks.Holds chunked_laws toy 30)
        (read_exact 2 (1 ∷ 2 ∷ 3 ∷ []))
        (read_all (decompressing chunked_source toy 30) 2 r)
decompressing-Simulates_example =
    decompressing-Simulates chunked_source Chunks.Holds chunked_laws toy 30 2
      (new_reader chunked_wire) frame_bytes (1 ∷ 2 ∷ 3 ∷ []) (compressed decodes ends refl)
      (new_reader-Holds chunked_wire frame_bytes chunked_wire-Framed) (omega arith) (omega arith)

-- Bytes that are all there at once, and a body whose 17th byte is no method.
abbrev list_source : Source (List ℕ)
list_source = record { read = λ n src. ok (take n src, drop n src) }

abbrev plain_body : List ℕ
plain_body = 1 ∷ 0 ∷ 0 ∷ 0 ∷ 0 ∷ 0 ∷ 0 ∷ 0 ∷ 0 ∷ 0 ∷ 0 ∷ 0 ∷ 0 ∷ 0 ∷ 0 ∷ 0 ∷ 5 ∷ 6 ∷ []

abbrev replaying : DecompressingReader (List ℕ)
replaying = record { inner = 6 ∷ []; buf = take 17 plain_body; pos = 0; plain = true; produced = 0 }

opens_plain : new_decompressing list_source toy plain_body ≡ ok replaying
unfolding new_decompressing after_sniff read_all from_le_bytes
opens_plain = refl

Reached-IsBounded_example : IsBounded 0 replaying
Reached-IsBounded_example =
    Reached-IsBounded list_source toy 30 0 replaying (opened plain_body opens_plain)
