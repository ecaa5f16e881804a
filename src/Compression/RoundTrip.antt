-- ===== src/Compression/RoundTrip.antt =====
-- What `encode_frame` wrote, `decode_frame` reads back.
use st_clickhouse_lib.Common.{
  ℕ, ◌+◌, ◌^◌, ◌≤◌, ◌<◌, ◌≡◌, refl, ap, ◌∙◌, List, ◌++◌, ok, length, length-append, append_assoc,
  take, drop, take-append, drop-append, arith,
}
use st_clickhouse_lib.Common.Bytes.{
  to_le_bytes, from_le_bytes, length-to_le_bytes, from_le_bytes-to_le_bytes,
}
use st_clickhouse_lib.Compression.Frame.{
  Codecs, CompressionMethod, stored, lz4, zstd, FrameHeader, max_frame_size, compress, decompress,
  method_of, check_sizes, header_bytes, checksum_bytes, size_field, encode_frame, parse_header,
  check_hash, check_length, decode_body, decode_frame,
}
use st_clickhouse_lib.Compression.Decode.{decode_frame_at}

-- What the frames rely on: the halves of the hash are `u64`s, and a decompressor that is given the
-- size of the data undoes its compressor.
pub record CodecLaws (cs : Codecs) : Type 0 where
  pub lo_fits : (bs : List ℕ) → (cs.city_hash_128 bs).0 < 2 ^ 64
  pub hi_fits : (bs : List ℕ) → (cs.city_hash_128 bs).1 < 2 ^ 64
  pub lz4_undone :
      (plain : List ℕ) → cs.lz4_decompress (cs.lz4_compress plain) (length plain) ≡ ok plain
  pub zstd_undone :
      (plain packed : List ℕ)
      → cs.zstd_encode_all plain ≡ ok packed
      → cs.zstd_decompress packed (length plain) ≡ ok plain

-- A field of `width` bytes, in front of others and at the end.
first_field :
    (width v : ℕ) (rest : List ℕ)
    → v < 256 ^ width
    → from_le_bytes (take width (to_le_bytes width v ++ rest)) ≡ v
first_field width v rest h =
    ap from_le_bytes (rw (length-to_le_bytes width v) at (take-append (to_le_bytes width v) rest))
    ∙ from_le_bytes-to_le_bytes width v h

behind_field : (width v : ℕ) (rest : List ℕ) → drop width (to_le_bytes width v ++ rest) ≡ rest
behind_field width v rest =
    rw (length-to_le_bytes width v) at (drop-append (to_le_bytes width v) rest)

method_field :
    (method : CompressionMethod) (c u : ℕ) → method_of (header_bytes method c u) ≡ ok method
unfolding method_of header_bytes from_le_bytes
method_field stored c u = refl
method_field lz4 c u = refl
method_field zstd c u = refl

length-header_bytes : (method : CompressionMethod) (c u : ℕ) → length (header_bytes method c u) ≡ 9
unfolding header_bytes
length-header_bytes method c u = omega (
  arith,
  length-append (to_le_bytes 4 c) (to_le_bytes 4 u),
  length-to_le_bytes 4 c,
  length-to_le_bytes 4 u,
)

length-checksum_bytes : (hash : ℕ × ℕ) → length (checksum_bytes hash) ≡ 16
unfolding checksum_bytes
length-checksum_bytes hash = omega (
  arith,
  length-append (to_le_bytes 8 hash.0) (to_le_bytes 8 hash.1),
  length-to_le_bytes 8 hash.0,
  length-to_le_bytes 8 hash.1,
)

module _ (method : CompressionMethod) (c u : ℕ) where
  compressed_field : c < 2 ^ 32 → from_le_bytes (take 4 (drop 1 (header_bytes method c u))) ≡ c
  unfolding header_bytes
  compressed_field h = first_field 4 c (to_le_bytes 4 u) (omega arith)

  uncompressed_field : u < 2 ^ 32 → from_le_bytes (drop 5 (header_bytes method c u)) ≡ u
  unfolding header_bytes
  uncompressed_field h =
      rw (behind_field 4 c (to_le_bytes 4 u)) (from_le_bytes-to_le_bytes 4 u (omega arith))

  sizes_pass : 9 ≤ c → c ≤ max_frame_size → u ≤ max_frame_size → check_sizes c u ≡ ok tt
  unfolding check_sizes
  sizes_pass h k l = ground arith

  parse_header-header_bytes :
      9 ≤ c
      → c ≤ max_frame_size
      → u ≤ max_frame_size
      → parse_header (header_bytes method c u)
        ≡ ok (record { method = method; compressed_size = c; uncompressed_size = u })
  unfolding parse_header
  parse_header-header_bytes h k l =
      rw
        (
          method_field method c u,
          compressed_field (omega arith),
          uncompressed_field (omega arith),
          sizes_pass h k l,
        )
        refl

module _ (cs : Codecs) (laws : CodecLaws cs) where
  decompress-compress :
      (method : CompressionMethod) (plain body : List ℕ)
      → compress cs method plain ≡ ok body
      → decompress cs method body (length plain) ≡ ok plain
  unfolding compress decompress
  decompress-compress stored plain body e = cc
  decompress-compress lz4 plain body e = ground (arith, laws.lz4_undone plain)
  decompress-compress zstd plain body e = ground (arith, laws.zstd_undone plain body)

  check_hash-checksum_bytes :
      (bs : List ℕ)
      → check_hash (cs.city_hash_128 bs) (checksum_bytes (cs.city_hash_128 bs)) ≡ ok tt
  unfolding check_hash checksum_bytes
  check_hash-checksum_bytes bs =
      let hash = cs.city_hash_128 bs in
      ground (
        arith,
        first_field 8 hash.0 (to_le_bytes 8 hash.1) (omega (arith, laws.lo_fits bs)),
        behind_field 8 hash.0 (to_le_bytes 8 hash.1),
        from_le_bytes-to_le_bytes 8 hash.1 (omega (arith, laws.hi_fits bs)),
      )

  -- With a hash of two 64-bit halves and decompressors that undo their compressors: data whose
  -- compressed form keeps within the cap of 64 MiB, header included, and that keeps within it itself:
  -- encoding it succeeds, and decoding what was written, whatever follows it on the stream, returns
  -- the data and stops right behind the frame.
  pub decode_frame-encode_frame :
      (method : CompressionMethod) (plain body rest : List ℕ)
      → compress cs method plain ≡ ok body
      → 9 + length body ≤ max_frame_size
      → length plain ≤ max_frame_size
      → (frame : List ℕ) × (encode_frame cs plain method ≡ ok frame)
        × (decode_frame cs (frame ++ rest) ≡ ok (plain, rest))
  decode_frame-encode_frame method plain body rest e k l = (
    checksum ++ (header ++ body),
    (unfold encode_frame size_field in ground (arith, e)),
    ap (decode_frame cs) shape
        ∙ decode_frame_at cs checksum header body rest h
            (length-checksum_bytes (cs.city_hash_128 (header ++ body)))
            (length-header_bytes method (9 + length body) (length plain))
            (parse_header-header_bytes method (9 + length body) (length plain) (omega arith) k l)
            (omega arith)
        ∙ rw decodes refl,
  )
    where
      h : FrameHeader
      h = record {
        method = method;
        compressed_size = 9 + length body;
        uncompressed_size = length plain;
      }

      header : List ℕ
      header = header_bytes method (9 + length body) (length plain)

      checksum : List ℕ
      checksum = checksum_bytes (cs.city_hash_128 (header ++ body))

      shape : (checksum ++ (header ++ body)) ++ rest ≡ checksum ++ (header ++ (body ++ rest))
      shape =
          append_assoc checksum (header ++ body) rest
          ∙ ap (λ x. checksum ++ x) (append_assoc header body rest)

      decodes : decode_body cs checksum header h body ≡ ok plain
      decodes =
          unfold decode_body check_length in
          ground (
            arith,
            check_hash-checksum_bytes (header ++ body),
            decompress-compress method plain body e,
          )
