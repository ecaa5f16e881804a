-- ===== src/Compression/Frame.antt =====
-- One compression frame: a checksum of 16 bytes, a header of 9 bytes, and the compressed body.
use st_clickhouse_lib.Common.{
  ℕ, ◌+◌, ◌-◌, ◌*◌, ◌^◌, List, [], ◌∷◌, ◌++◌, Bool, ◌&&◌, Option, none, some, String, Result, ok,
  err, ◌>>=◌, map_err, length, take, drop, ltb, ◌==◌, if◌then◌else◌,
}
use st_clickhouse_lib.Common.Bytes.{to_le_bytes, from_le_bytes}
use st_clickhouse_lib.Error.{Error, compression, Message, message, num, bytes}
use st_clickhouse_lib.Limits.Caps.{ok_or}
use st_clickhouse_lib.Wire.Read.{Reader, read_exact}

abbrev pub header_len : ℕ
header_len = 9

abbrev pub checksum_len : ℕ
checksum_len = 16

abbrev pub max_frame_size : ℕ
max_frame_size = 64 * 1024 * 1024

-- The method `None` is `stored` here.
pub data CompressionMethod : Type 0 where
  stored lz4 zstd : CompressionMethod

unfoldable pub method_byte : CompressionMethod → ℕ
method_byte stored = 0x02
method_byte lz4 = 0x82
method_byte zstd = 0x90

unfoldable pub from_byte : ℕ → Option CompressionMethod
from_byte b =
    if b == 0x02
    then some stored
    else if b == 0x82
    then some lz4
    else if b == 0x90
    then some zstd
    else none

-- What the frames use of other crates: the hash, with its two halves `lo` and `hi`, and the codecs
-- with the texts of their errors. A decompressor is given the size that it may fill. The flags are
-- the crate's features.
pub record Codecs : Type 0 where
  pub city_hash_128 : List ℕ → ℕ × ℕ
  pub lz4_feature : Bool
  pub lz4_compress : List ℕ → List ℕ
  pub lz4_decompress : List ℕ → ℕ → Result (List ℕ) (List ℕ)
  pub zstd_feature : Bool
  pub zstd_encode_all : List ℕ → Result (List ℕ) (List ℕ)
  pub zstd_decompress : List ℕ → ℕ → Result (List ℕ) (List ℕ)

abbrev not_enabled : String → Error
not_enabled what = compression (message what [])

module _ (cs : Codecs) where
  unfoldable pub compress : CompressionMethod → List ℕ → Result (List ℕ) Error
  compress stored payload = ok payload
  compress lz4 payload =
      if cs.lz4_feature
      then ok (cs.lz4_compress payload)
      else err (not_enabled "LZ4 compression requested but 'lz4' feature not enabled")
  compress zstd payload =
      if cs.zstd_feature
      then map_err (λ e. compression (message "zstd encode: {}" (bytes e ∷ [])))
          (cs.zstd_encode_all payload)
      else err (not_enabled "ZSTD compression requested but 'zstd' feature not enabled")

  unfoldable pub decompress : CompressionMethod → List ℕ → ℕ → Result (List ℕ) Error
  decompress stored body uncompressed_size = ok body
  decompress lz4 body uncompressed_size =
      if cs.lz4_feature
      then map_err (λ e. compression (message "lz4 decode: {}" (bytes e ∷ [])))
          (cs.lz4_decompress body uncompressed_size)
      else err (not_enabled "LZ4 decompression requested but 'lz4' feature not enabled")
  decompress zstd body uncompressed_size =
      if cs.zstd_feature
      then map_err
          (λ e. compression (
            message "zstd decode: {} (declared uncompressed_size {})"
              (bytes e ∷ num uncompressed_size ∷ [])))
          (cs.zstd_decompress body uncompressed_size)
      else err (not_enabled "ZSTD decompression requested but 'zstd' feature not enabled")

-- `u32::try_from`, for the size fields of the header.
unfoldable pub size_field : ℕ → String → Result ℕ Error
size_field n what = if ltb n (2 ^ 32) then ok n else err (compression (message what (num n ∷ [])))

unfoldable pub header_bytes : CompressionMethod → ℕ → ℕ → List ℕ
unfolding method_byte
header_bytes method compressed_size uncompressed_size =
    method_byte method ∷ (to_le_bytes 4 compressed_size ++ to_le_bytes 4 uncompressed_size)

unfoldable pub checksum_bytes : ℕ × ℕ → List ℕ
checksum_bytes hash = to_le_bytes 8 hash.0 ++ to_le_bytes 8 hash.1

unfoldable pub encode_frame : Codecs → List ℕ → CompressionMethod → Result (List ℕ) Error
unfolding compress size_field header_bytes checksum_bytes
encode_frame cs payload method = do
  body ← compress cs method payload
  compressed_size ←
      size_field (header_len + length body)
        "compressed frame of {} bytes exceeds the u32 wire size field"
  uncompressed_size ←
      size_field (length payload) "uncompressed payload of {} bytes exceeds the u32 wire size field"
  let header_and_body = header_bytes method compressed_size uncompressed_size ++ body
  ok (checksum_bytes (cs.city_hash_128 header_and_body) ++ header_and_body)

pub record FrameHeader : Type 0 where
  pub method : CompressionMethod
  pub compressed_size : ℕ
  pub uncompressed_size : ℕ

-- The header fields, and the tests on them before any buffer is sized.
unfoldable pub method_of : List ℕ → Result CompressionMethod Error
unfolding from_byte
method_of header = ok_or (from_byte (from_le_bytes (take 1 header))) (
    compression (
      message "unknown compression method byte: 0x{:02x}"
        (num (from_le_bytes (take 1 header)) ∷ [])))

unfoldable pub over_cap : String → ℕ → Message
over_cap what n = message what (num n ∷ num max_frame_size ∷ [])

unfoldable pub check_sizes : ℕ → ℕ → Result (Unit {0}) Error
unfolding over_cap
check_sizes compressed_size uncompressed_size =
    if ltb compressed_size header_len
    then err (
        compression (
          message "compressed_size {} < header length {}"
            (num compressed_size ∷ num header_len ∷ [])))
    else if ltb max_frame_size compressed_size
    then err (compression (over_cap "compressed_size {} exceeds {} byte frame cap" compressed_size))
    else if ltb max_frame_size uncompressed_size
    then err
        (compression (over_cap "uncompressed_size {} exceeds {} byte frame cap" uncompressed_size))
    else ok tt

unfoldable pub parse_header : List ℕ → Result FrameHeader Error
unfolding method_of check_sizes
parse_header header = do
  method ← method_of header
  let compressed_size = from_le_bytes (take 4 (drop 1 header))
  let uncompressed_size = from_le_bytes (drop 5 header)
  checked ← check_sizes compressed_size uncompressed_size
  ok (record {
    method = method;
    compressed_size = compressed_size;
    uncompressed_size = uncompressed_size;
  })

unfoldable pub check_hash : ℕ × ℕ → List ℕ → Result (Unit {0}) Error
check_hash actual checksum =
    if (actual.0 == from_le_bytes (take 8 checksum))
      && (actual.1 == from_le_bytes (drop 8 checksum))
    then ok tt
    else err (
        compression
          (message "compression frame checksum mismatch (CityHash128) — corruption suspected" []))

unfoldable pub check_length : FrameHeader → List ℕ → Result (List ℕ) Error
check_length h decompressed =
    if length decompressed == h.uncompressed_size
    then ok decompressed
    else err (
        compression (
          message "decompressed length {} != uncompressed_size {} declared in header"
            (num (length decompressed) ∷ num h.uncompressed_size ∷ [])))

-- What is left once the whole frame is read.
unfoldable pub decode_body : Codecs → List ℕ → List ℕ → FrameHeader → List ℕ → Result (List ℕ) Error
unfolding check_hash decompress check_length
decode_body cs checksum header h body = do
  checked ← check_hash (cs.city_hash_128 (header ++ body)) checksum
  decompressed ← decompress cs h.method body h.uncompressed_size
  check_length h decompressed

-- The decompressed payload, and the source behind the frame.
unfoldable pub decode_frame : Codecs → Reader (List ℕ)
unfolding parse_header read_exact decode_body
decode_frame cs src = do
  (checksum, src) ← read_exact checksum_len src
  (header, src) ← read_exact header_len src
  h ← parse_header header
  (body, src) ← read_exact (h.compressed_size - header_len) src
  payload ← decode_body cs checksum header h body
  ok (payload, src)

unfoldable pub decode_frame_bytes : Codecs → List ℕ → Result (List ℕ) Error
unfolding decode_frame
decode_frame_bytes cs frame = (decode_frame cs frame >>= λ (payload, rest). ok payload)
