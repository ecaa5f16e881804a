-- ===== src/Compression/Reader.antt =====
-- `DecompressingReader`: the body of one packet, as a sequence of frames or as plain bytes.
pub mod Frames
pub mod Loop
pub mod Stream
pub mod Refines
pub mod Opens
pub mod Budget
use st_clickhouse_lib.Common.{
  ℕ, zero, suc, ◌+◌, ◌-◌, List, [], ◌∷◌, ◌++◌, Bool, true, false, ◌||◌, Result, ok, err, ◌>>=◌,
  map_err, length, take, drop, min, ltb, ◌==◌, if◌then◌else◌,
}
use st_clickhouse_lib.Common.Bytes.{from_le_bytes}
use st_clickhouse_lib.Error.{
  Error, Message, message, num, io, protocol, compression, invalid_data, other_io,
}
use st_clickhouse_lib.Error.Display.{display}
use st_clickhouse_lib.Limits.Caps.{checked_block_bytes}
use st_clickhouse_lib.Wire.Source.{Source, read_all}
use st_clickhouse_lib.Compression.Frame.{
  Codecs, header_len, checksum_len, max_frame_size, over_cap, decode_frame_bytes,
}

-- The constructors are `Compression`, `Budget` and `Io`. An I/O error is an `Error` here, too.
pub data DecompressError : Type 0 where
  frame_error : Message → DecompressError
  budget : Message → DecompressError
  io_error : Error → DecompressError

-- `impl From<DecompressError> for Error`.
unfoldable pub from_decompress_error : DecompressError → Error
from_decompress_error (frame_error m) = compression m
from_decompress_error (budget m) = protocol m
from_decompress_error (io_error e) = e

abbrev pub method_offset : ℕ
method_offset = checksum_len

abbrev pub frame_header_total : ℕ
frame_header_total = checksum_len + header_len

pub record DecompressingReader (R : Type 0) : Type 0 where
  pub inner : R
  pub buf : List ℕ
  pub pos : ℕ
  pub plain : Bool
  pub produced : ℕ

-- The compressed size in the first 25 bytes of a frame.
abbrev pub frame_size : List ℕ → ℕ
frame_size frame = from_le_bytes (take 4 (drop 17 frame))

abbrev pub is_method : ℕ → Bool
is_method b = (b == 0x82) || ((b == 0x90) || (b == 0x02))

unfoldable pub swap_in_decoded :
    {R : Type 0}
    → Codecs
    → List ℕ
    → DecompressingReader R
    → Result (DecompressingReader R) DecompressError
swap_in_decoded cs frame r = do
  decompressed ← map_err (λ e. frame_error (display e)) (decode_frame_bytes cs frame)
  produced ←
      map_err budget (checked_block_bytes r.produced (length decompressed) "decompressed block")
  ok (record r { buf = decompressed; pos = 0; produced = produced })

module _ {R : Type 0} (S : Source R) (cs : Codecs) where
  abbrev read_inner : ℕ → R → Result (List ℕ × R) DecompressError
  read_inner n inner = map_err io_error (read_all S n inner)

  abbrev replay : R → List ℕ → DecompressingReader R
  replay inner bytes = record { inner = inner; buf = bytes; pos = 0; plain = true; produced = 0 }

  -- The first frame, whose first 25 bytes are there.
  unfoldable pub first_frame : R → List ℕ → Result (DecompressingReader R) DecompressError
  first_frame inner frame =
      if ltb (frame_size frame) header_len
      then ok (replay inner frame)
      else if ltb max_frame_size (frame_size frame)
      then err
          (frame_error (over_cap "compressed_size {} exceeds {} byte frame cap" (frame_size frame)))
      else (read_inner (frame_size frame - header_len) inner >>= λ (body, inner).
          swap_in_decoded cs (frame ++ body)
            (record { inner = inner; buf = []; pos = 0; plain = false; produced = 0 }))

  -- What follows the first 17 bytes, by whether the last of them is a method.
  unfoldable pub after_sniff : Bool → List ℕ → R → Result (DecompressingReader R) DecompressError
  after_sniff true sniff inner =
      read_inner (frame_header_total - method_offset - 1) inner >>= λ (rest, inner).
      first_frame inner (sniff ++ rest)
  after_sniff false sniff inner = ok (replay inner sniff)

  unfoldable pub new_decompressing : R → Result (DecompressingReader R) DecompressError
  new_decompressing inner = do
    (first, inner) ← read_inner 1 inner
    (more, inner) ← read_inner method_offset inner
    let sniff = first ++ more
    after_sniff (is_method (from_le_bytes (drop method_offset sniff))) sniff inner

  -- The next frame, whose first 25 bytes are there.
  unfoldable pub next_frame :
      DecompressingReader R → R → List ℕ → Result (DecompressingReader R) Error
  next_frame r inner frame =
      if ltb (frame_size frame) header_len
      then err (io invalid_data)
      else if ltb max_frame_size (frame_size frame)
      then err (io invalid_data)
      else (read_all S (frame_size frame - header_len) inner >>= λ (body, inner).
          map_err (λ _. io invalid_data)
            (swap_in_decoded cs (frame ++ body) (record r { inner = inner })))

  -- `false` is the end of the stream at a frame boundary, where not even a first byte came.
  unfoldable pub pull_from :
      DecompressingReader R → List ℕ → R → Result (Bool × DecompressingReader R) Error
  pull_from r [] inner = ok (false, record r { inner = inner })
  pull_from r (b ∷ _) inner = do
    (more, inner) ← read_all S (frame_header_total - 1) inner
    next ← next_frame r inner (b ∷ more)
    ok (true, next)

  unfoldable pub pull_next_frame :
      DecompressingReader R → Result (Bool × DecompressingReader R) Error
  pull_next_frame r = (S.read 1 r.inner >>= λ (first, inner). pull_from r first inner)

  unfoldable pub serve_pending : ℕ → DecompressingReader R → List ℕ × DecompressingReader R
  serve_pending out_len r =
      let n = min out_len (length r.buf - r.pos) in
      (take n (drop r.pos r.buf), record r { pos = r.pos + n })

  -- The loop of `read`, which goes on while frames are empty.
  unfoldable pub decompressing_loop :
      ℕ → ℕ → DecompressingReader R → Result (List ℕ × DecompressingReader R) Error
  decompressing_loop zero out_len r = err (io other_io)
  decompressing_loop (suc fuel) out_len r = elim (ltb r.pos (length r.buf)) [
    | true ↦ ok (serve_pending out_len r)
    | false ↦ elim r.plain [
      | true ↦ (S.read out_len r.inner >>= λ (bytes, inner). ok (bytes, record r { inner = inner }))
      | false ↦ elim (pull_next_frame r) [
        | err e ↦ err e
        | ok (more, next) ↦ elim more [
          | true ↦ decompressing_loop fuel out_len next
          | false ↦ ok ([], next)
        ]
      ]
    ]
  ]

  unfoldable pub read_decompressed :
      ℕ → ℕ → DecompressingReader R → Result (List ℕ × DecompressingReader R) Error
  read_decompressed fuel out_len r =
      if out_len == 0 then ok ([], r) else decompressing_loop fuel out_len r

  -- The reader is a source again, with fuel for the frames that one read may pull.
  abbrev pub decompressing : ℕ → Source (DecompressingReader R)
  decompressing fuel = record { read = read_decompressed fuel }

unfoldable pub into_pending : {R : Type 0} → DecompressingReader R → List ℕ
into_pending r = drop r.pos r.buf
