-- ===== src/Chunked/Framing.antt =====
-- Writing packets as chunks, and what a stream of chunks stands for.
use st_clickhouse_lib.Common.{
  ℕ, ◌^◌, ◌≤◌, ◌<◌, ◌≡◌, refl, List, [], ◌∷◌, ◌++◌, Bool, Result, ok, err, ◌>>=◌, length, ltb,
  if◌then◌else◌, arith, append_assoc, append-nil, ap, sym,
}
use st_clickhouse_lib.Common.Bytes.{to_le_bytes}
use st_clickhouse_lib.Error.{Error, protocol, message, num}
use st_clickhouse_lib.Limits.Caps.{max_chunk_len}

-- The bytes handed to the writer, or the refusal before anything is written.
unfoldable pub write_chunk_header : ℕ → Result (List ℕ) Error
unfolding to_le_bytes
write_chunk_header len =
    if ltb len (2 ^ 32)
    then ok (to_le_bytes 4 len)
    else err (protocol (message "chunked packet too large: {} bytes" (num len ∷ [])))

unfoldable pub write_chunked_packet : List ℕ → Result (List ℕ) Error
unfolding write_chunk_header
write_chunked_packet pkt = do
  header ← write_chunk_header (length pkt)
  ok (header ++ (pkt ++ to_le_bytes 4 0))

-- The byte `3` of a Cancel packet, framed if the transport is chunked.
unfoldable pub write_cancel_packet : Bool → Result (List ℕ) Error
unfolding write_chunked_packet
write_cancel_packet chunked_send =
    if chunked_send then write_chunked_packet (3 ∷ []) else ok (3 ∷ [])

-- `Framed wire payload`: chunks within the cap, and empty chunks anywhere.
pub data Framed : List ℕ → List ℕ → Type 0 where
  ends : Framed [] []
  boundary :
      {wire payload more : List ℕ}
      → Framed wire payload
      → more ≡ to_le_bytes 4 0 ++ wire
      → Framed more payload
  chunk :
      {wire payload more out : List ℕ} (c : List ℕ)
      → Framed wire payload
      → 0 < length c
      → length c ≤ max_chunk_len
      → more ≡ to_le_bytes 4 (length c) ++ (c ++ wire)
      → out ≡ c ++ payload
      → Framed more out

-- A packet within the cap is written as a frame of the whole packet and, behind it, the empty chunk
-- that closes the packet; and what is written may stand in front of any framed stream.
pub write_chunked_packet-Framed :
    (pkt wire payload : List ℕ)
    → length pkt ≤ max_chunk_len
    → Framed wire payload
    → (frame : List ℕ) × Framed frame pkt
      × (write_chunked_packet pkt ≡ ok (frame ++ to_le_bytes 4 0))
      × Framed ((frame ++ to_le_bytes 4 0) ++ wire) (pkt ++ payload)
unfolding write_chunked_packet write_chunk_header
write_chunked_packet-Framed [] wire payload h f =
    (to_le_bytes 4 0, boundary ends refl, refl, boundary (boundary f refl) refl)
write_chunked_packet-Framed (b ∷ bs) wire payload h f =
    let pkt : List ℕ = b ∷ bs in
    let header : List ℕ = to_le_bytes 4 (length pkt) in
    let close : List ℕ = to_le_bytes 4 0 in
    (
      header ++ pkt,
      chunk pkt ends (omega arith) h (ap (λ r. header ++ r) (sym (append-nil pkt)))
          (sym (append-nil pkt)),
      ground arith,
      chunk pkt (boundary f refl) (omega arith) h
          (ap (λ r. header ++ r) (append_assoc pkt close wire)) refl,
    )
