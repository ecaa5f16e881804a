-- ===== src/Chunked/Reader/Stream.antt =====
-- The reader hands out the payload of the chunks, in order and without gaps.
use st_clickhouse_lib.Common.{
  ℕ, zero, suc, ◌+◌, ◌-◌, ◌≤◌, ◌<◌, ◌≡◌, refl, sym, ap, ◌∙◌, List, [], ◌∷◌, ◌++◌, Result, ok, err,
  length, length-append, take, drop, take-append-drop, length-take, length-drop, drop_sum, drop_all,
  append_assoc, Bool-cases, inl, inr, true, ne→==, min, leb, arith,
}
use st_clickhouse_lib.Common.Bytes.{to_le_bytes, length-to_le_bytes, from_le_bytes-to_le_bytes}
use st_clickhouse_lib.Error.{Error, io, unexpected_eof}
use st_clickhouse_lib.Limits.Caps.{max_chunk_len}
use st_clickhouse_lib.Wire.Read.{read_exact}
use st_clickhouse_lib.Wire.Exact.{read_exact_at}
use st_clickhouse_lib.Chunked.Framing.{Framed, ends, boundary, chunk}
use st_clickhouse_lib.Chunked.Reader.{
  ChunkedReader, new_reader, read_chunk_body, read_next_chunk_loop, read_next_chunk, serve, read,
}

-- The reader stands for `payload`: what is left of its chunk, and then what its stream frames.
pub record Holds (r : ChunkedReader) (payload : List ℕ) : Type 0 where
  pub later : List ℕ
  pub framed : Framed r.inner later
  pub parts : payload ≡ drop r.pos r.chunk ++ later

pub new_reader-Holds :
    (wire payload : List ℕ) → Framed wire payload → Holds (new_reader wire) payload
unfolding new_reader
new_reader-Holds wire payload f = record { later = payload; framed = f; parts = refl }

read_header :
    (n : ℕ) (rest : List ℕ) → read_exact 4 (to_le_bytes 4 n ++ rest) ≡ ok (to_le_bytes 4 n, rest)
read_header n rest = read_exact_at 4 (to_le_bytes 4 n) rest (length-to_le_bytes 4 n)

loop_at_boundary :
    (fuel : ℕ) (wire : List ℕ)
    → read_next_chunk_loop (suc fuel) (to_le_bytes 4 0 ++ wire) ≡ read_next_chunk_loop fuel wire
unfolding read_next_chunk_loop
loop_at_boundary fuel wire = ground (arith, read_header 0 wire, from_le_bytes-to_le_bytes 4 0)

loop_at_chunk :
    (fuel : ℕ) (c wire : List ℕ)
    → 0 < length c
    → length c ≤ max_chunk_len
    → read_next_chunk_loop (suc fuel) (to_le_bytes 4 (length c) ++ (c ++ wire))
      ≡ ok (record { inner = wire; chunk = c; pos = 0 })
unfolding read_next_chunk_loop read_chunk_body
loop_at_chunk fuel c wire h k = ground (
  arith,
  read_header (length c) (c ++ wire),
  from_le_bytes-to_le_bytes 4 (length c),
  read_exact_at (length c) c wire refl,
)

-- The next chunk that is not empty, or the end of the stream.
abbrev NextChunk : List ℕ → Result ChunkedReader Error → Type 0
NextChunk [] r = r ≡ err (io unexpected_eof)
NextChunk (b ∷ payload) r =
    (next : ChunkedReader) × (r ≡ ok next)
    × (next.pos < length next.chunk)
    × Holds next (b ∷ payload)

read_next_chunk_loop-NextChunk :
    {src payload : List ℕ} (fuel : ℕ)
    → Framed src payload
    → length src < fuel
    → NextChunk payload (read_next_chunk_loop fuel src)
read_next_chunk_loop-NextChunk zero f h = absurd (omega arith)
read_next_chunk_loop-NextChunk (suc fuel) ends h = unfold read_next_chunk_loop read_exact in refl
read_next_chunk_loop-NextChunk {payload} (suc fuel) (boundary {wire} f at) h =
    rw (at, loop_at_boundary fuel wire)
      (read_next_chunk_loop-NextChunk fuel f
        (omega (arith, ap length at, length-append (to_le_bytes 4 0) wire, length-to_le_bytes 4 0)))
read_next_chunk_loop-NextChunk (suc fuel) (chunk [] f pos fits at out) h = absurd (omega arith)
read_next_chunk_loop-NextChunk (suc fuel) (chunk {wire} {payload} (b ∷ bs) f pos fits at out) h =
    rw (at, out, loop_at_chunk fuel (b ∷ bs) wire pos fits)
      (_, refl, pos, record { later = payload; framed = f; parts = refl })

-- What a read hands out: some bytes from the front of the payload, and a reader of the rest.
pub record Delivers (out_len : ℕ) (payload : List ℕ)
    (result : Result (List ℕ × ChunkedReader) Error) : Type 0 where
  pub bytes : List ℕ
  pub rest : List ℕ
  pub next : ChunkedReader
  pub returns : result ≡ ok (bytes, next)
  pub splits : payload ≡ bytes ++ rest
  pub some_bytes : 0 < length bytes
  pub within_buffer : length bytes ≤ out_len
  pub holds : Holds next rest

serve-Delivers :
    (out_len : ℕ) (r : ChunkedReader) (payload : List ℕ)
    → 0 < out_len
    → r.pos < length r.chunk
    → Holds r payload
    → Delivers out_len payload (ok (serve out_len r))
unfolding serve
serve-Delivers out_len r payload h left holds = record {
  bytes = taken;
  rest = drop n (drop r.pos r.chunk) ++ holds.later;
  next = record r { pos = r.pos + n };
  returns = refl;
  splits =
      holds.parts
      ∙ ap (λ xs. xs ++ holds.later) (sym (take-append-drop n (drop r.pos r.chunk)))
      ∙ append_assoc taken (drop n (drop r.pos r.chunk)) holds.later;
  some_bytes = omega (arith, taken_length);
  within_buffer = omega (arith, taken_length);
  holds = record {
    later = holds.later;
    framed = holds.framed;
    parts = ap (λ xs. xs ++ holds.later) (sym behind);
  };
}
  where
    n : ℕ
    n = min out_len (length r.chunk - r.pos)

    taken : List ℕ
    taken = take n (drop r.pos r.chunk)

    taken_length : length taken ≡ n
    taken_length = omega (arith, length-take n (drop r.pos r.chunk), length-drop r.pos r.chunk)

    behind : drop (r.pos + n) r.chunk ≡ drop n (drop r.pos r.chunk)
    behind = rw taken_length at (
        drop_sum r.chunk r.pos taken (drop n (drop r.pos r.chunk))
          (sym (take-append-drop n (drop r.pos r.chunk))))

-- With the chunk at hand used up, the reader turns to the next one.
refill-Delivers :
    (out_len : ℕ) (r : ChunkedReader) (b : ℕ) (payload : List ℕ)
    → 0 < out_len
    → leb (length r.chunk) r.pos ≡ true
    → Holds r (b ∷ payload)
    → Delivers out_len (b ∷ payload) (read out_len r)
unfolding read read_next_chunk
refill-Delivers out_len r b payload h used holds =
    let same : holds.later ≡ b ∷ payload =
      sym (holds.parts ∙ ap (λ xs. xs ++ holds.later) (drop_all r.pos r.chunk (ground arith))) in
    let (next, e, left, held) =
      read_next_chunk_loop-NextChunk (suc (length r.inner)) (rw same at holds.framed)
        (omega arith) in
    rw (ne→== out_len 0 (omega arith), used, e)
      (serve-Delivers out_len next (b ∷ payload) h left held)

-- `read` into a buffer that is not empty, with payload left, returns at least one byte and at most
-- as many as the buffer holds; they are the next bytes of the payload, and the reader then stands
-- for the bytes behind them.
pub read-Delivers :
    (out_len : ℕ) (r : ChunkedReader) (b : ℕ) (payload : List ℕ)
    → 0 < out_len
    → Holds r (b ∷ payload)
    → Delivers out_len (b ∷ payload) (read out_len r)
read-Delivers out_len r b payload h holds = elim (Bool-cases (leb (length r.chunk) r.pos)) [
  | inl used ↦ refill-Delivers out_len r b payload h used holds
  | inr left ↦
      unfold read in
      rw (ne→== out_len 0 (omega arith), left)
        (serve-Delivers out_len r (b ∷ payload) h (ground arith) holds)
]

both_empty : (xs ys : List ℕ) → [] ≡ xs ++ ys → (xs ≡ []) × (ys ≡ [])
both_empty [] [] h = (refl, refl)
both_empty [] (y ∷ ys) h = cc
both_empty (x ∷ xs) ys h = cc

-- At the end of the payload `read` fails with `UnexpectedEof`.
pub read_end :
    (out_len : ℕ) (r : ChunkedReader)
    → 0 < out_len
    → Holds r []
    → read out_len r ≡ err (io unexpected_eof)
unfolding read read_next_chunk
read_end out_len r h holds =
    let (used, over) = both_empty (drop r.pos r.chunk) holds.later holds.parts in
    let full : leb (length r.chunk) r.pos ≡ true =
      ground (arith, ap length used, length-drop r.pos r.chunk) in
    let e =
      read_next_chunk_loop-NextChunk (suc (length r.inner)) (rw over at holds.framed)
        (omega arith) in
    rw (ne→== out_len 0 (omega arith), full, e)
