-- ===== src/Stream/Framed.antt =====
-- `poll_read` with chunks: headers and payloads that arrive in parts, over any number of polls.
pub mod Parts
pub mod Loops
pub mod Start
pub mod InOrder
pub mod Polls
use st_clickhouse_lib.Common.{
  ℕ, zero, suc, ◌+◌, ◌-◌, List, [], ◌∷◌, ◌++◌, Bool, true, false, ◌&&◌, not, Result, ok, err, ltb,
  leb, ◌==◌, min, length, take, drop, replicate, if◌then◌else◌,
}
use st_clickhouse_lib.Common.Bytes.{from_le_bytes}
use st_clickhouse_lib.Error.{io, unexpected_eof, invalid_data}
use st_clickhouse_lib.Limits.Caps.{max_chunk_len}
use st_clickhouse_lib.Stream.Socket.{
  Poll, pending, ready, stuck, poll_inner_read, StreamWrapper, Event, arrivals,
}

-- A part of the function goes on with the wrapper, or returns.
pub data Step : Type 0 where
  goes : StreamWrapper → Step
  stops : Poll → StreamWrapper → Step

-- Bytes written into a buffer from a position on.
abbrev pub written : List ℕ → ℕ → List ℕ → List ℕ
written buf pos bs = take pos buf ++ (bs ++ drop (pos + length bs) buf)

-- One read of an inner loop: `stores` keeps the bytes that came, and the loop goes on. No byte where
-- one is wanted is the end of the stream in the middle of a chunk.
unfoldable pub after_read :
    (StreamWrapper → List ℕ → StreamWrapper)
    → (StreamWrapper → Step)
    → StreamWrapper
    → Poll × List Event
    → Step
after_read stores again s (pending, later) = stops pending (record s { inner = later })
after_read stores again s (stuck, later) = stops stuck (record s { inner = later })
after_read stores again s (ready (err e), later) =
    stops (ready (err e)) (record s { inner = later })
after_read stores again s (ready (ok []), later) =
    stops (ready (err (io unexpected_eof))) (record s { inner = later })
after_read stores again s (ready (ok (b ∷ bs)), later) =
    again (stores (record s { inner = later }) (b ∷ bs))

abbrev pub store_len : StreamWrapper → List ℕ → StreamWrapper
store_len s bs = record s {
  len_buf = written s.len_buf s.len_pos bs;
  len_pos = s.len_pos + length bs;
}

abbrev pub store_chunk : StreamWrapper → List ℕ → StreamWrapper
store_chunk s bs = record s {
  chunk = written s.chunk s.chunk_fill bs;
  chunk_fill = s.chunk_fill + length bs;
}

-- The loop over the four bytes of the length. Each round brings one byte at least.
unfoldable pub read_len : ℕ → StreamWrapper → Step
read_len zero s = stops stuck s
read_len (suc rounds) s = elim (ltb s.len_pos (length s.len_buf)) [
  | true ↦
      after_read store_len (read_len rounds) s
        (poll_inner_read (length s.len_buf - s.len_pos) s.inner)
  | false ↦ goes s
]

-- The loop over the payload.
unfoldable pub read_payload : ℕ → StreamWrapper → Step
read_payload zero s = stops stuck s
read_payload (suc rounds) s = elim (ltb s.chunk_fill (length s.chunk)) [
  | true ↦
      after_read store_chunk (read_payload rounds) s
        (poll_inner_read (length s.chunk - s.chunk_fill) s.inner)
  | false ↦ goes s
]

-- With the four bytes there: room for the payload, none for an empty chunk.
unfoldable pub start_chunk : StreamWrapper → Step
start_chunk s =
    let len = from_le_bytes s.len_buf in
    if len == 0
    then goes (record s { len_pos = 0 })
    else if ltb max_chunk_len len
    then stops (ready (err (io invalid_data))) (record s { len_pos = 0 })
    else goes (record s { len_pos = 0; chunk = replicate len 0 })

-- A chunk that is received and served makes place for the next one.
unfoldable pub clear_used : StreamWrapper → StreamWrapper
clear_used s =
    if not (length s.chunk == 0) && (s.chunk_fill == length s.chunk)
    then record s { chunk = []; chunk_pos = 0; chunk_fill = 0 }
    else s

unfoldable pub then_step : Step → (StreamWrapper → Step) → Step
then_step (goes s) f = f s
then_step (stops p s) f = stops p s

-- The part of a round that reads: a header where no chunk is in progress, and then its payload. For
-- an empty chunk the payload loop has nothing to do, and the next round reads the next header.
unfoldable pub receive : StreamWrapper → Step
receive s =
    then_step (if length s.chunk == 0 then then_step (read_len 5 s) start_chunk else goes s)
      λ next. read_payload (suc (length next.chunk)) next

unfoldable pub serve_chunk : ℕ → StreamWrapper → Poll × StreamWrapper
serve_chunk room s =
    let n = min room (s.chunk_fill - s.chunk_pos) in
    (ready (ok (take n (drop s.chunk_pos s.chunk))), record s { chunk_pos = s.chunk_pos + n })

unfoldable pub after_receive : (StreamWrapper → Poll × StreamWrapper) → Step → Poll × StreamWrapper
after_receive again (goes s) = again s
after_receive again (stops p s) = (p, s)

unfoldable pub poll_loop : ℕ → ℕ → StreamWrapper → Poll × StreamWrapper
poll_loop zero room s = (stuck, s)
poll_loop (suc rounds) room s = elim (ltb s.chunk_pos s.chunk_fill) [
  | true ↦ serve_chunk room s
  | false ↦ after_receive (poll_loop rounds room) (receive (clear_used s))
]

-- Each round but the last two takes four bytes from the socket.
unfoldable pub poll_read_framed : ℕ → StreamWrapper → Poll × StreamWrapper
poll_read_framed room s = poll_loop (length (arrivals s.inner) + 7) room s
