-- ===== src/Stream/Raw.antt =====
-- `read_buffered`: reads without chunks, through a window of bytes that were read ahead.
pub mod InOrder
use st_clickhouse_lib.Common.{
  ℕ, zero, suc, ◌+◌, ◌-◌, List, [], ◌∷◌, ◌++◌, Bool, true, false, ◌&&◌, Result, ok, err, ltb, leb,
  ◌==◌, min, length, take, drop, if◌then◌else◌,
}
use st_clickhouse_lib.Stream.Socket.{
  Poll, pending, ready, stuck, poll_inner_read, StreamWrapper, Event,
}

unfoldable pub serve_window : ℕ → StreamWrapper → Poll × StreamWrapper
serve_window room s =
    let n = min room (s.rd_fill - s.rd_pos) in
    (ready (ok (take n (drop s.rd_pos s.rd_buf))), record s { rd_pos = s.rd_pos + n })

-- The read ahead overwrites the front of the window.
unfoldable pub filled_window : StreamWrapper → List ℕ → List Event → StreamWrapper
filled_window s bytes later = record s {
  inner = later;
  rd_buf = bytes ++ drop (length bytes) s.rd_buf;
  rd_pos = 0;
  rd_fill = length bytes;
}

-- What follows the read ahead, `again` being the next round of the loop.
unfoldable pub after_prefetch :
    (StreamWrapper → Poll × StreamWrapper)
    → StreamWrapper
    → Poll × List Event
    → Poll × StreamWrapper
after_prefetch again s (pending, later) = (pending, record s { inner = later })
after_prefetch again s (stuck, later) = (stuck, record s { inner = later })
after_prefetch again s (ready (err e), later) = (ready (err e), record s { inner = later })
after_prefetch again s (ready (ok []), later) = (ready (ok []), filled_window s [] later)
after_prefetch again s (ready (ok (b ∷ bs)), later) = again (filled_window s (b ∷ bs) later)

unfoldable pub window_loop : ℕ → ℕ → StreamWrapper → Poll × StreamWrapper
window_loop zero room s = (stuck, s)
window_loop (suc rounds) room s = elim (ltb s.rd_pos s.rd_fill) [
  | true ↦ serve_window room s
  | false ↦ after_prefetch (window_loop rounds room) s (poll_inner_read (length s.rd_buf) s.inner)
]

-- A read of a whole window or more, with nothing read ahead, goes to the socket directly. The second
-- round of the loop serves what the first one read ahead.
unfoldable pub read_buffered : ℕ → StreamWrapper → Poll × StreamWrapper
read_buffered room s =
    if (s.rd_pos == s.rd_fill) && leb (length s.rd_buf) room
    then (let polled = poll_inner_read room s.inner in (polled.0, record s { inner = polled.1 }))
    else window_loop 2 room s
