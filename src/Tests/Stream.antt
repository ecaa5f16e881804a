-- ===== src/Tests/Stream.antt =====
-- The async transport at a socket that waits, brings three bytes, fails and brings one more.
use st_clickhouse_lib.Common.{◌≡◌, refl, [], ◌∷◌, ok, arith}
use st_clickhouse_lib.Error.{other_io}
use st_clickhouse_lib.Stream.Socket.{
  StreamWrapper, waits, pending, ready, fails, arrives, poll_inner_read,
}
use st_clickhouse_lib.Stream.Raw.{
  read_buffered, window_loop, serve_window, after_prefetch, filled_window,
}
use st_clickhouse_lib.Common.Bytes.{to_le_bytes, from_le_bytes}
use st_clickhouse_lib.Common.{inl}
use st_clickhouse_lib.Chunked.Framing.{Framed, ends, boundary, chunk}
use st_clickhouse_lib.Stream.Framed.{
  poll_read_framed, poll_loop, receive, clear_used, read_len, read_payload, start_chunk, then_step,
  after_read, after_receive, serve_chunk,
}
use st_clickhouse_lib.Stream.Framed.InOrder.{Stands}
use st_clickhouse_lib.Stream.Framed.InOrder as Framed_order
use st_clickhouse_lib.Stream.Framed.Polls.{poll_read_framed-InOrder}
use st_clickhouse_lib.Stream.Raw.InOrder.{InOrder, read_buffered-InOrder}

abbrev two_served : StreamWrapper
two_served = record {
  inner = arrives (5 ∷ 6 ∷ 7 ∷ []) ∷ fails other_io ∷ arrives (8 ∷ []) ∷ [];
  chunk = [];
  chunk_pos = 0;
  chunk_fill = 0;
  len_buf = 0 ∷ 0 ∷ 0 ∷ 0 ∷ [];
  len_pos = 0;
  rd_buf = 1 ∷ 2 ∷ 0 ∷ 0 ∷ [];
  rd_pos = 2;
  rd_fill = 2;
}

reads_ahead : (read_buffered 2 two_served).0 ≡ ready (ok (5 ∷ 6 ∷ []))
unfolding read_buffered window_loop serve_window after_prefetch filled_window poll_inner_read
reads_ahead = refl

read_buffered-InOrder_example : InOrder 2 two_served (read_buffered 2 two_served)
read_buffered-InOrder_example =
    read_buffered-InOrder 2 two_served (omega arith, omega arith, omega arith)

-- A header that came half, a chunk of two bytes cut in the middle, and the end of the packet.
abbrev half_header : StreamWrapper
half_header = record {
  inner = arrives (0 ∷ 0 ∷ 5 ∷ []) ∷ waits ∷ arrives (6 ∷ 0 ∷ 0 ∷ []) ∷ arrives (0 ∷ 0 ∷ []) ∷ [];
  chunk = [];
  chunk_pos = 0;
  chunk_fill = 0;
  len_buf = 2 ∷ 0 ∷ 9 ∷ 9 ∷ [];
  len_pos = 2;
  rd_buf = 0 ∷ [];
  rd_pos = 0;
  rd_fill = 0;
}

two_bytes-Framed : Framed (2 ∷ 0 ∷ 0 ∷ 0 ∷ 5 ∷ 6 ∷ 0 ∷ 0 ∷ 0 ∷ 0 ∷ []) (5 ∷ 6 ∷ [])
unfolding to_le_bytes
two_bytes-Framed = chunk (5 ∷ 6 ∷ []) (boundary ends refl) (omega arith) (omega arith) refl refl

half_header-Stands : Stands (5 ∷ 6 ∷ []) half_header
half_header-Stands = inl (record {
  no_chunk = refl;
  pos_zero = refl;
  fill_zero = refl;
  four = refl;
  within = omega arith;
  framed = two_bytes-Framed;
})

waits_inside : (poll_read_framed 8 half_header).0 ≡ pending
unfolding poll_read_framed poll_loop receive clear_used read_len read_payload start_chunk then_step
    after_read after_receive serve_chunk poll_inner_read from_le_bytes
waits_inside = refl

goes_on : (poll_read_framed 8 (poll_read_framed 8 half_header).1).0 ≡ ready (ok (5 ∷ []))
unfolding poll_read_framed poll_loop receive clear_used read_len read_payload start_chunk then_step
    after_read after_receive serve_chunk poll_inner_read from_le_bytes
goes_on = refl

poll_read_framed-InOrder_example :
    Framed_order.InOrder 8 (5 ∷ 6 ∷ []) (poll_read_framed 8 half_header)
poll_read_framed-InOrder_example =
    poll_read_framed-InOrder 8 half_header (5 ∷ 6 ∷ []) half_header-Stands
