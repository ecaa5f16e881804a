-- ===== src/Stream/Raw/InOrder.antt =====
-- Every poll hands out the next bytes of the stream, and none is lost, repeated or made up.
use st_clickhouse_lib.Common.{
  ℕ, suc, ◌+◌, ◌-◌, ◌≤◌, ◌<◌, ◌≡◌, ◌⊎◌, inl, inr, refl, sym, ap, ap₂, ◌∙◌, List, [], ◌∷◌, ◌++◌,
  append_assoc, Bool-cases, true, false, ltb, leb, ◌==◌, ltb→lt, ltb→ge, lt→ltb, ◌&&◌, ok, err, min,
  length, length-append, take, drop, take-append, take_split, drop-drop, length-take, length-drop,
  arith,
}
use st_clickhouse_lib.Stream.Socket.{
  Event, Poll, pending, ready, stuck, poll_inner_read, arrivals, AtEnd, Polled,
  poll_inner_read-Polled, StreamWrapper,
}
use st_clickhouse_lib.Stream.Raw.{
  serve_window, filled_window, after_prefetch, window_loop, read_buffered,
}

-- The bytes read ahead and not yet served.
abbrev pub window : StreamWrapper → List ℕ
window s = take (s.rd_fill - s.rd_pos) (drop s.rd_pos s.rd_buf)

-- What the parsers are still to see.
abbrev pub remaining : StreamWrapper → List ℕ
remaining s = window s ++ arrivals s.inner

abbrev pub IsWindow : StreamWrapper → Type 0
IsWindow s = (s.rd_pos ≤ s.rd_fill) × (s.rd_fill ≤ length s.rd_buf) × (0 < length s.rd_buf)

-- What a poll did to the stream.
abbrev pub InOrder : ℕ → StreamWrapper → Poll × StreamWrapper → Type 0
InOrder room s (pending, next) = (remaining next ≡ remaining s) × IsWindow next
InOrder room s (stuck, next) = ⊥
InOrder room s (ready (err e), next) = (remaining next ≡ remaining s) × IsWindow next
InOrder room s (ready (ok bs), next) =
    (remaining s ≡ bs ++ remaining next)
    × (length bs ≤ room)
    × (0 < room → (0 < length bs) ⊎ AtEnd s.inner)
    × IsWindow next

window_split :
    (n : ℕ) (s : StreamWrapper)
    → n ≤ s.rd_fill - s.rd_pos
    → window s ≡ take n (drop s.rd_pos s.rd_buf) ++ window (record s { rd_pos = s.rd_pos + n })
window_split n s h =
    take_split n (s.rd_fill - s.rd_pos) (drop s.rd_pos s.rd_buf) h
    ∙ ap (λ x. take n (drop s.rd_pos s.rd_buf) ++ x)
        (ap₂ take {x = s.rd_fill - s.rd_pos - n} {y = s.rd_fill - (s.rd_pos + n)} (omega arith)
          (sym (drop-drop s.rd_pos n s.rd_buf)))

-- A window that is not used up is served to a reader that stands at the same place.
serve_window-InOrder :
    (room : ℕ) (before s : StreamWrapper)
    → remaining before ≡ remaining s
    → IsWindow s
    → s.rd_pos < s.rd_fill
    → InOrder room before (serve_window room s)
unfolding serve_window
serve_window-InOrder room before s e (a, b, c) left = (
  e
      ∙ ap (λ x. x ++ arrivals s.inner) (window_split n s (omega arith))
      ∙ append_assoc (take n (drop s.rd_pos s.rd_buf)) (window (record s { rd_pos = s.rd_pos + n }))
          (arrivals s.inner),
  omega (arith, length-take n (drop s.rd_pos s.rd_buf)),
  λ h. inl (omega (arith, length-take n (drop s.rd_pos s.rd_buf), length-drop s.rd_pos s.rd_buf)),
  (omega arith, b, c),
)
  where
    n : ℕ
    n = min room (s.rd_fill - s.rd_pos)

filled_window_lem :
    (s : StreamWrapper) (bytes : List ℕ) (later : List Event)
    → length bytes ≤ length s.rd_buf
    → IsWindow s
    → (remaining (filled_window s bytes later) ≡ bytes ++ arrivals later)
      × IsWindow (filled_window s bytes later)
unfolding filled_window
filled_window_lem s bytes later h (a, b, c) =
    let kept = length-append bytes (drop (length bytes) s.rd_buf) in
    let rest = length-drop (length bytes) s.rd_buf in
    (
      ap (λ m. take m (bytes ++ drop (length bytes) s.rd_buf) ++ arrivals later)
            {x = length bytes - 0} {y = length bytes} (omega arith)
          ∙ ap (λ x. x ++ arrivals later) (take-append bytes (drop (length bytes) s.rd_buf)),
      (omega arith, omega (arith, kept, rest), omega (arith, kept, rest)),
    )

-- With the window used up, what remains is in the socket.
used_up : (s : StreamWrapper) → s.rd_fill ≤ s.rd_pos → remaining s ≡ arrivals s.inner
used_up s h =
    ap (λ m. take m (drop s.rd_pos s.rd_buf) ++ arrivals s.inner) {x = s.rd_fill - s.rd_pos} {y = 0}
      (omega arith)

-- A poll that brought nothing leaves the window alone.
socket_only :
    (s : StreamWrapper) (later : List Event)
    → arrivals later ≡ arrivals s.inner
    → remaining (record s { inner = later }) ≡ remaining s
socket_only s later e = ap (λ x. window s ++ x) e

pos_of :
    (s : StreamWrapper) (bytes : List ℕ) (later : List Event)
    → 0 < length bytes
    → (filled_window s bytes later).rd_pos < (filled_window s bytes later).rd_fill
unfolding filled_window
pos_of s bytes later h = h

module _ (room : ℕ) (s : StreamWrapper) (ok_window : IsWindow s) (used : s.rd_fill ≤ s.rd_pos) where
  -- The next round sees the window that was filled, and a round serves a window that is not used up.
  after_prefetch-InOrder :
      (again : StreamWrapper → Poll × StreamWrapper) (polled : Poll × List Event)
      → ((t : StreamWrapper) → IsWindow t → t.rd_pos < t.rd_fill → again t ≡ serve_window room t)
      → Polled (length s.rd_buf) s.inner polled
      → InOrder room s (after_prefetch again s polled)
  unfolding after_prefetch
  after_prefetch-InOrder again (pending, later) serves e = (socket_only s later e, ok_window)
  after_prefetch-InOrder again (stuck, later) serves e = e
  after_prefetch-InOrder again (ready (err x), later) serves e = (socket_only s later e, ok_window)
  after_prefetch-InOrder again (ready (ok []), later) serves (e, f, g) =
      let (same, kept) = filled_window_lem s [] later f ok_window in
      (used_up s used ∙ e ∙ sym same, omega arith, λ h. g ok_window.2, kept)
  after_prefetch-InOrder again (ready (ok (b ∷ bs)), later) serves (e, f, g) =
      let (same, kept) = filled_window_lem s (b ∷ bs) later f ok_window in
      let next = filled_window s (b ∷ bs) later in
      rw (serves next kept (pos_of s (b ∷ bs) later (omega arith))) (
        serve_window-InOrder room s next (used_up s used ∙ e ∙ sym same) kept
          (pos_of s (b ∷ bs) later (omega arith)))

-- A round with the window used up.
loop_prefetch :
    (rounds room : ℕ) (s : StreamWrapper)
    → ltb s.rd_pos s.rd_fill ≡ false
    → window_loop (suc rounds) room s
      ≡ after_prefetch (window_loop rounds room) s (poll_inner_read (length s.rd_buf) s.inner)
loop_prefetch rounds room s e =
    unfold window_loop in
    ap
      (λ x. elim x [
        | true ↦ serve_window room s
        | false ↦
            after_prefetch (window_loop rounds room) s (poll_inner_read (length s.rd_buf) s.inner)
      ])
      e

loop_serve :
    (rounds room : ℕ) (s : StreamWrapper)
    → s.rd_pos < s.rd_fill
    → window_loop (suc rounds) room s ≡ serve_window room s
loop_serve rounds room s h =
    unfold window_loop in
    ap
      (λ x. elim x [
        | true ↦ serve_window room s
        | false ↦
            after_prefetch (window_loop rounds room) s (poll_inner_read (length s.rd_buf) s.inner)
      ])
      (lt→ltb s.rd_pos s.rd_fill h)

window_loop-InOrder :
    (room : ℕ) (s : StreamWrapper) → IsWindow s → InOrder room s (window_loop 2 room s)
window_loop-InOrder room s w = elim (Bool-cases (ltb s.rd_pos s.rd_fill)) [
  | inl left ↦
      let h = ltb→lt s.rd_pos s.rd_fill left in
      rw (loop_serve 1 room s h) (serve_window-InOrder room s s refl w h)
  | inr used ↦ rw (loop_prefetch 1 room s used) (
      after_prefetch-InOrder room s w (ltb→ge s.rd_pos s.rd_fill used) (window_loop 1 room)
        (poll_inner_read (length s.rd_buf) s.inner) (λ t k h. loop_serve 0 room t h)
        (poll_inner_read-Polled (length s.rd_buf) s.inner))
]

-- A poll that goes to the socket directly.
direct-InOrder :
    (room : ℕ) (s : StreamWrapper) (polled : Poll × List Event)
    → IsWindow s
    → s.rd_fill ≤ s.rd_pos
    → Polled room s.inner polled
    → InOrder room s (polled.0, record s { inner = polled.1 })
direct-InOrder room s (pending, later) w used e = (socket_only s later e, w)
direct-InOrder room s (stuck, later) w used e = e
direct-InOrder room s (ready (err x), later) w used e = (socket_only s later e, w)
direct-InOrder room s (ready (ok bs), later) w used (e, f, g) = (
  used_up s used ∙ e ∙ ap (λ x. bs ++ x) (sym (used_up (record s { inner = later }) used)),
  f,
  g,
  w,
)

-- One poll of a raw transport, with any room and whatever the socket does: where it returns bytes,
-- they are the next bytes of the stream, at most as many as there is room for, and none only where
-- there is no room or the socket is at its end; where it is pending or fails, the stream is where it
-- was. The read ahead stays inside its window, and the loop ends.
pub read_buffered-InOrder :
    (room : ℕ) (s : StreamWrapper) → IsWindow s → InOrder room s (read_buffered room s)
unfolding read_buffered
read_buffered-InOrder room s w =
    elim (Bool-cases ((s.rd_pos == s.rd_fill) && leb (length s.rd_buf) room)) [
      | inl direct ↦ rw direct (
          direct-InOrder room s (poll_inner_read room s.inner) w (ground (arith, direct))
            (poll_inner_read-Polled room s.inner))
      | inr windowed ↦ rw windowed (window_loop-InOrder room s w)
    ]
