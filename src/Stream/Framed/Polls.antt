-- ===== src/Stream/Framed/Polls.antt =====
-- The rounds of a poll, from either place where a chunked transport can stand.
use st_clickhouse_lib.Common.{
  ℕ, zero, suc, ◌+◌, ◌≤◌, ◌<◌, ◌≡◌, inl, inr, refl, sym, ap, ap₂, subst, ◌∙◌, List, [], ◌++◌, ne→==,
  ==_refl, Bool-cases, true, ltb, ◌==◌, ltb→lt, ltb→ge, length, take, drop_all, length-take, arith,
}
use st_clickhouse_lib.Chunked.Framing.{Framed}
use st_clickhouse_lib.Stream.Socket.{arrivals, StreamWrapper}
use st_clickhouse_lib.Stream.Framed.{
  read_payload, clear_used, then_step, receive, after_receive, poll_loop, poll_read_framed,
}
use st_clickhouse_lib.Stream.Framed.Parts.{Between, Inside}
use st_clickhouse_lib.Stream.Framed.Loops.{ahead, Complete, read_payload-Keeps}
use st_clickhouse_lib.Stream.Framed.InOrder.{
  Stands, InOrder, serve_chunk-InOrder, loop_serve, loop_receive, Keeps-weaker,
  after_receive-InOrder, Next, no_chunk_test, receive-Between,
}

-- What the loop answers with `k` rounds to a wrapper that stands between chunks.
abbrev Loops : ℕ → ℕ → Type 0
Loops room k =
    (s : StreamWrapper) (payload : List ℕ)
    → Between s payload
    → ahead s + 2 < k
    → InOrder room payload (poll_loop k room s)

Complete-served :
    (room k : ℕ) (payload : List ℕ) (pos : ℕ) (t : StreamWrapper)
    → 0 < k
    → Complete payload pos t
    → pos < length t.chunk
    → InOrder room payload (poll_loop k room t)
Complete-served room zero payload pos t z c h = absurd (omega arith)
Complete-served room (suc k) payload pos t z c h =
    let full = c.full in
    let at = c.at in
    rw (loop_serve k room t (omega arith))
      (serve_chunk-InOrder room t payload c.inside (omega arith))

Between-round :
    (room k : ℕ) (u : StreamWrapper) (payload : List ℕ)
    → Between u payload
    → ahead u + 2 < suc k
    → Loops room k
    → InOrder room payload (after_receive (poll_loop k room) (receive u))
Between-round room k u payload h enough loops =
    after_receive-InOrder (Next payload (ahead u)) room payload (poll_loop k room) (receive u)
      (receive-Between u payload h)
      λ t q. elim q [
        | inl b ↦ loops t payload b.between (omega (arith, b.less))
        | inr c ↦ Complete-served room k payload 0 t (omega arith) c c.inside.some_size
      ]

clear-Between : (s : StreamWrapper) (payload : List ℕ) → Between s payload → clear_used s ≡ s
unfolding clear_used
clear-Between s payload h = rw (no_chunk_test s payload h) refl

Loops-all : (room k : ℕ) → Loops room k
Loops-all room zero s payload h enough = absurd (omega arith)
Loops-all room (suc k) s payload h enough =
    rw (loop_receive k room s (omega (arith, h.fill_zero)), clear-Between s payload h)
      (Between-round room k s payload h enough (Loops-all room k))

-- A chunk that is in progress, with nothing of it left to serve.
clear-Inside :
    (s : StreamWrapper) (payload : List ℕ)
    → Inside s payload
    → s.chunk_fill < length s.chunk
    → clear_used s ≡ s
unfolding clear_used
clear-Inside s payload h more = ground arith

clear_complete :
    (s : StreamWrapper) (payload : List ℕ)
    → Inside s payload
    → s.chunk_fill ≡ length s.chunk
    → clear_used s ≡ record s { chunk = []; chunk_pos = 0; chunk_fill = 0 }
unfolding clear_used
clear_complete s payload h full =
    let same : (s.chunk_fill == length s.chunk) ≡ true =
      ap (λ x. x == length s.chunk) full ∙ ==_refl (length s.chunk) in
    rw (ne→== (length s.chunk) 0 (omega (arith, h.some_size)), same) refl

cleared_Between :
    (s : StreamWrapper) (payload : List ℕ)
    → Inside s payload
    → s.chunk_fill ≡ length s.chunk
    → s.chunk_fill ≤ s.chunk_pos
    → Between (record s { chunk = []; chunk_pos = 0; chunk_fill = 0 }) payload
cleared_Between s payload h full used =
    let nothing : h.missing ≡ [] = drop_all 0 h.missing (omega (arith, h.size)) in
    let done =
      h.parts
      ∙ ap₂ (λ x y. x ++ (y ++ h.later))
          (drop_all s.chunk_pos (take s.chunk_fill s.chunk)
            (omega (arith, length-take s.chunk_fill s.chunk)))
          nothing in
    let ahead_of =
      ap₂ (λ x y. take x s.len_buf ++ y) h.no_len (h.comes ∙ ap (λ x. x ++ h.wire) nothing) in
    record {
      no_chunk = refl;
      pos_zero = refl;
      fill_zero = refl;
      four = h.four;
      within = omega (arith, h.no_len);
      framed =
          subst (λ x. Framed x payload) (sym ahead_of) (subst (Framed h.wire) (sym done) h.framed);
    }

receive-Inside :
    (s : StreamWrapper) (payload : List ℕ)
    → Inside s payload
    → receive s ≡ read_payload (suc (length s.chunk)) s
unfolding receive then_step
receive-Inside s payload h = rw (ne→== (length s.chunk) 0 (omega (arith, h.some_size))) refl

Inside-round :
    (room k : ℕ) (s : StreamWrapper) (payload : List ℕ)
    → Inside s payload
    → 0 < k
    → ahead s + 2 < suc k
    → InOrder room payload (poll_loop (suc k) room s)
Inside-round room k s payload h z enough = elim (Bool-cases (ltb s.chunk_pos s.chunk_fill)) [
  | inl left ↦
      let some = ltb→lt s.chunk_pos s.chunk_fill left in
      rw (loop_serve k room s some) (serve_chunk-InOrder room s payload h some)
  | inr used ↦
      let none_left = ltb→ge s.chunk_pos s.chunk_fill used in
      rw (loop_receive k room s none_left) (elim (Bool-cases (ltb s.chunk_fill (length s.chunk))) [
        | inl more ↦
            let m = ltb→lt s.chunk_fill (length s.chunk) more in
            rw (clear-Inside s payload h m, receive-Inside s payload h)
              (after_receive-InOrder (Complete payload s.chunk_pos) room payload (poll_loop k room)
                _
                (Keeps-weaker (λ u. Inside u payload) (Stands payload)
                  (Complete payload s.chunk_pos) _ (λ u i. inr i)
                  (read_payload-Keeps payload (suc (length s.chunk)) s.chunk_pos s h refl
                    (omega arith) (omega arith)))
                (λ t c. Complete-served room k payload s.chunk_pos t z c c.longer))
        | inr all ↦
            let full : s.chunk_fill ≡ length s.chunk =
              omega (arith, h.size, ltb→ge s.chunk_fill (length s.chunk) all) in
            rw (clear_complete s payload h full) (
              Between-round room k (record s { chunk = []; chunk_pos = 0; chunk_fill = 0 }) payload
                (cleared_Between s payload h full none_left) enough (Loops-all room k))
      ])
]

-- One poll of a chunked transport whose socket brings frames of the payload, however they are cut
-- into parts: where it returns bytes, they are the next bytes of the payload, at most as many as
-- there is room for, and at least one where there is room; where it is pending or fails, nothing of
-- the payload is lost, and the next poll goes on in the middle of the header or chunk. It always
-- returns.
pub poll_read_framed-InOrder :
    (room : ℕ) (s : StreamWrapper) (payload : List ℕ)
    → Stands payload s
    → InOrder room payload (poll_read_framed room s)
unfolding poll_read_framed
poll_read_framed-InOrder room s payload h = rounds h
  where
    more : length (arrivals s.inner) + 7 ≡ suc (length (arrivals s.inner) + 6)
    more = omega arith

    rounds :
        Stands payload s → InOrder room payload (poll_loop (length (arrivals s.inner) + 7) room s)
    rounds (inl b) =
        Loops-all room (length (arrivals s.inner) + 7) s payload b (omega (arith, b.within))
    rounds (inr i) =
        subst (λ k. InOrder room payload (poll_loop k room s)) (sym more)
          (Inside-round room (length (arrivals s.inner) + 6) s payload i (omega arith)
            (omega (arith, i.no_len)))
