-- ===== src/Stream/Framed/InOrder.antt =====
-- Every poll of a chunked transport hands out the next bytes of the payload.
use st_clickhouse_lib.Common.{
  ℕ, suc, ◌+◌, ◌-◌, ◌≤◌, ◌<◌, ◌≡◌, ◌⊎◌, inl, inr, refl, sym, ap, ap₂, ◌∙◌, List, ◌++◌, append_assoc,
  lt→ltb, ge→ltb, true, false, ◌==◌, ok, err, min, length, take, drop, take-append-drop,
  take-drop-take, drop-drop, length-take, length-drop, arith,
}
use st_clickhouse_lib.Stream.Socket.{Poll, pending, ready, stuck, StreamWrapper}
use st_clickhouse_lib.Stream.Framed.{
  Step, goes, stops, read_len, read_payload, start_chunk, clear_used, then_step, receive,
  serve_chunk, after_receive, poll_loop,
}
use st_clickhouse_lib.Stream.Framed.Parts.{Between, Inside, Keeps}
use st_clickhouse_lib.Stream.Framed.Loops.{
  ahead, Headed, read_len-Keeps, payload_done, Complete, read_payload-Keeps,
}
use st_clickhouse_lib.Stream.Framed.Start.{AtBoundary, AtStart, start_chunk-Starts}

-- The wrapper stands for the payload.
abbrev pub Stands : List ℕ → StreamWrapper → Type 0
Stands payload s = Between s payload ⊎ Inside s payload

-- What a poll did to the payload.
abbrev pub InOrder : ℕ → List ℕ → Poll × StreamWrapper → Type 0
InOrder room payload (pending, next) = Stands payload next
InOrder room payload (stuck, next) = ⊥
InOrder room payload (ready (err e), next) = Stands payload next
InOrder room payload (ready (ok bs), next) =
    (rest : List ℕ) × (payload ≡ bs ++ rest)
    × (length bs ≤ room)
    × (0 < room → 0 < length bs)
    × Stands rest next

-- The part of a chunk that is served, and what is left of it.
served_parts :
    (n pos fill : ℕ) (chunk : List ℕ)
    → pos + n ≤ fill
    → fill ≤ length chunk
    → drop pos (take fill chunk) ≡ take n (drop pos chunk) ++ drop (pos + n) (take fill chunk)
served_parts n pos fill chunk h k =
    sym (take-append-drop n (drop pos (take fill chunk)))
    ∙ ap₂ (λ x y. x ++ y) (take-drop-take fill pos n chunk h k)
        (sym (drop-drop pos n (take fill chunk)))

pub serve_chunk-InOrder :
    (room : ℕ) (s : StreamWrapper) (payload : List ℕ)
    → Inside s payload
    → s.chunk_pos < s.chunk_fill
    → InOrder room payload (serve_chunk room s)
unfolding serve_chunk
serve_chunk-InOrder room s payload h left =
    let n = min room (s.chunk_fill - s.chunk_pos) in
    let rest = drop (s.chunk_pos + n) (take s.chunk_fill s.chunk) in
    let size = h.size in
    (
      rest ++ (h.missing ++ h.later),
      h.parts
          ∙ ap (λ x. x ++ (h.missing ++ h.later))
              (served_parts n s.chunk_pos s.chunk_fill s.chunk (omega arith) (omega arith))
          ∙ append_assoc (take n (drop s.chunk_pos s.chunk)) rest (h.missing ++ h.later),
      omega (arith, length-take n (drop s.chunk_pos s.chunk)),
      λ some.
          omega (arith, length-take n (drop s.chunk_pos s.chunk), length-drop s.chunk_pos s.chunk),
      inr (record {
        missing = h.missing;
        wire = h.wire;
        later = h.later;
        comes = h.comes;
        size = size;
        some_size = h.some_size;
        order = omega arith;
        no_len = h.no_len;
        four = h.four;
        framed = h.framed;
        parts = refl;
      }),
    )

pub loop_serve :
    (rounds room : ℕ) (s : StreamWrapper)
    → s.chunk_pos < s.chunk_fill
    → poll_loop (suc rounds) room s ≡ serve_chunk room s
loop_serve rounds room s h =
    unfold poll_loop in
    ap
      (λ x. elim x [
        | true ↦ serve_chunk room s
        | false ↦ after_receive (poll_loop rounds room) (receive (clear_used s))
      ])
      (lt→ltb s.chunk_pos s.chunk_fill h)

pub loop_receive :
    (rounds room : ℕ) (s : StreamWrapper)
    → s.chunk_fill ≤ s.chunk_pos
    → poll_loop (suc rounds) room s ≡ after_receive (poll_loop rounds room) (receive (clear_used s))
loop_receive rounds room s h =
    unfold poll_loop in
    ap
      (λ x. elim x [
        | true ↦ serve_chunk room s
        | false ↦ after_receive (poll_loop rounds room) (receive (clear_used s))
      ])
      (ge→ltb s.chunk_pos s.chunk_fill h)

pub Keeps-weaker :
    (P P' Q : StreamWrapper → Type 0) (x : Step)
    → ((t : StreamWrapper) → P t → P' t)
    → Keeps P Q x
    → Keeps P' Q x
Keeps-weaker P P' Q (goes s) f k = k
Keeps-weaker P P' Q (stops pending s) f k = f s k
Keeps-weaker P P' Q (stops stuck s) f k = k
Keeps-weaker P P' Q (stops (ready (err e)) s) f k = f s k
Keeps-weaker P P' Q (stops (ready (ok bs)) s) f k = k

then_step-Keeps :
    (P Q Q' : StreamWrapper → Type 0) (x : Step) (f : StreamWrapper → Step)
    → Keeps P Q x
    → ((t : StreamWrapper) → Q t → Keeps P Q' (f t))
    → Keeps P Q' (then_step x f)
unfolding then_step
then_step-Keeps P Q Q' (goes s) f k g = g s k
then_step-Keeps P Q Q' (stops pending s) f k g = k
then_step-Keeps P Q Q' (stops stuck s) f k g = k
then_step-Keeps P Q Q' (stops (ready (err e)) s) f k g = k
then_step-Keeps P Q Q' (stops (ready (ok bs)) s) f k g = k

pub after_receive-InOrder :
    (Q : StreamWrapper → Type 0) (room : ℕ) (payload : List ℕ)
    (again : StreamWrapper → Poll × StreamWrapper) (x : Step)
    → Keeps (Stands payload) Q x
    → ((t : StreamWrapper) → Q t → InOrder room payload (again t))
    → InOrder room payload (after_receive again x)
unfolding after_receive
after_receive-InOrder Q room payload again (goes s) k g = g s k
after_receive-InOrder Q room payload again (stops pending s) k g = k
after_receive-InOrder Q room payload again (stops stuck s) k g = k
after_receive-InOrder Q room payload again (stops (ready (err e)) s) k g = k
after_receive-InOrder Q room payload again (stops (ready (ok bs)) s) k g = absurd k

-- What a round that starts between chunks goes on with.
abbrev pub Next : List ℕ → ℕ → StreamWrapper → Type 0
Next payload m t = AtBoundary payload m t ⊎ Complete payload 0 t

payload_Next :
    (payload : List ℕ) (m : ℕ) (t : StreamWrapper)
    → AtBoundary payload m t ⊎ AtStart payload t
    → Keeps (Stands payload) (Next payload m) (read_payload (suc (length t.chunk)) t)
payload_Next payload m t (inl b) =
    rw
      (payload_done (length t.chunk) t
        (ge→ltb t.chunk_fill (length t.chunk) (omega (arith, ap length b.between.no_chunk))))
      (inl b)
payload_Next payload m t (inr a) =
    Keeps-goes (Complete payload 0) (Next payload m) _ (λ u c. inr c)
      (Keeps-weaker (λ u. Inside u payload) (Stands payload) (Complete payload 0) _ (λ u i. inr i)
        (read_payload-Keeps payload (suc (length t.chunk)) 0 t a.inside a.pos_zero
          a.inside.some_size (omega arith)))
  where
    Keeps-goes :
        (Q Q' : StreamWrapper → Type 0) (x : Step)
        → ((u : StreamWrapper) → Q u → Q' u)
        → Keeps (Stands payload) Q x
        → Keeps (Stands payload) Q' x
    Keeps-goes Q Q' (goes s) f k = f s k
    Keeps-goes Q Q' (stops pending s) f k = k
    Keeps-goes Q Q' (stops stuck s) f k = k
    Keeps-goes Q Q' (stops (ready (err e)) s) f k = k
    Keeps-goes Q Q' (stops (ready (ok bs)) s) f k = k

pub no_chunk_test :
    (s : StreamWrapper) (payload : List ℕ) → Between s payload → (length s.chunk == 0) ≡ true
no_chunk_test s payload h = ap (λ c. length c == 0) h.no_chunk

pub receive-Between :
    (s : StreamWrapper) (payload : List ℕ)
    → Between s payload
    → Keeps (Stands payload) (Next payload (ahead s)) (receive s)
unfolding receive
receive-Between s payload h = rw (no_chunk_test s payload h) (
    then_step-Keeps (Stands payload) (λ t. AtBoundary payload (ahead s) t ⊎ AtStart payload t)
      (Next payload (ahead s)) _ _
      (then_step-Keeps (Stands payload) (Headed payload (ahead s))
        (λ t. AtBoundary payload (ahead s) t ⊎ AtStart payload t) (read_len 5 s) start_chunk
        (Keeps-weaker (λ t. Between t payload) (Stands payload) (Headed payload (ahead s)) _
          (λ t b. inl b) (read_len-Keeps payload 5 (ahead s) s h refl (omega arith)))
        (λ t b. let (u, e, r) = start_chunk-Starts payload (ahead s) t b in rw e r))
      (λ t q. payload_Next payload (ahead s) t q))
