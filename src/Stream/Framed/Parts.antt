-- ===== src/Stream/Framed/Parts.antt =====
-- The two places where a chunked transport can stand, and how the inner loops keep them.
use st_clickhouse_lib.Common.{
  ℕ, ◌+◌, ◌-◌, ◌≤◌, ◌<◌, ◌≡◌, refl, sym, ap, ap₂, subst, ◌∙◌, List, [], ◌∷◌, ◌++◌, append_assoc, ok,
  err, length, length-append, take, drop, take_first, length-take, length-drop, arith,
}
use st_clickhouse_lib.Chunked.Framing.{Framed}
use st_clickhouse_lib.Stream.Socket.{
  Event, Poll, pending, ready, stuck, arrivals, Polled, StreamWrapper,
}
use st_clickhouse_lib.Stream.Framed.{Step, goes, stops, written, after_read, store_len}

pub take-written :
    (buf bs : List ℕ) (pos : ℕ)
    → pos ≤ length buf
    → take (pos + length bs) (written buf pos bs) ≡ take pos buf ++ bs
take-written buf bs pos h =
    ap (take (pos + length bs)) (sym (append_assoc (take pos buf) bs (drop (pos + length bs) buf)))
    ∙ take_first (pos + length bs) (take pos buf ++ bs) (drop (pos + length bs) buf)
        (omega (arith, length-append (take pos buf) bs, length-take pos buf))

pub length-written :
    (buf bs : List ℕ) (pos : ℕ)
    → pos + length bs ≤ length buf
    → length (written buf pos bs) ≡ length buf
length-written buf bs pos h = omega (
  arith,
  length-append (take pos buf) (bs ++ drop (pos + length bs) buf),
  length-append bs (drop (pos + length bs) buf),
  length-take pos buf,
  length-drop (pos + length bs) buf,
)

-- Between chunks: the bytes of the next length that came, and the socket's, frame the payload.
pub record Between (s : StreamWrapper) (payload : List ℕ) : Type 0 where
  pub no_chunk : s.chunk ≡ []
  pub pos_zero : s.chunk_pos ≡ 0
  pub fill_zero : s.chunk_fill ≡ 0
  pub four : length s.len_buf ≡ 4
  pub within : s.len_pos ≤ 4
  pub framed : Framed (take s.len_pos s.len_buf ++ arrivals s.inner) payload

-- Inside a chunk: what came of it and was not served, what is missing of it, and the chunks behind.
pub record Inside (s : StreamWrapper) (payload : List ℕ) : Type 0 where
  pub missing : List ℕ
  pub wire : List ℕ
  pub later : List ℕ
  pub comes : arrivals s.inner ≡ missing ++ wire
  pub size : length s.chunk ≡ s.chunk_fill + length missing
  pub some_size : 0 < length s.chunk
  pub order : s.chunk_pos ≤ s.chunk_fill
  pub no_len : s.len_pos ≡ 0
  pub four : length s.len_buf ≡ 4
  pub framed : Framed wire later
  pub parts : payload ≡ drop s.chunk_pos (take s.chunk_fill s.chunk) ++ (missing ++ later)

-- What an inner loop returns: it goes on in `Q`, or it stops with the payload kept in `P`.
abbrev pub Keeps : (StreamWrapper → Type 0) → (StreamWrapper → Type 0) → Step → Type 0
Keeps P Q (goes s) = Q s
Keeps P Q (stops pending s) = P s
Keeps P Q (stops stuck s) = ⊥
Keeps P Q (stops (ready (err e)) s) = P s
Keeps P Q (stops (ready (ok bs)) s) = ⊥

-- One read of an inner loop.
pub after_read-Keeps :
    (P Q : StreamWrapper → Type 0) (stores : StreamWrapper → List ℕ → StreamWrapper)
    (again : StreamWrapper → Step) (room : ℕ) (s : StreamWrapper) (polled : Poll × List Event)
    → Polled room s.inner polled
    → ((later : List Event) → arrivals later ≡ arrivals s.inner → P (record s { inner = later }))
    → ((b : ℕ) (bs : List ℕ) (later : List Event)
        → arrivals s.inner ≡ (b ∷ bs) ++ arrivals later
        → length (b ∷ bs) ≤ room
        → Keeps P Q (again (stores (record s { inner = later }) (b ∷ bs))))
    → Keeps P Q (after_read stores again s polled)
unfolding after_read
after_read-Keeps P Q stores again room s (pending, later) e keep more = keep later e
after_read-Keeps P Q stores again room s (stuck, later) e keep more = e
after_read-Keeps P Q stores again room s (ready (err x), later) e keep more = keep later e
after_read-Keeps P Q stores again room s (ready (ok []), later) (e, f, g) keep more =
    keep later (sym e)
after_read-Keeps P Q stores again room s (ready (ok (b ∷ bs)), later) (e, f, g) keep more =
    more b bs later e f

pub Between-moved :
    (s : StreamWrapper) (payload : List ℕ) (later : List Event)
    → Between s payload
    → arrivals later ≡ arrivals s.inner
    → Between (record s { inner = later }) payload
Between-moved s payload later h e = record {
  no_chunk = h.no_chunk;
  pos_zero = h.pos_zero;
  fill_zero = h.fill_zero;
  four = h.four;
  within = h.within;
  framed = subst (λ x. Framed (take s.len_pos s.len_buf ++ x) payload) (sym e) h.framed;
}

pub Between-stored :
    (s : StreamWrapper) (payload bs : List ℕ) (later : List Event)
    → Between s payload
    → arrivals s.inner ≡ bs ++ arrivals later
    → length bs ≤ length s.len_buf - s.len_pos
    → Between (store_len (record s { inner = later }) bs) payload
Between-stored s payload bs later h e f =
    let four = h.four in
    let within = h.within in
    record {
      no_chunk = h.no_chunk;
      pos_zero = h.pos_zero;
      fill_zero = h.fill_zero;
      four = length-written s.len_buf bs s.len_pos (omega arith) ∙ four;
      within = omega arith;
      framed =
          subst (λ x. Framed x payload)
            (ap (λ x. take s.len_pos s.len_buf ++ x) e
              ∙ sym (append_assoc (take s.len_pos s.len_buf) bs (arrivals later))
              ∙ ap (λ x. x ++ arrivals later)
                  (sym (take-written s.len_buf bs s.len_pos (omega arith))))
            h.framed;
    }

-- The payload's first part, on either side of a read.
pub append_splits :
    (xs ys zs ws : List ℕ)
    → xs ++ ys ≡ zs ++ ws
    → length zs ≤ length xs
    → (xs ≡ zs ++ drop (length zs) xs) × (ws ≡ drop (length zs) xs ++ ys)
append_splits xs ys [] ws e h = (refl, sym e)
append_splits [] ys (z ∷ zs) ws e h = elim h [ ]
append_splits (x ∷ xs) ys (z ∷ zs) ws e h =
    let head : x ≡ z = cc in
    let tail : xs ++ ys ≡ zs ++ ws = cc in
    let (a, b) = append_splits xs ys zs ws tail (omega arith) in (ap₂ (λ p q. p ∷ q) head a, b)
