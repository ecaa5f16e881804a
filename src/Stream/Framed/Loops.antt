-- ===== src/Stream/Framed/Loops.antt =====
-- The loops over a length and over a payload, with enough rounds.
use st_clickhouse_lib.Common.{
  ℕ, zero, suc, ◌+◌, ◌-◌, ◌≤◌, ◌<◌, ◌≡◌, inl, inr, sym, ap, ◌∙◌, List, ◌∷◌, ◌++◌, append_assoc,
  Bool-cases, true, false, ltb, ltb→lt, ltb→ge, length, length-append, take, drop, drop-append_le,
  length-take, length-drop, arith,
}
use st_clickhouse_lib.Stream.Socket.{
  Event, poll_inner_read, arrivals, poll_inner_read-Polled, StreamWrapper,
}
use st_clickhouse_lib.Stream.Framed.{
  goes, written, after_read, store_len, store_chunk, read_len, read_payload,
}
use st_clickhouse_lib.Stream.Framed.Parts.{
  take-written, length-written, Between, Inside, Keeps, after_read-Keeps, Between-moved,
  Between-stored, append_splits,
}

-- The bytes of the stream that are not part of a chunk in progress.
abbrev pub ahead : StreamWrapper → ℕ
ahead s = s.len_pos + length (arrivals s.inner)

len_more :
    (rounds : ℕ) (s : StreamWrapper)
    → ltb s.len_pos (length s.len_buf) ≡ true
    → read_len (suc rounds) s
      ≡ after_read store_len
          (read_len rounds)
          s
          (poll_inner_read (length s.len_buf - s.len_pos) s.inner)
len_more rounds s e =
    unfold read_len in
    ap
      (λ x. elim x [
        | true ↦
            after_read store_len (read_len rounds) s
              (poll_inner_read (length s.len_buf - s.len_pos) s.inner)
        | false ↦ goes s
      ])
      e

len_done :
    (rounds : ℕ) (s : StreamWrapper)
    → ltb s.len_pos (length s.len_buf) ≡ false
    → read_len (suc rounds) s ≡ goes s
len_done rounds s e =
    unfold read_len in
    ap
      (λ x. elim x [
        | true ↦
            after_read store_len (read_len rounds) s
              (poll_inner_read (length s.len_buf - s.len_pos) s.inner)
        | false ↦ goes s
      ])
      e

-- The length has come.
pub record Headed (payload : List ℕ) (m : ℕ) (s : StreamWrapper) : Type 0 where
  pub between : Between s payload
  pub full : s.len_pos ≡ 4
  pub same : ahead s ≡ m

pub read_len-Keeps :
    (payload : List ℕ) (rounds m : ℕ) (s : StreamWrapper)
    → Between s payload
    → ahead s ≡ m
    → 4 - s.len_pos < rounds
    → Keeps (λ t. Between t payload) (Headed payload m) (read_len rounds s)
read_len-Keeps payload zero m s h e f = absurd (omega arith)
read_len-Keeps payload (suc rounds) m s h e f =
    elim (Bool-cases (ltb s.len_pos (length s.len_buf))) [
      | inl more ↦ rw (len_more rounds s more) (
          after_read-Keeps (λ t. Between t payload) (Headed payload m) store_len (read_len rounds)
            (length s.len_buf - s.len_pos) s _
            (poll_inner_read-Polled (length s.len_buf - s.len_pos) s.inner)
            (λ later k. Between-moved s payload later h k)
            (λ b bs later k l.
              read_len-Keeps payload rounds m (store_len (record s { inner = later }) (b ∷ bs))
                (Between-stored s payload (b ∷ bs) later h k l)
                (omega (arith, ap length k, length-append (b ∷ bs) (arrivals later)))
                (omega (arith, ltb→lt s.len_pos (length s.len_buf) more))))
      | inr all ↦ rw (len_done rounds s all) (record {
        between = h;
        full = omega (arith, h.four, h.within, ltb→ge s.len_pos (length s.len_buf) all);
        same = e;
      })
    ]

payload_more :
    (rounds : ℕ) (s : StreamWrapper)
    → ltb s.chunk_fill (length s.chunk) ≡ true
    → read_payload (suc rounds) s
      ≡ after_read store_chunk
          (read_payload rounds)
          s
          (poll_inner_read (length s.chunk - s.chunk_fill) s.inner)
payload_more rounds s e =
    unfold read_payload in
    ap
      (λ x. elim x [
        | true ↦
            after_read store_chunk (read_payload rounds) s
              (poll_inner_read (length s.chunk - s.chunk_fill) s.inner)
        | false ↦ goes s
      ])
      e

pub payload_done :
    (rounds : ℕ) (s : StreamWrapper)
    → ltb s.chunk_fill (length s.chunk) ≡ false
    → read_payload (suc rounds) s ≡ goes s
payload_done rounds s e =
    unfold read_payload in
    ap
      (λ x. elim x [
        | true ↦
            after_read store_chunk (read_payload rounds) s
              (poll_inner_read (length s.chunk - s.chunk_fill) s.inner)
        | false ↦ goes s
      ])
      e

Inside-moved :
    (s : StreamWrapper) (payload : List ℕ) (later : List Event)
    → Inside s payload
    → arrivals later ≡ arrivals s.inner
    → Inside (record s { inner = later }) payload
Inside-moved s payload later h e = record {
  missing = h.missing;
  wire = h.wire;
  later = h.later;
  comes = e ∙ h.comes;
  size = h.size;
  some_size = h.some_size;
  order = h.order;
  no_len = h.no_len;
  four = h.four;
  framed = h.framed;
  parts = h.parts;
}

-- The bytes that came stand behind those that had come.
received :
    (chunk bs : List ℕ) (pos fill : ℕ)
    → pos ≤ fill
    → fill ≤ length chunk
    → drop pos (take (fill + length bs) (written chunk fill bs)) ≡ drop pos (take fill chunk) ++ bs
received chunk bs pos fill h k =
    ap (drop pos) (take-written chunk bs fill k)
    ∙ drop-append_le pos (take fill chunk) bs (omega (arith, length-take fill chunk))

Inside-stored :
    (s : StreamWrapper) (payload bs : List ℕ) (later : List Event)
    → Inside s payload
    → arrivals s.inner ≡ bs ++ arrivals later
    → length bs ≤ length s.chunk - s.chunk_fill
    → Inside (store_chunk (record s { inner = later }) bs) payload
Inside-stored s payload bs later h e f =
    let size = h.size in
    let order = h.order in
    let some_size = h.some_size in
    let (a, b) =
      append_splits h.missing h.wire bs (arrivals later) (sym h.comes ∙ e) (omega arith) in
    let long = length-written s.chunk bs s.chunk_fill (omega arith) in
    record {
      missing = drop (length bs) h.missing;
      wire = h.wire;
      later = h.later;
      comes = b;
      size = omega (arith, long, length-drop (length bs) h.missing);
      some_size = omega (arith, long);
      order = omega arith;
      no_len = h.no_len;
      four = h.four;
      framed = h.framed;
      parts =
          h.parts
          ∙ ap (λ x. drop s.chunk_pos (take s.chunk_fill s.chunk) ++ (x ++ h.later)) a
          ∙ ap (λ x. drop s.chunk_pos (take s.chunk_fill s.chunk) ++ x)
              (append_assoc bs (drop (length bs) h.missing) h.later)
          ∙ sym (
              append_assoc (drop s.chunk_pos (take s.chunk_fill s.chunk)) bs
                (drop (length bs) h.missing ++ h.later))
          ∙ ap (λ x. x ++ (drop (length bs) h.missing ++ h.later))
              (sym (received s.chunk bs s.chunk_pos s.chunk_fill order (omega arith)));
    }

-- The whole chunk has come.
pub record Complete (payload : List ℕ) (pos : ℕ) (s : StreamWrapper) : Type 0 where
  pub inside : Inside s payload
  pub full : s.chunk_fill ≡ length s.chunk
  pub at : s.chunk_pos ≡ pos
  pub longer : pos < length s.chunk

pub read_payload-Keeps :
    (payload : List ℕ) (rounds pos : ℕ) (s : StreamWrapper)
    → Inside s payload
    → s.chunk_pos ≡ pos
    → pos < length s.chunk
    → length s.chunk - s.chunk_fill < rounds
    → Keeps (λ t. Inside t payload) (Complete payload pos) (read_payload rounds s)
read_payload-Keeps payload zero pos s h e l f = absurd (omega arith)
read_payload-Keeps payload (suc rounds) pos s h e longer f =
    elim (Bool-cases (ltb s.chunk_fill (length s.chunk))) [
      | inl more ↦ rw (payload_more rounds s more) (
          after_read-Keeps (λ t. Inside t payload) (Complete payload pos) store_chunk
            (read_payload rounds) (length s.chunk - s.chunk_fill) s _
            (poll_inner_read-Polled (length s.chunk - s.chunk_fill) s.inner)
            (λ later k. Inside-moved s payload later h k)
            (λ b bs later k l.
              read_payload-Keeps payload rounds pos
                (store_chunk (record s { inner = later }) (b ∷ bs))
                (Inside-stored s payload (b ∷ bs) later h k l) e
                (omega (arith, length-written s.chunk (b ∷ bs) s.chunk_fill (omega arith)))
                (omega (
                  arith,
                  length-written s.chunk (b ∷ bs) s.chunk_fill (omega arith),
                  ltb→lt s.chunk_fill (length s.chunk) more,
                ))))
      | inr all ↦ rw (payload_done rounds s all) (record {
        inside = h;
        full = omega (arith, h.size, ltb→ge s.chunk_fill (length s.chunk) all);
        at = e;
        longer = longer;
      })
    ]
