-- ===== src/Stream/Framed/Start.antt =====
-- Starting a chunk once its length has come.
use st_clickhouse_lib.Common.{
  ℕ, ◌+◌, ◌≤◌, ◌<◌, ◌≡◌, ◌⊎◌, inl, inr, refl, sym, ap, subst, ◌∙◌, List, [], ◌++◌, ne→==, ge→ltb,
  length, length-append, take, drop, take_first, drop_first, take_all, drop_all, length-take,
  length-replicate, replicate, arith,
}
use st_clickhouse_lib.Common.Bytes.{
  to_le_bytes, from_le_bytes, length-to_le_bytes, from_le_bytes-to_le_bytes,
}
use st_clickhouse_lib.Limits.Caps.{max_chunk_len}
use st_clickhouse_lib.Chunked.Framing.{Framed, ends, boundary, chunk}
use st_clickhouse_lib.Stream.Socket.{arrivals, StreamWrapper}
use st_clickhouse_lib.Stream.Framed.{goes, start_chunk}
use st_clickhouse_lib.Stream.Framed.Parts.{Between, Inside}
use st_clickhouse_lib.Stream.Framed.Loops.{ahead, Headed}

-- What four bytes at a boundary announce.
record Boundary (header rest payload : List ℕ) : Type 0 where
  zero_len : from_le_bytes header ≡ 0
  framed : Framed rest payload

record Announced (header rest payload : List ℕ) : Type 0 where
  body : List ℕ
  wire : List ℕ
  later : List ℕ
  len : from_le_bytes header ≡ length body
  some_len : 0 < length body
  fits : length body ≤ max_chunk_len
  comes : rest ≡ body ++ wire
  framed : Framed wire later
  parts : payload ≡ body ++ later

header_parts :
    (header rest wire : List ℕ) (n : ℕ)
    → length header ≡ 4
    → header ++ rest ≡ to_le_bytes 4 n ++ wire
    → (header ≡ to_le_bytes 4 n) × (rest ≡ wire)
header_parts header rest wire n h e = (
  sym (take_first 4 header rest h)
      ∙ ap (take 4) e
      ∙ take_first 4 (to_le_bytes 4 n) wire (length-to_le_bytes 4 n),
  sym (drop_first 4 header rest h)
      ∙ ap (drop 4) e
      ∙ drop_first 4 (to_le_bytes 4 n) wire (length-to_le_bytes 4 n),
)

announces :
    {src payload : List ℕ} (header rest : List ℕ)
    → Framed src payload
    → src ≡ header ++ rest
    → length header ≡ 4
    → Boundary header rest payload ⊎ Announced header rest payload
announces header rest ends e h = absurd (omega (arith, ap length e, length-append header rest))
announces {payload} header rest (boundary {wire} f at) e h =
    let (a, b) = header_parts header rest wire 0 h (sym e ∙ at) in
    inl (record {
      zero_len = ap from_le_bytes a ∙ from_le_bytes-to_le_bytes 4 0 (omega arith);
      framed = subst (λ x. Framed x payload) (sym b) f;
    })
announces header rest (chunk {wire} {payload} c f some fits at out) e h =
    let (a, b) = header_parts header rest (c ++ wire) (length c) h (sym e ∙ at) in
    inr (record {
      body = c;
      wire = wire;
      later = payload;
      len = ap from_le_bytes a ∙ from_le_bytes-to_le_bytes 4 (length c) (omega arith);
      some_len = some;
      fits = fits;
      comes = b;
      framed = f;
      parts = out;
    })

-- Behind the length: the next boundary, four bytes on, or the start of a chunk.
pub record AtBoundary (payload : List ℕ) (m : ℕ) (t : StreamWrapper) : Type 0 where
  pub between : Between t payload
  pub less : ahead t + 4 ≡ m

pub record AtStart (payload : List ℕ) (t : StreamWrapper) : Type 0 where
  pub inside : Inside t payload
  pub pos_zero : t.chunk_pos ≡ 0
  pub fill_zero : t.chunk_fill ≡ 0

start_zero :
    (s : StreamWrapper)
    → from_le_bytes s.len_buf ≡ 0
    → start_chunk s ≡ goes (record s { len_pos = 0 })
unfolding start_chunk
start_zero s e = rw e refl

start_some :
    (s : StreamWrapper)
    → 0 < from_le_bytes s.len_buf
    → from_le_bytes s.len_buf ≤ max_chunk_len
    → start_chunk s ≡ goes (record s { len_pos = 0; chunk = replicate (from_le_bytes s.len_buf) 0 })
unfolding start_chunk
start_some s h k =
    rw
      (
        ne→== (from_le_bytes s.len_buf) 0 (omega arith),
        ge→ltb max_chunk_len (from_le_bytes s.len_buf) k,
      )
      refl

none_served : (pos fill : ℕ) (xs : List ℕ) → fill ≡ 0 → drop pos (take fill xs) ≡ []
none_served pos fill xs e = drop_all pos (take fill xs) (omega (arith, length-take fill xs))

pub start_chunk-Starts :
    (payload : List ℕ) (m : ℕ) (s : StreamWrapper)
    → Headed payload m s
    → (t : StreamWrapper) × (start_chunk s ≡ goes t) × (AtBoundary payload m t ⊎ AtStart payload t)
start_chunk-Starts payload m s h =
    let b = h.between in
    let full = h.full in
    let four = b.four in
    let whole : take s.len_pos s.len_buf ≡ s.len_buf = take_all s.len_pos s.len_buf (omega arith) in
    elim (announces s.len_buf (arrivals s.inner) b.framed (ap (λ x. x ++ arrivals s.inner) whole)
      four) [
        | inl at ↦ (
          _,
          start_zero s at.zero_len,
          inl (record {
            between = record {
              no_chunk = b.no_chunk;
              pos_zero = b.pos_zero;
              fill_zero = b.fill_zero;
              four = four;
              within = omega arith;
              framed = at.framed;
            };
            less = omega (arith, h.same);
          }),
        )
        | inr a ↦ (
          _,
          start_some s (omega (arith, a.len, a.some_len)) (omega (arith, a.len, a.fits)),
          inr (record {
            inside = record {
              missing = a.body;
              wire = a.wire;
              later = a.later;
              comes = a.comes;
              size =
                  omega (
                    arith,
                    length-replicate {A = ℕ} (from_le_bytes s.len_buf) 0,
                    a.len,
                    b.fill_zero,
                  );
              some_size =
                  omega (
                    arith,
                    length-replicate {A = ℕ} (from_le_bytes s.len_buf) 0,
                    a.len,
                    a.some_len,
                  );
              order = omega (arith, b.pos_zero);
              no_len = refl;
              four = four;
              framed = a.framed;
              parts =
                  a.parts
                  ∙ ap (λ x. x ++ (a.body ++ a.later))
                      (sym (
                        none_served s.chunk_pos s.chunk_fill (replicate (from_le_bytes s.len_buf) 0)
                          b.fill_zero));
            };
            pos_zero = b.pos_zero;
            fill_zero = b.fill_zero;
          }),
        )
      ]
