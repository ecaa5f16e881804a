-- ===== src/Compression/Reader/Budget.antt =====
-- The memory that the reader holds and the data that it produces are bounded on any input.
use st_clickhouse_lib.Common.{
  ℕ, zero, suc, ◌+◌, ◌-◌, ◌≤◌, ◌≡◌, refl, sym, ap, subst, ◌∙◌, List, [], ◌∷◌, ◌++◌, Bool, true,
  false, Bool-cases, inl, inr, Result, ok, err, map_err, >>=-ok, ok-injective, guard-ok,
  Result-cases, String, length, drop, min, length-take, length-drop, ltb, arith, ◌==◌,
}
use st_clickhouse_lib.Error.{Error, io, other_io}
use st_clickhouse_lib.Limits.Caps.{max_block_bytes, checked_block_bytes, checked_add}
use st_clickhouse_lib.Wire.Source.{Source, read_all}
use st_clickhouse_lib.Compression.Frame.{Codecs, max_frame_size, decode_frame, decode_frame_bytes}
use st_clickhouse_lib.Compression.Genuine.{decode_frame-Genuine}
use st_clickhouse_lib.Compression.Reader.Loop.{after_pull, refill, loop_serve, loop_used}
use st_clickhouse_lib.Compression.Reader.{
  DecompressingReader, frame_size, budget, io_error, swap_in_decoded, first_frame, after_sniff,
  new_decompressing, next_frame, pull_from, pull_next_frame, serve_pending, decompressing_loop,
  read_decompressed,
}

-- A reader that has handed out `read` bytes: the block's budget of 1 GiB is kept, decompressed data
-- is held one frame at a time, and what was handed out and what is still held is all counted.
abbrev pub IsBounded : {R : Type 0} → ℕ → DecompressingReader R → Type 0
IsBounded read r =
    (r.produced ≤ max_block_bytes)
    × (r.plain ≡ false → length r.buf ≤ max_frame_size)
    × (r.plain ≡ false → read + (length r.buf - r.pos) ≤ r.produced)

map_err-ok : {A E F : Type 0} (f : E → F) (m : Result A E) {a : A} → map_err f m ≡ ok a → m ≡ ok a
map_err-ok f (ok x) h = let e = ok-injective h in ap ok e
map_err-ok f (err x) h = cc

checked_block_bytes-ok :
    (acc add total : ℕ) (what : String)
    → checked_block_bytes acc add what ≡ ok total
    → (total ≤ max_block_bytes) × (total ≡ acc + add)
unfolding checked_block_bytes checked_add
checked_block_bytes-ok acc add total what e = ground arith

decode_frame_bytes-ok :
    (cs : Codecs) (bytes out : List ℕ)
    → decode_frame_bytes cs bytes ≡ ok out
    → length out ≤ max_frame_size
unfolding decode_frame_bytes
decode_frame_bytes-ok cs bytes out e =
    let ((result, rest), e1, k1) = >>=-ok (decode_frame cs bytes) _ e in
    subst (λ x. length x ≤ max_frame_size) (ok-injective k1)
      (decode_frame-Genuine cs bytes result rest e1).out_within_cap

module _ {R : Type 0} where
  swap_in_decoded-IsBounded :
      (cs : Codecs) (bytes : List ℕ) (read : ℕ) (r next : DecompressingReader R)
      → read ≤ r.produced
      → swap_in_decoded cs bytes r ≡ ok next
      → IsBounded read next
  unfolding swap_in_decoded
  swap_in_decoded-IsBounded cs bytes read r next h e =
      let (out, e1, k1) = >>=-ok (map_err _ (decode_frame_bytes cs bytes)) _ e in
      let (total, e2, k2) =
        >>=-ok (map_err budget (checked_block_bytes r.produced (length out) "decompressed block")) _
          k1 in
      let (fits, counts) = checked_block_bytes-ok _ _ total _ (map_err-ok _ _ e2) in
      let small = decode_frame_bytes-ok cs bytes out (map_err-ok _ _ e1) in
      subst (IsBounded read) (ok-injective k2) (fits, λ _. small, λ _. omega (arith, counts))

module _ {R : Type 0} (S : Source R) (cs : Codecs) where
  next_frame-IsBounded :
      (read : ℕ) (r next : DecompressingReader R) (inner : R) (frame : List ℕ)
      → read ≤ r.produced
      → next_frame S cs r inner frame ≡ ok next
      → IsBounded read next
  unfolding next_frame
  next_frame-IsBounded read r next inner frame h e =
      let e1 = guard-ok (ltb (frame_size frame) 9) _ _ e in
      let e2 = guard-ok (ltb max_frame_size (frame_size frame)) _ _ e1 in
      let ((body, behind), e3, k3) = >>=-ok (read_all S (frame_size frame - 9) inner) _ e2 in
      swap_in_decoded-IsBounded cs (frame ++ body) read (record r { inner = behind }) next h
        (map_err-ok _ _ k3)

  pull_from-IsBounded :
      (read : ℕ) (r next : DecompressingReader R) (first : List ℕ) (inner : R) (more : Bool)
      → r.plain ≡ false
      → IsBounded read r
      → pull_from S cs r first inner ≡ ok (more, next)
      → IsBounded read next
  unfolding pull_from
  pull_from-IsBounded read r next [] inner more packed h e =
      subst (λ x. IsBounded read x.1) {x = (false, record r { inner = inner })} (ok-injective e) h
  pull_from-IsBounded read r next (b ∷ bs) inner more packed h e =
      let ((header, behind), e1, k1) = >>=-ok (read_all S 24 inner) _ e in
      let (pulled, e2, k2) = >>=-ok (next_frame S cs r behind (b ∷ header)) _ k1 in
      subst (λ x. IsBounded read x.1) {x = (true, pulled)} (ok-injective k2)
        (next_frame-IsBounded read r pulled behind (b ∷ header) (omega (arith, h.2 packed)) e2)

  pull_next_frame-IsBounded :
      (read : ℕ) (r next : DecompressingReader R) (more : Bool)
      → r.plain ≡ false
      → IsBounded read r
      → pull_next_frame S cs r ≡ ok (more, next)
      → IsBounded read next
  unfolding pull_next_frame
  pull_next_frame-IsBounded read r next more packed h e =
      let ((first, inner), e1, k1) = >>=-ok (S.read 1 r.inner) _ e in
      pull_from-IsBounded read r next first inner more packed h k1

  serve-IsBounded :
      (n read : ℕ) (r : DecompressingReader R)
      → IsBounded read r
      → IsBounded (read + length (serve_pending S cs n r).0) (serve_pending S cs n r).1
  unfolding serve_pending
  serve-IsBounded n read r (kept, held, counted) =
      let taken = length-take (min n (length r.buf - r.pos)) (drop r.pos r.buf) in
      let left = length-drop r.pos r.buf in
      (kept, held, λ packed. omega (arith, taken, left, counted packed))

  replay-IsBounded :
      (inner : R) (bytes : List ℕ)
      → IsBounded 0 (record { inner = inner; buf = bytes; pos = 0; plain = true; produced = 0 })
  replay-IsBounded inner bytes = (omega arith, λ q. cc, λ q. cc)

  first_frame-IsBounded :
      (inner : R) (frame : List ℕ) (r : DecompressingReader R)
      → first_frame S cs inner frame ≡ ok r
      → IsBounded 0 r
  unfolding first_frame
  first_frame-IsBounded inner frame r e = elim (Bool-cases (ltb (frame_size frame) 9)) [
    | inl low ↦ subst (IsBounded 0) (ok-injective (rw low at e)) (replay-IsBounded inner frame)
    | inr high ↦
        let e1 = guard-ok (ltb max_frame_size (frame_size frame)) _ _ (rw high at e) in
        let ((body, behind), e2, k2) =
          >>=-ok (map_err io_error (read_all S (frame_size frame - 9) inner)) _ e1 in
        swap_in_decoded-IsBounded cs (frame ++ body) 0 _ r (omega arith) k2
  ]

  after_sniff-IsBounded :
      (t : Bool) (sniff : List ℕ) (inner : R) (r : DecompressingReader R)
      → after_sniff S cs t sniff inner ≡ ok r
      → IsBounded 0 r
  unfolding after_sniff
  after_sniff-IsBounded true sniff inner r e =
      let ((rest, behind), e1, k1) = >>=-ok (map_err io_error (read_all S 8 inner)) _ e in
      first_frame-IsBounded behind (sniff ++ rest) r k1
  after_sniff-IsBounded false sniff inner r e =
      subst (IsBounded 0) (ok-injective e) (replay-IsBounded inner sniff)

  new_decompressing-IsBounded :
      (inner : R) (r : DecompressingReader R) → new_decompressing S cs inner ≡ ok r → IsBounded 0 r
  unfolding new_decompressing
  new_decompressing-IsBounded inner r e =
      let ((first, r1), e1, k1) = >>=-ok (map_err io_error (read_all S 1 inner)) _ e in
      let ((more, r2), e2, k2) = >>=-ok (map_err io_error (read_all S 16 r1)) _ k1 in
      after_sniff-IsBounded _ (first ++ more) r2 r k2

  -- A read that hands out these bytes and leaves this reader behind.
  abbrev Delivers : ℕ → List ℕ × DecompressingReader R → Type 0
  Delivers read (bytes, next) = IsBounded (read + length bytes) next

  no_more : (read : ℕ) (r : DecompressingReader R) → IsBounded read r → Delivers read ([], r)
  no_more read r (kept, held, counted) = (kept, held, λ packed. omega (arith, counted packed))

  -- What the loop keeps with `k` rounds.
  abbrev Keeps : ℕ → ℕ → Type 0
  Keeps k n =
      (read : ℕ) (r next : DecompressingReader R) (bytes : List ℕ)
      → IsBounded read r
      → decompressing_loop S cs k n r ≡ ok (bytes, next)
      → IsBounded (read + length bytes) next

  after_pull-IsBounded :
      (k n read : ℕ) (m : Bool) (pulled next : DecompressingReader R) (bytes : List ℕ)
      → Keeps k n
      → IsBounded read pulled
      → after_pull S cs k n (ok (m, pulled)) ≡ ok (bytes, next)
      → IsBounded (read + length bytes) next
  unfolding after_pull
  after_pull-IsBounded k n read true pulled next bytes keeps h e = keeps read pulled next bytes h e
  after_pull-IsBounded k n read false pulled next bytes keeps h e =
      subst (Delivers read) {x = ([], pulled)} (ok-injective e) (no_more read pulled h)

  after_pull_err : (k n : ℕ) (x : Error) → after_pull S cs k n (err x) ≡ err x
  unfolding after_pull
  after_pull_err k n x = refl

  refill-IsBounded :
      (k n read : ℕ) (t : Bool) (r next : DecompressingReader R) (bytes : List ℕ)
      → Keeps k n
      → r.plain ≡ t
      → IsBounded read r
      → refill S cs k n r t ≡ ok (bytes, next)
      → IsBounded (read + length bytes) next
  unfolding refill
  refill-IsBounded k n read true r next bytes keeps flag (kept, held, counted) e =
      let ((got, inner), e1, k1) = >>=-ok (S.read n r.inner) _ e in
      subst (Delivers read) {x = (got, record r { inner = inner })} (ok-injective k1)
        (kept, held, λ packed. cc)
  refill-IsBounded k n read false r next bytes keeps flag h e =
      elim (Result-cases (pull_next_frame S cs r)) [
        | inl ((m, pulled), f) ↦
            after_pull-IsBounded k n read m pulled next bytes keeps
              (pull_next_frame-IsBounded read r pulled m flag h f)
              (ap (after_pull S cs k n) (sym f) ∙ e)
        | inr (x, f) ↦
            let g = sym (after_pull_err k n x) ∙ ap (after_pull S cs k n) (sym f) ∙ e in cc
      ]

  loop_round-IsBounded : (k n : ℕ) → Keeps k n → Keeps (suc k) n
  loop_round-IsBounded k n keeps read r next bytes h e =
      elim (Bool-cases (ltb r.pos (length r.buf))) [
        | inl left ↦
            subst (Delivers read) (ok-injective (sym (loop_serve S cs k n r left) ∙ e))
              (serve-IsBounded n read r h)
        | inr used ↦
            refill-IsBounded k n read r.plain r next bytes keeps refl h
              (sym (loop_used S cs k n r used) ∙ e)
      ]

  no_rounds :
      (n : ℕ) (r : DecompressingReader R) → decompressing_loop S cs 0 n r ≡ err (io other_io)
  unfolding decompressing_loop
  no_rounds n r = refl

  decompressing_loop-IsBounded : (k n : ℕ) → Keeps k n
  decompressing_loop-IsBounded zero n read r next bytes h e = let g = sym (no_rounds n r) ∙ e in cc
  decompressing_loop-IsBounded (suc k) n read r next bytes h e =
      loop_round-IsBounded k n (decompressing_loop-IsBounded k n) read r next bytes h e

  read-IsBounded :
      (fuel n read : ℕ) (r next : DecompressingReader R) (bytes : List ℕ)
      → IsBounded read r
      → read_decompressed S cs fuel n r ≡ ok (bytes, next)
      → IsBounded (read + length bytes) next
  unfolding read_decompressed
  read-IsBounded fuel n read r next bytes h e = elim (Bool-cases (n == 0)) [
    | inl none_wanted ↦
        subst (Delivers read) {x = ([], r)} (ok-injective (rw none_wanted at e)) (no_more read r h)
    | inr some_wanted ↦
        decompressing_loop-IsBounded fuel n read r next bytes h (rw some_wanted at e)
  ]

  -- The readers that a client can get to, opened on some source and read from any number of times,
  -- with the number of bytes that the reads have handed out.
  pub data Reached (fuel : ℕ) : ℕ → DecompressingReader R → Type 0 where
    opened :
        {r : DecompressingReader R} (inner : R)
        → new_decompressing S cs inner ≡ ok r
        → Reached fuel 0 r
    after_read :
        {earlier : ℕ} {before next : DecompressingReader R} (n : ℕ) (bytes : List ℕ)
        → Reached fuel earlier before
        → read_decompressed S cs fuel n before ≡ ok (bytes, next)
        → Reached fuel (earlier + length bytes) next

  -- Whatever the inner source delivers and whatever the codecs do, for every reader that a client
  -- can get to: it has counted at most 1 GiB of decompressed data for the packet. Where the body is
  -- compressed, it holds at most 64 MiB at a time, and all the bytes that the reads have handed out
  -- and the ones it still holds are counted, so that the reads of a packet hand out at most 1 GiB.
  pub Reached-IsBounded :
      (fuel read : ℕ) (r : DecompressingReader R) → Reached fuel read r → IsBounded read r
  Reached-IsBounded fuel read r (opened inner e) = new_decompressing-IsBounded inner r e
  Reached-IsBounded fuel read r (after_read {earlier} {before} n bytes reached e) =
      read-IsBounded fuel n earlier before r bytes (Reached-IsBounded fuel earlier before reached) e
