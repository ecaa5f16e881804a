-- ===== src/Compression/Reader/Loop.antt =====
-- The rounds of the reader's loop.
use st_clickhouse_lib.Common.{
  ℕ, suc, ◌≡◌, refl, ap, ◌∙◌, List, [], Bool, true, false, ltb, Result, ok, err, ◌>>=◌, length,
}
use st_clickhouse_lib.Error.{Error}
use st_clickhouse_lib.Wire.Source.{Source}
use st_clickhouse_lib.Compression.Frame.{Codecs}
use st_clickhouse_lib.Compression.Reader.{
  DecompressingReader, pull_next_frame, serve_pending, decompressing_loop,
}

module _ {R : Type 0} (S : Source R) (cs : Codecs) where
  pub loop_serve :
      (k out_len : ℕ) (r : DecompressingReader R)
      → ltb r.pos (length r.buf) ≡ true
      → decompressing_loop S cs (suc k) out_len r ≡ ok (serve_pending S cs out_len r)
  loop_serve k out_len r e = unfold decompressing_loop in rw (e, decompressing_loop) refl

  unfoldable pub after_pull :
      ℕ
      → ℕ
      → Result (Bool × DecompressingReader R) Error
      → Result (List ℕ × DecompressingReader R) Error
  after_pull k out_len x = elim x [
    | err e ↦ err e
    | ok (more, next) ↦ elim more [
      | true ↦ decompressing_loop S cs k out_len next
      | false ↦ ok ([], next)
    ]
  ]

  pub after_pull_more :
      (k out_len : ℕ) (next : DecompressingReader R)
      → after_pull k out_len (ok (true, next)) ≡ decompressing_loop S cs k out_len next
  unfolding after_pull
  after_pull_more k out_len next = refl

  -- A round with the buffer used up, by the reader's mode.
  unfoldable pub refill :
      ℕ → ℕ → DecompressingReader R → Bool → Result (List ℕ × DecompressingReader R) Error
  unfolding after_pull
  refill k out_len r t = elim t [
    | true ↦ (S.read out_len r.inner >>= λ (bytes, inner). ok (bytes, record r { inner = inner }))
    | false ↦ after_pull k out_len (pull_next_frame S cs r)
  ]

  pub loop_used :
      (k out_len : ℕ) (r : DecompressingReader R)
      → ltb r.pos (length r.buf) ≡ false
      → decompressing_loop S cs (suc k) out_len r ≡ refill k out_len r r.plain
  loop_used k out_len r e =
      unfold decompressing_loop refill after_pull in
      ap
        (λ x. elim x [
          | true ↦ ok (serve_pending S cs out_len r)
          | false ↦ refill k out_len r r.plain
        ])
        e

  pub loop_plain :
      (k out_len : ℕ) (r : DecompressingReader R)
      → ltb r.pos (length r.buf) ≡ false
      → r.plain ≡ true
      → decompressing_loop S cs (suc k) out_len r
        ≡ (S.read out_len r.inner >>= λ (bytes, inner). ok (bytes, record r { inner = inner }))
  loop_plain k out_len r e p =
      loop_used k out_len r e ∙ ap (refill k out_len r) p ∙ (unfold refill in refl)

  refill_pull :
      (k out_len : ℕ) (r : DecompressingReader R)
      → refill k out_len r false ≡ after_pull k out_len (pull_next_frame S cs r)
  unfolding refill
  refill_pull k out_len r = refl

  pub loop_pull :
      (k out_len : ℕ) (r : DecompressingReader R) {x : Result (Bool × DecompressingReader R) Error}
      → ltb r.pos (length r.buf) ≡ false
      → r.plain ≡ false
      → pull_next_frame S cs r ≡ x
      → decompressing_loop S cs (suc k) out_len r ≡ after_pull k out_len x
  loop_pull k out_len r e p h =
      loop_used k out_len r e
      ∙ ap (refill k out_len r) p
      ∙ refill_pull k out_len r
      ∙ ap (after_pull k out_len) h
