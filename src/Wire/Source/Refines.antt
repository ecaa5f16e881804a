-- ===== src/Wire/Source/Refines.antt =====
-- Reading exactly `n` bytes from a source behaves as reading them from the bytes it stands for.
use st_clickhouse_lib.Common.{
  ℕ, zero, suc, ◌-◌, ◌≤◌, ◌≡◌, refl, ap, subst, ◌∙◌, inl, inr, List, [], ◌∷◌, ◌++◌, Result, ok, err,
  ◌>>=◌, length, arith,
}
use st_clickhouse_lib.Error.{Error, io, unexpected_eof}
use st_clickhouse_lib.Wire.Read.{read_exact}
use st_clickhouse_lib.Wire.Exact.{
  read_exact_zero, read_exact_empty, read_exact_at, read_exact_split,
}
use st_clickhouse_lib.Wire.Source.{Source, read_all_loop, read_all, Ended, SourceLaws}

-- The source and the plain bytes agree: the same bytes and the same rest, or the same error.
abbrev pub Simulates :
    {R : Type 0}
    → (R → List ℕ → Type 0)
    → Result (List ℕ × List ℕ) Error
    → Result (List ℕ × R) Error
    → Type 0
Simulates {R} Stands (ok (bs, rest)) r = (next : R) × (r ≡ ok (bs, next)) × Stands next rest
Simulates Stands (err e) r = r ≡ err e

module _ {R : Type 0} (S : Source R) (Stands : R → List ℕ → Type 0)
    (laws : SourceLaws S Stands) where
  continue_Simulates :
      (bs : List ℕ) (plain : Result (List ℕ × List ℕ) Error) (r : Result (List ℕ × R) Error)
      → Simulates Stands plain r
      → Simulates Stands
          (plain >>= λ (more, last). ok (bs ++ more, last))
          (r >>= λ (more, last). ok (bs ++ more, last))
  continue_Simulates bs (ok (more, last)) r (next, e, s) = rw e (next, refl, s)
  continue_Simulates bs (err x) r e = rw e refl

  -- One round of the loop.
  next_round : ℕ → ℕ → Result (List ℕ × R) Error → Result (List ℕ × R) Error
  next_round fuel n x = elim x [
    | err e ↦ err e
    | ok (bytes, next) ↦ elim bytes [
      | [] ↦ err (io unexpected_eof)
      | b ∷ bs ↦
          (read_all_loop S fuel (suc n - length (b ∷ bs)) next >>= λ (more, last).
          ok ((b ∷ bs) ++ more, last))
    ]
  ]

  loop_round :
      (fuel n : ℕ) (r : R) {x : Result (List ℕ × R) Error}
      → S.read (suc n) r ≡ x
      → read_all_loop S (suc fuel) (suc n) r ≡ next_round fuel n x
  loop_round fuel n r h = unfold read_all_loop next_round in ap (next_round fuel n) h

  loop_end :
      (fuel n : ℕ) (r : R)
      → Ended Stands (S.read (suc n) r)
      → read_all_loop S (suc fuel) (suc n) r ≡ err (io unexpected_eof)
  loop_end fuel n r (inl e) = loop_round fuel n r e ∙ (unfold next_round in refl)
  loop_end fuel n r (inr (next, e, s)) = loop_round fuel n r e ∙ (unfold next_round in refl)

  loop_some :
      (fuel n : ℕ) (r : R) (b : ℕ) (bs : List ℕ) (next : R)
      → S.read (suc n) r ≡ ok (b ∷ bs, next)
      → read_all_loop S (suc fuel) (suc n) r ≡ (
          read_all_loop S fuel (suc n - length (b ∷ bs)) next >>= λ (more, last).
          ok ((b ∷ bs) ++ more, last))
  loop_some fuel n r b bs next e = loop_round fuel n r e ∙ (unfold next_round in refl)

  -- Any fuel that is at least the count of bytes is enough.
  pub read_all_loop-Simulates :
      (fuel n : ℕ) (r : R) (payload : List ℕ)
      → n ≤ fuel
      → Stands r payload
      → Simulates Stands (read_exact n payload) (read_all_loop S fuel n r)
  read_all_loop-Simulates fuel zero r payload h s =
      rw (read_exact_zero payload) (r, unfold read_all_loop in refl, s)
  read_all_loop-Simulates zero (suc n) r payload h s = elim h [ ]
  read_all_loop-Simulates (suc fuel) (suc n) r [] h s =
      rw read_exact_empty (loop_end fuel n r (laws.at_end (suc n) r (omega arith) s))
  read_all_loop-Simulates (suc fuel) (suc n) r (b ∷ payload) h s =
      let d = laws.delivers (suc n) r b payload (omega arith) s in
      let within = d.within_buffer in
      rw (d.splits, read_exact_split (suc n) (d.b ∷ d.bs) d.rest within)
        (rw (loop_some fuel n r d.b d.bs d.next d.returns) (
          continue_Simulates (d.b ∷ d.bs) _ _ (
            read_all_loop-Simulates fuel (suc n - length (d.b ∷ d.bs)) d.next d.rest (omega arith)
              d.stands)))

  -- A source that stands for the payload reads exactly `n` bytes as the plain payload does: the same
  -- bytes, with a source of the rest behind them, or `UnexpectedEof` where fewer are left.
  pub read_all-Simulates :
      (n : ℕ) (r : R) (payload : List ℕ)
      → Stands r payload
      → Simulates Stands (read_exact n payload) (read_all S n r)
  unfolding read_all
  read_all-Simulates n r payload s = read_all_loop-Simulates n n r payload (omega arith) s

  -- The same where the first `n` bytes are known.
  pub read_all_at :
      (n : ℕ) (r : R) (xs ys : List ℕ)
      → length xs ≡ n
      → Stands r (xs ++ ys)
      → (next : R) × (read_all S n r ≡ ok (xs, next)) × Stands next ys
  read_all_at n r xs ys h s = rw (read_exact_at n xs ys h) at (read_all-Simulates n r (xs ++ ys) s)

  -- A read of one byte, where there is one.
  pub read_one :
      (r : R) (b : ℕ) (ys : List ℕ)
      → Stands r (b ∷ ys)
      → (next : R) × (S.read 1 r ≡ ok (b ∷ [], next)) × Stands next ys
  read_one r b ys s =
      let d = laws.delivers 1 r b ys (omega arith) s in
      one d.b d.bs d.rest d.next d.within_buffer d.splits d.returns d.stands
    where
      one :
          (c : ℕ) (cs rest : List ℕ) (next : R)
          → length (c ∷ cs) ≤ 1
          → b ∷ ys ≡ (c ∷ cs) ++ rest
          → S.read 1 r ≡ ok (c ∷ cs, next)
          → Stands next rest
          → (next : R) × (S.read 1 r ≡ ok (b ∷ [], next)) × Stands next ys
      one c [] rest next h e f held =
          let head : c ≡ b = cc in
          let tail : rest ≡ ys = cc in
          (next, f ∙ ap (λ x. ok (x ∷ [], next)) head, subst (Stands next) tail held)
      one c (x ∷ cs) rest next h e f held = absurd (omega arith)
