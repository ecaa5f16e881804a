-- ===== src/Wire/Takes.antt =====
-- Code over a buffer that moves on by some number of bytes wherever it succeeds.
use st_clickhouse_lib.Common.{ℕ, ◌+◌, ◌≤◌, ◌≡◌, refl, ap, List, Result, ok, err, arith}
use st_clickhouse_lib.Error.{Error}
use st_clickhouse_lib.Wire.Cursor.{Outcome, done, fail, stuck, Cursor, pure, lift, after, ◌>>=◌}
use st_clickhouse_lib.Wire.Ends.{Takes}

abbrev end_of : {A : Type 0} → ℕ → Outcome A → ℕ
end_of start (done a p) = p
end_of start (fail e p) = start
end_of start stuck = start

pub done-injective_end :
    {A : Type 0} {a b : A} {p q : ℕ} → Path (Outcome A) (done a p) (done b q) → p ≡ q
done-injective_end h = ap (end_of 0) h

pub Takes-pure : {A : Type 0} (a : A) → Takes 0 (pure a)
unfolding Takes pure
Takes-pure a buf pos b p e = omega (arith, done-injective_end e)

pub Takes-lift : {A : Type 0} (r : Result A Error) → Takes 0 (lift r)
unfolding Takes lift
Takes-lift (ok a) buf pos b p e = omega (arith, done-injective_end e)
Takes-lift (err x) buf pos b p e = cc

module _ {A B : Type 0} where
  after-Takes :
      (k : ℕ) (o : Outcome A) (f : A → Cursor B) (buf : List ℕ) (pos p : ℕ) (b : B)
      → ((a : A) (q : ℕ) → o ≡ done a q → pos + k ≤ q)
      → ((a : A) → Takes 0 (f a))
      → after o f buf ≡ done b p
      → pos + k ≤ p
  unfolding Takes
  after-Takes k (done a q) f buf pos p b h next e = omega (arith, h a q refl, next a buf q b p e)
  after-Takes k (fail x q) f buf pos p b h next e = cc
  after-Takes k stuck f buf pos p b h next e = cc

  pub Takes-bind :
      (k : ℕ) (m : Cursor A) (f : A → Cursor B)
      → Takes k m
      → ((a : A) → Takes 0 (f a))
      → Takes k (m >>= f)
  unfolding Takes ◌>>=◌
  Takes-bind k m f h next buf pos b p e =
      after-Takes k (m buf pos) f buf pos p b (λ a q. h buf pos a q) next e
