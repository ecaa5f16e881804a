-- ===== src/Wire/Ends.antt =====
-- Code over a buffer that returns within its fuel, in buffers that hold no more than `room` bytes
-- from the position on.
use st_clickhouse_lib.Common.{
  ℕ, zero, suc, ◌+◌, ◌-◌, ◌≤◌, List, [], Bool, true, false, Result, ok, err, length, if◌then◌else◌,
  arith, ◌≡◌, refl,
}
use st_clickhouse_lib.Error.{Error}
use st_clickhouse_lib.Wire.Cursor.{
  Outcome, done, fail, stuck, Cursor, pure, raise, lift, after, ◌>>=◌, repeat, collect,
}
use st_clickhouse_lib.Wire.Reads.{Reads, Within}

-- A value that meets `P`, with the position further on inside the buffer, or an error.
abbrev pub Returned : {A : Type 0} → List ℕ → ℕ → (A → Type 0) → Outcome A → Type 0
Returned buf pos P (done a p) = (pos ≤ p) × (p ≤ length buf) × P a
Returned buf pos P (fail e p) = Unit {0}
Returned buf pos P stuck = ⊥

unfoldable pub Ends : {A : Type 0} → ℕ → (A → Type 0) → Cursor A → Type 0
Ends room P m =
    (buf : List ℕ) (pos : ℕ)
    → pos ≤ length buf
    → length buf - pos ≤ room
    → Returned buf pos P (m buf pos)

abbrev pub Any : {A : Type 0} → A → Type 0
Any a = Unit {0}

-- Code that is never out of fuel, whatever it reads.
unfoldable pub NeverStuck : {A : Type 0} → Cursor A → Type 0
NeverStuck m = (buf : List ℕ) (pos : ℕ) → pos ≤ length buf → ¬ (m buf pos ≡ stuck)

module _ {A : Type 0} (P : A → Type 0) (room : ℕ) where
  pub Ends-pure : (a : A) → P a → Ends room P (pure a)
  unfolding Ends pure
  Ends-pure a h buf pos inside few = (omega arith, inside, h)

  pub Ends-raise : (e : Error) → Ends room P (raise e)
  unfolding Ends raise
  Ends-raise e buf pos inside few = tt

  pub Ends-if :
      (b : Bool) (m n : Cursor A) → Ends room P m → Ends room P n → Ends room P (if b then m else n)
  Ends-if true m n h k = h
  Ends-if false m n h k = k

  pub Ends-narrow : (less : ℕ) (m : Cursor A) → less ≤ room → Ends room P m → Ends less P m
  unfolding Ends
  Ends-narrow less m le h buf pos inside few = h buf pos inside (omega arith)

module _ {A : Type 0} (room : ℕ) where
  pub Ends-Any : (a : A) → Ends room Any (pure a)
  Ends-Any a = Ends-pure Any room a tt

  pub Ends-lift : (r : Result A Error) → Ends room Any (lift r)
  unfolding Ends lift
  Ends-lift (ok a) buf pos inside few = (omega arith, inside, tt)
  Ends-lift (err e) buf pos inside few = tt

module _ {A : Type 0} where
  Returned-of :
      (o : Outcome A) (buf : List ℕ) (pos : ℕ)
      → Within buf pos o
      → ¬ (o ≡ stuck)
      → Returned buf pos Any o
  Returned-of (done a p) buf pos w n = (w.0, w.1, tt)
  Returned-of (fail e p) buf pos w n = tt
  Returned-of stuck buf pos w n = n refl

  pub Ends-Reads : (room : ℕ) (m : Cursor A) → Reads m → NeverStuck m → Ends room Any m
  unfolding Ends NeverStuck
  Ends-Reads room m r n buf pos inside few =
      Returned-of (m buf pos) buf pos (r.within buf pos inside) (n buf pos inside)

-- Every success takes at least `k` bytes.
unfoldable pub Takes : {A : Type 0} → ℕ → Cursor A → Type 0
Takes {A} k m = (buf : List ℕ) (pos : ℕ) (a : A) (p : ℕ) → m buf pos ≡ done a p → pos + k ≤ p

module _ {A B : Type 0} (P : A → Type 0) (Q : B → Type 0) where
  further :
      (o : Outcome B) (buf : List ℕ) (pos p : ℕ)
      → pos ≤ p
      → Returned buf p Q o
      → Returned buf pos Q o
  further (done b q) buf pos p h s = (omega arith, s.1, s.2)
  further (fail e q) buf pos p h s = tt
  further stuck buf pos p h s = s

  after-Returned :
      (room : ℕ) (o : Outcome A) (f : A → Cursor B) (buf : List ℕ) (pos : ℕ)
      → ((a : A) (p : ℕ) → o ≡ done a p → pos ≤ p → length buf - p ≤ room)
      → Returned buf pos P o
      → ((a : A) (p : ℕ) → o ≡ done a p → p ≤ length buf → P a → Ends room Q (f a))
      → Returned buf pos Q (after o f buf)
  unfolding Ends
  after-Returned room (done a p) f buf pos left r h =
      further (f a buf p) buf pos p r.0 (h a p refl r.1 r.2 buf p r.1 (left a p refl r.0))
  after-Returned room (fail e p) f buf pos left r h = tt
  after-Returned room stuck f buf pos left r h = r

  -- The code behind `m` has `k` bytes less in front of it.
  pub Ends-bind_taken :
      (k room : ℕ) (m : Cursor A) (f : A → Cursor B)
      → Takes k m
      → Ends room P m
      → (k ≤ room → (a : A) → P a → Ends (room - k) Q (f a))
      → Ends room Q (m >>= f)
  unfolding Ends Takes ◌>>=◌
  Ends-bind_taken k room m f takes h next buf pos inside few =
      after-Returned (room - k) (m buf pos) f buf pos
        (λ a p e on. omega (arith, takes buf pos a p e)) (h buf pos inside few)
        (λ a p e end. next (omega (arith, takes buf pos a p e)) a)

  pub Ends-bind :
      (room : ℕ) (m : Cursor A) (f : A → Cursor B)
      → Ends room P m
      → ((a : A) → P a → Ends room Q (f a))
      → Ends room Q (m >>= f)
  unfolding Ends ◌>>=◌
  Ends-bind room m f h next buf pos inside few =
      after-Returned room (m buf pos) f buf pos (λ a p e on. omega arith) (h buf pos inside few)
        (λ a p e end. next a)

module _ {A B : Type 0} (Q : B → Type 0) (room : ℕ) where
  pub Ends-then :
      (m : Cursor A) (f : A → Cursor B)
      → Ends room Any m
      → ((a : A) → Ends room Q (f a))
      → Ends room Q (m >>= f)
  Ends-then m f h next = Ends-bind Any Q room m f h (λ a u. next a)

pub ruleset ends_rules = (Ends-Any, Ends-raise, Ends-lift, Ends-if, Ends-then)

pub Ends-repeat :
    (room n : ℕ) (body : Cursor (Unit {0})) → Ends room Any body → Ends room Any (repeat n body)
unfolding repeat
Ends-repeat room zero body h = Ends-Any room tt
Ends-repeat room (suc n) body h = Ends-then Any room body _ h (λ _. Ends-repeat room n body h)

pub Ends-collect :
    {A : Type 0} (room n : ℕ) (body : Cursor A)
    → Ends room Any body
    → Ends room Any (collect n body)
unfolding collect
Ends-collect room zero body h = Ends-Any room []
Ends-collect room (suc n) body h = Ends-then Any room body _ h λ a.
    Ends-then Any room (collect n body) _ (Ends-collect room n body h) (λ rest. Ends-Any room _)
