-- ===== src/Wire/Reads.antt =====
-- What all code over a buffer and a position has in common, with a rule for each way to build it.
use st_clickhouse_lib.Common.{
  ℕ, zero, suc, ◌-◌, ◌≤◌, ◌≡◌, refl, List, [], ◌++◌, Bool, true, false, Result, ok, err, length,
  length-drop, drop, take-append_le, drop-append_le, if◌then◌else◌, arith,
}
use st_clickhouse_lib.Error.{Error}
use st_clickhouse_lib.Wire.Cursor.{
  Outcome, done, fail, stuck, Cursor, pure, raise, lift, out_of_fuel, after, ◌>>=◌, repeat, collect,
}
use st_clickhouse_lib.Wire.Parse.{slice}

-- The position only moves forward, and stays inside the buffer, also where the code fails.
abbrev pub Within : {A : Type 0} → List ℕ → ℕ → Outcome A → Type 0
Within buf pos (done a p) = (pos ≤ p) × (p ≤ length buf)
Within buf pos (fail e p) = (pos ≤ p) × (p ≤ length buf)
Within buf pos stuck = Unit {0}

-- What the code returns, it also returns on a longer buffer.
abbrev pub Extends : {A : Type 0} → Outcome A → Outcome A → Type 0
Extends (done a p) o = o ≡ done a p
Extends (fail e p) o = Unit {0}
Extends stuck o = Unit {0}

pub record Reads {A : Type 0} (m : Cursor A) : Type 0 where
  pub within : (buf : List ℕ) (pos : ℕ) → pos ≤ length buf → Within buf pos (m buf pos)
  pub extends :
      (buf more : List ℕ) (pos : ℕ) → pos ≤ length buf → Extends (m buf pos) (m (buf ++ more) pos)

module _ {A : Type 0} where
  pub Reads-pure : (a : A) → Reads (pure a)
  unfolding pure
  Reads-pure a = record { within = λ buf pos h. omega arith; extends = λ buf more pos h. refl }

  pub Reads-raise : (e : Error) → Reads (raise {A = A} e)
  unfolding raise
  Reads-raise e = record { within = λ buf pos h. omega arith; extends = λ buf more pos h. tt }

  pub Reads-lift : (r : Result A Error) → Reads (lift r)
  unfolding lift
  Reads-lift (ok a) = record { within = λ buf pos h. omega arith; extends = λ buf more pos h. refl }
  Reads-lift (err e) = record { within = λ buf pos h. omega arith; extends = λ buf more pos h. tt }

  pub Reads-out_of_fuel : Reads (out_of_fuel {A = A})
  unfolding out_of_fuel
  Reads-out_of_fuel = record { within = λ buf pos h. tt; extends = λ buf more pos h. tt }

  pub Reads-if : (b : Bool) (m n : Cursor A) → Reads m → Reads n → Reads (if b then m else n)
  Reads-if true m n rm rn = rm
  Reads-if false m n rm rn = rn

module _ {A : Type 0} where
  pub Within-widen :
      (o : Outcome A) (buf : List ℕ) (pos p : ℕ) → pos ≤ p → Within buf p o → Within buf pos o
  Within-widen (done b q) buf pos p h w = omega arith
  Within-widen (fail e q) buf pos p h w = omega arith
  Within-widen stuck buf pos p h w = tt

module _ {A B : Type 0} (f : A → Cursor B) (rf : (a : A) → Reads (f a)) where
  after-Within :
      (o : Outcome A) (buf : List ℕ) (pos : ℕ) → Within buf pos o → Within buf pos (after o f buf)
  after-Within (done a p) buf pos h =
      Within-widen (f a buf p) buf pos p h.0 ((rf a).within buf p h.1)
  after-Within (fail e p) buf pos h = h
  after-Within stuck buf pos h = tt

  after-Extends :
      (o o' : Outcome A) (buf more : List ℕ) (pos : ℕ)
      → Within buf pos o
      → Extends o o'
      → Extends (after o f buf) (after o' f (buf ++ more))
  after-Extends (done a p) o' buf more pos w e = rw e ((rf a).extends buf more p w.1)
  after-Extends (fail x p) o' buf more pos w e = tt
  after-Extends stuck o' buf more pos w e = tt

module _ {A B : Type 0} where
  pub Reads-bind :
      (m : Cursor A) (f : A → Cursor B) → Reads m → ((a : A) → Reads (f a)) → Reads (m >>= f)
  unfolding ◌>>=◌
  Reads-bind m f rm rf = record {
    within = λ buf pos h. after-Within f rf (m buf pos) buf pos (rm.within buf pos h);
    extends = λ buf more pos h.
        after-Extends f rf (m buf pos) (m (buf ++ more) pos) buf more pos (rm.within buf pos h)
          (rm.extends buf more pos h);
  }

pub ruleset reads_rules =
    (Reads-pure, Reads-raise, Reads-lift, Reads-out_of_fuel, Reads-if, Reads-bind)

pub Reads-repeat : (n : ℕ) (body : Cursor (Unit {0})) → Reads body → Reads (repeat n body)
unfolding repeat
Reads-repeat zero body r = Reads-pure tt
Reads-repeat (suc n) body r = Reads-bind body _ r (λ _. Reads-repeat n body r)

pub Reads-collect : {A : Type 0} (n : ℕ) (body : Cursor A) → Reads body → Reads (collect n body)
unfolding collect
Reads-collect zero body r = Reads-pure []
Reads-collect (suc n) body r =
    Reads-bind body _ r
      (λ a. Reads-bind (collect n body) _ (Reads-collect n body r) (λ rest. Reads-pure _))

-- A slice inside the buffer is the same in a longer buffer.
pub slice-append :
    (buf more : List ℕ) (pos end : ℕ)
    → pos ≤ end
    → end ≤ length buf
    → slice (buf ++ more) pos end ≡ slice buf pos end
slice-append buf more pos end h k =
    rw (drop-append_le pos buf more (omega arith))
      (take-append_le (end - pos) (drop pos buf) more (omega (arith, length-drop pos buf)))
