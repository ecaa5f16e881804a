-- ===== src/Pool/Sweep.antt =====
-- What the sweep of `get` finds (src/pool.rs).
use st_clickhouse_lib.Common.{
  ℕ, zero, suc, ◌+◌, ◌%◌, ◌<◌, List, true, false, Option, none, some, length, get_elem?, ◌≡◌, refl,
  arith, Bool-cases, Option-cases, inl, inr, get_elem?_within, ◌==◌,
}
use st_clickhouse_lib.Pool.Rotation.{within, rotation}
use st_clickhouse_lib.Pool.Slots.{Slot}
use st_clickhouse_lib.Pool.Steps.{sweep}
use native.Mathlib.Nat.{mod-lt}

-- A slot that is free, and before which, counted from `idx`, all are locked; or all are locked.
abbrev pub FirstFree : List Slot → ℕ → Option ℕ → Type 0
FirstFree slots idx (some j) =
    (k : ℕ) × (s : Slot) × (j ≡ (idx + k) % length slots)
    × (get_elem? slots j ≡ some s)
    × (s.locked ≡ false)
    × ((m : ℕ) (t : Slot)
        → m < k
        → get_elem? slots ((idx + m) % length slots) ≡ some t
        → t.locked ≡ true)
FirstFree slots idx none = (j : ℕ) (s : Slot) → get_elem? slots j ≡ some s → s.locked ≡ true

module _ (slots : List Slot) (idx : ℕ) (inside : idx < length slots) where
  sweep-locked :
      (left i : ℕ) (s : Slot)
      → get_elem? slots ((idx + i) % length slots) ≡ some s
      → s.locked ≡ true
      → sweep slots idx (suc left) i ≡ sweep slots idx left (i + 1)
  unfolding sweep
  sweep-locked left i s at l = rw (at, l, sweep)

  sweep-free :
      (left i : ℕ) (s : Slot)
      → get_elem? slots ((idx + i) % length slots) ≡ some s
      → s.locked ≡ false
      → sweep slots idx (suc left) i ≡ some ((idx + i) % length slots)
  unfolding sweep
  sweep-free left i s at l = rw (at, l, sweep)

  Passed : ℕ → Type 0
  Passed i =
      (m : ℕ) (t : Slot)
      → m < i
      → get_elem? slots ((idx + m) % length slots) ≡ some t
      → t.locked ≡ true

  pass :
      (i : ℕ) (s : Slot)
      → get_elem? slots ((idx + i) % length slots) ≡ some s
      → s.locked ≡ true
      → Passed i
      → Passed (i + 1)
  unfolding Passed
  pass i s at l passed m t hm atm = elim (Bool-cases (m == i)) [
    | inl e ↦ grind arith
    | inr e ↦ passed m t (ground arith) atm
  ]

  sweep_from-FirstFree :
      (left i : ℕ)
      → i + left ≡ length slots
      → Passed i
      → FirstFree slots idx (sweep slots idx left i)
  unfolding Passed
  sweep_from-FirstFree zero i total passed =
      unfold sweep in
      λ j s at.
        (let (k, hk, e) = rotation idx j (length slots) inside (get_elem?_within slots j s at) in
          passed k s (omega arith) (rw e at))
  sweep_from-FirstFree (suc left) i total passed =
      elim (Option-cases (get_elem? slots ((idx + i) % length slots))) [
        | inl nothing ↦ absurd (within slots _ (mod-lt (idx + i) (omega arith)) nothing)
        | inr (s, at) ↦ elim (Bool-cases s.locked) [
          | inl l ↦
              rw (sweep-locked left i s at l)
                (sweep_from-FirstFree left (i + 1) (omega arith) (pass i s at l passed))
          | inr l ↦ rw (sweep-free left i s at l) (i, s, refl, at, l, passed)
        ]
      ]

-- From an assigned slot of the pool, the sweep finds the first slot that is not locked, counted from
-- the assigned one round the pool, and finds nothing only where every slot is locked.
pub sweep-FirstFree :
    (slots : List Slot) (idx : ℕ)
    → idx < length slots
    → FirstFree slots idx (sweep slots idx (length slots) 0)
unfolding Passed
sweep-FirstFree slots idx inside =
    sweep_from-FirstFree slots idx inside (length slots) 0 (omega arith)
      (λ m t h. absurd (omega arith))
