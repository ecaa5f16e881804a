-- ===== src/Pool/Steps.antt =====
-- The pool as a state machine: the calls of `get`, the operations of the guards and the changes of
-- the configuration, one after the other, in any order (src/pool.rs). Each slot's mutex makes the
-- operations on one slot a sequence.
use st_clickhouse_lib.Common.{
  ℕ, zero, suc, ◌+◌, ◌%◌, ◌^◌, List, [], ◌∷◌, Bool, true, false, Option, none, some, Result, length,
  get_elem?, if◌then◌else◌, ◌≡◌,
}
use st_clickhouse_lib.Error.{Error}
use st_clickhouse_lib.Pool.Connect.{Connection}
use st_clickhouse_lib.Pool.Slots.{
  Slot, SimplePool, Outside, Acquired, acquired, failed, panicked, get_slot, take_stream,
  mark_response_in_flight, clear_response_in_flight, invalidate_on_err, finish_response, drop_guard,
}

unfoldable pub set_slot : ℕ → Slot → List Slot → List Slot
set_slot i s [] = []
set_slot zero s (_ ∷ more) = s ∷ more
set_slot (suc i) s (x ∷ more) = x ∷ set_slot i s more

-- The sweep of `get`: the first of `left` slots from `idx + i` on that is not locked.
unfoldable pub sweep : List Slot → ℕ → ℕ → ℕ → Option ℕ
sweep slots idx zero i = none
sweep slots idx (suc left) i =
    let later = sweep slots idx left (i + 1) in
    elim (get_elem? slots ((idx + i) % length slots)) [
      | none ↦ later
      | some s ↦ if s.locked then later else some ((idx + i) % length slots)
    ]

-- A guard exists only where `get` returns one; otherwise the lock is released again.
unfoldable pub keeps_lock : Acquired → Bool
keeps_lock acquired = true
keeps_lock (failed _) = false
keeps_lock panicked = false

-- `get` from the moment it holds the lock of slot `i`.
unfoldable pub get_at : Outside → SimplePool → ℕ → Slot → SimplePool × Acquired
unfolding get_slot set_slot keeps_lock
get_at out p i s =
    let (addresses, connection, how) = get_slot out p s.connection in
    (
      record p {
        slots = set_slot i (record { locked = keeps_lock how; connection = connection }) p.slots;
        addresses = addresses;
      },
      how,
    )

-- `new`: at least one slot, all empty.
unfoldable pub new_slots : ℕ → List Slot
new_slots zero = []
new_slots (suc n) = record { locked = false; connection = none } ∷ new_slots n

-- What the holder of a guard may do with it.
pub data Use : Type 0 where
  take mark clear : Use
  invalidate finish : Result (Unit {0}) Error → Use

unfoldable pub run_use : Use → Option Connection → Option Connection
unfolding take_stream mark_response_in_flight clear_response_in_flight invalidate_on_err
    finish_response
run_use take = take_stream
run_use mark = mark_response_in_flight
run_use clear = clear_response_in_flight
run_use (invalidate r) = invalidate_on_err r
run_use (finish r) = finish_response r

unfoldable pub with_slot : ℕ → Slot → SimplePool → SimplePool
unfolding set_slot
with_slot i s p = record p { slots = set_slot i s p.slots }

-- One step. `got` covers a slot that the sweep found and a slot that `get` waited for; a dropped
-- future drops its guard, with `dropped`.
pub data Step : SimplePool → SimplePool → Type 0 where
  assigned : {p : SimplePool} → Step p (record p { next_idx = (p.next_idx + 1) % 2 ^ 64 })
  got :
      {p : SimplePool} (out : Outside) (i : ℕ) (s : Slot)
      → get_elem? p.slots i ≡ some s
      → s.locked ≡ false
      → Step p (get_at out p i s).0
  used :
      {p : SimplePool} (i : ℕ) (s : Slot) (u : Use)
      → get_elem? p.slots i ≡ some s
      → s.locked ≡ true
      → Step p (with_slot i (record { locked = true; connection = run_use u s.connection }) p)
  dropped :
      {p : SimplePool} (i : ℕ) (s : Slot) (now : ℕ)
      → get_elem? p.slots i ≡ some s
      → s.locked ≡ true
      → Step p (with_slot i (record { locked = false; connection = drop_guard now s.connection }) p)
  configured :
      {p : SimplePool}
      → Step p (record p { config_generation = (p.config_generation + 1) % 2 ^ 64 })

-- The states of a pool that `new` made with at least one slot.
pub data Reachable : SimplePool → Type 0 where
  started : {p : SimplePool} (size : ℕ) → p.slots ≡ new_slots (suc size) → Reachable p
  stepped : {p q : SimplePool} → Reachable p → Step p q → Reachable q
