-- ===== src/Pool/Clean.antt =====
-- A connection parked in the middle of a response is never handed to the next user of its slot.
use st_clickhouse_lib.Common.{
  ℕ, zero, suc, ◌+◌, ◌%◌, List, [], ◌∷◌, false, Option, none, some, Result, length, get_elem?, ◌==◌,
  ◌≡◌, refl, arith, subst, Bool-cases, Option-cases, Result-cases, inl, inr,
}
use mathlib.Core.Option.{some-injective, none-ne-some}
use st_clickhouse_lib.Error.{Error}
use st_clickhouse_lib.Pool.Addresses.{
  Addresses, Breaker, contains_key, record_failure, refresh_dns, prune_expired,
}
use st_clickhouse_lib.Pool.Connect.{
  Connection, Connected, connected, refused, out_of_range, Attempts, connect_loop,
  connect_round_robin, zero_timeout,
}
use st_clickhouse_lib.Pool.Slots.{
  Slot, SimplePool, Outside, Acquired, acquired, failed, panicked, get_slot, check_connection,
  reconnect, should_reconnect, connection_config_stale, response_in_flight_of, drop_guard,
}
use st_clickhouse_lib.Pool.Steps.{
  set_slot, with_slot, get_at, keeps_lock, new_slots, Step, assigned, got, used, dropped,
  configured, Reachable, started, stepped,
}

-- A new connection waits for no response, and has the pool's configuration.
abbrev Fresh : ℕ → Connected → Type 0
Fresh generation (connected c) = (c.response_in_flight ≡ false) × (c.config_generation ≡ generation)
Fresh generation (refused e) = Unit {0}
Fresh generation out_of_range = Unit {0}

connect_loop-Fresh :
    (out : Attempts) (base generation n start left i : ℕ) (last_err : Option Error) (b : Breaker)
    → Fresh generation (connect_loop out base generation n start left i last_err b).1
unfolding connect_loop
connect_loop-Fresh out base generation n start zero i last_err b = tt
connect_loop-Fresh out base generation n start (suc left) i last_err b =
    elim (Option-cases (get_elem? (out.addrs_at i) ((start + i) % n))) [
      | inl e ↦ rw (e, connect_loop, Fresh) tt
      | inr (addr, e) ↦ elim (Bool-cases (contains_key addr (out.before_check i b).dead_addrs)) [
        | inl d ↦
            rw (e, d, connect_loop, Fresh)
              (connect_loop-Fresh out base generation n start left (i + 1) last_err
                (out.before_check i b))
        | inr d ↦ elim (Result-cases (out.connect_raw i addr)) [
          | inl (c, f) ↦ rw (e, d, f, connect_loop, Fresh) (refl, refl)
          | inr (x, f) ↦
              rw (e, d, f, connect_loop, Fresh)
                (connect_loop-Fresh out base generation n start left (i + 1) (some x) (
                  record_failure base (out.clock i) (out.between_locks i) addr
                    (out.during_connect i (out.before_check i b))))
        ]
      ]
    ]

connect-Fresh :
    (out : Attempts) (lookup_host : List ℕ → Result (List ℕ) Error) (generation now : ℕ)
    (p : Addresses)
    → Fresh generation (connect_round_robin out lookup_host generation now p).1
unfolding connect_round_robin
connect-Fresh out lookup_host generation now p = elim (Bool-cases (length p.addrs == 0)) [
  | inl e ↦ rw e tt
  | inr e ↦ elim (Bool-cases (zero_timeout p.connect_timeout)) [
    | inl f ↦ rw (e, f) tt
    | inr f ↦ rw (e, f) (fresh (refresh_dns lookup_host now p).0)
  ]
]
  where
    fresh :
        (q : Addresses)
        → Fresh generation
            (connect_loop out p.dead_addr_cooldown generation
              (length q.addrs)
              (q.current_addr % length q.addrs)
              (length q.addrs)
              0
              none
              (prune_expired now (out.before_prune q.breaker))).1
    fresh q =
        connect_loop-Fresh out p.dead_addr_cooldown generation (length q.addrs)
          (q.current_addr % length q.addrs) (length q.addrs) 0 none
          (prune_expired now (out.before_prune q.breaker))

-- What `get` leaves in its slot. With a guard: a connection that waits for no response and has the
-- pool's configuration generation. Without: none that waits for a response.
abbrev pub Ready : ℕ → Addresses × Option Connection × Acquired → Type 0
Ready generation (_, slot, acquired) =
    (c : Connection) × (slot ≡ some c)
    × (c.response_in_flight ≡ false)
    × (c.config_generation ≡ generation)
Ready generation (_, slot, failed e) = response_in_flight_of slot ≡ false
Ready generation (_, slot, panicked) = response_in_flight_of slot ≡ false

reconnect-Ready :
    (out : Outside) (p : SimplePool) (addresses : Addresses) (c : Connection)
    → c.response_in_flight ≡ false
    → Ready p.config_generation (reconnect out p addresses c)
unfolding reconnect response_in_flight_of
reconnect-Ready out p addresses c h =
    cases
      (connect_round_robin out.second_attempts out.lookup_host p.config_generation out.now
        addresses)
      (connect-Fresh out.second_attempts out.lookup_host p.config_generation out.now addresses)
  where
    cases :
        (r : Addresses × Connected)
        → Fresh p.config_generation r.1
        → Ready p.config_generation (elim r.1 [
          | connected k ↦ (r.0, some k, acquired)
          | refused e ↦ (r.0, none, failed e)
          | out_of_range ↦ (r.0, some c, panicked)
        ])
    cases (a, connected k) f = (k, refl, f.0, f.1)
    cases (a, refused e) f = refl
    cases (a, out_of_range) f = h

kept_current :
    (out : Outside) (p : SimplePool) (c : Connection)
    → should_reconnect out p c ≡ false
    → c.config_generation ≡ p.config_generation
unfolding should_reconnect connection_config_stale
kept_current out p c e = ground arith

check_connection-Ready :
    (out : Outside) (p : SimplePool) (addresses : Addresses) (c : Connection)
    → c.response_in_flight ≡ false
    → Ready p.config_generation (check_connection out p addresses c)
unfolding check_connection
check_connection-Ready out p addresses c h = elim (Bool-cases (should_reconnect out p c)) [
  | inl e ↦ rw e (reconnect-Ready out p addresses c h)
  | inr e ↦ rw e (c, refl, h, kept_current out p c e)
]

-- `get` on a slot that waits for no response: where it returns a guard, the connection waits for no
-- response and has the pool's configuration generation; where it fails, the slot still waits for
-- no response.
pub get_slot-Ready :
    (out : Outside) (p : SimplePool) (slot : Option Connection)
    → response_in_flight_of slot ≡ false
    → Ready p.config_generation (get_slot out p slot)
unfolding get_slot response_in_flight_of
get_slot-Ready out p (some c) h = check_connection-Ready out p p.addresses c h
get_slot-Ready out p none h =
    cases
      (connect_round_robin out.first_attempts out.lookup_host p.config_generation out.now
        p.addresses)
      (connect-Fresh out.first_attempts out.lookup_host p.config_generation out.now p.addresses)
  where
    cases :
        (r : Addresses × Connected)
        → Fresh p.config_generation r.1
        → Ready p.config_generation (elim r.1 [
          | connected c ↦ check_connection out p r.0 c
          | refused e ↦ (r.0, none, failed e)
          | out_of_range ↦ (r.0, none, panicked)
        ])
    cases (a, connected k) f = check_connection-Ready out p a k f.0
    cases (a, refused e) f = refl
    cases (a, out_of_range) f = refl

-- No slot that may be locked next waits for a response.
SlotsClean : List Slot → Type 0
SlotsClean slots =
    (i : ℕ) (s : Slot)
    → get_elem? slots i ≡ some s
    → s.locked ≡ false
    → response_in_flight_of s.connection ≡ false

abbrev pub SlotClean : Slot → Type 0
SlotClean s = s.locked ≡ false → response_in_flight_of s.connection ≡ false

set_slot-Clean :
    (slots : List Slot) (i : ℕ) (s : Slot)
    → SlotsClean slots
    → SlotClean s
    → SlotsClean (set_slot i s slots)
unfolding SlotsClean set_slot
set_slot-Clean [] i s clean h j t at = clean j t at
set_slot-Clean (x ∷ more) zero s clean h zero t at = subst SlotClean (some-injective s t at) h
set_slot-Clean (x ∷ more) zero s clean h (suc j) t at = clean (suc j) t at
set_slot-Clean (x ∷ more) (suc i) s clean h zero t at = clean zero t at
set_slot-Clean (x ∷ more) (suc i) s clean h (suc j) t at =
    set_slot-Clean more i s (λ k u atu. clean (suc k) u atu) h j t at

new_slots-Clean : (n : ℕ) → SlotsClean (new_slots n)
unfolding SlotsClean new_slots response_in_flight_of
new_slots-Clean zero i s at = absurd (none-ne-some s at)
new_slots-Clean (suc n) zero s at = subst SlotClean (some-injective _ s at) (λ e. refl)
new_slots-Clean (suc n) (suc i) s at = new_slots-Clean n i s at

drop_guard-idle :
    (now : ℕ) (slot : Option Connection) → response_in_flight_of (drop_guard now slot) ≡ false
unfolding drop_guard response_in_flight_of
drop_guard-idle now none = refl
drop_guard-idle now (some c) = elim (Bool-cases c.response_in_flight) [
  | inl e ↦ rw (e, response_in_flight_of) refl
  | inr e ↦ rw (e, response_in_flight_of) refl
]

get_at-Clean :
    (out : Outside) (p : SimplePool) (i : ℕ) (s : Slot)
    → SlotClean s
    → s.locked ≡ false
    → SlotsClean p.slots
    → SlotsClean (get_at out p i s).0.slots
unfolding get_at keeps_lock
get_at-Clean out p i s h unlocked clean =
    set_slot-Clean p.slots i _ clean
      (released (get_slot out p s.connection) (get_slot-Ready out p s.connection (h unlocked)))
  where
    released :
        (r : Addresses × Option Connection × Acquired)
        → Ready p.config_generation r
        → keeps_lock r.2 ≡ false
        → response_in_flight_of r.1 ≡ false
    released (_, _, acquired) ready e = absurd (ground arith)
    released (_, _, failed x) ready e = ready
    released (_, _, panicked) ready e = ready

Step-Clean : {p q : SimplePool} → Step p q → SlotsClean p.slots → SlotsClean q.slots
unfolding SlotsClean with_slot
Step-Clean assigned clean = clean
Step-Clean (got {p} out i s at unlocked) clean =
    get_at-Clean out p i s (clean i s at) unlocked clean
Step-Clean (used {p} i s u at locked) clean =
    set_slot-Clean p.slots i _ clean (λ e. absurd (ground arith))
Step-Clean (dropped {p} i s now at locked) clean =
    set_slot-Clean p.slots i _ clean (λ e. drop_guard-idle now s.connection)
Step-Clean configured clean = clean

Reachable-Clean : {p : SimplePool} → Reachable p → SlotsClean p.slots
unfolding SlotsClean
Reachable-Clean (started size e) = rw e (new_slots-Clean (suc size))
Reachable-Clean (stepped r step) = Step-Clean step (Reachable-Clean r)

-- In every state that a new pool reaches, through any order of acquires, uses, drops and changes of
-- the configuration, and any outcomes of the connects: a `get` that locks a slot and returns a guard
-- has in the slot a connection with no response in flight and with the pool's configuration
-- generation, and where it fails it leaves none with a response in flight.
pub Reachable-Ready :
    {p : SimplePool} (out : Outside) (i : ℕ) (s : Slot)
    → Reachable p
    → get_elem? p.slots i ≡ some s
    → s.locked ≡ false
    → Ready p.config_generation (get_slot out p s.connection)
unfolding SlotsClean
Reachable-Ready out i s r at unlocked =
    get_slot-Ready out _ s.connection (Reachable-Clean r i s at unlocked)
