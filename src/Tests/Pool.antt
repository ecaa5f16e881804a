-- ===== src/Tests/Pool.antt =====
-- The pool's theorems at concrete pools.
use st_clickhouse_lib.Common.{
  ℕ, List, [], ◌∷◌, true, false, none, Result, ok, err, ◌≡◌, ◌≤◌, ◌*◌, ◌^◌, suc, refl, min, arith,
  ◌==◌, if◌then◌else◌,
}
use st_clickhouse_lib.Error.{Error, protocol, message}
use st_clickhouse_lib.Pool.Addresses.{Addresses, mark_dead, count_failure, cooldown, second}
use st_clickhouse_lib.Pool.Connect.{Attempts}
use st_clickhouse_lib.Pool.Connect.Served.{Served}
use st_clickhouse_lib.Pool.Cooldown.{cooldown_lem}
use st_clickhouse_lib.Pool.Slots.{Slot, SimplePool, Outside, get_slot}
use st_clickhouse_lib.Pool.Steps.{sweep, started, new_slots}
use st_clickhouse_lib.Pool.Clean.{Ready, Reachable-Ready}
use st_clickhouse_lib.Pool.Sweep.{FirstFree, sweep-FirstFree}

cooldown_lem_example :
    (cooldown (30 * second) 3 ≤ cooldown (30 * second) (suc 3))
    × (cooldown (30 * second) 3 ≤ 300 * second)
    × (min (30 * second) (300 * second) ≤ cooldown (30 * second) 3)
    × (3 ≤ 10 → cooldown (30 * second) (suc 3) ≡ min (30 * second * 2 ^ 3) (300 * second))
cooldown_lem_example = cooldown_lem (30 * second) 3

-- Address 7 is dead until the instant 900, address 8 answers, and address 9 does not.
abbrev two_down : Addresses
two_down = record {
  addrs = 7 ∷ 9 ∷ 8 ∷ [];
  current_addr = 3;
  breaker = record { dead_addrs = (7, 900) ∷ []; failure_counts = (7, 1) ∷ [] };
  dns_hostname = none;
  dns_last_refresh = 0;
  connect_timeout = none;
  dead_addr_cooldown = 30 * second;
}

abbrev answers : ℕ → Result (ℕ × ℕ) Error
answers addr = if addr == 8 then ok (42, 500) else err (protocol (message "no answer" []))

-- Other tasks mark and count while the call is under way.
abbrev attempts : Attempts
attempts = record {
  before_prune = λ b. b;
  before_check = λ i b. if i == 2 then mark_dead 9 800 b else b;
  during_connect = λ i b. mark_dead 7 950 b;
  between_locks = λ i b. count_failure 8 b;
  addrs_at = λ i. 7 ∷ 9 ∷ 8 ∷ [];
  connect_raw = λ i addr. answers addr;
  clock = λ i. 500;
}

abbrev no_lookup : List ℕ → Result (List ℕ) Error
no_lookup name = ok []

abbrev empty_slot : Slot
empty_slot = record { locked = false; connection = none }

abbrev small_pool : SimplePool
small_pool = record {
  slots = empty_slot ∷ [];
  next_idx = 0;
  config_generation = 5;
  ttl = 0;
  ping_idle_threshold = 15 * second;
  addresses = two_down;
}

abbrev outside : Outside
outside = record {
  now = 500;
  lookup_host = no_lookup;
  first_attempts = attempts;
  second_attempts = attempts;
  is_connection_alive = true;
}

Reachable-Ready_example : Ready 5 (get_slot outside small_pool none)
unfolding new_slots
Reachable-Ready_example =
    Reachable-Ready {p = small_pool} outside 0 empty_slot (started 0 refl) refl refl

abbrev taken_slot : Slot
taken_slot = record { locked = true; connection = none }

sweep-FirstFree_example :
    FirstFree (empty_slot ∷ taken_slot ∷ []) 1 (sweep (empty_slot ∷ taken_slot ∷ []) 1 2 0)
sweep-FirstFree_example = sweep-FirstFree (empty_slot ∷ taken_slot ∷ []) 1 (omega arith)
