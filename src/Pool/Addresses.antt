-- ===== src/Pool/Addresses.antt =====
-- The addresses of `SimplePool` and their circuit breaker (src/pool.rs): `dead_addrs`,
-- `failure_counts`, the cooldown of `connect_round_robin`, and `refresh_dns`. An address is a
-- number, an instant and a duration are nanoseconds.
use st_clickhouse_lib.Common.{
  ℕ, ◌+◌, ◌-◌, ◌*◌, ◌^◌, List, [], ◌∷◌, Bool, true, false, Option, none, some, Result, ok, err, min,
  ltb, ◌==◌, if◌then◌else◌,
}
use st_clickhouse_lib.Error.{Error}

-- A `HashMap` from addresses: no address stands in it twice.
unfoldable pub find_key : ℕ → List (ℕ × ℕ) → Option ℕ
find_key a [] = none
find_key a ((k, v) ∷ m) = if a == k then some v else find_key a m

unfoldable pub contains_key : ℕ → List (ℕ × ℕ) → Bool
unfolding find_key
contains_key a m = elim (find_key a m) [ none ↦ false | some _ ↦ true ]

unfoldable pub remove_key : ℕ → List (ℕ × ℕ) → List (ℕ × ℕ)
remove_key a [] = []
remove_key a ((k, v) ∷ m) = let rest = remove_key a m in if a == k then rest else (k, v) ∷ rest

unfoldable pub insert_key : ℕ → ℕ → List (ℕ × ℕ) → List (ℕ × ℕ)
unfolding remove_key
insert_key a v m = (a, v) ∷ remove_key a m

unfoldable pub retain : (ℕ → ℕ → Bool) → List (ℕ × ℕ) → List (ℕ × ℕ)
retain keep [] = []
retain keep ((k, v) ∷ m) = let rest = retain keep m in if keep k v then (k, v) ∷ rest else rest

unfoldable pub contains : List ℕ → ℕ → Bool
contains [] a = false
contains (b ∷ bs) a = if a == b then true else contains bs a

-- What the pool remembers of its addresses.
pub record Breaker : Type 0 where
  pub dead_addrs : List (ℕ × ℕ)
  pub failure_counts : List (ℕ × ℕ)

abbrev pub second : ℕ
second = 1000000000

-- `Duration::MAX`, where `saturating_mul` stops.
abbrev pub duration_max : ℕ
duration_max = 18446744073709551616 * second - 1

unfoldable pub saturating_mul : ℕ → ℕ → ℕ
saturating_mul duration factor = min (duration * factor) duration_max

unfoldable pub backoff_factor : ℕ → ℕ
backoff_factor cnt = if ltb 1 cnt then 2 ^ min (cnt - 1) 10 else 1

unfoldable pub cooldown : ℕ → ℕ → ℕ
unfolding saturating_mul backoff_factor
cooldown base cnt = min (saturating_mul base (backoff_factor cnt)) (300 * second)

-- The count behind the next failure; it saturates as a `u32`.
unfoldable pub next_count : ℕ → List (ℕ × ℕ) → ℕ
unfolding find_key
next_count a counts = elim (find_key a counts) [ none ↦ 1 | some n ↦ min (n + 1) 4294967295 ]

-- Each map has its own lock. What other tasks make of the two maps between two locks of one arm is the
-- argument `others`.
unfoldable pub mark_alive : ℕ → Breaker → Breaker
unfolding remove_key
mark_alive addr b = record b { dead_addrs = remove_key addr b.dead_addrs }

unfoldable pub forget_failures : ℕ → Breaker → Breaker
unfolding remove_key
forget_failures addr b = record b { failure_counts = remove_key addr b.failure_counts }

unfoldable pub count_failure : ℕ → Breaker → Breaker
unfolding insert_key next_count
count_failure addr b = record b {
  failure_counts = insert_key addr (next_count addr b.failure_counts) b.failure_counts;
}

unfoldable pub mark_dead : ℕ → ℕ → Breaker → Breaker
unfolding insert_key
mark_dead addr expiry b = record b { dead_addrs = insert_key addr expiry b.dead_addrs }

-- The arms of `match conn` in `connect_round_robin`.
unfoldable pub record_success : (Breaker → Breaker) → ℕ → Breaker → Breaker
unfolding mark_alive forget_failures
record_success others addr b = forget_failures addr (others (mark_alive addr b))

unfoldable pub record_failure : ℕ → ℕ → (Breaker → Breaker) → ℕ → Breaker → Breaker
unfolding count_failure mark_dead next_count cooldown
record_failure base now others addr b =
    mark_dead addr (now + cooldown base (next_count addr b.failure_counts))
      (others (count_failure addr b))

-- `dead.retain(|_, expiry| *expiry > Instant::now())`
unfoldable pub prune_expired : ℕ → Breaker → Breaker
unfolding retain
prune_expired now b = record b { dead_addrs = retain (λ _ expiry. ltb now expiry) b.dead_addrs }

-- The part of `SimplePool` that picks and remembers addresses.
pub record Addresses : Type 0 where
  pub addrs : List ℕ
  pub current_addr : ℕ
  pub breaker : Breaker
  pub dns_hostname : Option (List ℕ)
  pub dns_last_refresh : ℕ
  pub connect_timeout : Option ℕ
  pub dead_addr_cooldown : ℕ

-- `refresh_dns` at the instant `now`, where `lookup_host` gives the addresses of a name: the
-- addresses after it, and whether they were replaced.
unfoldable pub refresh_dns : (List ℕ → Result (List ℕ) Error) → ℕ → Addresses → Addresses × Bool
unfolding retain contains
refresh_dns lookup_host now p = elim p.dns_hostname [
  | none ↦ (p, false)
  | some hostname ↦
      if ltb (now - p.dns_last_refresh) (300 * second)
      then (p, false)
      else (let asked = record p { dns_last_refresh = now } in
          elim (lookup_host hostname) [
            | err _ ↦ (asked, false)
            | ok [] ↦ (asked, false)
            | ok (a ∷ more) ↦ (
              record asked {
                addrs = a ∷ more;
                breaker = record {
                  dead_addrs = retain (λ k _. contains (a ∷ more) k) p.breaker.dead_addrs;
                  failure_counts = retain (λ k _. contains (a ∷ more) k) p.breaker.failure_counts;
                };
              },
              true,
            )
          ])
]
