-- ===== src/Pool/Connect/Served.antt =====
-- What `connect_round_robin` guarantees of the address it serves, and of the breaker behind it.
use st_clickhouse_lib.Common.{
  ℕ, ◌+◌, ◌%◌, ◌<◌, List, [], Bool, true, false, Option, none, some, ok, err, length, get_elem?,
  ◌≡◌, ◌⊎◌,
}
use st_clickhouse_lib.Error.{Error, protocol, message}
use st_clickhouse_lib.Pool.Addresses.{Addresses, Breaker, find_key, contains_key, record_failure}
use st_clickhouse_lib.Pool.Connect.{
  new_connection, Connected, connected, refused, out_of_range, Attempts,
}

abbrev pub dead : Breaker → ℕ → Bool
dead b a = contains_key a b.dead_addrs

-- An address is passed over if the check finds it marked dead, or if the attempt to connect fails,
-- which marks it.
abbrev pub PassedOver : Attempts → ℕ → ℕ → ℕ → Breaker → Type 0
PassedOver out base i addr seen =
    (dead seen addr ≡ true)
    ⊎ ((e : Error) × (out.connect_raw i addr ≡ err e)
        × (dead
              (record_failure base (out.clock i) (out.between_locks i) addr
                (out.during_connect i seen))
              addr
            ≡ true))

-- `Seen i b`: the check of iteration `i` sees the breaker `b`, for a call that begins at the index
-- `start` with the breaker `first` and has passed over an address in each iteration before.
pub data Seen (out : Attempts) (base start : ℕ) (addrs : List ℕ) (first : Breaker)
    : ℕ → Breaker → Type 0 where
  at_start : Seen out base start addrs first 0 (out.before_check 0 first)
  behind_dead :
      {i : ℕ} {b : Breaker} (addr : ℕ)
      → Seen out base start addrs first i b
      → get_elem? addrs ((start + i) % length addrs) ≡ some addr
      → dead b addr ≡ true
      → Seen out base start addrs first (i + 1) (out.before_check (i + 1) b)
  behind_failure :
      {i : ℕ} {b : Breaker} (addr : ℕ) (e : Error)
      → Seen out base start addrs first i b
      → get_elem? addrs ((start + i) % length addrs) ≡ some addr
      → dead b addr ≡ false
      → out.connect_raw i addr ≡ err e
      → Seen out base start addrs first (i + 1) (
          out.before_check
            (i + 1)
            (record_failure base (out.clock i) (out.between_locks i) addr (out.during_connect i b)))

-- What a call may report: the error of one of its attempts, or that there was no attempt.
abbrev pub Reported : Attempts → Option Error → Type 0
Reported out none = Unit {0}
Reported out (some e) =
    ((i addr : ℕ) × (out.connect_raw i addr ≡ err e))
    ⊎ (e ≡ protocol (message "all addresses failed" []))

-- What a call ends with. A connection comes from one of the addresses, in an iteration whose check
-- did not find it marked dead. It has the pool's configuration generation; the mark of the address is
-- gone when its failures are about to be forgotten, up to what other tasks do then, and they are
-- forgotten in the end. Where the call fails, each address was passed over in some iteration, and the
-- error is that of an attempt, or no attempt was made.
abbrev pub Served : Attempts → ℕ → ℕ → ℕ → List ℕ → Breaker → Breaker × Connected → Type 0
Served out base generation start addrs first (after, connected c) =
    (i addr stream now : ℕ) × (seen unmarked : Breaker) × Seen out base start addrs first i seen
    × (get_elem? addrs ((start + i) % length addrs) ≡ some addr)
    × (dead seen addr ≡ false)
    × (out.connect_raw i addr ≡ ok (stream, now))
    × (c ≡ record (new_connection stream now) { config_generation = generation })
    × (dead unmarked addr ≡ false)
    × (after.dead_addrs ≡ (out.between_locks i unmarked).dead_addrs)
    × (find_key addr after.failure_counts ≡ none)
Served out base generation start addrs first (after, refused e) =
    ((j addr : ℕ)
      → get_elem? addrs j ≡ some addr
      → (i : ℕ) × (seen : Breaker) × ((start + i) % length addrs ≡ j)
        × Seen out base start addrs first i seen
        × PassedOver out base i addr seen)
    × Reported out (some e)
Served out base generation start addrs first (after, out_of_range) = ⊥

module _ (out : Attempts) (base generation start : ℕ) (addrs : List ℕ) (first : Breaker)
    (same : (i : ℕ) → out.addrs_at i ≡ addrs) (inside : start < length addrs) where
  abbrev at : ℕ → Option ℕ
  at i = get_elem? addrs ((start + i) % length addrs)

  abbrev Sees : ℕ → Breaker → Type 0
  Sees = Seen out base start addrs first

  abbrev Passes : ℕ → ℕ → Type 0
  Passes k addr = (seen : Breaker) × Sees k seen × PassedOver out base k addr seen

  -- The addresses of the first `i` iterations were passed over.
  Visited : ℕ → Type 0
  Visited i = (k addr : ℕ) → k < i → at k ≡ some addr → Passes k addr
