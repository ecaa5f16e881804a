-- ===== src/Pool/Connect.antt =====
-- `SimplePool::connect_round_robin` of src/pool.rs. What the outside decides is an argument: the
-- addresses that the read lock yields in each iteration, the outcome of `connect_raw` there, the
-- clock, and what other tasks make of the shared breaker between the locks of the call.
pub mod Served
use st_clickhouse_lib.Common.{
  ℕ, zero, suc, ◌+◌, ◌%◌, ◌^◌, List, [], ◌∷◌, Bool, true, false, Option, none, some, Result, ok,
  err, length, get_elem?, ◌==◌, if◌then◌else◌,
}
use st_clickhouse_lib.Error.{Error, protocol, config, message}
use st_clickhouse_lib.Pool.Addresses.{
  Addresses, Breaker, contains_key, record_success, record_failure, prune_expired, refresh_dns,
}

-- `Connection`, with the socket as a number.
pub record Connection : Type 0 where
  pub stream : ℕ
  pub created_at : ℕ
  pub last_used_at : ℕ
  pub config_generation : ℕ
  pub response_in_flight : Bool

-- What `connect_raw` returns once the handshake on the socket `stream` is through, at `now`.
unfoldable pub new_connection : ℕ → ℕ → Connection
new_connection stream now = record {
  stream = stream;
  created_at = now;
  last_used_at = now;
  config_generation = 0;
  response_in_flight = false;
}

-- A connection, an error, or the panic of `addrs[idx]` out of range.
pub data Connected : Type 0 where
  connected : Connection → Connected
  refused : Error → Connected
  out_of_range : Connected

unfoldable pub last_error : Option Error → Error
last_error (some e) = e
last_error none = protocol (message "all addresses failed" [])

-- The outside, during one call. In each iteration an attempt ends with a socket and the instant, or an
-- error; and the tasks that share the breaker may change it whenever this call holds none of its locks:
-- before expired marks are pruned, before the check of an iteration, while it connects, and between
-- the locks behind that.
pub record Attempts : Type 0 where
  pub before_prune : Breaker → Breaker
  pub before_check : ℕ → Breaker → Breaker
  pub during_connect : ℕ → Breaker → Breaker
  pub between_locks : ℕ → Breaker → Breaker
  pub addrs_at : ℕ → List ℕ
  pub connect_raw : ℕ → ℕ → Result (ℕ × ℕ) Error
  pub clock : ℕ → ℕ

-- The loop over `i in 0..n`, with `left` iterations to go; `generation` is the pool's.
unfoldable pub connect_loop :
    Attempts → ℕ → ℕ → ℕ → ℕ → ℕ → ℕ → Option Error → Breaker → Breaker × Connected
unfolding contains_key record_success record_failure last_error new_connection
connect_loop out base generation n start zero i last_err b = (b, refused (last_error last_err))
connect_loop out base generation n start (suc left) i last_err b =
    elim (get_elem? (out.addrs_at i) ((start + i) % n)) [
      | none ↦ (b, out_of_range)
      | some addr ↦
          let seen = out.before_check i b in
          let skipped = connect_loop out base generation n start left (i + 1) last_err seen in
          if contains_key addr seen.dead_addrs then skipped else elim (out.connect_raw i addr) [
            | ok (stream, now) ↦ (
              record_success (out.between_locks i) addr (out.during_connect i seen),
              connected (record (new_connection stream now) { config_generation = generation }),
            )
            | err e ↦ connect_loop out base generation n start left (i + 1) (some e) (
                record_failure base (out.clock i) (out.between_locks i) addr
                  (out.during_connect i seen))
          ]
    ]

unfoldable pub zero_timeout : Option ℕ → Bool
zero_timeout none = false
zero_timeout (some t) = t == 0

-- The whole call at the instant `now`. `lookup_host` is the resolver that `refresh_dns` asks.
unfoldable pub connect_round_robin :
    Attempts → (List ℕ → Result (List ℕ) Error) → ℕ → ℕ → Addresses → Addresses × Connected
unfolding connect_loop refresh_dns prune_expired zero_timeout
connect_round_robin out lookup_host generation now p =
    let refreshed = (refresh_dns lookup_host now p).0 in
    let n = length refreshed.addrs in
    let result =
      connect_loop out p.dead_addr_cooldown generation n (refreshed.current_addr % n) n 0 none
        (prune_expired now (out.before_prune refreshed.breaker)) in
    let served : Addresses × Connected = (
      record refreshed { current_addr = (refreshed.current_addr + 1) % 2 ^ 64; breaker = result.0 },
      result.1,
    ) in
    if length p.addrs == 0
    then (p, refused (config (message "no addresses configured" [])))
    else if zero_timeout p.connect_timeout
    then (p, refused (config (message "connect_timeout must be greater than zero" [])))
    else served
