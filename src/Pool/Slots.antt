-- ===== src/Pool/Slots.antt =====
-- The slots of `SimplePool` (src/pool.rs), `get` on the slot that it locked, and the operations of
-- `PoolGuard`. A slot is locked while a guard holds it.
use st_clickhouse_lib.Common.{
  ℕ, ◌-◌, List, Bool, true, false, not, ◌&&◌, ◌||◌, Option, none, some, Result, ok, err, leb, ◌==◌,
  if◌then◌else◌,
}
use st_clickhouse_lib.Error.{Error}
use st_clickhouse_lib.Error.Classify.{is_broken_connection}
use st_clickhouse_lib.Pool.Addresses.{Addresses}
use st_clickhouse_lib.Pool.Connect.{
  Connection, connected, refused, out_of_range, Attempts, connect_round_robin,
}

pub record Slot : Type 0 where
  pub locked : Bool
  pub connection : Option Connection

pub record SimplePool : Type 0 where
  pub slots : List Slot
  pub next_idx : ℕ
  pub config_generation : ℕ
  pub ttl : ℕ
  pub ping_idle_threshold : ℕ
  pub addresses : Addresses

unfoldable pub connection_expired : ℕ → ℕ → Connection → Bool
connection_expired now ttl conn = not (ttl == 0) && leb ttl (now - conn.created_at)

unfoldable pub connection_config_stale : ℕ → Connection → Bool
connection_config_stale generation conn = not (conn.config_generation == generation)

unfoldable pub should_liveness_ping : ℕ → ℕ → Bool
should_liveness_ping idle threshold = leb threshold idle

-- What the outside decides during one `get`: its instant, the resolver, the attempts of the first
-- connect and of the reconnect, and whether the Ping is answered by a Pong.
pub record Outside : Type 0 where
  pub now : ℕ
  pub lookup_host : List ℕ → Result (List ℕ) Error
  pub first_attempts : Attempts
  pub second_attempts : Attempts
  pub is_connection_alive : Bool

-- How `get` ends on its slot; `acquired` hands out a guard.
pub data Acquired : Type 0 where
  acquired : Acquired
  failed : Error → Acquired
  panicked : Acquired

unfoldable pub should_reconnect : Outside → SimplePool → Connection → Bool
unfolding connection_expired connection_config_stale should_liveness_ping
should_reconnect out p conn =
    if connection_expired out.now p.ttl conn || connection_config_stale p.config_generation conn
    then true
    else should_liveness_ping (out.now - conn.last_used_at) p.ping_idle_threshold
      && not out.is_connection_alive

-- The connect of a slot that is to be replaced: what stands in it afterwards.
unfoldable pub reconnect :
    Outside → SimplePool → Addresses → Connection → Addresses × Option Connection × Acquired
unfolding connect_round_robin
reconnect out p addresses conn =
    let r =
      connect_round_robin out.second_attempts out.lookup_host p.config_generation out.now
        addresses in
    elim r.1 [
      | connected c ↦ (r.0, some c, acquired)
      | refused e ↦ (r.0, none, failed e)
      | out_of_range ↦ (r.0, some conn, panicked)
    ]

unfoldable pub check_connection :
    Outside → SimplePool → Addresses → Connection → Addresses × Option Connection × Acquired
unfolding should_reconnect reconnect
check_connection out p addresses conn =
    if should_reconnect out p conn
    then reconnect out p addresses conn
    else (addresses, some conn, acquired)

-- `get` once its slot is locked: the slot may be empty, and is then connected first.
unfoldable pub get_slot :
    Outside → SimplePool → Option Connection → Addresses × Option Connection × Acquired
unfolding check_connection connect_round_robin
get_slot out p (some conn) = check_connection out p p.addresses conn
get_slot out p none =
    let r =
      connect_round_robin out.first_attempts out.lookup_host p.config_generation out.now
        p.addresses in
    elim r.1 [
      | connected c ↦ check_connection out p r.0 c
      | refused e ↦ (r.0, none, failed e)
      | out_of_range ↦ (r.0, none, panicked)
    ]

-- The operations of a guard, on the connection in its slot.
unfoldable pub take_stream : Option Connection → Option Connection
take_stream _ = none

unfoldable pub set_in_flight : Bool → Option Connection → Option Connection
set_in_flight flag none = none
set_in_flight flag (some conn) = some (record conn { response_in_flight = flag })

unfoldable pub mark_response_in_flight : Option Connection → Option Connection
unfolding set_in_flight
mark_response_in_flight = set_in_flight true

unfoldable pub clear_response_in_flight : Option Connection → Option Connection
unfolding set_in_flight
clear_response_in_flight = set_in_flight false

unfoldable pub invalidate_on_err : Result (Unit {0}) Error → Option Connection → Option Connection
unfolding is_broken_connection take_stream
invalidate_on_err (ok _) slot = slot
invalidate_on_err (err e) slot = if is_broken_connection e then take_stream slot else slot

unfoldable pub finish_response : Result (Unit {0}) Error → Option Connection → Option Connection
unfolding invalidate_on_err clear_response_in_flight
finish_response result slot = invalidate_on_err result (clear_response_in_flight slot)

unfoldable pub response_in_flight_of : Option Connection → Bool
response_in_flight_of none = false
response_in_flight_of (some conn) = conn.response_in_flight

unfoldable pub touch : ℕ → Option Connection → Option Connection
touch now none = none
touch now (some conn) = some (record conn { last_used_at = now })

-- `PoolGuard::drop` at the instant `now`.
unfoldable pub drop_guard : ℕ → Option Connection → Option Connection
unfolding response_in_flight_of take_stream touch
drop_guard now slot = if response_in_flight_of slot then take_stream slot else touch now slot
