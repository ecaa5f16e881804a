-- ===== src/Chunked/Agreed.antt =====
-- What the negotiation of chunked mode promises to both ends of the connection.
use st_clickhouse_lib.Common.{
  ℕ, List, [], Bool, true, false, not, ◌&&◌, ◌||◌, Result, ok, err, ltb, if◌then◌else◌, String, ◌≡◌,
  refl, Bool-cases, inl, inr,
}
use st_clickhouse_lib.Error.{Error, protocol, message}
use st_clickhouse_lib.TypeParser.Text.{codes, starts_with, ends_with}
use st_clickhouse_lib.Chunked.Negotiate.{
  mode_text, not_chunked, ServerInfo, ChunkedNegotiation, choose_chunked_mode, chosen_modes,
  negotiate_async, is_chunked, is_optional, min_revision_with_chunked_packets,
}
use mathlib.Core.Bool.{xor}

-- A capability accepts the mode it names, and the other one too where it is optional.
suits : Bool → Bool → Bool → Bool
suits optional names mode = optional || not (xor names mode)

pub accepts : List ℕ → Bool → Bool
unfolding suits
accepts capability mode = suits (is_optional capability) (is_chunked capability) mode

-- A mode that both ends accept, or an error where there is none.
MeetingOf : (Bool → Bool) → (Bool → Bool) → Result Bool Error → Type 0
MeetingOf server client (ok mode) = (server mode ≡ true) × (client mode ≡ true)
MeetingOf server client (err _) = (mode : Bool) → server mode && client mode ≡ false

pub Agreed : List ℕ → List ℕ → Result Bool Error → Type 0
unfolding MeetingOf
Agreed server client = MeetingOf (accepts server) (accepts client)

-- The choice, as a table over the four tests it makes.
choose_table : Bool → Bool → Bool → Bool → Error → Result Bool Error
choose_table server_optional client_optional server client e =
    if server_optional
    then ok client
    else if client_optional
    then ok server
    else if xor client server
    then err e
    else ok server

-- Two capabilities that are not optional and differ have no mode in common.
clash : (server mode : Bool) → suits false server mode && suits false (not server) mode ≡ false
unfolding suits xor
clash true true = refl
clash true false = refl
clash false true = refl
clash false false = refl

choose_table-Meeting :
    (so co s c : Bool) (e : Error) → MeetingOf (suits so s) (suits co c) (choose_table so co s c e)
unfolding MeetingOf suits choose_table xor
choose_table-Meeting true true _ true _ = (refl, refl)
choose_table-Meeting true true _ false _ = (refl, refl)
choose_table-Meeting true false _ true _ = (refl, refl)
choose_table-Meeting true false _ false _ = (refl, refl)
choose_table-Meeting false true true _ _ = (refl, refl)
choose_table-Meeting false true false _ _ = (refl, refl)
choose_table-Meeting false false true true _ = (refl, refl)
choose_table-Meeting false false true false _ = clash true
choose_table-Meeting false false false true _ = clash false
choose_table-Meeting false false false false _ = (refl, refl)

-- For any two capabilities, `choose_chunked_mode` picks a mode that both the server's and the
-- client's capability accept, and fails only where no mode suits both.
pub choose_chunked_mode-Agreed :
    (server client : List ℕ) (direction : String)
    → Agreed server client (choose_chunked_mode server client direction)
unfolding choose_chunked_mode Agreed accepts choose_table
choose_chunked_mode-Agreed server client direction =
    choose_table-Meeting (is_optional server) (is_optional client) (is_chunked server)
      (is_chunked client) _

optional_table :
    (so s : Bool) (e : Error)
    → (m : Bool) × (choose_table so true s true e ≡ ok m) × (suits so s m ≡ true)
unfolding choose_table suits xor
optional_table true _ _ = (true, refl, refl)
optional_table false true _ = (true, refl, refl)
optional_table false false _ = (false, refl, refl)

-- A client that asks `chunked_optional` takes a mode the server accepts, and never fails.
choose_optional :
    (server : List ℕ) (direction : String)
    → (m : Bool) × (choose_chunked_mode server (codes "chunked_optional") direction ≡ ok m)
      × (accepts server m ≡ true)
unfolding choose_chunked_mode accepts choose_table starts_with ends_with
choose_optional server direction =
    optional_table (is_optional server) (is_chunked server) (protocol (message "" []))

abbrev modes : Bool → Bool → ChunkedNegotiation
modes send recv = record {
  send_mode = mode_text send;
  recv_mode = mode_text recv;
  send_chunked = send;
  recv_chunked = recv;
}

-- For any server, the pool's client never fails to negotiate: below the revision that has chunked
-- packets it speaks no chunks, and otherwise it uses in each direction a mode that the server's
-- capability for the opposite direction accepts.
pub negotiate_async_lem :
    (info : ServerInfo)
    → (n : ChunkedNegotiation) × (negotiate_async info ≡ ok n)
      × (if ltb info.negotiated_revision min_revision_with_chunked_packets
          then ((n.send_chunked ≡ false) × (n.recv_chunked ≡ false))
          else ((accepts info.proto_recv_chunked_srv n.send_chunked ≡ true)
              × (accepts info.proto_send_chunked_srv n.recv_chunked ≡ true)))
unfolding negotiate_async accepts suits
negotiate_async_lem info =
    elim (Bool-cases (ltb info.negotiated_revision min_revision_with_chunked_packets)) [
      | inl old ↦ (not_chunked, rw old refl, rw old (refl, refl))
      | inr new ↦
          let (m, em, am) = choose_optional info.proto_recv_chunked_srv "send" in
          let (k, ek, ak) = choose_optional info.proto_send_chunked_srv "recv" in
          (modes m k, rw new (unfold chosen_modes in rw (em, ek) refl), rw new (am, ak))
    ]
