-- ===== src/Chunked/Negotiate.antt =====
-- Which directions are chunked: `choose_chunked_mode` and `negotiate_chunked_transport` of
-- src/sync/chunked.rs, and the latter of src/pool.rs, whose client always asks `chunked_optional`.
use st_clickhouse_lib.Common.{
  ℕ, List, [], ◌∷◌, Bool, false, ◌||◌, Result, ok, err, ◌>>=◌, ltb, if◌then◌else◌, String,
}
use mathlib.Core.Bool.{xor}
use st_clickhouse_lib.Error.{Error, protocol, message, txt}
use st_clickhouse_lib.TypeParser.Text.{codes, starts_with, ends_with, bytes_eq}

abbrev pub min_revision_with_chunked_packets : ℕ
min_revision_with_chunked_packets = 54470

-- What negotiation reads of `ServerInfo`.
pub record ServerInfo : Type 0 where
  pub negotiated_revision : ℕ
  pub proto_send_chunked_srv : List ℕ
  pub proto_recv_chunked_srv : List ℕ

-- The modes are the texts `chunked` and `notchunked`.
pub record ChunkedNegotiation : Type 0 where
  pub send_mode : List ℕ
  pub recv_mode : List ℕ
  pub send_chunked : Bool
  pub recv_chunked : Bool

abbrev pub mode_text : Bool → List ℕ
mode_text chunked = codes (if chunked then "chunked" else "notchunked")

abbrev pub not_chunked : ChunkedNegotiation
not_chunked = record {
  send_mode = mode_text false;
  recv_mode = mode_text false;
  send_chunked = false;
  recv_chunked = false;
}

abbrev pub is_chunked : List ℕ → Bool
is_chunked capability = starts_with (codes "chunked") capability

abbrev pub is_optional : List ℕ → Bool
is_optional capability = ends_with (codes "_optional") capability

unfoldable pub choose_chunked_mode : List ℕ → List ℕ → String → Result Bool Error
unfolding starts_with ends_with
choose_chunked_mode server_capability client_capability direction =
    let server_chunked = is_chunked server_capability in
    let client_chunked = is_chunked client_capability in
    if is_optional server_capability
    then ok client_chunked
    else if is_optional client_capability
    then ok server_chunked
    else if xor client_chunked server_chunked
    then err (
        protocol (
          message "incompatible chunked protocol for {}: client and server differ"
            (txt direction ∷ [])))
    else ok server_chunked

unfoldable pub chosen_modes : List ℕ → List ℕ → ServerInfo → Result ChunkedNegotiation Error
unfolding choose_chunked_mode
chosen_modes client_send client_recv server_info = do
  send_chunked ← choose_chunked_mode server_info.proto_recv_chunked_srv client_send "send"
  recv_chunked ← choose_chunked_mode server_info.proto_send_chunked_srv client_recv "recv"
  ok (record {
    send_mode = mode_text send_chunked;
    recv_mode = mode_text recv_chunked;
    send_chunked = send_chunked;
    recv_chunked = recv_chunked;
  })

-- The blocking client, with its configured modes for the two directions.
unfoldable pub negotiate_sync : ServerInfo → List ℕ → List ℕ → Result ChunkedNegotiation Error
unfolding chosen_modes bytes_eq
negotiate_sync server_info client_send client_recv =
    if ltb server_info.negotiated_revision min_revision_with_chunked_packets
    then (if bytes_eq client_send (codes "chunked") || bytes_eq client_recv (codes "chunked")
        then err (protocol (message "server revision does not support chunked native protocol" []))
        else ok not_chunked)
    else chosen_modes client_send client_recv server_info

-- The async client.
unfoldable pub negotiate_async : ServerInfo → Result ChunkedNegotiation Error
unfolding chosen_modes
negotiate_async server_info =
    if ltb server_info.negotiated_revision min_revision_with_chunked_packets
    then ok not_chunked
    else chosen_modes (codes "chunked_optional") (codes "chunked_optional") server_info
