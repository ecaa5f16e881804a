-- ===== src/Response/Packets.antt =====
-- `parse_response` of sync/protocol/response_packets.rs: the loop over the packets of a response.
use st_clickhouse_lib.Common.{
  ℕ, zero, suc, List, [], ◌∷◌, ◌++◌, ◌||◌, length, ltb, ◌==◌, if◌then◌else◌,
}
use st_clickhouse_lib.Error.{protocol, server_error, message, num}
use st_clickhouse_lib.Wire.Cursor.{Outcome, done, stuck, Cursor, pure, raise, ◌>>=◌, ◌>>◌}
use st_clickhouse_lib.Wire.Parse.{parse_varint, parse_string}
use st_clickhouse_lib.Block.{Block}
use st_clickhouse_lib.Response.Blocks.{parse_block_shared, parse_block_body_shared}
use st_clickhouse_lib.Response.Exceptions.{Chain, parse_exception_chain}
use st_clickhouse_lib.Response.Skips.{
  skip_progress, skip_profile_info, skip_text, skip_part_uuids, skip_parallel_read_announcement,
}

-- What an arm of the `match` does to the loop: push a block, go on, or break.
pub data Effect : Type 0 where
  push : Block → Effect
  go_on : Effect
  stop : Effect

unfoldable pub raise_chain : Chain → Cursor Effect
raise_chain chain = raise (server_error chain.root_code chain.root_name chain.joined)

abbrev pub then_go_on : {A : Type 0} → Cursor A → Cursor Effect
then_go_on m = m >> pure go_on

module _ (fuel revision : ℕ) where
  -- `match packet_type`
  unfoldable pub packet_body : ℕ → Cursor Effect
  unfolding parse_block_shared parse_block_body_shared parse_exception_chain raise_chain
      skip_progress skip_profile_info parse_string skip_text skip_part_uuids
      skip_parallel_read_announcement
  packet_body packet_type =
      if packet_type == 1
      then (parse_block_shared fuel >>= λ block. pure (push block))
      else if packet_type == 2
      then (parse_exception_chain >>= raise_chain)
      else if packet_type == 3
      then then_go_on (skip_progress revision)
      else if packet_type == 4
      then pure go_on
      else if packet_type == 5
      then pure stop
      else if packet_type == 6
      then then_go_on (skip_profile_info revision)
      else if (packet_type == 7) || (packet_type == 8)
      then then_go_on (parse_block_shared fuel)
      else if (packet_type == 10) || (packet_type == 14)
      then then_go_on (parse_string >> parse_block_body_shared fuel)
      else if packet_type == 11
      then then_go_on (skip_text >> skip_text)
      else if packet_type == 12
      then then_go_on skip_part_uuids
      else if packet_type == 17
      then then_go_on skip_text
      else if packet_type == 15
      then then_go_on skip_parallel_read_announcement
      else if (packet_type == 13) || (packet_type == 16)
      then raise (
          protocol (
            message
              "server requested distributed read task packet {}; use streaming query APIs so the client can respond"
              (num packet_type ∷ [])))
      else if packet_type == 18
      then raise (protocol (message "unexpected SSHChallenge packet after handshake" []))
      else raise (protocol (message "unknown packet type: {}" (num packet_type ∷ [])))

  unfoldable pub parse_packet : Cursor Effect
  unfolding parse_varint packet_body
  parse_packet = do packet_type ← parse_varint; packet_body packet_type

-- `while pos < buf.len()`; a round takes a byte at least.
unfoldable pub response_loop : ℕ → ℕ → ℕ → List Block → Cursor (List Block)
response_loop fuel revision zero blocks buf pos = stuck
response_loop fuel revision (suc rounds) blocks buf pos =
    if ltb pos (length buf)
    then (parse_packet fuel revision >>= λ effect. elim effect [
      | push block ↦ response_loop fuel revision rounds (blocks ++ (block ∷ []))
      | go_on ↦ response_loop fuel revision rounds blocks
      | stop ↦ pure blocks
    ])
        buf pos
    else done blocks pos

unfoldable pub parse_response : ℕ → List ℕ → ℕ → Outcome (List Block)
unfolding response_loop
parse_response fuel arena protocol_revision =
    response_loop fuel protocol_revision (suc (length arena)) [] arena 0
