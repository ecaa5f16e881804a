-- ===== src/Packet.antt =====
-- shared/packet.rs: the packets of the server and their codes.
pub mod Codes
use st_clickhouse_lib.Common.{
  ℕ, ◌+◌, ◌≤◌, ◌<◌, ◌≡◌, ◌⊎◌, inl, inr, refl, [], ◌∷◌, Result, ok, err, ltb, ◌==◌, if◌then◌else◌,
  arith,
}
use st_clickhouse_lib.Error.{Error, protocol, message, num}

pub data ServerPacket : Type 0 where
  hello data_block exception progress pong end_of_stream profile_info totals extremes : ServerPacket
  tables_status_response log table_columns part_uuids read_task_request : ServerPacket
  profile_events merge_tree_all_ranges_announcement merge_tree_read_task_request : ServerPacket
  timezone_update ssh_challenge : ServerPacket

-- `as u64`
unfoldable pub server_code : ServerPacket → ℕ
server_code hello = 0
server_code data_block = 1
server_code exception = 2
server_code progress = 3
server_code pong = 4
server_code end_of_stream = 5
server_code profile_info = 6
server_code totals = 7
server_code extremes = 8
server_code tables_status_response = 9
server_code log = 10
server_code table_columns = 11
server_code part_uuids = 12
server_code read_task_request = 13
server_code profile_events = 14
server_code merge_tree_all_ranges_announcement = 15
server_code merge_tree_read_task_request = 16
server_code timezone_update = 17
server_code ssh_challenge = 18

unfoldable pub from_u64 : ℕ → Result ServerPacket Error
from_u64 code =
    if code == 0
    then ok hello
    else if code == 1
    then ok data_block
    else if code == 2
    then ok exception
    else if code == 3
    then ok progress
    else if code == 4
    then ok pong
    else if code == 5
    then ok end_of_stream
    else if code == 6
    then ok profile_info
    else if code == 7
    then ok totals
    else if code == 8
    then ok extremes
    else if code == 9
    then ok tables_status_response
    else if code == 10
    then ok log
    else if code == 11
    then ok table_columns
    else if code == 12
    then ok part_uuids
    else if code == 13
    then ok read_task_request
    else if code == 14
    then ok profile_events
    else if code == 15
    then ok merge_tree_all_ranges_announcement
    else if code == 16
    then ok merge_tree_read_task_request
    else if code == 17
    then ok timezone_update
    else if code == 18
    then ok ssh_challenge
    else err (protocol (message "unknown server packet: {}" (num code ∷ [])))
