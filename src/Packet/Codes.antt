-- ===== src/Packet/Codes.antt =====
-- The codes of shared/packet.rs and the packets they stand for.
use st_clickhouse_lib.Common.{ℕ, ◌≡◌, ◌<◌, Result, ok, err, arith}
use st_clickhouse_lib.Error.{Error}
use st_clickhouse_lib.Packet.{ServerPacket, server_code, from_u64}

-- What is read for a code is the packet of that code, and only a code above 18 is refused.
pub Exact : ℕ → Result ServerPacket Error → Type 0
Exact code (ok p) = code ≡ server_code p
Exact code (err e) = 18 < code

-- For every code: what is read is the packet that has this code, and the code is refused only if it is
-- above 18, the last one that the protocol knows.
pub from_u64-Exact : (code : ℕ) → Exact code (from_u64 code)
unfolding Exact from_u64 server_code
from_u64-Exact code = ground arith
