-- ===== src/Response.antt =====
-- sync/protocol/response.rs and response_packets.rs: a whole response in one buffer.
pub mod Spans
pub mod Lookup
pub mod LowCardinality
pub mod Columns
pub mod Blocks
pub mod Exceptions
pub mod Skips
pub mod Packets
pub mod Ends
