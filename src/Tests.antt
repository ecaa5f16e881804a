-- ===== src/Tests.antt =====
-- Concrete runs of the definitions, and the theorems at concrete inputs.
mod Types
mod Wire
mod Limits
mod Skip
mod Chunked
mod Compression
mod Errors
mod Stream
mod Pool
mod Response
mod Handshake
mod LowCardinality
mod Query
