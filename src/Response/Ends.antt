-- ===== src/Response/Ends.antt =====
-- Reading a whole response returns, on any bytes.
pub mod Parts
pub mod LowCardinality
pub mod Blocks
pub mod Loop
