-- ===== src/Chunked.antt =====
-- src/sync/chunked.rs and the chunked half of src/pool.rs: the chunked transport, its negotiation,
-- and the streams that strip it.
pub mod Negotiate
pub mod Framing
pub mod Reader
pub mod Agreed
