-- ===== src/Query.antt =====
-- The parts of a query packet: its parameters (shared/parameters.rs).
pub mod Parameters
pub mod Literal
pub mod Quoting
