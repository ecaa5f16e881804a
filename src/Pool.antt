-- ===== src/Pool.antt =====
-- src/pool.rs: the connection pool.
pub mod Rotation
pub mod Addresses
pub mod Connect
pub mod Slots
pub mod Steps
pub mod Clean
pub mod Cooldown
pub mod Sweep
