-- ===== src/Limits.antt =====
-- src/limits.rs: the caps on every length and count that a server sends, and the budget of a
-- response. `usize` has 64 bits, so a `u64` always converts; the conversion is kept all the same.
pub mod Caps
pub mod Budget
