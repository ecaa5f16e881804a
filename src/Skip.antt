-- ===== src/Skip.antt =====
-- shared/skip_column.rs: skipping the wire bytes of one column of a buffered block. The functions
-- of the source call one another; here each takes the ones that it recurs into as a `Skipper`, and
-- `skipper fuel` ties the knot.
pub mod State
pub mod Primitives
pub mod Body
pub mod Column
pub mod Dispatch
pub mod Bounds
pub mod Fixed
pub mod Layers
pub mod Ends
