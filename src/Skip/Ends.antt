-- ===== src/Skip/Ends.antt =====
-- Skipping returns: as many nested calls as the fuel allows are enough.
pub mod Parts
pub mod Columns
pub mod States
pub mod Dispatch
