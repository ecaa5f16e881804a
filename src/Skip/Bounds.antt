-- ===== src/Skip/Bounds.antt =====
-- Skipping stays inside the buffer and looks at nothing behind the column, whatever the server sent.
pub mod Parts
pub mod Columns
pub mod Dispatch
