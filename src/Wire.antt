-- ===== src/Wire.antt =====
-- shared/wire.rs: the binary format of the native protocol. `parse_*` read a buffer at a position,
-- `read_*` read a byte source, `write_*` append to a writer.
pub mod Cursor
pub mod Utf8
pub mod Lossy
pub mod Parse
pub mod Read
pub mod Exact
pub mod Source
pub mod Write
pub mod Encoding
pub mod RoundTrip
pub mod Strings
pub mod Agreement
pub mod Reads
pub mod Ends
pub mod Bounds
pub mod Takes
pub mod Parses
pub mod Reading
