-- ===== src/Compression.antt =====
-- src/sync/compression/mod.rs, whose frames src/compression/mod.rs shares word for word: the
-- frames around compressed blocks, and the reader that serves a sequence of them.
pub mod Frame
pub mod Decode
pub mod Genuine
pub mod RoundTrip
pub mod Reader
