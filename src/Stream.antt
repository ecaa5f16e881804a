-- ===== src/Stream.antt =====
-- `StreamWrapper` of src/pool.rs: the async transport below the protocol parsers, polled again after
-- every `Pending`. The socket is the list of what its polls bring.
pub mod Socket
pub mod Raw
pub mod Framed
