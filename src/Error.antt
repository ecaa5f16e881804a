-- ===== src/Error.antt =====
-- src/error.rs: the errors of the client, and how callers classify them.
-- A message keeps its format text and, in order, the values that are formatted into it.
mod Kinds
pub mod Classify
pub mod Display
pub use Kinds.{
  Message, message, num, txt, bytes, cause, around, Arg, IoKind, unexpected_eof, invalid_data,
  other_io, Error,
}
pub use Kinds.{
  protocol, io, compression, authentication, server_error, timeout, connection_closed, config,
  pool_timeout, response_too_large,
}
