-- ===== src/Error/Kinds.antt =====
-- The error type of src/error.rs. An I/O error is known by its kind.
use st_clickhouse_lib.Common.{ℕ, List, String}

pub data IoKind : Type 0 where
  unexpected_eof invalid_data other_io : IoKind

-- A value that a message shows: a number, a fixed text, bytes that came with the input, or the cause
-- of an I/O error.
pub data Arg : Type 0 where
  num : ℕ → Arg
  txt : String → Arg
  bytes : List ℕ → Arg
  cause : IoKind → Arg

-- A format text with its arguments, or with another message for its one argument.
pub data Message : Type 0 where
  message : String → List Arg → Message
  around : String → Message → Message

pub data Error : Type 0 where
  protocol : Message → Error
  io : IoKind → Error
  compression : Message → Error
  authentication : Message → Error
  server_error : (code : ℕ) (name text : List ℕ) → Error
  timeout : Message → Error
  connection_closed : Message → Error
  config : Message → Error
  pool_timeout : Message → Error
  response_too_large : (limit received : ℕ) → Error
