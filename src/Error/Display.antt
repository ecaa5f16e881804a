-- ===== src/Error/Display.antt =====
-- The texts of the errors: `impl Display for Error` of src/error.rs.
use st_clickhouse_lib.Common.{[], ◌∷◌}
use st_clickhouse_lib.Error.Kinds.{
  Error, Message, message, num, bytes, cause, around, protocol, io, compression, authentication,
  server_error, timeout, connection_closed, config, pool_timeout, response_too_large,
}

unfoldable pub display : Error → Message
display (protocol msg) = around "protocol error: {}" msg
display (io e) = message "I/O error: {}" (cause e ∷ [])
display (compression msg) = around "compression error: {}" msg
display (authentication msg) = around "authentication error: {}" msg
display (server_error code name text) =
    message "server error (code={}, name={}): {}" (num code ∷ bytes name ∷ bytes text ∷ [])
display (timeout msg) = around "timeout: {}" msg
display (connection_closed msg) = around "connection closed: {}" msg
display (config msg) = around "configuration error: {}" msg
display (pool_timeout msg) = around "pool acquire timeout: {}" msg
display (response_too_large limit received) =
    message
      "response too large: decoded {} bytes of result blocks exceeds max_response_size {}; raise Client::with_max_response_size, or use a streaming API (rows()/BlockStream) which is not size-budgeted"
      (num received ∷ num limit ∷ [])
