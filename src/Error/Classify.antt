-- ===== src/Error/Classify.antt =====
-- The predicates of src/error.rs that retries and the pool rest on.
pub mod Exclusive
use st_clickhouse_lib.Common.{Bool, true, false}
use st_clickhouse_lib.Error.Kinds.{
  Error, io, timeout, connection_closed, pool_timeout, response_too_large, server_error,
  authentication,
}

unfoldable pub is_timeout : Error → Bool
is_timeout (timeout m) = true
is_timeout _ = false

unfoldable pub is_pool_timeout : Error → Bool
is_pool_timeout (pool_timeout m) = true
is_pool_timeout _ = false

unfoldable pub is_connection_error : Error → Bool
is_connection_error (connection_closed m) = true
is_connection_error (timeout m) = true
is_connection_error (io k) = true
is_connection_error _ = false

unfoldable pub is_broken_connection : Error → Bool
is_broken_connection (connection_closed m) = true
is_broken_connection (io k) = true
is_broken_connection (timeout m) = true
is_broken_connection (response_too_large limit received) = true
is_broken_connection _ = false

unfoldable pub is_retryable : Error → Bool
is_retryable (io k) = true
is_retryable (timeout m) = true
is_retryable (connection_closed m) = true
is_retryable (pool_timeout m) = true
is_retryable _ = false

unfoldable pub is_server_error : Error → Bool
is_server_error (server_error code name text) = true
is_server_error _ = false

unfoldable pub is_authentication_error : Error → Bool
is_authentication_error (authentication m) = true
is_authentication_error _ = false
