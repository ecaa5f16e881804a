-- ===== src/Error/Classify/Exclusive.antt =====
-- How the classes of errors relate.
use st_clickhouse_lib.Common.{◌≡◌, refl, false, ◌&&◌, ◌||◌, not}
use st_clickhouse_lib.Error.Kinds.{
  Error, protocol, io, compression, authentication, server_error, timeout, connection_closed,
  config, pool_timeout, response_too_large,
}
use st_clickhouse_lib.Error.Classify.{
  is_timeout, is_pool_timeout, is_connection_error, is_broken_connection, is_retryable,
  is_server_error, is_authentication_error,
}

abbrev pub Consistent : Error → Type 0
Consistent e =
    ((is_broken_connection e && is_retryable e) ≡ is_connection_error e)
    × ((is_retryable e && not (is_broken_connection e)) ≡ is_pool_timeout e)
    × ((is_timeout e && is_broken_connection e) ≡ is_timeout e)
    × (((is_server_error e || is_authentication_error e)
          && (is_broken_connection e || is_retryable e))
        ≡ false)

-- For every error: it breaks the connection and may be retried exactly if it is an error of the
-- connection; it may be retried and leaves the connection usable exactly if it is the pool's timeout;
-- a timeout breaks the connection; and an exception or a refused login of the server neither breaks
-- the connection nor may be retried.
pub classes-Consistent : (e : Error) → Consistent e
unfolding is_timeout is_pool_timeout is_connection_error is_broken_connection is_retryable
    is_server_error is_authentication_error
classes-Consistent (protocol m) = (refl, refl, refl, refl)
classes-Consistent (io k) = (refl, refl, refl, refl)
classes-Consistent (compression m) = (refl, refl, refl, refl)
classes-Consistent (authentication m) = (refl, refl, refl, refl)
classes-Consistent (server_error c n t) = (refl, refl, refl, refl)
classes-Consistent (timeout m) = (refl, refl, refl, refl)
classes-Consistent (connection_closed m) = (refl, refl, refl, refl)
classes-Consistent (config m) = (refl, refl, refl, refl)
classes-Consistent (pool_timeout m) = (refl, refl, refl, refl)
classes-Consistent (response_too_large l r) = (refl, refl, refl, refl)
