-- ===== src/Tests/Errors.antt =====
-- The classes of errors at one error.
use st_clickhouse_lib.Error.{pool_timeout, message}
use st_clickhouse_lib.Common.{[]}
use st_clickhouse_lib.Error.Classify.Exclusive.{Consistent, classes-Consistent}

classes-Consistent_example : Consistent (pool_timeout (message "no connection in time" []))
classes-Consistent_example = classes-Consistent (pool_timeout (message "no connection in time" []))
