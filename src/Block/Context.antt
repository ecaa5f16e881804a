-- ===== src/Block/Context.antt =====
-- `ReadColumnContext` of shared/block.rs: the reader over one column's bytes.
use st_clickhouse_lib.Common.{ℕ, List, [], ◌∷◌, none, some, length, map, ltb, ◌==◌, if◌then◌else◌}
use st_clickhouse_lib.Common.Bytes.{from_le_bytes}
use st_clickhouse_lib.Error.{protocol, message, num}
use st_clickhouse_lib.Limits.Caps.{checked_add, checked_mul}
use st_clickhouse_lib.Wire.Cursor.{Cursor, done, fail, pure, raise, ◌>>=◌}
use st_clickhouse_lib.Wire.Parse.{slice}
use st_clickhouse_lib.Skip.Primitives.{chunks}

-- `buf` and `pos` are those of the cursor.
unfoldable pub read_exact : ℕ → Cursor (List ℕ)
unfolding checked_add
read_exact n buf pos = elim (checked_add pos n) [
  | none ↦
      fail
        (protocol (
          message "ReadColumnContext: requested {} bytes at offset {}, length overflow"
            (num n ∷ num pos ∷ [])))
        pos
  | some end ↦
      if ltb (length buf) end
      then fail
          (protocol (
            message "ReadColumnContext: requested {} bytes at offset {}, buffer len {}"
              (num n ∷ num pos ∷ num (length buf) ∷ [])))
          pos
      else done (slice buf pos end) end
]

unfoldable pub read_rows_bytes : ℕ → ℕ → Cursor (List ℕ)
unfolding checked_mul read_exact
read_rows_bytes rows width = elim (checked_mul rows width) [
  | none ↦ raise (protocol (message "ReadColumnContext: row byte length overflow" []))
  | some n ↦ read_exact n
]

unfoldable pub read_offsets : ℕ → Cursor (List ℕ)
unfolding read_rows_bytes chunks
read_offsets rows =
    if rows == 0
    then pure []
    else (read_rows_bytes rows 8 >>= λ bs. pure (map from_le_bytes (chunks 8 rows bs)))
