-- ===== src/Limits/Caps.antt =====
-- The checked conversions of src/limits.rs. `what` names the field in the message.
use st_clickhouse_lib.Common.{
  ℕ, ◌+◌, ◌*◌, ◌^◌, [], ◌∷◌, Option, none, some, String, Result, ok, err, ◌>>=◌, ltb, if◌then◌else◌,
}
use st_clickhouse_lib.Error.{Message, message, num, txt}

abbrev pub usize_mod : ℕ
usize_mod = 2 ^ 64

abbrev pub max_chunk_len : ℕ
max_chunk_len = 64 * 1024 * 1024

abbrev pub max_json_dynamic_items : ℕ
max_json_dynamic_items = 65_536

abbrev pub max_block_rows : ℕ
max_block_rows = 10_000_000

abbrev pub max_string_bytes : ℕ
max_string_bytes = 0x00ff_ffff

abbrev pub max_column_bytes : ℕ
max_column_bytes = 64 * 1024 * 1024

abbrev pub max_block_bytes : ℕ
max_block_bytes = 1024 * 1024 * 1024

-- `usize::try_from` on a `u64`, `checked_add` and `checked_mul` on a `usize`.
unfoldable pub usize_try_from : ℕ → Option ℕ
usize_try_from v = if ltb v usize_mod then some v else none

unfoldable pub checked_add : ℕ → ℕ → Option ℕ
checked_add a b = if ltb (a + b) usize_mod then some (a + b) else none

unfoldable pub checked_mul : ℕ → ℕ → Option ℕ
checked_mul a b = if ltb (a * b) usize_mod then some (a * b) else none

abbrev pub ok_or {ℓ κ} : {A : Type ℓ} {E : Type κ} → Option A → E → Result A E
ok_or none e = err e
ok_or (some a) e = ok a

abbrev at_most : ℕ → ℕ → Message → Result ℕ Message
at_most value limit e = if ltb limit value then err e else ok value

unfoldable pub checked_string_len : ℕ → String → Result ℕ Message
unfolding usize_try_from
checked_string_len value what = do
  let e = message "{} {} exceeds limit {}" (txt what ∷ num value ∷ num max_string_bytes ∷ [])
  n ← ok_or (usize_try_from value) e
  at_most n max_string_bytes e

unfoldable pub checked_column_bytes : ℕ → ℕ → String → Result ℕ Message
unfolding checked_add
checked_column_bytes acc add what = do
  total ← ok_or (checked_add acc add) (message "{} cumulative byte length overflow" (txt what ∷ []))
  at_most total max_column_bytes (
      message "{} cumulative byte length {} exceeds limit {}"
        (txt what ∷ num total ∷ num max_column_bytes ∷ []))

unfoldable pub checked_block_bytes : ℕ → ℕ → String → Result ℕ Message
unfolding checked_add
checked_block_bytes acc add what = do
  total ← ok_or (checked_add acc add) (message "{} cumulative byte length overflow" (txt what ∷ []))
  at_most total max_block_bytes (
      message "{} cumulative byte length {} exceeds limit {}"
        (txt what ∷ num total ∷ num max_block_bytes ∷ []))

unfoldable pub checked_column_len : ℕ → ℕ → String → Result ℕ Message
unfolding checked_mul
checked_column_len rows width what = do
  len ← ok_or (checked_mul rows width) (message "{} byte length overflow" (txt what ∷ []))
  at_most len max_column_bytes (
      message "{} byte length {} exceeds limit {}" (txt what ∷ num len ∷ num max_column_bytes ∷ []))

unfoldable pub checked_nested_total : ℕ → String → Result ℕ Message
unfolding usize_try_from
checked_nested_total value what = do
  let e = message "{} total {} exceeds limit {}" (txt what ∷ num value ∷ num max_block_rows ∷ [])
  n ← ok_or (usize_try_from value) e
  at_most n max_block_rows e

unfoldable pub checked_monotonic_offset : ℕ → ℕ → String → Result ℕ Message
unfolding checked_nested_total
checked_monotonic_offset prev value what = do
  n ← checked_nested_total value what
  if ltb n prev
      then err (message "{} decreased from {} to {}" (txt what ∷ num prev ∷ num n ∷ []))
      else ok n

unfoldable pub checked_count : ℕ → String → ℕ → Result ℕ Message
unfolding usize_try_from
checked_count value what limit = do
  let e = message "{} count {} exceeds limit {}" (txt what ∷ num value ∷ num limit ∷ [])
  n ← at_most value limit e
  ok_or (usize_try_from n) e
