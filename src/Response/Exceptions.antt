-- ===== src/Response/Exceptions.antt =====
-- `parse_exception_chain` of sync/protocol/response_packets.rs.
pub mod Numbers
pub mod RoundTrip
pub mod Texts
use st_clickhouse_lib.Common.{
  ℕ, zero, suc, ◌+◌, ◌-◌, ◌/◌, ◌%◌, ◌^◌, List, [], ◌∷◌, ◌++◌, none, some, ltb, ◌==◌, if◌then◌else◌,
  get_elem?,
}
use st_clickhouse_lib.Error.{protocol, message, num}
use st_clickhouse_lib.TypeParser.Text.{codes}
use st_clickhouse_lib.Wire.Cursor.{Cursor, pure, raise, ◌>>=◌}
use st_clickhouse_lib.Wire.Parse.{parse_bytes, parse_string_bytes, parse_i32}
use st_clickhouse_lib.Wire.Lossy.{from_utf8_lossy}

abbrev pub max_exception_chain_depth : ℕ
max_exception_chain_depth = 1000

-- `{code}` in a format text, for an `i32` with this bit pattern, which has ten digits at most.
unfoldable pub decimal_text : ℕ → ℕ → List ℕ
decimal_text zero n = []
decimal_text (suc digits) n =
    let higher = decimal_text digits (n / 10) in
    if ltb n 10 then (48 + n) ∷ [] else higher ++ ((48 + n % 10) ∷ [])

unfoldable pub i32_text : ℕ → List ℕ
unfolding decimal_text
i32_text code =
    if ltb code (2 ^ 31) then decimal_text 10 code else codes "-" ++ decimal_text 10 (2 ^ 32 - code)

-- What one exception of the chain says; the stack trace is dropped.
pub record Level : Type 0 where
  pub code : ℕ
  pub name : List ℕ
  pub text : List ℕ

-- The entry of `parts` for a level.
unfoldable pub part : Level → List ℕ
unfolding i32_text
part level = level.name ++ (codes " (code " ++ (i32_text level.code ++ (codes "): " ++ level.text)))

-- `parts.join(" | nested: ")`
unfoldable pub join : List Level → List ℕ
unfolding part
join [] = []
join (level ∷ []) = part level
join (level ∷ next ∷ levels) =
    let rest = join (next ∷ levels) in part level ++ (codes " | nested: " ++ rest)

unfoldable pub parse_level : Cursor Level
unfolding parse_i32 parse_string_bytes from_utf8_lossy
parse_level = do
  code ← parse_i32
  name ← parse_string_bytes
  text ← parse_string_bytes
  stack ← parse_string_bytes
  pure (record { code = code; name = from_utf8_lossy name; text = from_utf8_lossy text })

abbrev pub first_or_zero : List ℕ → ℕ
first_or_zero bs = elim (get_elem? bs 0) [ none ↦ 0 | some b ↦ b ]

-- The loop, with `left` more levels before the cap.
unfoldable pub exception_levels : ℕ → Cursor (List Level)
unfolding parse_level parse_bytes
exception_levels zero = raise (
    protocol (
      message "exception nesting too deep: more than {} levels"
        (num max_exception_chain_depth ∷ [])))
exception_levels (suc left) = do
  level ← parse_level
  flag ← parse_bytes 1
  if first_or_zero flag == 0
      then pure (level ∷ [])
      else (exception_levels left >>= λ levels. pure (level ∷ levels))

-- The code and the name of the root, and the whole chain in one message.
pub record Chain : Type 0 where
  pub root_code : ℕ
  pub root_name : List ℕ
  pub joined : List ℕ

unfoldable pub chain_of : List Level → Chain
unfolding join
chain_of [] = record { root_code = 0; root_name = codes "unknown"; joined = join [] }
chain_of (level ∷ levels) = record {
  root_code = level.code;
  root_name = level.name;
  joined = join (level ∷ levels);
}

unfoldable pub parse_exception_chain : Cursor Chain
unfolding exception_levels chain_of
parse_exception_chain = do
  levels ← exception_levels max_exception_chain_depth
  pure (chain_of levels)
