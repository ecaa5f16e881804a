-- ===== src/Response/Exceptions/Texts.antt =====
-- The texts that `parse_exception_chain` returns are UTF-8, as a `String` has to be.
use st_clickhouse_lib.Common.{
  ℕ, zero, suc, ◌+◌, ◌-◌, ◌/◌, ◌%◌, ◌^◌, ◌≤◌, ◌≡◌, refl, List, [], ◌∷◌, true, ltb, ◌==◌, length,
  All, arith, Bool-cases, inl, inr, ltb→lt,
}
use st_clickhouse_lib.TypeParser.Text.{codes}
use st_clickhouse_lib.Wire.Utf8.{is_utf8}
use st_clickhouse_lib.Wire.Lossy.Valid.{Whole, is_utf8-from_utf8_lossy}
use st_clickhouse_lib.Wire.Lossy.Concat.{is_utf8-Whole, Whole-is_utf8, Whole-append, ascii-Whole}
use st_clickhouse_lib.Wire.Ends.{
  Ends, Returned, Ends-pure, Ends-raise, Ends-if, Ends-bind, Ends-then,
}
use st_clickhouse_lib.Skip.Ends.Parts.{Ends-parse_bytes, Ends-parse_string_bytes}
use st_clickhouse_lib.Response.Ends.Parts.{Ends-parse_i32}
use st_clickhouse_lib.Response.Exceptions.{
  decimal_text, i32_text, Level, part, join, parse_level, first_or_zero, exception_levels, Chain,
  chain_of, parse_exception_chain, max_exception_chain_depth,
}

decimal_text-Whole : (digits n : ℕ) → Whole (decimal_text digits n)
unfolding decimal_text
decimal_text-Whole zero n = λ rest. refl
decimal_text-Whole (suc digits) n = elim (Bool-cases (ltb n 10)) [
  | inl e ↦ rw (decimal_text, e) (ascii-Whole (48 + n) (omega (arith, ltb→lt n 10 e)))
  | inr e ↦
      rw (decimal_text, e)
        (Whole-append (decimal_text digits (n / 10)) ((48 + n % 10) ∷ [])
          (decimal_text-Whole digits (n / 10)) (ascii-Whole (48 + n % 10) (omega arith)))
]

i32_text-Whole : (code : ℕ) → Whole (i32_text code)
unfolding i32_text
i32_text-Whole code = elim (Bool-cases (ltb code (2 ^ 31))) [
  | inl e ↦ rw (i32_text, e) (decimal_text-Whole 10 code)
  | inr e ↦
      rw (i32_text, e)
        (Whole-append (codes "-") (decimal_text 10 (2 ^ 32 - code)) (ascii-Whole 45 (omega arith))
          (decimal_text-Whole 10 (2 ^ 32 - code)))
]

abbrev IsText : Level → Type 0
IsText level = Whole level.name × Whole level.text

part-Whole : (level : Level) → IsText level → Whole (part level)
unfolding part
part-Whole level (name, text) = Whole-append level.name _ name (
    Whole-append (codes " (code ") _ (is_utf8-Whole (codes " (code ") (unfold is_utf8 in refl)) (
      Whole-append (i32_text level.code) _ (i32_text-Whole level.code) (
        Whole-append (codes "): ") level.text (is_utf8-Whole (codes "): ") (unfold is_utf8 in refl))
          text)))

join-Whole : (levels : List Level) → All IsText levels → Whole (join levels)
unfolding join
join-Whole [] h = λ rest. refl
join-Whole (level ∷ []) h = part-Whole level h.0
join-Whole (level ∷ next ∷ levels) h = Whole-append (part level) _ (part-Whole level h.0) (
    Whole-append (codes " | nested: ") _
      (is_utf8-Whole (codes " | nested: ") (unfold is_utf8 in refl))
      (join-Whole (next ∷ levels) h.1))

Ends-parse_level : (room : ℕ) → Ends room IsText parse_level
unfolding parse_level
Ends-parse_level room = Ends-then IsText room _ _ (Ends-parse_i32 room) λ code.
    Ends-then IsText room _ _ (Ends-parse_string_bytes room) λ name.
      Ends-then IsText room _ _ (Ends-parse_string_bytes room) λ text.
        Ends-then IsText room _ _ (Ends-parse_string_bytes room) λ stack. Ends-pure IsText room _ (
          is_utf8-Whole _ (is_utf8-from_utf8_lossy name),
          is_utf8-Whole _ (is_utf8-from_utf8_lossy text),
        )

Ends-exception_levels : (room left : ℕ) → Ends room (All IsText) (exception_levels left)
unfolding exception_levels
Ends-exception_levels room zero = Ends-raise (All IsText) room _
Ends-exception_levels room (suc left) =
    Ends-bind IsText (All IsText) room _ _ (Ends-parse_level room) λ level texts.
      Ends-then (All IsText) room _ _ (Ends-parse_bytes room 1) λ flag.
        Ends-if (All IsText) room (first_or_zero flag == 0) _ _
          (Ends-pure (All IsText) room (level ∷ []) (texts, tt))
          (Ends-bind (All IsText) (All IsText) room _ _ (Ends-exception_levels room left)
            (λ levels more. Ends-pure (All IsText) room (level ∷ levels) (texts, more)))

abbrev pub IsTextual : Chain → Type 0
IsTextual chain = (is_utf8 chain.root_name ≡ true) × (is_utf8 chain.joined ≡ true)

chain_of-IsTextual : (levels : List Level) → All IsText levels → IsTextual (chain_of levels)
unfolding chain_of
chain_of-IsTextual [] h = (
  Whole-is_utf8 _ (is_utf8-Whole (codes "unknown") (unfold is_utf8 in refl)),
  Whole-is_utf8 _ (join-Whole [] tt),
)
chain_of-IsTextual (level ∷ levels) h =
    (Whole-is_utf8 level.name h.0.0, Whole-is_utf8 _ (join-Whole (level ∷ levels) h))

-- Whatever bytes stand where an exception is read, from any position inside the buffer: the parser
-- returns, with an error or with a chain whose name and message are UTF-8, though the server's texts
-- need not be, and then the position has moved forward and is inside the buffer.
pub parse_exception_chain-IsTextual :
    (buf : List ℕ) (pos : ℕ)
    → pos ≤ length buf
    → Returned buf pos IsTextual (parse_exception_chain buf pos)
unfolding parse_exception_chain Ends
parse_exception_chain-IsTextual buf pos inside =
    Ends-bind (All IsText) IsTextual (length buf) _ _
      (Ends-exception_levels (length buf) max_exception_chain_depth)
      (λ levels texts.
        Ends-pure IsTextual (length buf) (chain_of levels) (chain_of-IsTextual levels texts))
      buf pos inside (omega arith)
