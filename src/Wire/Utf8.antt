-- ===== src/Wire/Utf8.antt =====
-- `std::str::from_utf8`, as the automaton over lead and continuation bytes that defines UTF-8.
use st_clickhouse_lib.Common.{
  ℕ, zero, suc, List, [], ◌∷◌, Bool, false, ◌&&◌, Option, none, some, leb, ltb, ◌==◌, if◌then◌else◌,
}

-- How many continuation bytes are due, and the range of the next one.
pub record Utf8State : Type 0 where
  pub due : ℕ
  pub low : ℕ
  pub high : ℕ

abbrev pub at_boundary : Utf8State
at_boundary = record { due = 0; low = 0x80; high = 0xbf }

abbrev due_next : ℕ → ℕ → ℕ → Option Utf8State
due_next n lo hi = some (record { due = n; low = lo; high = hi })

abbrev in_range : ℕ → ℕ → ℕ → Bool
in_range lo hi b = leb lo b && leb b hi

unfoldable lead : ℕ → Option Utf8State
lead b =
    if ltb b 0x80
    then some at_boundary
    else if in_range 0xc2 0xdf b
    then due_next 1 0x80 0xbf
    else if b == 0xe0
    then due_next 2 0xa0 0xbf
    else if b == 0xed
    then due_next 2 0x80 0x9f
    else if in_range 0xe1 0xef b
    then due_next 2 0x80 0xbf
    else if b == 0xf0
    then due_next 3 0x90 0xbf
    else if in_range 0xf1 0xf3 b
    then due_next 3 0x80 0xbf
    else if b == 0xf4
    then due_next 3 0x80 0x8f
    else none

unfoldable continuation : ℕ → ℕ → ℕ → ℕ → Option Utf8State
continuation n lo hi b = if in_range lo hi b then due_next n 0x80 0xbf else none

unfoldable pub utf8_byte : Utf8State → ℕ → Option Utf8State
unfolding lead continuation
utf8_byte s b = elim s.due [ zero ↦ lead b | suc n ↦ continuation n s.low s.high b ]

unfoldable pub utf8_from : Option Utf8State → List ℕ → Bool
unfolding utf8_byte
utf8_from none bs = false
utf8_from (some s) [] = s.due == 0
utf8_from (some s) (b ∷ bs) = utf8_from (utf8_byte s b) bs

unfoldable pub is_utf8 : List ℕ → Bool
unfolding utf8_from
is_utf8 bs = utf8_from (some at_boundary) bs
