-- ===== src/TypeParser/Text.antt =====
-- What the parser uses of Rust's `str`: `trim`, `find`, prefixes, and `parse` of unsigned numbers.
use st_clickhouse_lib.Common.{
  ℕ, zero, suc, ◌+◌, ◌-◌, ◌*◌, List, [], ◌∷◌, Bool, true, false, ◌&&◌, Option, none, some, String,
  length, take, ltb, leb, ◌==◌, if◌then◌else◌,
}
use Prim.Native.Char.{code}
use mathlib.Core.List.{reverse}

-- The bytes of an ASCII literal.
abbrev pub codes : String → List ℕ
codes String.[] = []
codes (String.◌∷◌ c s) = code c ∷ codes s

unfoldable pub bytes_eq : List ℕ → List ℕ → Bool
bytes_eq [] [] = true
bytes_eq [] (y ∷ ys) = false
bytes_eq (x ∷ xs) [] = false
bytes_eq (x ∷ xs) (y ∷ ys) = x == y && bytes_eq xs ys

-- `strip_prefix`: what stands behind `p`, if the text starts with it.
unfoldable pub strip_prefix : List ℕ → List ℕ → Option (List ℕ)
strip_prefix [] s = some s
strip_prefix (x ∷ p) [] = none
strip_prefix (x ∷ p) (y ∷ s) = let rest = strip_prefix p s in if x == y then rest else none

unfoldable pub starts_with : List ℕ → List ℕ → Bool
unfolding strip_prefix
starts_with p s = elim (strip_prefix p s) [ none ↦ false | some r ↦ true ]

unfoldable pub ends_with : List ℕ → List ℕ → Bool
unfolding starts_with
ends_with p s = starts_with (reverse p) (reverse s)

-- `find(ch)` for an ASCII character: the position of the first one.
unfoldable pub find : ℕ → List ℕ → Option ℕ
find ch [] = none
find ch (x ∷ s) =
    let later = find ch s in
    if x == ch then some 0 else elim later [ none ↦ none | some i ↦ some (suc i) ]

-- The UTF-8 encodings of the characters that `char::is_whitespace` accepts.
abbrev white_space : List (List ℕ)
white_space =
    (9 ∷ [])
    ∷ (10 ∷ [])
    ∷ (11 ∷ [])
    ∷ (12 ∷ [])
    ∷ (13 ∷ [])
    ∷ (32 ∷ [])
    ∷ (0xc2 ∷ 0x85 ∷ [])
    ∷ (0xc2 ∷ 0xa0 ∷ [])
    ∷ (0xe1 ∷ 0x9a ∷ 0x80 ∷ [])
    ∷ (0xe2 ∷ 0x80 ∷ 0x80 ∷ [])
    ∷ (0xe2 ∷ 0x80 ∷ 0x81 ∷ [])
    ∷ (0xe2 ∷ 0x80 ∷ 0x82 ∷ [])
    ∷ (0xe2 ∷ 0x80 ∷ 0x83 ∷ [])
    ∷ (0xe2 ∷ 0x80 ∷ 0x84 ∷ [])
    ∷ (0xe2 ∷ 0x80 ∷ 0x85 ∷ [])
    ∷ (0xe2 ∷ 0x80 ∷ 0x86 ∷ [])
    ∷ (0xe2 ∷ 0x80 ∷ 0x87 ∷ [])
    ∷ (0xe2 ∷ 0x80 ∷ 0x88 ∷ [])
    ∷ (0xe2 ∷ 0x80 ∷ 0x89 ∷ [])
    ∷ (0xe2 ∷ 0x80 ∷ 0x8a ∷ [])
    ∷ (0xe2 ∷ 0x80 ∷ 0xa8 ∷ [])
    ∷ (0xe2 ∷ 0x80 ∷ 0xa9 ∷ [])
    ∷ (0xe2 ∷ 0x80 ∷ 0xaf ∷ [])
    ∷ (0xe2 ∷ 0x81 ∷ 0x9f ∷ [])
    ∷ (0xe3 ∷ 0x80 ∷ 0x80 ∷ [])
    ∷ []

-- The text behind one of the patterns, if it starts with one.
strip_any : List (List ℕ) → List ℕ → Option (List ℕ)
unfolding strip_prefix
strip_any [] s = none
strip_any (p ∷ ps) s =
    let others = strip_any ps s in elim (strip_prefix p s) [ none ↦ others | some r ↦ some r ]

-- Stripping again and again. Each pattern is not empty, so as many rounds as the text has bytes
-- are enough.
strip_all : ℕ → List (List ℕ) → List ℕ → List ℕ
unfolding strip_any
strip_all zero ps s = s
strip_all (suc n) ps s = elim (strip_any ps s) [ none ↦ s | some r ↦ strip_all n ps r ]

unfoldable pub trim_start_matches : List (List ℕ) → List ℕ → List ℕ
unfolding strip_all
trim_start_matches ps s = strip_all (length s) ps s

reverse_each : List (List ℕ) → List (List ℕ)
reverse_each [] = []
reverse_each (p ∷ ps) = reverse p ∷ reverse_each ps

unfoldable pub trim_end_matches : List (List ℕ) → List ℕ → List ℕ
unfolding trim_start_matches reverse_each
trim_end_matches ps s = reverse (trim_start_matches (reverse_each ps) (reverse s))

unfoldable pub trim : List ℕ → List ℕ
unfolding trim_start_matches trim_end_matches
trim s = trim_end_matches white_space (trim_start_matches white_space s)

is_digit : ℕ → Bool
is_digit b = leb b'0' b && leb b b'9'

-- The value of the digits behind `acc`, if all are digits and the value stays below `limit`.
digits_value : ℕ → ℕ → List ℕ → Option ℕ
unfolding is_digit
digits_value limit acc [] = some acc
digits_value limit acc (b ∷ s) =
    let value = acc * 10 + (b - b'0') in
    let rest = digits_value limit value s in if is_digit b && ltb value limit then rest else none

without_plus : List ℕ → List ℕ
without_plus [] = []
without_plus (b ∷ s) = if b == b'+' then s else b ∷ s

-- `parse::<u32>()` at `limit` 2 ^ 32, and so on: a `+` may stand in front of the digits.
unfoldable pub parse_unsigned : ℕ → List ℕ → Option ℕ
unfolding digits_value without_plus
parse_unsigned limit s = elim (without_plus s) [
  | [] ↦ none
  | b ∷ digits ↦ digits_value limit 0 (b ∷ digits)
]

-- `split(',').next()`: the text in front of the first comma.
unfoldable pub before_comma : List ℕ → List ℕ
unfolding find
before_comma s = elim (find b',' s) [ none ↦ s | some i ↦ take i s ]
