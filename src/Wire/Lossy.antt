-- ===== src/Wire/Lossy.antt =====
-- `String::from_utf8_lossy`: each longest start of a character that breaks off becomes U+FFFD.
pub mod Valid
pub mod Concat
use st_clickhouse_lib.Common.{
  ℕ, List, [], ◌∷◌, ◌++◌, none, some, ◌==◌, if◌then◌else◌, ◌≡◌, refl, ap, sym, ◌∙◌, append-nil,
  append_assoc, true, Option, Bool-cases, Option-cases, inl, inr, ==→eq,
}
use st_clickhouse_lib.Wire.Utf8.{Utf8State, at_boundary, utf8_byte, utf8_from, is_utf8}

abbrev pub replacement : List ℕ
replacement = 0xef ∷ 0xbf ∷ 0xbd ∷ []

-- What is put out, and the state with the bytes of the character that has begun.
abbrev pub Lossy : Type 0
Lossy = List ℕ × Utf8State × List ℕ

unfoldable pub taken : Utf8State → List ℕ → ℕ → Lossy
taken s held b = if s.due == 0 then (held ++ (b ∷ []), s, []) else ([], s, held ++ (b ∷ []))

unfoldable pub fresh : ℕ → Lossy
unfolding taken utf8_byte
fresh b = elim (utf8_byte at_boundary b) [
  | some s ↦ taken s [] b
  | none ↦ (replacement, at_boundary, [])
]

unfoldable pub lossy_byte : Utf8State → List ℕ → ℕ → Lossy
unfolding taken fresh utf8_byte
lossy_byte s held b = elim (utf8_byte s b) [
  | some next ↦ taken next held b
  | none ↦
      if s.due == 0
      then (replacement, at_boundary, [])
      else (replacement ++ (fresh b).0, (fresh b).1, (fresh b).2)
]

unfoldable pub lossy_from : Utf8State → List ℕ → List ℕ → List ℕ
unfolding lossy_byte
lossy_from s held [] = if s.due == 0 then [] else replacement
lossy_from s held (b ∷ bs) = let next = lossy_byte s held b in next.0 ++ lossy_from next.1 next.2 bs

unfoldable pub from_utf8_lossy : List ℕ → List ℕ
unfolding lossy_from
from_utf8_lossy bs = lossy_from at_boundary [] bs
