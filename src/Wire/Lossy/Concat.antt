-- ===== src/Wire/Lossy/Concat.antt =====
-- UTF-8 texts one behind the other are UTF-8.
use st_clickhouse_lib.Common.{
  ℕ, List, [], ◌∷◌, ◌++◌, some, ◌≡◌, refl, ap, sym, ◌∙◌, append_assoc, append-nil, ◌<◌, true, ==→eq,
  lt→ltb,
}
use st_clickhouse_lib.Wire.Utf8.{Utf8State, at_boundary, utf8_byte, utf8_from, is_utf8}
use st_clickhouse_lib.Wire.Lossy.Valid.{Whole, next_of, utf8_step, utf8_end, due_none}

-- UTF-8 in front of other bytes is no matter.
utf8_from-Whole :
    (bs : List ℕ) (s : Utf8State)
    → utf8_from (some s) bs ≡ true
    → (rest : List ℕ) → utf8_from (some s) (bs ++ rest) ≡ utf8_from (some at_boundary) rest
utf8_from-Whole [] s h rest = due_none s rest (==→eq s.due 0 (sym (utf8_end s) ∙ h))
utf8_from-Whole (b ∷ bs) s h rest =
    let (next, e, later) = next_of (utf8_byte s b) bs (sym (utf8_step s b bs) ∙ h) in
    utf8_step s b (bs ++ rest)
    ∙ ap (λ o. utf8_from o (bs ++ rest)) e
    ∙ utf8_from-Whole bs next later rest

pub is_utf8-Whole : (bs : List ℕ) → is_utf8 bs ≡ true → Whole bs
unfolding is_utf8
is_utf8-Whole bs h rest = utf8_from-Whole bs at_boundary h rest

pub Whole-is_utf8 : (bs : List ℕ) → Whole bs → is_utf8 bs ≡ true
unfolding is_utf8
Whole-is_utf8 bs whole =
    sym (ap (λ all. utf8_from (some at_boundary) all) (append-nil bs))
    ∙ whole []
    ∙ utf8_end at_boundary

pub Whole-append : (bs cs : List ℕ) → Whole bs → Whole cs → Whole (bs ++ cs)
Whole-append bs cs hb hc rest =
    ap (λ all. utf8_from (some at_boundary) all) (append_assoc bs cs rest)
    ∙ hb (cs ++ rest)
    ∙ hc rest

-- A character of ASCII.
ascii_byte : (b : ℕ) → b < 128 → utf8_byte at_boundary b ≡ some at_boundary
unfolding utf8_byte
ascii_byte b h = rw (lt→ltb b 128 h) refl

pub ascii-Whole : (b : ℕ) → b < 128 → Whole (b ∷ [])
ascii-Whole b h rest = utf8_step at_boundary b rest ∙ ap (λ o. utf8_from o rest) (ascii_byte b h)
