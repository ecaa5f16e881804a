-- ===== src/Query/Literal.antt =====
-- String literals and the fields of a tab-separated line, as the server reads a query parameter: the
-- value of a parameter is such a field, in a literal.
use st_clickhouse_lib.Common.{
  ℕ, ◌+◌, ◌-◌, ◌*◌, List, [], ◌∷◌, Bool, true, false, Option, none, some, ◌&&◌, ◌||◌, leb, ◌==◌,
  if◌then◌else◌,
}

-- The value of a hex digit.
unfoldable pub hex_digit : ℕ → Option ℕ
hex_digit d =
    if leb 48 d && leb d 57
    then some (d - 48)
    else if leb 97 d && leb d 102
    then some (d - 87)
    else if leb 65 d && leb d 70
    then some (d - 55)
    else none

abbrev pub cons : ℕ → Option (List ℕ) → Option (List ℕ)
cons byte none = none
cons byte (some bytes) = some (byte ∷ bytes)

abbrev only_end : List ℕ → Option (List ℕ)
only_end [] = some []
only_end (_ ∷ _) = none

-- Where the reader of a literal is.
pub data Position : Type 0 where
  in_text behind_backslash behind_x : Position
  behind_digit : ℕ → Position

-- A literal behind its opening quote. The next quote that is not escaped ends it and has to be the
-- last byte. Behind a backslash stand `x` and two hex digits, `t`, `n`, or a backslash or a quote that
-- stands for itself.
unfoldable pub read_literal : Position → List ℕ → Option (List ℕ)
unfolding hex_digit
read_literal in_text [] = none
read_literal in_text (b ∷ bs) =
    let text = read_literal in_text bs in
    let escaped = read_literal behind_backslash bs in
    if b == 39 then only_end bs else if b == 92 then escaped else cons b text
read_literal behind_backslash [] = none
read_literal behind_backslash (b ∷ bs) =
    let text = read_literal in_text bs in
    let hex = read_literal behind_x bs in
    if b == 120
    then hex
    else if b == 116
    then cons 9 text
    else if b == 110
    then cons 10 text
    else if (b == 92) || (b == 39)
    then cons b text
    else none
read_literal behind_x [] = none
read_literal behind_x (b ∷ bs) = elim (hex_digit b) [
  | none ↦ none
  | some high ↦ read_literal (behind_digit high) bs
]
read_literal (behind_digit high) [] = none
read_literal (behind_digit high) (b ∷ bs) = elim (hex_digit b) [
  | none ↦ none
  | some low ↦ cons (high * 16 + low) (read_literal in_text bs)
]

-- A field, by whether a backslash stands in front. A tab or a line feed that is not escaped would end
-- the field.
unfoldable pub read_field : Bool → List ℕ → Option (List ℕ)
read_field false [] = some []
read_field false (b ∷ bs) =
    let field = read_field false bs in
    let escaped = read_field true bs in
    if b == 92 then escaped else if (b == 9) || (b == 10) then none else cons b field
read_field true [] = none
read_field true (b ∷ bs) =
    let field = read_field false bs in
    if (b == 92) || ((b == 9) || (b == 10)) then cons b field else none
