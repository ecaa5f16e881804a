-- ===== src/Query/Quoting.antt =====
-- The quoted texts of shared/parameters.rs, read by the rules of literals and fields.
use st_clickhouse_lib.Common.{
  ℕ, ◌+◌, ◌≡◌, refl, ap, sym, subst, ◌∙◌, List, [], ◌∷◌, ◌++◌, false, some, ◌==◌, ◌||◌,
  if◌then◌else◌, length, length-append, append_assoc, arith, Bool-cases, inl, inr, ==→eq,
}
use st_clickhouse_lib.Wire.Write.{write_varint, write_string}
use st_clickhouse_lib.Query.Literal.{hex_digit, in_text, read_literal, read_field}
use st_clickhouse_lib.Query.Parameters.{
  escape, escape_all, escaped_len, sum_escaped, quoted_len, write_quoted_string,
}

-- The text behind the opening quote.
unfoldable pub quoted : List ℕ → List ℕ
unfolding escape_all
quoted value = escape_all value ++ (39 ∷ [])

length-escape : (byte : ℕ) → length (escape byte) ≡ escaped_len byte
unfolding escape escaped_len
length-escape byte = ground arith

length-escape_all : (value : List ℕ) → length (escape_all value) ≡ sum_escaped value
unfolding escape_all sum_escaped
length-escape_all [] = refl
length-escape_all (byte ∷ value) = omega (
  arith,
  length-append (escape byte) (escape_all value),
  length-escape byte,
  length-escape_all value,
)

length-quoted : (value : List ℕ) → quoted_len value ≡ length (quoted value) + 1
unfolding quoted quoted_len
length-quoted value =
    omega (arith, length-escape_all value, length-append (escape_all value) (39 ∷ []))

-- The field that a byte stands in the literal as.
field : ℕ → List ℕ
field byte = if (byte == 92) || ((byte == 9) || (byte == 10)) then 92 ∷ byte ∷ [] else byte ∷ []

field_all : List ℕ → List ℕ
field_all [] = []
field_all (byte ∷ value) = field byte ++ field_all value

-- The escape of a byte, in front of a text that is read as `read`.
Reads : List ℕ → List ℕ → ℕ → Type 0
Reads text read byte = read_literal in_text (escape byte ++ text) ≡ some (field byte ++ read)

module _ (text read : List ℕ) (e : read_literal in_text text ≡ some read) where
  other-Reads :
      (byte : ℕ)
      → (byte == 0) ≡ false
      → (byte == 8) ≡ false
      → (byte == 9) ≡ false
      → (byte == 10) ≡ false
      → (byte == 39) ≡ false
      → (byte == 92) ≡ false
      → Reads text read byte
  unfolding Reads escape field read_literal
  other-Reads byte n0 n8 n9 n10 n39 n92 = rw (n0, n8, n9, n10, n39, n92, n39, n92, e) refl

  escape-Reads : (byte : ℕ) → Reads text read byte
  unfolding Reads escape field read_literal hex_digit
  escape-Reads byte = elim (Bool-cases (byte == 0)) [
    | inl h ↦ subst (Reads text read) (sym (==→eq byte 0 h)) (rw e refl)
    | inr n0 ↦ elim (Bool-cases (byte == 8)) [
      | inl h ↦ subst (Reads text read) (sym (==→eq byte 8 h)) (rw e refl)
      | inr n8 ↦ elim (Bool-cases (byte == 9)) [
        | inl h ↦ subst (Reads text read) (sym (==→eq byte 9 h)) (rw e refl)
        | inr n9 ↦ elim (Bool-cases (byte == 10)) [
          | inl h ↦ subst (Reads text read) (sym (==→eq byte 10 h)) (rw e refl)
          | inr n10 ↦ elim (Bool-cases (byte == 39)) [
            | inl h ↦ subst (Reads text read) (sym (==→eq byte 39 h)) (rw e refl)
            | inr n39 ↦ elim (Bool-cases (byte == 92)) [
              | inl h ↦ subst (Reads text read) (sym (==→eq byte 92 h)) (rw e refl)
              | inr n92 ↦ other-Reads byte n0 n8 n9 n10 n39 n92
            ]
          ]
        ]
      ]
    ]
  ]

read_literal-escape_all :
    (value : List ℕ) → read_literal in_text (escape_all value ++ (39 ∷ [])) ≡ some (field_all value)
unfolding escape_all field_all Reads
read_literal-escape_all [] = unfold read_literal in refl
read_literal-escape_all (byte ∷ value) =
    ap (λ (bs : List ℕ). read_literal in_text bs)
      (append_assoc (escape byte) (escape_all value) (39 ∷ []))
    ∙ escape-Reads (escape_all value ++ (39 ∷ [])) (field_all value) (read_literal-escape_all value)
        byte

read_field-field :
    (byte : ℕ) (rest read : List ℕ)
    → read_field false rest ≡ some read
    → read_field false (field byte ++ rest) ≡ some (byte ∷ read)
unfolding read_field field
read_field-field byte rest read e = ground arith

read_field-field_all : (value : List ℕ) → read_field false (field_all value) ≡ some value
unfolding field_all
read_field-field_all [] = unfold read_field in refl
read_field-field_all (byte ∷ value) =
    read_field-field byte (field_all value) value (read_field-field_all value)

-- For every value: what the client writes is one string of the wire format, whose length in front
-- is exact. It starts with a quote; what follows is a literal that ends with its last byte and
-- nowhere before, and the field in that literal is read as the value, with nothing left.
pub write_quoted_string-quoted :
    (value : List ℕ)
    → (text field : List ℕ) × (write_quoted_string value ≡ write_string (39 ∷ text))
      × (read_literal in_text text ≡ some field)
      × (read_field false field ≡ some value)
unfolding write_quoted_string write_string quoted
write_quoted_string-quoted value = (
  quoted value,
  field_all value,
  ap (λ (n : ℕ). write_varint n ++ (39 ∷ quoted value)) (length-quoted value ∙ omega arith),
  read_literal-escape_all value,
  read_field-field_all value,
)
