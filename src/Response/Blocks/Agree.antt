-- ===== src/Response/Blocks/Agree.antt =====
-- The two parsers of blocks in sync/protocol/response.rs return the same.
use st_clickhouse_lib.Common.{
  ℕ, List, [], ◌∷◌, Bool, true, false, ◌&&◌, none, some, ok, String, ◌==◌, ◌≡◌, refl, ap, ap₂,
  ==→eq, Bool-cases, inl, inr, All, sym, ◌∙◌, fun_ext,
}
use st_clickhouse_lib.ColumnType.{ColumnType}
use st_clickhouse_lib.TypeParser.Text.{codes, bytes_eq, starts_with, ends_with, find, trim}
use st_clickhouse_lib.TypeParser.Keywords.{find_type}
use st_clickhouse_lib.TypeParser.Parser.{parse_type, parse_type_rec, parse_trimmed, parse_simple}
use st_clickhouse_lib.Response.Columns.{bad_type, quick_types, parse_column_type}
use st_clickhouse_lib.Wire.Cursor.{◌>>=◌}
use st_clickhouse_lib.Wire.Parse.{parse_string}
use st_clickhouse_lib.Response.Blocks.{
  block_body_with, parse_block_body, parse_block_body_shared, parse_block, parse_block_shared,
}

and_true : (a b : Bool) → (a && b) ≡ true → (a ≡ true) × (b ≡ true)
and_true true b h = (refl, h)
and_true false b h = cc

bytes_eq→eq : (a b : List ℕ) → bytes_eq a b ≡ true → a ≡ b
unfolding bytes_eq
bytes_eq→eq [] [] h = refl
bytes_eq→eq [] (y ∷ b) h = cc
bytes_eq→eq (x ∷ a) [] h = cc
bytes_eq→eq (x ∷ a) (y ∷ b) h =
    let (hx, hr) = and_true (x == y) (bytes_eq a b) h in
    ap₂ (λ (z : ℕ) (zs : List ℕ). z ∷ zs) (==→eq x y hx) (bytes_eq→eq a b hr)

-- What a name finds in a list of types, it is one of them.
abbrev Parses : String × ColumnType → Type 0
Parses arm = bad_type (codes arm.0) ≡ ok arm.1

find_type-Parses :
    (arms : List (String × ColumnType)) (name : List ℕ)
    → All Parses arms
    → elim (find_type name arms) [ some ct ↦ ok ct | none ↦ bad_type name ] ≡ bad_type name
unfolding find_type
find_type-Parses [] name h = refl
find_type-Parses ((text, ct) ∷ arms) name h = elim (Bool-cases (bytes_eq name (codes text))) [
  | inl e ↦
      let same = bytes_eq→eq name (codes text) e in rw (find_type, e) (sym (ap bad_type same ∙ h.0))
  | inr e ↦ rw (find_type, e) (find_type-Parses arms name h.1)
]

quick_types-Parses : All Parses quick_types
unfolding bad_type parse_type parse_type_rec parse_trimmed parse_simple find_type bytes_eq
    starts_with ends_with find trim
quick_types-Parses = search depth 30

pub parse_column_type-bad_type : (name : List ℕ) → parse_column_type name ≡ bad_type name
unfolding parse_column_type
parse_column_type-bad_type name = find_type-Parses quick_types name quick_types-Parses

-- The parser that copies the column data and the one that shares the buffer return the same block,
-- error and position on every buffer, from every position, with and without the table's name: the
-- names that the second one knows without the type parser mean what the type parser reads in them.
pub parse_block-parse_block_shared :
    (fuel : ℕ) (buf : List ℕ) (pos : ℕ)
    → (parse_block_body fuel buf pos ≡ parse_block_body_shared fuel buf pos)
      × (parse_block fuel buf pos ≡ parse_block_shared fuel buf pos)
unfolding parse_block_body parse_block_body_shared parse_block parse_block_shared
parse_block-parse_block_shared fuel buf pos = (
  ap (λ t. block_body_with fuel t buf pos) same,
  ap (λ t. (parse_string >>= λ table. block_body_with fuel t) buf pos) same,
)
  where
    same : bad_type ≡ parse_column_type
    same = fun_ext (λ name. sym (parse_column_type-bad_type name))
