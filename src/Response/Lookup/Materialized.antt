-- ===== src/Response/Lookup/Materialized.antt =====
-- `materialize_lc_fixed` of sync/protocol/response.rs against looking every index up in a list.
use st_clickhouse_lib.Common.{
  ℕ, zero, suc, ◌+◌, ◌*◌, ◌^◌, ◌≤◌, ◌<◌, ◌≡◌, refl, subst, List, [], ◌∷◌, ◌++◌, true, Option,
  String, none, some, Result, ok, ◌>>=◌, length, get_elem?, get_elem?_within, All, arith,
}
use st_clickhouse_lib.Error.{Error}
use st_clickhouse_lib.Limits.Caps.{max_column_bytes, checked_mul, checked_column_len}
use st_clickhouse_lib.Response.Lookup.{read_lc_index, each_row, fixed_entry, materialize_lc_fixed}
use st_clickhouse_lib.Response.Lookup.Dictionary.{
  flat, HasWidth, length-flat, slice-flat, ends_inside, ends_outside, get_elem?_ge,
  entry_range-inside, entry_range-outside, Refused, is_index_width, index_bytes,
  read_lc_index-index_bytes, some-injective,
}

-- The values of the rows, if all indexes are in the dictionary.
unfoldable pub lookup_all : List (List ℕ) → List ℕ → Option (List ℕ)
lookup_all entries [] = some []
lookup_all entries (x ∷ indexes) =
    let later = lookup_all entries indexes in
    elim (get_elem? entries x) [
      | none ↦ none
      | some c ↦ elim later [ none ↦ none | some bs ↦ some (c ++ bs) ]
    ]

-- The same bytes, or some error.
abbrev pub Matches : Option (List ℕ) → Result (List ℕ) Error → Type 0
Matches none r = Refused r
Matches (some bs) r = r ≡ ok bs

both-Matches :
    (o later : Option (List ℕ)) (first rest : Result (List ℕ) Error)
    → Matches o first
    → Matches later rest
    → Matches
        (elim o [ none ↦ none | some c ↦ elim later [ none ↦ none | some bs ↦ some (c ++ bs) ] ])
        (first >>= λ c. (rest >>= λ bs. ok (c ++ bs)))
both-Matches none later first rest (e, refused) h = (e, rw refused refl)
both-Matches (some c) none first rest same (e, refused) = (e, rw (same, refused) refl)
both-Matches (some c) (some bs) first rest same h = rw (same, h) refl

rows-Matches :
    (entries : List (List ℕ)) (indexes : List ℕ) (f : ℕ → Result (List ℕ) Error) (row : ℕ)
    → ((i x : ℕ) → get_elem? indexes i ≡ some x → Matches (get_elem? entries x) (f (row + i)))
    → Matches (lookup_all entries indexes) (each_row f row (length indexes))
unfolding lookup_all each_row
rows-Matches entries [] f row h = refl
rows-Matches entries (x ∷ indexes) f row h =
    both-Matches (get_elem? entries x) (lookup_all entries indexes) (f row)
      (each_row f (suc row) (length indexes)) here (rows-Matches entries indexes f (suc row) later)
  where
    here : Matches (get_elem? entries x) (f row)
    here =
        subst (λ n. Matches (get_elem? entries x) (f n)) {x = row + 0} {y = row} (omega arith)
          (h 0 x refl)

    later :
        (i y : ℕ) → get_elem? indexes i ≡ some y → Matches (get_elem? entries y) (f (suc row + i))
    later i y at =
        subst (λ n. Matches (get_elem? entries y) (f n)) {x = row + suc i} {y = suc row + i}
          (omega arith) (h (suc i) y at)

module _ (w : ℕ) (entries : List (List ℕ)) (wide : All (HasWidth w) entries) (some_width : 0 < w)
    (small : length entries * w < 2 ^ 64) where
  entry-Matches :
      (x : ℕ) (o : Option (List ℕ))
      → get_elem? entries x ≡ o
      → Matches o (fixed_entry (flat entries) w x)
  unfolding fixed_entry
  entry-Matches x none at =
      let (e, refused) =
        entry_range-outside x w (length (flat entries)) "LowCardinality index overflow"
          "LowCardinality dictionary index out of bounds"
          (omega (
            arith,
            length-flat w entries wide,
            ends_outside x (length entries) w some_width (get_elem?_ge entries x at),
          )) in
      (e, rw refused refl)
  entry-Matches x (some c) at =
      rw
        (
          entry_range-inside x w (length (flat entries)) "LowCardinality index overflow"
              "LowCardinality dictionary index out of bounds"
              (omega (
                arith,
                length-flat w entries wide,
                ends_inside x (length entries) w (get_elem?_within entries x c at),
              ))
              (omega (arith, small, length-flat w entries wide)),
          slice-flat w entries x c wide at,
        )
        refl

abbrev pub IsIndex : ℕ → ℕ → Type 0
IsIndex width x = (x < 256 ^ width) × (x < 2 ^ 64)

All-get_elem? : (P : ℕ → Type 0) (xs : List ℕ) (i x : ℕ) → All P xs → get_elem? xs i ≡ some x → P x
All-get_elem? P [] i x h at = cc
All-get_elem? P (y ∷ xs) zero x h at = subst P (some-injective at) h.0
All-get_elem? P (y ∷ xs) (suc i) x h at = All-get_elem? P xs i x h.1 at

column_len-fits :
    (rows w : ℕ) (what : String)
    → rows * w ≤ max_column_bytes
    → checked_column_len rows w what ≡ ok (rows * w)
unfolding checked_column_len checked_mul
column_len-fits rows w what h = ground arith

-- A dictionary of entries of one width that is not zero, and indexes of a width that LowCardinality
-- columns have, each in range for its width, where the values of all rows keep within 64 MiB and the
-- dictionary and the indexes are shorter than 2^64 bytes: the column that is written out is the
-- entries of the rows one behind the other if every index is in the dictionary, and otherwise the
-- code fails.
pub materialize_lc_fixed-Matches :
    (w width : ℕ) (entries : List (List ℕ)) (indexes : List ℕ)
    → 0 < w
    → All (HasWidth w) entries
    → length entries * w < 2 ^ 64
    → is_index_width width ≡ true
    → All (IsIndex width) indexes
    → length indexes * width < 2 ^ 64
    → length indexes * w ≤ max_column_bytes
    → Matches
        (lookup_all entries indexes)
        (materialize_lc_fixed (flat entries) w (index_bytes width indexes) width (length indexes))
unfolding materialize_lc_fixed
materialize_lc_fixed-Matches w width entries indexes some_width wide small known fit few capped =
    rw (column_len-fits (length indexes) w "LowCardinality materialized column" capped) (
      rows-Matches entries indexes
        (λ row.
          (read_lc_index (index_bytes width indexes) row width >>= fixed_entry (flat entries) w))
        0 row_Matches)
  where
    row_Matches :
        (i x : ℕ)
        → get_elem? indexes i ≡ some x
        → Matches (get_elem? entries x) (
            read_lc_index (index_bytes width indexes) (0 + i) width
            >>= fixed_entry (flat entries) w)
    row_Matches i x at =
        let index = All-get_elem? (IsIndex width) indexes i x fit at in
        let row : ◌≡◌ {A = ℕ} (0 + i) i = omega arith in
        rw (row, read_lc_index-index_bytes width indexes i x known few at index.0 index.1)
          (entry-Matches w entries wide some_width small x (get_elem? entries x) refl)
