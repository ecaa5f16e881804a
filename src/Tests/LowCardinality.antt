-- ===== src/Tests/LowCardinality.antt =====
-- A LowCardinality column of three rows over a dictionary of two entries.
use st_clickhouse_lib.Common.{ℕ, ◌≡◌, refl, List, [], ◌∷◌, arith, some}
use st_clickhouse_lib.Response.Lookup.{materialize_lc_fixed}
use st_clickhouse_lib.Response.Lookup.Dictionary.{flat, index_bytes}
use st_clickhouse_lib.Response.Lookup.Materialized.{
  lookup_all, Matches, materialize_lc_fixed-Matches,
}

abbrev entries : List (List ℕ)
entries = (1 ∷ 2 ∷ []) ∷ (3 ∷ 4 ∷ []) ∷ []

values : lookup_all entries (1 ∷ 0 ∷ 1 ∷ []) ≡ some (3 ∷ 4 ∷ 1 ∷ 2 ∷ 3 ∷ 4 ∷ [])
unfolding lookup_all
values = refl

materialize_lc_fixed-Matches_example :
    Matches
      (lookup_all entries (1 ∷ 0 ∷ 1 ∷ []))
      (materialize_lc_fixed (flat entries) 2 (index_bytes 1 (1 ∷ 0 ∷ 1 ∷ [])) 1 3)
materialize_lc_fixed-Matches_example =
    materialize_lc_fixed-Matches 2 1 entries (1 ∷ 0 ∷ 1 ∷ []) (omega arith) (refl, (refl, tt))
      (omega arith) refl
      ((omega arith, omega arith), ((omega arith, omega arith), ((omega arith, omega arith), tt)))
      (omega arith) (omega arith)
