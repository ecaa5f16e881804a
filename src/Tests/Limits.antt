-- ===== src/Tests/Limits.antt =====
-- The budget's theorem at concrete blocks.
use st_clickhouse_lib.Common.{[], ◌∷◌, ◌≡◌, ◌≤◌, ◌+◌, leb, arith}
use st_clickhouse_lib.Limits.Budget.{ResponseBudget, charge_all, total, charge_all_lem}

-- Ten bytes, of which four are used.
abbrev ten : ResponseBudget
ten = record { limit = 10; used = 4 }

charge_all_lem_example :
    ((charge_all ten (2 ∷ 3 ∷ [])).1 ≡ leb (4 + total (2 ∷ 3 ∷ [])) 10)
    × (4 + total (2 ∷ 3 ∷ []) ≤ 10
        → (charge_all ten (2 ∷ 3 ∷ [])).0 ≡ record ten { used = 4 + total (2 ∷ 3 ∷ []) })
charge_all_lem_example = charge_all_lem ten (2 ∷ 3 ∷ []) (omega arith) (omega arith)
