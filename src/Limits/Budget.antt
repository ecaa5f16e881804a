-- ===== src/Limits/Budget.antt =====
-- `ResponseBudget` of src/limits.rs: the decoded bytes that one accumulated response may hold.
use st_clickhouse_lib.Common.{
  ℕ, ◌+◌, ◌^◌, ◌≤◌, ◌<◌, ◌≡◌, List, [], ◌∷◌, Bool, true, false, none, some, ltb, leb, arith,
  Bool-cases, inl, inr, ltb→lt, ltb→ge, ◌∙◌,
}
use native.Mathlib.Nat.{add_assoc}
use st_clickhouse_lib.Limits.Caps.{checked_add}

pub record ResponseBudget : Type 0 where
  pub limit : ℕ
  pub used : ℕ

unfoldable pub new_budget : ℕ → ResponseBudget
new_budget limit = record { limit = limit; used = 0 }

-- The budget after the charge, and whether the charge was accepted.
unfoldable pub charge : ResponseBudget → ℕ → ResponseBudget × Bool
unfolding checked_add
charge b bytes = elim (checked_add b.used bytes) [
  | some used ↦ (record b { used = used }, leb used b.limit)
  | none ↦ (b, false)
]

unfoldable pub reset : ResponseBudget → ResponseBudget
reset b = record b { used = 0 }

-- The loop of an accumulating reader: it charges each block, and gives up at the first refusal.
unfoldable pub charge_all : ResponseBudget → List ℕ → ResponseBudget × Bool
unfolding charge
charge_all b [] = (b, true)
charge_all b (bytes ∷ rest) = elim (charge b bytes).1 [
  | true ↦ charge_all (charge b bytes).0 rest
  | false ↦ charge b bytes
]

abbrev pub total : List ℕ → ℕ
total [] = 0
total (n ∷ ns) = n + total ns

abbrev spent : ResponseBudget → ℕ → ResponseBudget
spent b n = record b { used = b.used + n }

charge_fits :
    (b : ResponseBudget) (bytes : ℕ)
    → b.limit < 2 ^ 64
    → b.used + bytes ≤ b.limit
    → charge b bytes ≡ (spent b bytes, true)
unfolding charge checked_add
charge_fits b bytes h k = ground arith

charge_over :
    (b : ResponseBudget) (bytes : ℕ) → b.limit < b.used + bytes → (charge b bytes).1 ≡ false
unfolding charge checked_add
charge_over b bytes h = ground arith

charge_all_over :
    (b : ResponseBudget) (bytes : ℕ) (rest : List ℕ)
    → b.limit < b.used + bytes
    → (charge_all b (bytes ∷ rest)).1 ≡ false
charge_all_over b bytes rest h =
    let over = charge_over b bytes h in unfold charge_all in rw (over, charge_all) over

charge_all_fits :
    (b : ResponseBudget) (bytes : ℕ) (rest : List ℕ)
    → b.limit < 2 ^ 64
    → b.used + bytes ≤ b.limit
    → charge_all b (bytes ∷ rest) ≡ charge_all (spent b bytes) rest
charge_all_fits b bytes rest h k =
    let e = charge_fits b bytes h k in
    (unfold charge_all in λ i. elim (e i).1 [ true ↦ charge_all (e i).0 rest | false ↦ e i ])

-- A budget that was not breached yet accepts a list of blocks exactly when their sizes fit into what
-- is left of the limit, and then it has counted every byte of them.
pub charge_all_lem :
    (b : ResponseBudget) (blocks : List ℕ)
    → b.limit < 2 ^ 64
    → b.used ≤ b.limit
    → ((charge_all b blocks).1 ≡ leb (b.used + total blocks) b.limit)
      × (b.used + total blocks ≤ b.limit
          → (charge_all b blocks).0 ≡ record b { used = b.used + total blocks })
charge_all_lem b [] h k = unfold charge_all in (ground arith, λ fits. ground arith)
charge_all_lem b (bytes ∷ rest) h k = elim (Bool-cases (ltb b.limit (b.used + bytes))) [
  | inl over ↦ (
    charge_all_over b bytes rest (ltb→lt _ _ over)
        ∙ ground (arith, ltb→lt b.limit (b.used + bytes) over),
    λ fits. absurd (omega (arith, ltb→lt b.limit (b.used + bytes) over)),
  )
  | inr fits ↦
      let now = ltb→ge b.limit (b.used + bytes) fits in
      let (accepted, counted) = charge_all_lem (spent b bytes) rest h now in
      rw (charge_all_fits b bytes rest h now, ← add_assoc) (accepted, counted)
]
