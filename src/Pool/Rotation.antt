-- ===== src/Pool/Rotation.antt =====
-- Going round a list from any start, as the pool does with its slots and its addresses (src/pool.rs).
use st_clickhouse_lib.Common.{
  ℕ, zero, suc, ◌+◌, ◌-◌, ◌%◌, ◌<◌, ◌≤◌, List, [], ◌∷◌, Bool, true, false, none, length, get_elem?,
  ◌≡◌, refl, sym, ◌∙◌, arith, Bool-cases, inl, inr, ltb, ltb→lt, ltb→ge,
}
use native.Mathlib.Nat.{mod-eq_of_lt, add-mod_left}

pub within {ℓ} : {A : Type ℓ} (xs : List A) (n : ℕ) → n < length xs → ¬ (get_elem? xs n ≡ none)
within [] n h e = omega arith
within (x ∷ xs) zero h e = ground arith
within (x ∷ xs) (suc n) h e = within xs n (omega arith) e

pub only_if_false : (a : Bool) {b : Bool} → (a ≡ true → b ≡ true) → b ≡ false → a ≡ false
only_if_false true h e = sym (h refl) ∙ e
only_if_false false h e = refl

-- The rotation by `start` meets every index.
pub rotation : (start j n : ℕ) → start < n → j < n → (k : ℕ) × (k < n) × ((start + k) % n ≡ j)
rotation start j n hs hj = elim (Bool-cases (ltb j start)) [
  | inl before ↦ (n - start + j, ground arith, turn (ltb→lt j start before))
  | inr behind ↦ (j - start, omega arith, straight (ltb→ge j start behind))
]
  where
    straight : start ≤ j → (start + (j - start)) % n ≡ j
    straight h = rw (meet h) (mod-eq_of_lt hj)
      where
        meet : start ≤ j → start + (j - start) ≡ j
        meet h = omega arith

    turn : j < start → (start + (n - start + j)) % n ≡ j
    turn h = rw (meet h, add-mod_left n j) (mod-eq_of_lt hj)
      where
        meet : j < start → start + (n - start + j) ≡ n + j
        meet h = omega arith
