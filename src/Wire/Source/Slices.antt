-- ===== src/Wire/Source/Slices.antt =====
-- Serving a read from a buffer that is not used up.
use st_clickhouse_lib.Common.{
  ℕ, suc, zero, ◌+◌, ◌-◌, ◌≤◌, ◌<◌, ◌≡◌, refl, sym, ap, ap₂, ◌∙◌, List, [], ◌∷◌, ◌++◌, min, length,
  take, drop, length-take, length-drop, take-append-drop, drop-drop, arith,
}

pub record Slice (out_len pos : ℕ) (buf : List ℕ) : Type 0 where
  pub b : ℕ
  pub bs : List ℕ
  pub taken : take (min out_len (length buf - pos)) (drop pos buf) ≡ b ∷ bs
  pub splits : drop pos buf ≡ (b ∷ bs) ++ drop (pos + min out_len (length buf - pos)) buf
  pub within : length (b ∷ bs) ≤ out_len

front :
    (n : ℕ) (xs : List ℕ) → 0 < n → 0 < length xs → (b : ℕ) × (bs : List ℕ) × (take n xs ≡ b ∷ bs)
front zero xs h k = elim h [ ]
front (suc n) [] h k = elim k [ ]
front (suc n) (x ∷ xs) h k = (x, take n xs, refl)

pub slice :
    (out_len pos : ℕ) (buf : List ℕ) → 0 < out_len → pos < length buf → Slice out_len pos buf
slice out_len pos buf h k =
    let n = min out_len (length buf - pos) in
    let (b, bs, e) = front n (drop pos buf) (omega arith) (omega (arith, length-drop pos buf)) in
    record {
      b = b;
      bs = bs;
      taken = e;
      splits =
          sym (take-append-drop n (drop pos buf))
          ∙ ap₂ (λ x y. x ++ y) e (sym (drop-drop pos n buf));
      within = omega (arith, ap length e, length-take n (drop pos buf));
    }
