-- ===== src/Pool/Cooldown.antt =====
-- How long the circuit breaker of src/pool.rs keeps an address out.
use st_clickhouse_lib.Common.{ℕ, zero, suc, ◌-◌, ◌*◌, ◌^◌, ◌≤◌, ◌≡◌, refl, ap, ◌∙◌, min, arith}
use st_clickhouse_lib.Pool.Addresses.{cooldown, backoff_factor, saturating_mul, second}
use native.Mathlib.Nat.{mul-le-mul_left, one-le-pow, pow-le-pow_right}

backoff_exponent : (cnt : ℕ) → backoff_factor cnt ≡ 2 ^ min (cnt - 1) 10
unfolding backoff_factor
backoff_exponent zero = refl
backoff_exponent (suc zero) = refl
backoff_exponent (suc (suc k)) = ground arith

backoff-at : (k : ℕ) → k ≤ 10 → backoff_factor (suc k) ≡ 2 ^ k
backoff-at k h = backoff_exponent (suc k) ∙ ap (λ (e : ℕ). 2 ^ e) (same k h)
  where
    same : (k : ℕ) → k ≤ 10 → min (suc k - 1) 10 ≡ k
    same k h = omega arith

backoff-grows : (cnt : ℕ) → backoff_factor cnt ≤ backoff_factor (suc cnt)
backoff-grows cnt =
    rw (backoff_exponent cnt, backoff_exponent (suc cnt))
      (pow-le-pow_right {n = 2} (omega arith) (omega arith))

backoff-pos : (cnt : ℕ) → 1 ≤ backoff_factor cnt
backoff-pos cnt = rw (backoff_exponent cnt) (one-le-pow (min (cnt - 1) 10) 2 (omega arith))

-- The cooldown behind one more failure is at least as long, none is longer than 300 seconds, none
-- shorter than the base (or 300 seconds, for a longer base), and the first eleven are the base
-- doubled with each failure, up to 300 seconds.
pub cooldown_lem :
    (base cnt : ℕ)
    → (cooldown base cnt ≤ cooldown base (suc cnt))
      × (cooldown base cnt ≤ 300 * second)
      × (min base (300 * second) ≤ cooldown base cnt)
      × (cnt ≤ 10 → cooldown base (suc cnt) ≡ min (base * 2 ^ cnt) (300 * second))
unfolding cooldown saturating_mul
cooldown_lem base cnt =
    let more = mul-le-mul_left base (backoff-grows cnt) in
    let least = mul-le-mul_left base (backoff-pos cnt) in
    (
      omega (arith, more),
      omega arith,
      omega (arith, least),
      λ h. omega (arith, ap (λ (t : ℕ). base * t) (backoff-at cnt h)),
    )
