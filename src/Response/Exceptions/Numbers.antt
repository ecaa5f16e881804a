-- ===== src/Response/Exceptions/Numbers.antt =====
-- The text of an exception's code, as a format text writes an `i32`, read back.
use st_clickhouse_lib.Common.{
  ℕ, zero, suc, ◌+◌, ◌-◌, ◌*◌, ◌/◌, ◌%◌, ◌^◌, ◌<◌, ◌≤◌, ◌≡◌, ◌⊎◌, inl, inr, refl, List, [], ◌∷◌,
  ◌++◌, All, All-append, Bool-cases, ltb, arith,
}
use native.Mathlib.Nat.{pow-suc}
use st_clickhouse_lib.Response.Exceptions.{decimal_text, i32_text}

-- The number that digits stand for, behind digits that stand for `higher`.
pub digits_value : ℕ → List ℕ → ℕ
digits_value higher [] = higher
digits_value higher (digit ∷ digits) = digits_value (higher * 10 + (digit - 48)) digits

abbrev pub IsDigit : ℕ → Type 0
IsDigit digit = (48 ≤ digit) × (digit ≤ 57)

-- A text that shows the `i32` of this bit pattern: its digits, with a minus sign in front where it is
-- below zero.
pub Shows : ℕ → List ℕ → Type 0
Shows code text =
    ((code < 2 ^ 31) × All IsDigit text × (digits_value 0 text ≡ code))
    ⊎ ((digits : List ℕ) × (text ≡ 45 ∷ digits)
        × All IsDigit digits
        × (digits_value 0 digits + code ≡ 2 ^ 32))

digits_value-append :
    (n digit : ℕ) (digits : List ℕ)
    → digits_value n (digits ++ (digit ∷ [])) ≡ digits_value n digits * 10 + (digit - 48)
unfolding digits_value
digits_value-append n digit [] = refl
digits_value-append n digit (d ∷ digits) = digits_value-append (n * 10 + (d - 48)) digit digits

All-decimal_text : (k n : ℕ) → All IsDigit (decimal_text k n)
unfolding decimal_text
All-decimal_text zero n = tt
All-decimal_text (suc k) n = elim (Bool-cases (ltb n 10)) [
  | inl small ↦ rw small ((omega arith, ground arith), tt)
  | inr large ↦ rw large (
      All-append IsDigit (decimal_text k (n / 10)) ((48 + n % 10) ∷ [])
        (All-decimal_text k (n / 10)) ((omega arith, omega arith), tt))
]

digits_value-decimal_text : (k n : ℕ) → n < 10 ^ k → digits_value 0 (decimal_text k n) ≡ n
unfolding decimal_text digits_value
digits_value-decimal_text zero n h = omega arith
digits_value-decimal_text (suc k) n h = elim (Bool-cases (ltb n 10)) [
  | inl small ↦ rw small (omega arith)
  | inr large ↦
      rw (large, digits_value-append 0 (48 + n % 10) (decimal_text k (n / 10)))
        (omega (arith, digits_value-decimal_text k (n / 10) (omega (arith, pow-suc 10 k, h))))
]

pub i32_text-Shows : (code : ℕ) → code < 2 ^ 32 → Shows code (i32_text code)
unfolding i32_text Shows
i32_text-Shows code fits = elim (Bool-cases (ltb code (2 ^ 31))) [
  | inl positive ↦ rw positive (
      inl (ground arith, All-decimal_text 10 code, digits_value-decimal_text 10 code (omega arith)))
  | inr negative ↦ rw negative (
      inr (
        decimal_text 10 (2 ^ 32 - code),
        refl,
        All-decimal_text 10 (2 ^ 32 - code),
        omega (arith, digits_value-decimal_text 10 (2 ^ 32 - code) (ground arith)),
      ))
]
