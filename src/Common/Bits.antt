-- ===== src/Common/Bits.antt =====
-- Bitwise operations as arithmetic: masks on a byte by evaluation, and the disjoint `|` of a
-- value and another shifted past it, for every width.
use Prim.Native.Nat.{
  ℕ, zero, suc, ◌+◌, ◌-◌, ◌*◌, ◌/◌, ◌%◌, ◌^◌, ◌≤◌, ◌<◌, min, max, bit_and, bit_or, digits,
  bit_and-bitwise, bit_or-bitwise,
}
use mathlib.Core.Path.{◌≡◌, refl, ap, ◌∙◌}
use mathlib.Core.Bool.{Bool, true, false}
use native.Mathlib.Omega.{arith}
use native.Mathlib.Nat.{pow-suc}
use st_clickhouse_lib.Common.Tests.{◌==◌, if◌then◌else◌}

-- Whether two functions agree below a bound, by evaluation.
same_below : (ℕ → ℕ) → (ℕ → ℕ) → ℕ → Bool
same_below f g zero = true
same_below f g (suc n) = if f n == g n then same_below f g n else false

same_below-at : (f g : ℕ → ℕ) (x bound : ℕ) → same_below f g bound ≡ true → x < bound → f x ≡ g x
unfolding same_below
same_below-at f g x zero e h = absurd (omega arith)
same_below-at f g x (suc bound) e h = ground (arith, same_below-at f g x bound)

pub top_bit : (b : ℕ) → b < 256 → bit_and b 0x80 ≡ b / 128 * 128
unfolding same_below
top_bit b h = same_below-at (λ y. bit_and y 0x80) (λ y. y / 128 * 128) b 256 refl h

pub set_top_bit : (b : ℕ) → b < 128 → bit_or b 0x80 ≡ b + 128
unfolding same_below
set_top_bit b h = same_below-at (λ y. bit_or y 0x80) (λ y. y + 128) b 128 refl h

-- A bitwise operation, as the library defines it: `f` on each pair of digits, and `z` where the
-- first operand has none left. Rounds beyond the first operand change nothing.
module _ (z : ℕ → ℕ) (f : ℕ → ℕ → ℕ) where
  round_more : (n a b : ℕ) → a ≤ n → digits z f (suc n) a b ≡ digits z f n a b
  round_more zero zero b h = refl
  round_more (suc n) zero b h = refl
  round_more zero (suc a) b h = absurd (omega arith)
  round_more (suc n) (suc a) b h = rw (round_more n (suc a / 2) (b / 2) (omega arith)) refl

  rounds_more : (k n a b : ℕ) → a ≤ n → digits z f (k + n) a b ≡ digits z f n a b
  rounds_more zero n a b h = ap (λ (m : ℕ). digits z f m a b) (from_none n)
    where
      from_none : (n : ℕ) → 0 + n ≡ n
      from_none n = omega arith
  rounds_more (suc k) n a b h =
      ap (λ (m : ℕ). digits z f m a b) (one_on k n)
      ∙ round_more (k + n) a b (omega arith)
      ∙ rounds_more k n a b h
    where
      one_on : (k n : ℕ) → suc k + n ≡ suc (k + n)
      one_on k n = omega arith

  digits_settle : (n a b : ℕ) → a ≤ n → digits z f n a b ≡ digits z f a a b
  digits_settle n a b h = rw (split n a h) at (rounds_more (n - a) a a b (omega arith))
    where
      split : (n a : ℕ) → a ≤ n → n - a + a ≡ n
      split n a h = omega arith

  -- The lowest digit, where `z` has it too.
  lowest_digit :
      ((b : ℕ) → z b ≡ z (b / 2) * 2 + f 0 (b % 2))
      → (a b : ℕ) → digits z f a a b ≡ digits z f (a / 2) (a / 2) (b / 2) * 2 + f (a % 2) (b % 2)
  lowest_digit hz zero b = hz b
  lowest_digit hz (suc a) b = rw (← digits_settle a (suc a / 2) (b / 2) (omega arith)) refl

bit_or_step : (a b : ℕ) → bit_or a b ≡ bit_or (a / 2) (b / 2) * 2 + max (a % 2) (b % 2)
bit_or_step a b =
    rw (bit_or-bitwise a b, bit_or-bitwise (a / 2) (b / 2))
      (lowest_digit (λ y. y) max (λ y. omega arith) a b)

double : (s k : ℕ) → k * 2 ^ suc s ≡ 2 * (k * 2 ^ s)
double s k = omega (arith, ap (λ (t : ℕ). k * t) (pow-suc 2 s))

-- `acc | (g << s)` adds, where `acc` ends below bit `s`.
pub bit_or_disjoint : (s acc g : ℕ) → acc < 2 ^ s → bit_or acc (g * 2 ^ s) ≡ acc + g * 2 ^ s
bit_or_disjoint zero acc g h =
    omega (arith, bit_or-bitwise 0 (g * 2 ^ zero), ap_zero acc (g * 2 ^ zero) (omega arith))
  where
    ap_zero : (a b : ℕ) → a ≡ 0 → bit_or a b ≡ bit_or 0 b
    ap_zero a b e = rw e
bit_or_disjoint (suc s) acc g h = rw (double s g) (
    omega (
      arith,
      pow-suc 2 s,
      bit_or_step acc (2 * (g * 2 ^ s)),
      ap (bit_or (acc / 2)) (halve (g * 2 ^ s)),
      bit_or_disjoint s (acc / 2) g (omega (arith, pow-suc 2 s)),
    ))
  where
    halve : (x : ℕ) → 2 * x / 2 ≡ x
    halve x = omega arith

bit_and_step : (a b : ℕ) → bit_and a b ≡ bit_and (a / 2) (b / 2) * 2 + min (a % 2) (b % 2)
bit_and_step a b =
    rw (bit_and-bitwise a b, bit_and-bitwise (a / 2) (b / 2))
      (lowest_digit (λ y. 0) min (λ y. omega arith) a b)

-- A mask of ones takes the remainder, one bit more at a time.
mask_none : (k a : ℕ) → a ≤ k → bit_and a 0 ≡ a % 1
mask_none k zero h = refl
mask_none zero (suc a) h = absurd (omega arith)
mask_none (suc k) (suc a) h =
    omega (arith, bit_and_step (suc a) 0, mask_none k (suc a / 2) (omega arith))

mask_grows :
    (ones p a : ℕ)
    → bit_and (a / 2) ones ≡ a / 2 % p
    → bit_and a (2 * ones + 1) ≡ a / 2 % p * 2 + a % 2
mask_grows ones p a h =
    omega (arith, bit_and_step a (2 * ones + 1), ap (bit_and (a / 2)) (halve ones))
  where
    halve : (x : ℕ) → (2 * x + 1) / 2 ≡ x
    halve x = omega arith

mask_1 : (a : ℕ) → bit_and a 1 ≡ a % 2
mask_1 a = omega (arith, mask_grows 0 1 a (mask_none (a / 2) (a / 2) (omega arith)))

mask_3 : (a : ℕ) → bit_and a 3 ≡ a % 4
mask_3 a = omega (arith, mask_grows 1 2 a (mask_1 (a / 2)))

mask_15 : (a : ℕ) → bit_and a 15 ≡ a % 16
mask_15 a = omega (arith, mask_grows 7 8 a (omega (arith, mask_grows 3 4 (a / 2) (mask_3 _))))

mask_63 : (a : ℕ) → bit_and a 63 ≡ a % 64
mask_63 a = omega (arith, mask_grows 31 32 a (omega (arith, mask_grows 15 16 (a / 2) (mask_15 _))))

pub low_seven : (a : ℕ) → bit_and a 0x7f ≡ a % 128
low_seven a = omega (arith, mask_grows 63 64 a (mask_63 (a / 2)))
