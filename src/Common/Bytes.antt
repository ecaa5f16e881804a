-- ===== src/Common/Bytes.antt =====
-- Bytes as numbers below 256, and Rust's `to_le_bytes` and `from_le_bytes` at every width.
use Prim.Native.Nat.{ℕ, zero, suc, ◌+◌, ◌*◌, ◌/◌, ◌%◌, ◌^◌, ◌<◌}
use mathlib.Core.Path.{◌≡◌, refl, ap}
use mathlib.Core.List.{List, [], ◌∷◌}
use native.Mathlib.Omega.{arith}
use native.Mathlib.Nat.{pow-suc}
use st_clickhouse_lib.Common.Lists.{length, All}

abbrev pub IsByte : ℕ → Type 0
IsByte b = b < 256

unfoldable pub to_le_bytes : ℕ → ℕ → List ℕ
to_le_bytes zero v = []
to_le_bytes (suc width) v = v % 256 ∷ to_le_bytes width (v / 256)

unfoldable pub from_le_bytes : List ℕ → ℕ
from_le_bytes [] = 0
from_le_bytes (b ∷ bs) = b + 256 * from_le_bytes bs

pub length-to_le_bytes : (width v : ℕ) → length (to_le_bytes width v) ≡ width
unfolding to_le_bytes
length-to_le_bytes zero v = refl
length-to_le_bytes (suc width) v = ap suc (length-to_le_bytes width (v / 256))

pub to_le_bytes-IsByte : (width v : ℕ) → All IsByte (to_le_bytes width v)
unfolding to_le_bytes
to_le_bytes-IsByte zero v = tt
to_le_bytes-IsByte (suc width) v = (omega arith, to_le_bytes-IsByte width (v / 256))

pub from_le_bytes-to_le_bytes :
    (width v : ℕ) → v < 256 ^ width → from_le_bytes (to_le_bytes width v) ≡ v
unfolding to_le_bytes from_le_bytes
from_le_bytes-to_le_bytes zero v h = omega arith
from_le_bytes-to_le_bytes (suc width) v h = omega (
  arith,
  pow-suc 256 width,
  from_le_bytes-to_le_bytes width (v / 256) (omega (arith, pow-suc 256 width)),
)

pub from_le_bytes-lt : (bs : List ℕ) → All IsByte bs → from_le_bytes bs < 256 ^ length bs
unfolding from_le_bytes
from_le_bytes-lt [] h = omega arith
from_le_bytes-lt (b ∷ bs) h = omega (arith, pow-suc 256 (length bs), from_le_bytes-lt bs h.1)
