-- ===== src/Common/Fallible.antt =====
-- Rust's `Result`, with `?` as the bind of a `do` block.
use mathlib.Core.Path.{◌≡◌, refl, ap}
use mathlib.Core.Logic.{◌⊎◌, inl, inr}
use mathlib.Core.Bool.{Bool, true, false}
use st_clickhouse_lib.Common.Tests.{if◌then◌else◌}

pub data Result {ℓ κ} (A : Type ℓ) (E : Type κ) : Type (ℓ ⊔ κ) where
  ok : A → Result A E
  err : E → Result A E

abbrev pub map_err {ℓ κ μ} :
    {A : Type ℓ} {E : Type κ} {F : Type μ} → (E → F) → Result A E → Result A F
map_err f (ok a) = ok a
map_err f (err e) = err (f e)

infixl 5 ◌>>=◌ ◌>>◌
abbrev pub ◌>>=◌ {ℓ κ μ} :
    {A : Type ℓ} {B : Type κ} {E : Type μ} → Result A E → (A → Result B E) → Result B E
ok a >>= f = f a
err e >>= f = err e

abbrev pub ◌>>◌ {ℓ κ μ} :
    {A : Type ℓ} {B : Type κ} {E : Type μ} → Result A E → Result B E → Result B E
m >> k = m >>= λ _. k

pub Result-cases {ℓ κ} :
    {A : Type ℓ} {E : Type κ} (r : Result A E) → ((a : A) × (r ≡ ok a)) ⊎ ((e : E) × (r ≡ err e))
Result-cases (ok a) = inl (a, refl)
Result-cases (err e) = inr (e, refl)

-- A chain that succeeds has succeeded in each of its steps.
pub >>=-ok {ℓ κ μ} :
    {A : Type ℓ} {B : Type κ} {E : Type μ} (m : Result A E) (f : A → Result B E) {b : B}
    → (m >>= f) ≡ ok b
    → (a : A) × (m ≡ ok a) × (f a ≡ ok b)
>>=-ok (ok a) f h = (a, refl, h)
>>=-ok (err e) f h = cc

pub ok-injective {ℓ κ} :
    {A : Type ℓ} {E : Type κ} {a b : A} → Path (Result A E) (ok a) (ok b) → a ≡ b
ok-injective {a} h = ap (λ r. elim r [ ok x ↦ x | err e ↦ a ]) h

pub guard-ok {ℓ κ} :
    {A : Type ℓ} {E : Type κ} (b : Bool) (e : E) (m : Result A E) {a : A}
    → (if b then err e else m) ≡ ok a
    → m ≡ ok a
guard-ok true e m h = cc
guard-ok false e m h = h
