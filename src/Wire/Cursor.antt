-- ===== src/Wire/Cursor.antt =====
-- Code that takes `buf: &[u8]` and `pos: &mut usize` and returns a `Result`. The position comes
-- back beside an error too. `stuck` is no value of the program: it is a loop out of fuel.
use st_clickhouse_lib.Common.{ℕ, zero, suc, List, [], ◌∷◌, Result, ok, err}
use st_clickhouse_lib.Error.{Error}

pub data Outcome (A : Type 0) : Type 0 where
  done : A → ℕ → Outcome A
  fail : Error → ℕ → Outcome A
  stuck : Outcome A

abbrev pub Cursor : Type 0 → Type 0
Cursor A = List ℕ → ℕ → Outcome A

unfoldable pub pure : {A : Type 0} → A → Cursor A
pure a buf pos = done a pos

unfoldable pub raise : {A : Type 0} → Error → Cursor A
raise e buf pos = fail e pos

unfoldable pub lift : {A : Type 0} → Result A Error → Cursor A
lift (ok a) buf pos = done a pos
lift (err e) buf pos = fail e pos

unfoldable pub out_of_fuel : {A : Type 0} → Cursor A
out_of_fuel buf pos = stuck

abbrev pub after : {A B : Type 0} → Outcome A → (A → Cursor B) → List ℕ → Outcome B
after (done a p) f buf = f a buf p
after (fail e p) f buf = fail e p
after stuck f buf = stuck

infixl 5 ◌>>=◌ ◌>>◌
unfoldable pub ◌>>=◌ : {A B : Type 0} → Cursor A → (A → Cursor B) → Cursor B
unfolding pure raise lift out_of_fuel
◌>>=◌ m f buf pos = after (m buf pos) f buf

abbrev pub ◌>>◌ : {A B : Type 0} → Cursor A → Cursor B → Cursor B
m >> k = m >>= λ _. k

-- `for x in xs { body(x)?; }`
unfoldable pub for_each : {A : Type 0} → List A → (A → Cursor (Unit {0})) → Cursor (Unit {0})
for_each [] body = pure tt
for_each (x ∷ xs) body = body x >> for_each xs body

-- `for _ in 0..n { body?; }`, and the same collecting what the body returns.
unfoldable pub repeat : ℕ → Cursor (Unit {0}) → Cursor (Unit {0})
repeat zero body = pure tt
repeat (suc n) body = body >> repeat n body

unfoldable pub collect : {A : Type 0} → ℕ → Cursor A → Cursor (List A)
collect zero body = pure []
collect (suc n) body = do a ← body; rest ← collect n body; pure (a ∷ rest)
