-- ===== src/Common/Lists.antt =====
-- Lists measured and indexed by native numbers, under the library's names.
use Prim.Native.Nat.{ℕ, zero, suc, ◌+◌, ◌-◌, ◌≤◌, ◌<◌, min}
use mathlib.Core.Path.{◌≡◌, refl, sym, ap, subst, ◌∙◌}
use mathlib.Core.List.{List, [], ◌∷◌, ◌++◌}
use mathlib.Core.Option.{Option, none, some}
use native.Mathlib.Omega.{arith}

module _ {ℓ} {A : Type ℓ} where
  abbrev pub length : List A → ℕ
  length [] = 0
  length (x ∷ xs) = suc (length xs)

  abbrev pub get_elem? : List A → ℕ → Option A
  get_elem? [] i = none
  get_elem? (x ∷ xs) zero = some x
  get_elem? (x ∷ xs) (suc i) = get_elem? xs i

  abbrev pub set : List A → ℕ → A → List A
  set [] i v = []
  set (x ∷ xs) zero v = v ∷ xs
  set (x ∷ xs) (suc i) v = x ∷ set xs i v

  abbrev pub take : ℕ → List A → List A
  take zero xs = []
  take (suc n) [] = []
  take (suc n) (x ∷ xs) = x ∷ take n xs

  abbrev pub drop : ℕ → List A → List A
  drop zero xs = xs
  drop (suc n) [] = []
  drop (suc n) (x ∷ xs) = drop n xs

  abbrev pub replicate : ℕ → A → List A
  replicate zero a = []
  replicate (suc n) a = a ∷ replicate n a

  abbrev pub All {κ} : (A → Type κ) → List A → Type κ
  All P [] = Unit {κ}
  All P (x ∷ xs) = P x × All P xs

module _ {ℓ} {A : Type ℓ} where
  pub length-append : (xs ys : List A) → length (xs ++ ys) ≡ length xs + length ys
  length-append [] ys = omega arith
  length-append (x ∷ xs) ys = omega (arith, length-append xs ys)

  pub take-append-drop : (n : ℕ) (xs : List A) → take n xs ++ drop n xs ≡ xs
  take-append-drop zero xs = refl
  take-append-drop (suc n) [] = refl
  take-append-drop (suc n) (x ∷ xs) = rw (take-append-drop n xs)

  pub length-take : (n : ℕ) (xs : List A) → length (take n xs) ≡ min n (length xs)
  length-take zero xs = omega arith
  length-take (suc n) [] = omega arith
  length-take (suc n) (x ∷ xs) = omega (arith, length-take n xs)

  pub length-drop : (n : ℕ) (xs : List A) → length (drop n xs) ≡ length xs - n
  length-drop zero xs = omega arith
  length-drop (suc n) [] = omega arith
  length-drop (suc n) (x ∷ xs) = omega (arith, length-drop n xs)

  pub length-replicate : (n : ℕ) (a : A) → length (replicate n a) ≡ n
  length-replicate zero a = refl
  length-replicate (suc n) a = ap suc (length-replicate n a)

  pub length-set : (xs : List A) (i : ℕ) (v : A) → length (set xs i v) ≡ length xs
  length-set [] i v = refl
  length-set (x ∷ xs) zero v = refl
  length-set (x ∷ xs) (suc i) v = ap suc (length-set xs i v)

  pub drop-append : (xs ys : List A) → drop (length xs) (xs ++ ys) ≡ ys
  drop-append [] ys = refl
  drop-append (x ∷ xs) ys = drop-append xs ys

  pub take-append : (xs ys : List A) → take (length xs) (xs ++ ys) ≡ xs
  take-append [] ys = refl
  take-append (x ∷ xs) ys = ap (λ r. x ∷ r) (take-append xs ys)

  pub get_elem?-drop :
      (xs ys : List A) (n : ℕ) (x : A) → drop n xs ≡ x ∷ ys → get_elem? xs n ≡ some x
  get_elem?-drop [] ys zero x h = cc
  get_elem?-drop [] ys (suc n) x h = cc
  get_elem?-drop (z ∷ xs) ys zero x h = cc
  get_elem?-drop (z ∷ xs) ys (suc n) x h = get_elem?-drop xs ys n x h

  pub get_elem?_beyond : (xs : List A) (n : ℕ) → length xs ≤ n → get_elem? xs n ≡ none
  get_elem?_beyond [] n h = refl
  get_elem?_beyond (x ∷ xs) zero h = absurd (omega arith)
  get_elem?_beyond (x ∷ xs) (suc n) h = get_elem?_beyond xs n (omega arith)

  pub get_elem?_within : (xs : List A) (n : ℕ) (x : A) → get_elem? xs n ≡ some x → n < length xs
  get_elem?_within [] n x h = cc
  get_elem?_within (y ∷ xs) zero x h = omega arith
  get_elem?_within (y ∷ xs) (suc n) x h = omega (arith, get_elem?_within xs n x h)

  pub drop-suc : (xs ys : List A) (n : ℕ) (x : A) → drop n xs ≡ x ∷ ys → drop (n + 1) xs ≡ ys
  drop-suc [] ys zero x h = cc
  drop-suc [] ys (suc n) x h = cc
  drop-suc (z ∷ xs) ys zero x h = cc
  drop-suc (z ∷ xs) ys (suc n) x h =
      subst (λ m. drop m (z ∷ xs) ≡ ys) {x = suc (n + 1)} {y = suc n + 1} (omega arith)
        (drop-suc xs ys n x h)

  pub All-append {κ} : (P : A → Type κ) (xs ys : List A) → All P xs → All P ys → All P (xs ++ ys)
  All-append P [] ys p q = q
  All-append P (x ∷ xs) ys p q = (p.0, All-append P xs ys p.1 q)

module _ {ℓ} {A : Type ℓ} where
  -- Dropping what stands at `n`, too.
  pub drop_sum :
      (xs : List A) (n : ℕ) (ys zs : List A) → drop n xs ≡ ys ++ zs → drop (n + length ys) xs ≡ zs
  drop_sum xs n [] zs h = subst (λ m. drop m xs ≡ zs) {x = n} {y = n + 0} (omega arith) h
  drop_sum xs n (y ∷ ys) zs h =
      subst (λ m. drop m xs ≡ zs) {x = n + 1 + length ys} {y = n + suc (length ys)} (omega arith)
        (drop_sum xs (n + 1) ys zs (drop-suc xs (ys ++ zs) n y h))

  pub get_elem?-append :
      (xs more : List A) (n : ℕ) → n < length xs → get_elem? (xs ++ more) n ≡ get_elem? xs n
  get_elem?-append [] more n h = elim h [ ]
  get_elem?-append (x ∷ xs) more zero h = refl
  get_elem?-append (x ∷ xs) more (suc n) h = get_elem?-append xs more n (omega arith)

  pub take-append_le : (n : ℕ) (xs more : List A) → n ≤ length xs → take n (xs ++ more) ≡ take n xs
  take-append_le zero xs more h = refl
  take-append_le (suc n) [] more h = elim h [ ]
  take-append_le (suc n) (x ∷ xs) more h = ap (λ r. x ∷ r) (take-append_le n xs more (omega arith))

  pub drop-append_le :
      (n : ℕ) (xs more : List A) → n ≤ length xs → drop n (xs ++ more) ≡ drop n xs ++ more
  drop-append_le zero xs more h = refl
  drop-append_le (suc n) [] more h = elim h [ ]
  drop-append_le (suc n) (x ∷ xs) more h = drop-append_le n xs more (omega arith)

  pub take-append_ge :
      (n : ℕ) (xs ys : List A) → length xs ≤ n → take n (xs ++ ys) ≡ xs ++ take (n - length xs) ys
  take-append_ge n [] ys h = ap (λ m. take m ys) {x = n} {y = n - 0} (omega arith)
  take-append_ge zero (x ∷ xs) ys h = elim h [ ]
  take-append_ge (suc n) (x ∷ xs) ys h =
      ap (λ r. x ∷ r) (take-append_ge n xs ys (omega arith))
      ∙ ap (λ m. x ∷ (xs ++ take m ys)) {x = n - length xs} {y = suc n - suc (length xs)}
          (omega arith)

  pub drop-append_ge :
      (n : ℕ) (xs ys : List A) → length xs ≤ n → drop n (xs ++ ys) ≡ drop (n - length xs) ys
  drop-append_ge n [] ys h = ap (λ m. drop m ys) {x = n} {y = n - 0} (omega arith)
  drop-append_ge zero (x ∷ xs) ys h = elim h [ ]
  drop-append_ge (suc n) (x ∷ xs) ys h =
      drop-append_ge n xs ys (omega arith)
      ∙ ap (λ m. drop m ys) {x = n - length xs} {y = suc n - suc (length xs)} (omega arith)

module _ {ℓ} {A : Type ℓ} where
  -- The parts of an append, where the length of the first is known.
  pub take_first : (n : ℕ) (xs ys : List A) → length xs ≡ n → take n (xs ++ ys) ≡ xs
  take_first n xs ys h = subst (λ m. take m (xs ++ ys) ≡ xs) h (take-append xs ys)

  pub drop_first : (n : ℕ) (xs ys : List A) → length xs ≡ n → drop n (xs ++ ys) ≡ ys
  drop_first n xs ys h = subst (λ m. drop m (xs ++ ys) ≡ ys) h (drop-append xs ys)

  pub drop_beyond : (n k : ℕ) (xs ys : List A) → length xs ≡ n → drop (n + k) (xs ++ ys) ≡ drop k ys
  drop_beyond n k xs ys h =
      drop-append_ge (n + k) xs ys (omega arith)
      ∙ ap (λ m. drop m ys) {x = n + k - length xs} {y = k} (omega arith)

  pub take_all : (n : ℕ) (xs : List A) → length xs ≤ n → take n xs ≡ xs
  take_all zero [] h = refl
  take_all zero (x ∷ xs) h = elim h [ ]
  take_all (suc n) [] h = refl
  take_all (suc n) (x ∷ xs) h = ap (λ r. x ∷ r) (take_all n xs (omega arith))

  pub drop_all : (n : ℕ) (xs : List A) → length xs ≤ n → drop n xs ≡ []
  drop_all zero [] h = refl
  drop_all (suc n) [] h = refl
  drop_all zero (x ∷ xs) h = elim h [ ]
  drop_all (suc n) (x ∷ xs) h = drop_all n xs (omega arith)

  pub drop-drop : (k n : ℕ) (xs : List A) → drop (k + n) xs ≡ drop n (drop k xs)
  drop-drop zero n xs = ap (λ m. drop m xs) {x = 0 + n} {y = n} (omega arith)
  drop-drop (suc k) n [] = drop_all (suc k + n) [] (omega arith) ∙ sym (drop_all n [] (omega arith))
  drop-drop (suc k) n (x ∷ xs) =
      ap (λ m. drop m (x ∷ xs)) {x = suc k + n} {y = suc (k + n)} (omega arith) ∙ drop-drop k n xs

  -- A window of a list that lies in its first `n` elements.
  pub take-drop-take :
      (n k j : ℕ) (xs : List A)
      → k + j ≤ n
      → n ≤ length xs
      → take j (drop k (take n xs)) ≡ take j (drop k xs)
  take-drop-take n k j xs h l =
      sym (
        take-append_le j (drop k (take n xs)) (drop n xs)
          (omega (arith, length-drop k (take n xs), length-take n xs)))
      ∙ ap (take j)
          (sym (drop-append_le k (take n xs) (drop n xs) (omega (arith, length-take n xs))))
      ∙ ap (λ x. take j (drop k x)) (take-append-drop n xs)

  pub take_split :
      (n w : ℕ) (xs : List A) → n ≤ w → take w xs ≡ take n xs ++ take (w - n) (drop n xs)
  take_split zero w xs h = ap (λ m. take m xs) {x = w} {y = w - 0} (omega arith)
  take_split (suc n) zero xs h = elim h [ ]
  take_split (suc n) (suc w) [] h = sym (take_all (suc w - suc n) [] (omega arith))
  take_split (suc n) (suc w) (x ∷ xs) h =
      ap (λ r. x ∷ r) (take_split n w xs (omega arith))
      ∙ ap (λ m. x ∷ (take n xs ++ take m (drop n xs))) {x = w - n} {y = suc w - suc n}
          (omega arith)
