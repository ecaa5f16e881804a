-- ===== src/Wire/Lossy/Valid.antt =====
-- The lossy decoding keeps what is UTF-8, and all that it returns is UTF-8.
use st_clickhouse_lib.Common.{
  ℕ, List, [], ◌∷◌, ◌++◌, none, some, Option, ◌==◌, ◌≡◌, refl, ap, sym, ◌∙◌, append_assoc, true,
  false, Bool-cases, Option-cases, inl, inr, ==→eq,
}
use st_clickhouse_lib.Wire.Utf8.{Utf8State, at_boundary, utf8_byte, utf8_from, is_utf8}
use st_clickhouse_lib.Wire.Lossy.{
  replacement, Lossy, taken, fresh, lossy_byte, lossy_from, from_utf8_lossy,
}

-- A byte of a string that is UTF-8.
pub next_of :
    (o : Option Utf8State) (bs : List ℕ)
    → utf8_from o bs ≡ true
    → (next : Utf8State) × (o ≡ some next) × (utf8_from (some next) bs ≡ true)
unfolding utf8_from
next_of none bs h = absurd (clash h)
  where
    clash : ¬ (false ≡ true)
    clash h = cc
next_of (some next) bs h = (next, refl, h)

pub utf8_step :
    (s : Utf8State) (b : ℕ) (bs : List ℕ)
    → utf8_from (some s) (b ∷ bs) ≡ utf8_from (utf8_byte s b) bs
unfolding utf8_from
utf8_step s b bs = refl

pub utf8_end : (s : Utf8State) → utf8_from (some s) [] ≡ (s.due == 0)
unfolding utf8_from
utf8_end s = refl

taken_out :
    (next : Utf8State) (held bs : List ℕ) (b : ℕ)
    → ((rest : List ℕ) → (next.due ≡ 0 → rest ≡ []) → lossy_from next rest bs ≡ rest ++ bs)
    → (taken next held b).0 ++ lossy_from (taken next held b).1 (taken next held b).2 bs
      ≡ held ++ (b ∷ bs)
unfolding taken
taken_out next held bs b h = elim (Bool-cases (next.due == 0)) [
  | inl e ↦ rw (taken, e, h [] (λ due. refl)) (append_assoc held (b ∷ []) bs)
  | inr e ↦
      rw (taken, e, h (held ++ (b ∷ [])) (λ due. absurd (clash due e)))
        (append_assoc held (b ∷ []) bs)
]
  where
    clash : next.due ≡ 0 → ¬ ((next.due == 0) ≡ false)
    clash due e = cc

lossy_byte-some :
    (s next : Utf8State) (held : List ℕ) (b : ℕ)
    → utf8_byte s b ≡ some next
    → lossy_byte s held b ≡ taken next held b
unfolding lossy_byte
lossy_byte-some s next held b e = rw (lossy_byte, e) refl

lossy_from-kept :
    (bs : List ℕ) (s : Utf8State) (held : List ℕ)
    → (s.due ≡ 0 → held ≡ [])
    → utf8_from (some s) bs ≡ true
    → lossy_from s held bs ≡ held ++ bs
unfolding lossy_from
lossy_from-kept [] s held none_held h = rw (due, none_held (==→eq s.due 0 due)) refl
  where
    due : (s.due == 0) ≡ true
    due = sym (utf8_end s) ∙ h
lossy_from-kept (b ∷ bs) s held none_held h =
    let (next, e, later) = next_of (utf8_byte s b) bs (sym (utf8_step s b bs) ∙ h) in
    rw (lossy_byte-some s next held b e)
      (taken_out next held bs b (λ rest none_rest. lossy_from-kept bs next rest none_rest later))

-- Whole characters in front are no matter, and `held` leads from a boundary to the state `s`.
abbrev pub Whole : List ℕ → Type 0
Whole out =
    (rest : List ℕ) → utf8_from (some at_boundary) (out ++ rest) ≡ utf8_from (some at_boundary) rest

abbrev Leads : List ℕ → Utf8State → Type 0
Leads held s =
    (rest : List ℕ) → utf8_from (some at_boundary) (held ++ rest) ≡ utf8_from (some s) rest

abbrev Sound : Lossy → Type 0
Sound next = Whole next.0 × Leads next.2 next.1

-- A state with nothing due is as good as the boundary.
pub due_none :
    (s : Utf8State) (rest : List ℕ)
    → s.due ≡ 0
    → utf8_from (some s) rest ≡ utf8_from (some at_boundary) rest
unfolding utf8_from utf8_byte
due_none s [] e = rw e refl
due_none s (b ∷ rest) e = rw e refl

led_on :
    (s next : Utf8State) (held rest : List ℕ) (b : ℕ)
    → Leads held s
    → utf8_byte s b ≡ some next
    → utf8_from (some at_boundary) ((held ++ (b ∷ [])) ++ rest) ≡ utf8_from (some next) rest
led_on s next held rest b lead e =
    ap (λ bs. utf8_from (some at_boundary) bs) (append_assoc held (b ∷ []) rest)
    ∙ lead (b ∷ rest)
    ∙ utf8_step s b rest
    ∙ ap (λ o. utf8_from o rest) e

taken-Sound :
    (s next : Utf8State) (held : List ℕ) (b : ℕ)
    → Leads held s
    → utf8_byte s b ≡ some next
    → Sound (taken next held b)
unfolding taken
taken-Sound s next held b lead e = elim (Bool-cases (next.due == 0)) [
  | inl due ↦
      rw (taken, due)
        (
          (λ rest. led_on s next held rest b lead e ∙ due_none next rest (==→eq next.due 0 due)),
          λ rest. sym (due_none next rest (==→eq next.due 0 due)),
        )
  | inr more ↦ rw (taken, more) ((λ rest. refl), λ rest. led_on s next held rest b lead e)
]

replacement-Whole : Whole replacement
unfolding utf8_from utf8_byte
replacement-Whole rest = refl

fresh-Sound : (b : ℕ) → Sound (fresh b)
unfolding fresh
fresh-Sound b = elim (Option-cases (utf8_byte at_boundary b)) [
  | inl e ↦ rw (fresh, e) (replacement-Whole, λ rest. refl)
  | inr (next, e) ↦ rw (fresh, e) (taken-Sound at_boundary next [] b (λ rest. refl) e)
]

replaced-Sound : (next : Lossy) → Sound next → Sound (replacement ++ next.0, next.1, next.2)
replaced-Sound (out, s, held) sound =
    (λ rest. replacement-Whole (out ++ rest) ∙ sound.0 rest, sound.1)

lossy_byte-Sound :
    (s : Utf8State) (held : List ℕ) (b : ℕ) → Leads held s → Sound (lossy_byte s held b)
unfolding lossy_byte
lossy_byte-Sound s held b lead = elim (Option-cases (utf8_byte s b)) [
  | inr (next, e) ↦ rw (lossy_byte-some s next held b e) (taken-Sound s next held b lead e)
  | inl e ↦ elim (Bool-cases (s.due == 0)) [
    | inl due ↦ rw (lossy_byte, e, due) (replacement-Whole, λ rest. refl)
    | inr more ↦ rw (lossy_byte, e, more) (replaced-Sound (fresh b) (fresh-Sound b))
  ]
]

lossy_from-utf8 :
    (bs : List ℕ) (s : Utf8State) (held : List ℕ)
    → Leads held s
    → utf8_from (some at_boundary) (lossy_from s held bs) ≡ true
unfolding lossy_from
lossy_from-utf8 [] s held lead = elim (Bool-cases (s.due == 0)) [
  | inl due ↦ rw due (utf8_end at_boundary)
  | inr more ↦ rw more (replacement-Whole [] ∙ utf8_end at_boundary)
]
lossy_from-utf8 (b ∷ bs) s held lead =
    let next = lossy_byte s held b in
    let sound = lossy_byte-Sound s held b lead in
    sound.0 (lossy_from next.1 next.2 bs) ∙ lossy_from-utf8 bs next.1 next.2 sound.1

pub is_utf8-from_utf8_lossy : (bs : List ℕ) → is_utf8 (from_utf8_lossy bs) ≡ true
unfolding is_utf8 from_utf8_lossy
is_utf8-from_utf8_lossy bs = lossy_from-utf8 bs at_boundary [] (λ rest. refl)

pub from_utf8_lossy-kept : (bs : List ℕ) → is_utf8 bs ≡ true → from_utf8_lossy bs ≡ bs
unfolding is_utf8 from_utf8_lossy
from_utf8_lossy-kept bs = lossy_from-kept bs at_boundary [] (λ due. refl)
