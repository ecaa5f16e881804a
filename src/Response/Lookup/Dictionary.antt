-- ===== src/Response/Lookup/Dictionary.antt =====
-- Materializing a LowCardinality column of a fixed width looks every index up in the dictionary.
use st_clickhouse_lib.Common.{
  ℕ, zero, suc, ◌+◌, ◌*◌, ◌^◌, ◌≤◌, ◌<◌, ◌≡◌, refl, ap, ◌∙◌, subst, List, [], ◌∷◌, ◌++◌, true,
  String, Option, none, some, Result, ok, err, map, length, length-append, drop, drop-append,
  drop-drop, get_elem?, get_elem?_within, Bool, ltb, ◌==◌, ◌||◌, All, arith, Bool-cases, inl, inr,
}
use st_clickhouse_lib.Common.Bytes.{to_le_bytes, length-to_le_bytes, from_le_bytes-to_le_bytes}
use st_clickhouse_lib.Error.{Error, protocol, message}
use st_clickhouse_lib.Limits.Caps.{usize_try_from, checked_add, checked_mul}
use st_clickhouse_lib.Wire.Parse.{slice}
use st_clickhouse_lib.Wire.Strings.{slice_at}
use st_clickhouse_lib.Skip.Primitives.{checked_usize}
use st_clickhouse_lib.Response.Lookup.{entry_range, read_lc_index}

pub some-injective : {A : Type 0} {a b : A} → Path (Option A) (some a) (some b) → a ≡ b
some-injective {a} h = ap (λ o. elim o [ none ↦ a | some x ↦ x ]) h

-- Entries one behind the other.
unfoldable pub flat : List (List ℕ) → List ℕ
flat [] = []
flat (c ∷ cs) = c ++ flat cs

abbrev pub HasWidth : ℕ → List ℕ → Type 0
HasWidth w c = length c ≡ w

pub length-flat :
    (w : ℕ) (cs : List (List ℕ)) → All (HasWidth w) cs → length (flat cs) ≡ length cs * w
unfolding flat
length-flat w [] h = omega arith
length-flat w (c ∷ cs) h = grind (arith, length-append c (flat cs), h.0, length-flat w cs h.1)

next_start : (i w : ℕ) → suc i * w ≡ w + i * w
next_start i w = grind arith

drop_past : (c rest : List ℕ) (n : ℕ) → drop (length c + n) (c ++ rest) ≡ drop n rest
drop_past c rest n = drop-drop (length c) n (c ++ rest) ∙ ap (drop n) (drop-append c rest)

-- Where an entry stands.
entry_at :
    (w : ℕ) (cs : List (List ℕ)) (i : ℕ) (c : List ℕ)
    → All (HasWidth w) cs
    → get_elem? cs i ≡ some c
    → (rest : List ℕ) × (length c ≡ w) × (drop (i * w) (flat cs) ≡ c ++ rest)
unfolding flat
entry_at w [] i c h at = cc
entry_at w (d ∷ cs) zero c h at =
    let same : d ≡ c = some-injective at in
    (
      flat cs,
      subst (λ e. length e ≡ w) same h.0,
      ap (λ (m : ℕ). drop m (d ++ flat cs)) {x = 0 * w} {y = 0} (omega arith)
          ∙ ap (λ e. e ++ flat cs) same,
    )
entry_at w (d ∷ cs) (suc i) c h at =
    let (rest, wide, there) = entry_at w cs i c h.1 at in
    (
      rest,
      wide,
      ap (λ (m : ℕ). drop m (d ++ flat cs)) {x = suc i * w} {y = length d + i * w}
            (omega (arith, next_start i w, h.0))
          ∙ drop_past d (flat cs) (i * w)
          ∙ there,
    )

-- The bytes of an entry, and the end of it.
pub slice-flat :
    (w : ℕ) (cs : List (List ℕ)) (i : ℕ) (c : List ℕ)
    → All (HasWidth w) cs
    → get_elem? cs i ≡ some c
    → slice (flat cs) (i * w) (i * w + w) ≡ c
slice-flat w cs i c h at =
    let (rest, wide, there) = entry_at w cs i c h at in
    subst (λ n. slice (flat cs) (i * w) (i * w + n) ≡ c) wide
      (slice_at (flat cs) (i * w) c rest there)

pub ends_inside : (i n w : ℕ) → i < n → i * w + w ≤ n * w
ends_inside i n w h = grind arith

pub ends_outside : (i n w : ℕ) → 0 < w → n ≤ i → n * w < i * w + w
ends_outside i n w some_width h = grind arith

pub get_elem?_ge : {A : Type 0} (xs : List A) (i : ℕ) → get_elem? xs i ≡ none → length xs ≤ i
get_elem?_ge [] i h = omega arith
get_elem?_ge (y ∷ xs) zero h = cc
get_elem?_ge (y ∷ xs) (suc i) h = omega (arith, get_elem?_ge xs i h)

-- The range of an entry that is there.
pub entry_range-inside :
    (i w limit : ℕ) (a b : String)
    → i * w + w ≤ limit
    → limit < 2 ^ 64
    → entry_range i w limit a b ≡ ok (i * w, i * w + w)
unfolding entry_range checked_mul checked_add
entry_range-inside i w limit a b h small = ground arith

abbrev pub Refused : {A : Type 0} → Result A Error → Type 0
Refused {A} r = (e : Error) × (r ≡ err e)

-- And of one that is not.
pub entry_range-outside :
    (i w limit : ℕ) (a b : String) → limit < i * w + w → Refused (entry_range i w limit a b)
unfolding entry_range checked_mul checked_add
entry_range-outside i w limit a b h = elim (Bool-cases (ltb (i * w) (2 ^ 64))) [
  | inr far ↦ (protocol (message a []), ground arith)
  | inl near ↦ elim (Bool-cases (ltb (i * w + w) (2 ^ 64))) [
    | inr over ↦ (protocol (message a []), ground arith)
    | inl fits ↦ (protocol (message b []), ground arith)
  ]
]

-- The widths that `lc_idx_width` gives.
abbrev pub is_index_width : ℕ → Bool
is_index_width width = (width == 1) || (width == 2) || (width == 4) || (width == 8)

get_elem?-map :
    {A B : Type 0} (f : A → B) (xs : List A) (i : ℕ) (x : A)
    → get_elem? xs i ≡ some x
    → get_elem? (map f xs) i ≡ some (f x)
get_elem?-map f [] i x h = cc
get_elem?-map f (y ∷ xs) zero x h = ap (λ y. some (f y)) (some-injective h)
get_elem?-map f (y ∷ xs) (suc i) x h = get_elem?-map f xs i x h

length-map : {A B : Type 0} (f : A → B) (xs : List A) → length (map f xs) ≡ length xs
length-map f [] = refl
length-map f (x ∷ xs) = ap suc (length-map f xs)

-- The indexes of a column on the wire.
abbrev pub index_bytes : ℕ → List ℕ → List ℕ
index_bytes width indexes = flat (map (to_le_bytes width) indexes)

All-HasWidth :
    (width : ℕ) (indexes : List ℕ) → All (HasWidth width) (map (to_le_bytes width) indexes)
All-HasWidth width [] = tt
All-HasWidth width (x ∷ indexes) = (length-to_le_bytes width x, All-HasWidth width indexes)

length-index_bytes :
    (width : ℕ) (indexes : List ℕ) → length (index_bytes width indexes) ≡ length indexes * width
length-index_bytes width indexes =
    length-flat width (map (to_le_bytes width) indexes) (All-HasWidth width indexes)
    ∙ ap (λ (n : ℕ). n * width) (length-map (to_le_bytes width) indexes)

checked_usize-fits : (v : ℕ) (what : String) → v < 2 ^ 64 → checked_usize v what ≡ ok v
unfolding checked_usize usize_try_from
checked_usize-fits v what h = ground arith

pub read_lc_index-index_bytes :
    (width : ℕ) (indexes : List ℕ) (row x : ℕ)
    → is_index_width width ≡ true
    → length indexes * width < 2 ^ 64
    → get_elem? indexes row ≡ some x
    → x < 256 ^ width
    → x < 2 ^ 64
    → read_lc_index (index_bytes width indexes) row width ≡ ok x
unfolding read_lc_index
read_lc_index-index_bytes width indexes row x known small at fits word =
    rw
      (
        length-index_bytes width indexes,
        entry_range-inside row width (length indexes * width) "LowCardinality index overflow"
            "LowCardinality index data is truncated"
            (ends_inside row (length indexes) width (get_elem?_within indexes row x at)) small,
        known,
        slice-flat width (map (to_le_bytes width) indexes) row (to_le_bytes width x)
            (All-HasWidth width indexes) (get_elem?-map (to_le_bytes width) indexes row x at),
        from_le_bytes-to_le_bytes width x fits,
        checked_usize-fits x "LowCardinality index" word,
      )
      refl
