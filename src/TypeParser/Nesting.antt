-- ===== src/TypeParser/Nesting.antt =====
-- The parser of shared/type_parser.rs builds no type that nests deeper than its cap allows.
use st_clickhouse_lib.Common.{
  subst, length, ℕ, zero, suc, ◌+◌, ◌≤◌, ◌≡◌, refl, List, [], ◌∷◌, All, Bool, true, false, Option,
  none, some, Result, ok, err, ◌>>=◌, if◌then◌else◌, arith, Option-cases, inl, inr, String,
}
use mathlib.Core.Option
use st_clickhouse_lib.Error.{Message}
use st_clickhouse_lib.Limits.Caps.{ok_or}
use st_clickhouse_lib.ColumnType.{
  ColumnType, ColumnTypes, one_more, none_left, other, time64, decimal, nullable, array, tuple,
  low_cardinality, fixed_string, date_time64, variant, enum8, enum16, date_time, json,
  aggregate_function, simple_aggregate_function,
}
use st_clickhouse_lib.ColumnType.Depth.{depth, depth_all}
use st_clickhouse_lib.TypeParser.Text.{trim, codes, starts_with, find}
use st_clickhouse_lib.TypeParser.Keywords.{simple_types, later_simple_types, find_type}
use st_clickhouse_lib.TypeParser.Parser.{
  max_type_nesting, parse_decimal, parse_time64, parse_simple, parse_map, parse_elems, parse_params,
  parse_trimmed, parse_type_rec, parse_type, find_top_level_comma,
}

unfoldable pub Shallow : ℕ → Result ColumnType Message → Type 0
Shallow n (ok ct) = depth ct ≤ n
Shallow n (err e) = Unit {0}

abbrev ShallowAll : ℕ → Result ColumnTypes Message → Type 0
ShallowAll n (ok ts) = depth_all ts ≤ n
ShallowAll n (err e) = Unit {0}

Shallow-if :
    (n : ℕ) (b : Bool) (x y : Result ColumnType Message)
    → Shallow n x
    → Shallow n y
    → Shallow n (if b then x else y)
unfolding Shallow
Shallow-if n true x y h k = h
Shallow-if n false x y h k = k

-- The keywords, the geo types among them.
find_type-Shallow :
    (base : List ℕ) (arms : List (String × ColumnType))
    → All (λ arm. depth arm.1 ≤ 7) arms
    → (ct : ColumnType) → find_type base arms ≡ some ct
    → depth ct ≤ 7
unfolding find_type
find_type-Shallow base [] h ct e = cc
find_type-Shallow base ((name, t) ∷ arms) h ct e =
    ground (arith, find_type-Shallow base arms h.1 ct)

simple_depths : All (λ arm. depth arm.1 ≤ 7) simple_types
unfolding depth
simple_depths = omega arith

later_depths : All (λ arm. depth arm.1 ≤ 7) later_simple_types
unfolding depth
later_depths = omega arith

leaf : (n : ℕ) (ct : ColumnType) → depth ct ≡ 0 → Shallow n (ok ct)
unfolding Shallow
leaf n ct h = omega (arith, h)

flat :
    (n : ℕ) (r : Result ℕ Message) (wrap : ℕ → ColumnType)
    → ((k : ℕ) → depth (wrap k) ≡ 0)
    → Shallow n (r >>= λ k. ok (wrap k))
unfolding Shallow
flat n (ok k) wrap h = omega (arith, h k)
flat n (err e) wrap h = tt

flat_pair : (n : ℕ) (p s : Result ℕ Message) → Shallow n (p >>= λ p. s >>= λ s. ok (decimal p s))
unfolding Shallow depth
flat_pair n (ok p) (ok s) = omega arith
flat_pair n (ok p) (err e) = tt
flat_pair n (err e) s = tt

parse_decimal-Shallow : (n : ℕ) (inner s : List ℕ) → Shallow n (parse_decimal inner s)
unfolding Shallow parse_decimal
parse_decimal-Shallow n inner s = elim (Option-cases (find b',' inner)) [
  | inl e ↦ rw (e, parse_decimal) tt
  | inr (i, e) ↦ rw (e, parse_decimal) (flat_pair n _ _)
]

module _ (n : ℕ) (room : 7 ≤ n) where
  time-Shallow : (o : Option ℕ) (m : Message) → Shallow n (ok_or (Option.map time64 o) m)
  unfolding Shallow depth
  time-Shallow none m = tt
  time-Shallow (some k) m = omega arith

  later-Shallow :
      (base : List ℕ) (o : Option ColumnType)
      → ((ct : ColumnType) → o ≡ some ct → depth ct ≤ 7)
      → Shallow n (elim o [ some ct ↦ ok ct | none ↦ ok (other base) ])
  unfolding Shallow depth
  later-Shallow base none h = omega arith
  later-Shallow base (some ct) h = omega (arith, h ct refl)

  parse_simple-Shallow : (base : List ℕ) → Shallow n (parse_simple base)
  unfolding Shallow parse_simple parse_time64
  parse_simple-Shallow base = elim (Option-cases (find_type base simple_types)) [
    | inr (ct, e) ↦
        rw (e, parse_simple) (omega (arith, find_type-Shallow base simple_types simple_depths ct e))
    | inl e ↦
        rw (e, parse_simple)
          (Shallow-if n (starts_with (codes "Time64") base) _ _ (time-Shallow _ _)
            (later-Shallow base _ (find_type-Shallow base later_simple_types later_depths)))
  ]

refused : (n : ℕ) (e : Message) → Shallow n (err e)
unfolding Shallow
refused n e = tt

module _ (n : ℕ) (room : 6 ≤ n) (rec : List ℕ → Result ColumnType Message)
    (below : (s : List ℕ) → Shallow n (rec s)) where
  wrapped-Shallow :
      (wrap : ColumnType → ColumnType) (r : Result ColumnType Message)
      → ((t : ColumnType) → depth (wrap t) ≡ suc (depth t))
      → Shallow n r
      → Shallow (suc n) (r >>= λ t. ok (wrap t))
  unfolding Shallow
  wrapped-Shallow wrap (ok t) h s = omega (arith, h t)
  wrapped-Shallow wrap (err e) h s = tt

  pair-Shallow :
      (kt vt : Result ColumnType Message)
      → Shallow n kt
      → Shallow n vt
      → Shallow (suc n) (kt >>= λ k. vt >>= λ v. ok (ColumnType.map k v))
  unfolding Shallow depth
  pair-Shallow (ok k) (ok v) h s = omega arith
  pair-Shallow (ok k) (err e) h s = tt
  pair-Shallow (err e) vt h s = tt

  cons-Shallow :
      (t : Result ColumnType Message) (ts : Result ColumnTypes Message)
      → Shallow n t
      → ShallowAll n ts
      → ShallowAll n (t >>= λ a. ts >>= λ b. ok (one_more a b))
  unfolding Shallow depth_all
  cons-Shallow (ok t) (ok ts) h s = omega arith
  cons-Shallow (ok t) (err e) h s = tt
  cons-Shallow (err e) ts h s = tt

  last_elem :
      (t : Result ColumnType Message)
      → Shallow n t
      → ShallowAll n (t >>= λ a. ok (one_more a none_left))
  unfolding Shallow depth_all
  last_elem (ok t) h = omega arith
  last_elem (err e) h = tt

  parse_elems-Shallow : (fuel : ℕ) (s : List ℕ) → ShallowAll n (parse_elems rec fuel s)
  unfolding parse_elems depth_all
  parse_elems-Shallow zero s = tt
  parse_elems-Shallow (suc fuel) [] = omega arith
  parse_elems-Shallow (suc fuel) (ch ∷ s) = elim (Option-cases (find_top_level_comma (ch ∷ s))) [
    | inl e ↦ rw (e, parse_elems) (last_elem (rec (ch ∷ s)) (below _))
    | inr (pos, e) ↦ rw (e, parse_elems) (cons-Shallow _ _ (below _) (parse_elems-Shallow fuel _))
  ]

  parse_map-Shallow : (inner : List ℕ) → Shallow (suc n) (parse_map rec inner)
  unfolding Shallow parse_map
  parse_map-Shallow inner = elim (Option-cases (find_top_level_comma inner)) [
    | inl e ↦ rw (e, parse_map) tt
    | inr (comma, e) ↦ rw (e, parse_map) (pair-Shallow _ _ (below _) (below _))
  ]

  list-Shallow :
      (wrap : ColumnTypes → ColumnType) (r : Result ColumnTypes Message)
      → ((ts : ColumnTypes) → depth (wrap ts) ≡ suc (depth_all ts))
      → ShallowAll n r
      → Shallow (suc n) (r >>= λ ts. ok (wrap ts))
  unfolding Shallow
  list-Shallow wrap (ok ts) h s = omega (arith, h ts)
  list-Shallow wrap (err e) h s = tt

  choose :
      (b : Bool) (x y : Result ColumnType Message)
      → Shallow (suc n) x
      → Shallow (suc n) y
      → Shallow (suc n) (if b then x else y)
  choose = Shallow-if (suc n)

  parse_params-Shallow : (base inner s : List ℕ) → Shallow (suc n) (parse_params rec base inner s)
  unfolding parse_params depth
  parse_params-Shallow base inner s =
      search
        (
          Shallow-if,
          refused,
          wrapped-Shallow nullable (rec inner) (λ t. refl) (below inner),
          wrapped-Shallow array (rec inner) (λ t. refl) (below inner),
          wrapped-Shallow low_cardinality (rec inner) (λ t. refl) (below inner),
          parse_map-Shallow inner,
          list-Shallow tuple (parse_elems rec (suc (length inner)) inner) (λ ts. refl)
              (parse_elems-Shallow (suc (length inner)) inner),
          list-Shallow variant (parse_elems rec (suc (length inner)) inner) (λ ts. refl)
              (parse_elems-Shallow (suc (length inner)) inner),
          parse_decimal-Shallow,
          leaf (suc n) enum8 refl,
          leaf (suc n) enum16 refl,
          leaf (suc n) date_time refl,
          leaf (suc n) json refl,
          leaf (suc n) aggregate_function refl,
          leaf (suc n) simple_aggregate_function refl,
          leaf (suc n) (other s) refl,
          λ (r : Result ℕ Message). flat (suc n) r fixed_string (λ k. refl),
          λ (r : Result ℕ Message). flat (suc n) r date_time64 (λ k. refl),
          λ (r : Result ℕ Message). flat (suc n) r time64 (λ k. refl),
          λ (r : Result ℕ Message). flat (suc n) r (decimal 9) (λ k. refl),
          λ (r : Result ℕ Message). flat (suc n) r (decimal 18) (λ k. refl),
          λ (r : Result ℕ Message). flat (suc n) r (decimal 38) (λ k. refl),
          λ (r : Result ℕ Message). flat (suc n) r (decimal 76) (λ k. refl),
        )
        depth 30

  parse_trimmed-Shallow : (s : List ℕ) → Shallow (suc n) (parse_trimmed rec s)
  unfolding Shallow parse_trimmed
  parse_trimmed-Shallow s = elim (Option-cases (find b'(' s)) [
    | inl e ↦
        rw (e, parse_trimmed)
          (search (Shallow-if, refused, parse_simple-Shallow (suc n) (omega arith)))
    | inr (paren, e) ↦ rw (e, parse_trimmed) (search (Shallow-if, refused, parse_params-Shallow))
  ]

parse_type_rec-Shallow : (left : ℕ) (s : List ℕ) → Shallow (left + 6) (parse_type_rec left s)
unfolding parse_type_rec
parse_type_rec-Shallow zero s = refused 6 _
parse_type_rec-Shallow (suc left) s =
    subst (λ n. Shallow n (parse_type_rec (suc left) s)) (shift left)
      (parse_trimmed-Shallow (left + 6) (omega arith) (parse_type_rec left)
        (parse_type_rec-Shallow left) (trim s))
  where
    shift : (k : ℕ) → suc (k + 6) ≡ suc k + 6
    shift k = omega arith

-- A type name that parses gives a type of depth 263 at most: the 256 levels that the parser's cap
-- allows, and seven more. Every type around another one counts one, and the geo types Point, Ring,
-- Polygon and MultiPolygon count 1, 3, 5 and 7, for what the skipper unfolds them to.
pub parse_type-Shallow : (s : List ℕ) → Shallow (max_type_nesting + 7) (parse_type s)
unfolding parse_type
parse_type-Shallow s = parse_type_rec-Shallow 257 s
