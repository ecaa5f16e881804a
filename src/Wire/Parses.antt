-- ===== src/Wire/Parses.antt =====
-- Code over a buffer reads a value back from the bytes that encode it, wherever they stand.
use st_clickhouse_lib.Common.{
  ℕ, ◌+◌, ◌^◌, ◌≤◌, ◌<◌, ◌≡◌, refl, ap, ◌∙◌, List, [], ◌∷◌, ◌++◌, length, length-append, drop,
  drop-append, drop_sum, append_assoc, append-nil, Result, ok, true, arith, All,
}
use st_clickhouse_lib.Common.Bytes.{to_le_bytes, length-to_le_bytes, from_le_bytes-to_le_bytes}
use st_clickhouse_lib.Error.{Error}
use st_clickhouse_lib.Limits.Caps.{max_string_bytes, checked_add}
use st_clickhouse_lib.Wire.Cursor.{Outcome, done, Cursor, pure, lift, after, ◌>>=◌, collect}
use st_clickhouse_lib.Wire.Utf8.{is_utf8}
use st_clickhouse_lib.Wire.Parse.{
  parse_varint, parse_bytes, parse_string_bytes, parse_string, parse_i32,
}
use st_clickhouse_lib.Wire.Write.{write_varint, write_string}
use st_clickhouse_lib.Wire.RoundTrip.{parse_varint_at}
use st_clickhouse_lib.Wire.Strings.{
  length_at, slice_at, parse_bytes_at, parse_string_bytes_at, parse_string_at,
}

-- The buffer holds `bs` from `pos` on.
pub record At (buf : List ℕ) (pos : ℕ) (bs : List ℕ) : Type 0 where
  pub inside : pos ≤ length buf
  pub small : length buf < 2 ^ 64
  pub here : drop pos buf ≡ bs

unfoldable pub Parses : {A : Type 0} → Cursor A → A → List ℕ → Type 0
Parses m a bs =
    (buf rest : List ℕ) (pos : ℕ) → At buf pos (bs ++ rest) → m buf pos ≡ done a (pos + length bs)

-- In the middle of a buffer.
pub At-middle :
    (before bs behind : List ℕ)
    → length (before ++ (bs ++ behind)) < 2 ^ 64
    → At (before ++ (bs ++ behind)) (length before) (bs ++ behind)
At-middle before bs behind fits = record {
  inside = omega (arith, length-append before (bs ++ behind));
  small = fits;
  here = drop-append before (bs ++ behind);
}

pub At-behind :
    (buf bs rest : List ℕ) (pos : ℕ) → At buf pos (bs ++ rest) → At buf (pos + length bs) rest
At-behind buf bs rest pos at = record {
  inside = omega (arith, length_at buf pos bs rest at.inside at.here);
  small = at.small;
  here = drop_sum buf pos bs rest at.here;
}

pub At-assoc :
    (buf bs cs rest : List ℕ) (pos : ℕ)
    → At buf pos ((bs ++ cs) ++ rest)
    → At buf pos (bs ++ (cs ++ rest))
At-assoc buf bs cs rest pos at = record {
  inside = at.inside;
  small = at.small;
  here = at.here ∙ append_assoc bs cs rest;
}

pub Parses-pure : {A : Type 0} (a : A) → Parses (pure a) a []
unfolding Parses pure
Parses-pure a buf rest pos at = ap (λ (p : ℕ). done a p) (omega arith)

pub Parses-lift : {A : Type 0} (r : Result A Error) (a : A) → r ≡ ok a → Parses (lift r) a []
unfolding Parses lift
Parses-lift r a e buf rest pos at = rw e (ap (λ (p : ℕ). done a p) (omega arith))

module _ {A B : Type 0} where
  after-done :
      (o : Outcome A) (f : A → Cursor B) (buf : List ℕ) (a : A) (p : ℕ)
      → o ≡ done a p
      → after o f buf ≡ f a buf p
  after-done o f buf a p e = rw e refl

  pub Parses-bind :
      (m : Cursor A) (f : A → Cursor B) (a : A) (b : B) (bs cs : List ℕ)
      → Parses m a bs
      → Parses (f a) b cs
      → Parses (m >>= f) b (bs ++ cs)
  unfolding Parses ◌>>=◌
  Parses-bind m f a b bs cs hm hf buf rest pos at =
      let first = At-assoc buf bs cs rest pos at in
      after-done (m buf pos) f buf a (pos + length bs) (hm buf (cs ++ rest) pos first)
      ∙ hf buf rest (pos + length bs) (At-behind buf bs (cs ++ rest) pos first)
      ∙ ap (λ (p : ℕ). done b p) (omega (arith, length-append bs cs))

  -- Code that reads nothing first or nothing last.
  pub Parses-checked :
      (m : Cursor A) (f : A → Cursor B) (a : A) (b : B) (bs : List ℕ)
      → Parses m a []
      → Parses (f a) b bs
      → Parses (m >>= f) b bs
  Parses-checked m f a b bs hm hf = Parses-bind m f a b [] bs hm hf

  pub Parses-mapped :
      (m : Cursor A) (f : A → Cursor B) (a : A) (b : B) (bs : List ℕ)
      → Parses m a bs
      → Parses (f a) b []
      → Parses (m >>= f) b bs
  Parses-mapped m f a b bs hm hf = rw (append-nil bs) at (Parses-bind m f a b bs [] hm hf)

module _ {A : Type 0} (body : Cursor A) (encode : A → List ℕ) where
  unfoldable pub all_bytes : List A → List ℕ
  all_bytes [] = []
  all_bytes (a ∷ items) = encode a ++ all_bytes items

  pub Parses-collect :
      (items : List A)
      → All (λ a. Parses body a (encode a)) items
      → Parses (collect (length items) body) items (all_bytes items)
  unfolding collect all_bytes
  Parses-collect [] h = Parses-pure []
  Parses-collect (a ∷ items) h = Parses-bind body _ a (a ∷ items) (encode a) (all_bytes items) h.0 (
      Parses-mapped (collect (length items) body) _ items (a ∷ items) (all_bytes items)
        (Parses-collect items h.1) (Parses-pure (a ∷ items)))

pub Parses-parse_varint : (v : ℕ) → v < 2 ^ 64 → Parses parse_varint v (write_varint v)
unfolding Parses
Parses-parse_varint v h buf rest pos at = parse_varint_at v buf pos rest h at.here

pub Parses-parse_bytes : (bs : List ℕ) → Parses (parse_bytes (length bs)) bs bs
unfolding Parses
Parses-parse_bytes bs buf rest pos at = parse_bytes_at buf pos bs rest at.inside at.small at.here

module _ (s : List ℕ) (short : length s ≤ max_string_bytes) where
  written : length (write_varint (length s)) + length s ≡ length (write_string s)
  unfolding write_string
  written = omega (arith, length-append (write_varint (length s)) s)

  split :
      (buf rest : List ℕ) (pos : ℕ)
      → At buf pos (write_string s ++ rest)
      → drop pos buf ≡ write_varint (length s) ++ (s ++ rest)
  unfolding write_string
  split buf rest pos at = at.here ∙ append_assoc (write_varint (length s)) s rest

  pub Parses-parse_string_bytes : Parses parse_string_bytes s (write_string s)
  unfolding Parses
  Parses-parse_string_bytes buf rest pos at =
      parse_string_bytes_at buf pos s rest at.inside at.small short (split buf rest pos at)
      ∙ ap (λ (p : ℕ). done s p) (omega (arith, written))

  pub Parses-parse_string : is_utf8 s ≡ true → Parses parse_string s (write_string s)
  unfolding Parses
  Parses-parse_string utf8 buf rest pos at =
      rw utf8 at (parse_string_at buf pos s rest at.inside at.small short (split buf rest pos at))
      ∙ ap (λ (p : ℕ). done s p) (omega (arith, written))

pub Parses-parse_i32 : (code : ℕ) → code < 2 ^ 32 → Parses parse_i32 code (to_le_bytes 4 code)
unfolding Parses parse_i32 checked_add
Parses-parse_i32 code h buf rest pos at = ground (
  arith,
  length-to_le_bytes 4 code,
  length_at buf pos (to_le_bytes 4 code) rest at.inside at.here,
  slice_at buf pos (to_le_bytes 4 code) rest at.here,
  from_le_bytes-to_le_bytes 4 code,
  at.small,
)
