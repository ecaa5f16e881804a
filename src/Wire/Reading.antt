-- ===== src/Wire/Reading.antt =====
-- Readers of a `std::io::Read` in `do` blocks, and what it means that one reads a value back.
use st_clickhouse_lib.Common.{
  ℕ, zero, suc, ◌+◌, ◌^◌, ◌≤◌, ◌<◌, ◌≡◌, refl, ap, ◌∙◌, List, [], ◌∷◌, ◌++◌, true, Result, ok, err,
  length, length-append, drop, drop-append, take-append, append_assoc, append-nil, All, arith,
}
use st_clickhouse_lib.Error.{Error}
use st_clickhouse_lib.Limits.Caps.{max_string_bytes}
use st_clickhouse_lib.Wire.Utf8.{is_utf8}
use st_clickhouse_lib.Wire.Cursor.{Outcome, done}
use st_clickhouse_lib.Wire.Parse.{parse_varint}
use st_clickhouse_lib.Wire.Read.{Reader, read_exact, read_varint, read_string}
use st_clickhouse_lib.Wire.Write.{write_varint, write_string}
use st_clickhouse_lib.Wire.RoundTrip.{parse_varint_at}
use st_clickhouse_lib.Wire.Strings.{checked_string_len_fits}
use st_clickhouse_lib.Wire.Agreement.{Agrees, parse_varint-read_varint}

unfoldable pub pure : {A : Type 0} → A → Reader A
pure a src = ok (a, src)

unfoldable pub lift : {A : Type 0} → Result A Error → Reader A
lift (ok a) src = ok (a, src)
lift (err e) src = err e

abbrev pub after :
    {A B : Type 0} → Result (A × List ℕ) Error → (A → Reader B) → Result (B × List ℕ) Error
after (ok (a, src)) f = f a src
after (err e) f = err e

infixl 5 ◌>>=◌ ◌>>◌
unfoldable pub ◌>>=◌ : {A B : Type 0} → Reader A → (A → Reader B) → Reader B
unfolding pure lift
◌>>=◌ m f src = after (m src) f

abbrev pub ◌>>◌ : {A B : Type 0} → Reader A → Reader B → Reader B
m >> k = m >>= λ _. k

-- `for _ in 0..n { items.push(body?); }`
unfoldable pub collect : {A : Type 0} → ℕ → Reader A → Reader (List A)
collect zero body = pure []
collect (suc n) body = do a ← body; rest ← collect n body; pure (a ∷ rest)

-- A reader that reads `a` from `bs`, whatever follows.
unfoldable pub Decodes : {A : Type 0} → Reader A → A → List ℕ → Type 0
Decodes m a bs = (rest : List ℕ) → m (bs ++ rest) ≡ ok (a, rest)

pub Decodes-pure : {A : Type 0} (a : A) → Decodes (pure a) a []
unfolding Decodes pure
Decodes-pure a rest = refl

pub Decodes-lift : {A : Type 0} (r : Result A Error) (a : A) → r ≡ ok a → Decodes (lift r) a []
unfolding Decodes lift
Decodes-lift r a e rest = rw e refl

module _ {A B : Type 0} (m : Reader A) (f : A → Reader B) (a : A) (b : B) (bs : List ℕ) where
  pub Decodes-bind :
      (cs : List ℕ) → Decodes m a bs → Decodes (f a) b cs → Decodes (m >>= f) b (bs ++ cs)
  unfolding Decodes ◌>>=◌
  Decodes-bind cs hm hf rest =
      ap (λ all. after (m all) f) (append_assoc bs cs rest)
      ∙ ap (λ o. after o f) (hm (cs ++ rest))
      ∙ hf rest

  pub Decodes-mapped : Decodes m a bs → Decodes (f a) b [] → Decodes (m >>= f) b bs
  Decodes-mapped hm hf = rw (append-nil bs) at (Decodes-bind [] hm hf)

module _ {A : Type 0} (body : Reader A) (encode : A → List ℕ) where
  unfoldable pub all_bytes : List A → List ℕ
  all_bytes [] = []
  all_bytes (a ∷ items) = encode a ++ all_bytes items

  pub Decodes-collect :
      (items : List A)
      → All (λ a. Decodes body a (encode a)) items
      → Decodes (collect (length items) body) items (all_bytes items)
  unfolding collect all_bytes
  Decodes-collect [] h = Decodes-pure []
  Decodes-collect (a ∷ items) h =
      Decodes-bind body _ a (a ∷ items) (encode a) (all_bytes items) h.0 (
        Decodes-mapped (collect (length items) body) _ items (a ∷ items) (all_bytes items)
          (Decodes-collect items h.1) (Decodes-pure (a ∷ items)))

pub Decodes-read_exact : (bs : List ℕ) → Decodes (read_exact (length bs)) bs bs
unfolding Decodes read_exact
Decodes-read_exact bs rest =
    ground (arith, take-append bs rest, drop-append bs rest, length-append bs rest)

read_varint-write_varint :
    (v : ℕ) (rest : List ℕ) → v < 2 ^ 64 → read_varint (write_varint v ++ rest) ≡ ok (v, rest)
read_varint-write_varint v rest h =
    agreed (parse_varint buf 0) (parse_varint_at v buf 0 rest h refl)
      (parse_varint-read_varint buf 0 (omega arith))
    ∙ ap (λ (src : List ℕ). ok (v, src)) behind
  where
    buf : List ℕ
    buf = write_varint v ++ rest

    agreed :
        (o : Outcome ℕ)
        → o ≡ done v (0 + length (write_varint v))
        → Agrees buf o (read_varint buf)
        → read_varint buf ≡ ok (v, drop (0 + length (write_varint v)) buf)
    agreed o e h = rw e at h

    behind : drop (0 + length (write_varint v)) buf ≡ rest
    behind =
        ap (λ (n : ℕ). drop n buf) {x = 0 + length (write_varint v)} {y = length (write_varint v)}
          (omega arith)
        ∙ drop-append (write_varint v) rest

pub Decodes-read_varint : (v : ℕ) → v < 2 ^ 64 → Decodes read_varint v (write_varint v)
unfolding Decodes
Decodes-read_varint v h rest = read_varint-write_varint v rest h

write_string_shape :
    (s rest : List ℕ) → write_string s ++ rest ≡ write_varint (length s) ++ (s ++ rest)
unfolding write_string
write_string_shape s rest = append_assoc (write_varint (length s)) s rest

read_exact_whole : (s rest : List ℕ) → read_exact (length s) (s ++ rest) ≡ ok (s, rest)
unfolding Decodes
read_exact_whole s rest = Decodes-read_exact s rest

pub Decodes-read_string :
    (s : List ℕ)
    → length s ≤ max_string_bytes
    → is_utf8 s ≡ true
    → Decodes read_string s (write_string s)
unfolding Decodes read_string
Decodes-read_string s short utf8 rest =
    rw
      (
        write_string_shape s rest,
        read_varint-write_varint (length s) (s ++ rest) (omega arith),
        checked_string_len_fits (length s) short,
        read_exact_whole s rest,
        utf8,
      )
      refl
