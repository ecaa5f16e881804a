-- ===== src/Handshake/Fields.antt =====
-- The fields of a server's hello, as src/sync/protocol/handshake.rs reads them back.
use st_clickhouse_lib.Common.{
  ℕ, ◌^◌, ◌≤◌, ◌<◌, ◌≡◌, ap, subst, List, [], ◌∷◌, ◌++◌, Bool, true, false, Option, none, some, ok,
  map_err, length, leb, if◌then◌else◌, All, arith,
}
use st_clickhouse_lib.Common.Bytes.{
  to_le_bytes, from_le_bytes, length-to_le_bytes, from_le_bytes-to_le_bytes,
}
use st_clickhouse_lib.Error.{protocol}
use st_clickhouse_lib.Limits.Caps.{max_string_bytes, checked_count, usize_try_from}
use st_clickhouse_lib.Wire.Utf8.{is_utf8}
use st_clickhouse_lib.Wire.Read.{Reader, read_exact, read_varint, read_string}
use st_clickhouse_lib.Wire.Write.{write_varint, write_string}
use st_clickhouse_lib.Wire.Reading.{
  pure, Decodes, Decodes-pure, Decodes-lift, Decodes-bind, Decodes-mapped, Decodes-collect,
  all_bytes, Decodes-read_exact, Decodes-read_varint, Decodes-read_string,
}
use st_clickhouse_lib.Handshake.Hello.{
  since, read_some, read_pair, read_rules, read_nonce, max_password_complexity_rules,
}

abbrev pub IsText : List ℕ → Type 0
IsText s = (length s ≤ max_string_bytes) × (is_utf8 s ≡ true)

abbrev pub IsPair : List ℕ × List ℕ → Type 0
IsPair pair = IsText pair.0 × IsText pair.1

-- A field that a revision brings: it is there from its gate on, and absent before.
abbrev pub OptionFits : {A : Type 0} → ℕ → ℕ → (A → Type 0) → Option A → Type 0
OptionFits gate n P none = leb gate n ≡ false
OptionFits gate n P (some a) = (leb gate n ≡ true) × P a

abbrev pub option_bytes : {A : Type 0} → (A → List ℕ) → Option A → List ℕ
option_bytes encode none = []
option_bytes encode (some a) = encode a

-- A field with a default before its gate.
abbrev pub DefaultFits : {A : Type 0} → Bool → (A → Type 0) → A → A → Type 0
DefaultFits true P default a = P a
DefaultFits false P default a = a ≡ default

abbrev pub gated : Bool → List ℕ → List ℕ
gated true bs = bs
gated false bs = []

module _ {A : Type 0} (gate n : ℕ) (body : Reader A) (encode : A → List ℕ) (P : A → Type 0)
    (reads : (a : A) → P a → Decodes body a (encode a)) where
  pub Decodes-option :
      (o : Option A)
      → OptionFits gate n P o
      → Decodes (since gate n (read_some body) none) o (option_bytes encode o)
  unfolding since read_some
  Decodes-option none fits = rw fits (Decodes-pure none)
  Decodes-option (some a) (on, fits) =
      rw on (Decodes-mapped body _ a (some a) (encode a) (reads a fits) (Decodes-pure (some a)))

  default_case :
      (on : Bool) (default a : A)
      → DefaultFits on P default a
      → Decodes (if on then body else pure default) a (gated on (encode a))
  default_case true default a fits = reads a fits
  default_case false default a fits = rw fits (Decodes-pure default)

  pub Decodes-default :
      (default a : A)
      → DefaultFits (leb gate n) P default a
      → Decodes (since gate n body default) a (gated (leb gate n) (encode a))
  unfolding since
  Decodes-default default a fits = default_case (leb gate n) default a fits

abbrev pub pair_bytes : List ℕ × List ℕ → List ℕ
pair_bytes pair = write_string pair.0 ++ write_string pair.1

pub Decodes-read_pair :
    (pair : List ℕ × List ℕ) → IsPair pair → Decodes read_pair pair (pair_bytes pair)
unfolding read_pair
Decodes-read_pair (first, second) (hf, hs) =
    Decodes-bind read_string _ first (first, second) (write_string first) _
      (Decodes-read_string first hf.0 hf.1)
      (Decodes-mapped read_string _ second (first, second) (write_string second)
        (Decodes-read_string second hs.0 hs.1) (Decodes-pure (first, second)))

abbrev pub RulesFit : List (List ℕ × List ℕ) → Type 0
RulesFit rules = (length rules ≤ max_password_complexity_rules) × All IsPair rules

unfoldable pub rules_bytes : List (List ℕ × List ℕ) → List ℕ
unfolding all_bytes
rules_bytes rules = write_varint (length rules) ++ all_bytes read_pair pair_bytes rules

All-read_pair :
    (rules : List (List ℕ × List ℕ))
    → All IsPair rules
    → All (λ pair. Decodes read_pair pair (pair_bytes pair)) rules
All-read_pair [] h = tt
All-read_pair (pair ∷ rules) h = (Decodes-read_pair pair h.0, All-read_pair rules h.1)

count-fits :
    (n : ℕ)
    → n ≤ max_password_complexity_rules
    → checked_count n "password complexity rule" max_password_complexity_rules ≡ ok n
unfolding checked_count usize_try_from
count-fits n h = ground arith

pub Decodes-read_rules :
    (rules : List (List ℕ × List ℕ)) → RulesFit rules → Decodes read_rules rules (rules_bytes rules)
unfolding read_rules rules_bytes
Decodes-read_rules rules (few, fit) =
    Decodes-bind read_varint _ (length rules) rules (write_varint (length rules)) _
      (Decodes-read_varint (length rules) (omega arith))
      (Decodes-bind _ _ (length rules) rules [] _
        (Decodes-lift _ (length rules) (ap (map_err protocol) (count-fits (length rules) few)))
        (Decodes-collect read_pair pair_bytes rules (All-read_pair rules fit)))

pub Decodes-read_nonce : (v : ℕ) → v < 2 ^ 64 → Decodes read_nonce v (to_le_bytes 8 v)
unfolding read_nonce
Decodes-read_nonce v h =
    Decodes-mapped (read_exact 8) _ (to_le_bytes 8 v) v (to_le_bytes 8 v)
      (subst (λ n. Decodes (read_exact n) (to_le_bytes 8 v) (to_le_bytes 8 v))
        (length-to_le_bytes 8 v) (Decodes-read_exact (to_le_bytes 8 v)))
      (subst (λ n. Decodes (pure (from_le_bytes (to_le_bytes 8 v))) n [])
        (from_le_bytes-to_le_bytes 8 v (omega arith)) (Decodes-pure _))
