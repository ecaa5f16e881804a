-- ===== src/Response/Exceptions/RoundTrip.antt =====
-- Exception chains as a server sends them, and what `parse_exception_chain` makes of them.
use st_clickhouse_lib.Common.{
  ℕ, zero, suc, ◌+◌, ◌^◌, ◌≤◌, ◌<◌, ◌≡◌, refl, ap, List, [], ◌∷◌, ◌++◌, map, length, All, arith,
  ◌∙◌,
}
use st_clickhouse_lib.Common.Bytes.{to_le_bytes}
use st_clickhouse_lib.Error.{Error, protocol, message, num}
use st_clickhouse_lib.Limits.Caps.{max_string_bytes}
use st_clickhouse_lib.Wire.Cursor.{Outcome, done, fail, Cursor, raise, after, ◌>>=◌}
use st_clickhouse_lib.Wire.Parse.{parse_bytes, parse_string_bytes, parse_i32}
use st_clickhouse_lib.Wire.Write.{write_string}
use st_clickhouse_lib.Wire.Lossy.{from_utf8_lossy}
use st_clickhouse_lib.Wire.Parses.{
  At, At-behind, At-assoc, At-middle, Parses, Parses-pure, Parses-bind, Parses-mapped,
  Parses-parse_bytes, Parses-parse_string_bytes, Parses-parse_i32,
}
use st_clickhouse_lib.Response.Exceptions.{
  Level, Chain, part, join, i32_text, parse_level, exception_levels, chain_of,
  parse_exception_chain, max_exception_chain_depth,
}
use st_clickhouse_lib.TypeParser.Text.{codes}
use st_clickhouse_lib.Response.Exceptions.Numbers.{Shows, i32_text-Shows}

-- One exception on the wire. The texts need not be UTF-8.
pub record Frame : Type 0 where
  pub code : ℕ
  pub name : List ℕ
  pub text : List ℕ
  pub stack : List ℕ

abbrev pub FrameFits : Frame → Type 0
FrameFits f =
    (f.code < 2 ^ 32)
    × (length f.name ≤ max_string_bytes)
    × (length f.text ≤ max_string_bytes)
    × (length f.stack ≤ max_string_bytes)

unfoldable pub frame_bytes : Frame → List ℕ
frame_bytes f =
    to_le_bytes 4 f.code ++ (write_string f.name ++ (write_string f.text ++ write_string f.stack))

-- A flag behind each exception says whether one more follows.
unfoldable pub chain_bytes : Frame → List Frame → List ℕ
chain_bytes f [] = frame_bytes f ++ (0 ∷ [])
chain_bytes f (g ∷ frames) = frame_bytes f ++ ((1 ∷ []) ++ chain_bytes g frames)

abbrev pub level_of : Frame → Level
level_of f = record { code = f.code; name = from_utf8_lossy f.name; text = from_utf8_lossy f.text }

Parses-parse_level : (f : Frame) → FrameFits f → Parses parse_level (level_of f) (frame_bytes f)
unfolding parse_level frame_bytes
Parses-parse_level f (code_fits, name_short, text_short, stack_short) =
    Parses-bind parse_i32 _ f.code _ (to_le_bytes 4 f.code) _ (Parses-parse_i32 f.code code_fits) (
      Parses-bind parse_string_bytes _ f.name _ (write_string f.name) _
        (Parses-parse_string_bytes f.name name_short)
        (Parses-bind parse_string_bytes _ f.text _ (write_string f.text) _
          (Parses-parse_string_bytes f.text text_short)
          (Parses-mapped parse_string_bytes _ f.stack _ (write_string f.stack)
            (Parses-parse_string_bytes f.stack stack_short) (Parses-pure (level_of f)))))

Parses-exception_levels :
    (left : ℕ) (f : Frame) (frames : List Frame)
    → FrameFits f
    → All FrameFits frames
    → length frames < left
    → Parses (exception_levels left) (map level_of (f ∷ frames)) (chain_bytes f frames)
unfolding exception_levels chain_bytes
Parses-exception_levels zero f frames hf hs h = absurd (omega arith)
Parses-exception_levels (suc left) f [] hf hs h =
    Parses-bind parse_level _ (level_of f) _ (frame_bytes f) (0 ∷ []) (Parses-parse_level f hf) (
      Parses-mapped (parse_bytes 1) _ (0 ∷ []) _ (0 ∷ []) (Parses-parse_bytes (0 ∷ []))
        (Parses-pure (level_of f ∷ [])))
Parses-exception_levels (suc left) f (g ∷ frames) hf hs h =
    Parses-bind parse_level _ (level_of f) _ (frame_bytes f) _ (Parses-parse_level f hf) (
      Parses-bind (parse_bytes 1) _ (1 ∷ []) _ (1 ∷ []) _ (Parses-parse_bytes (1 ∷ [])) (
        Parses-mapped (exception_levels left) _ (map level_of (g ∷ frames)) _ (chain_bytes g frames)
          (Parses-exception_levels left g frames hs.0 hs.1 (omega arith)) (Parses-pure _)))

-- The message for one exception: its name, its code as a number and its own text.
pub Says : Frame → List ℕ → Type 0
Says f said =
    (number : List ℕ) × Shows f.code number
    × (said
        ≡ from_utf8_lossy f.name
          ++ (codes " (code " ++ (number ++ (codes "): " ++ from_utf8_lossy f.text))))

-- The message of a chain, from the outermost exception to the innermost.
pub SaysAll : Frame → List Frame → List ℕ → Type 0
SaysAll f [] said = Says f said
SaysAll f (g ∷ frames) said =
    (outer inner : List ℕ) × Says f outer
    × SaysAll g frames inner
    × (said ≡ outer ++ (codes " | nested: " ++ inner))

part-Says : (f : Frame) → FrameFits f → Says f (part (level_of f))
unfolding Says part
part-Says f fits = (i32_text f.code, i32_text-Shows f.code fits.0, refl)

join-SaysAll :
    (f : Frame) (frames : List Frame)
    → FrameFits f
    → All FrameFits frames
    → SaysAll f frames (join (map level_of (f ∷ frames)))
unfolding SaysAll join
join-SaysAll f [] hf hs = part-Says f hf
join-SaysAll f (g ∷ frames) hf hs = (
  part (level_of f),
  join (map level_of (g ∷ frames)),
  part-Says f hf,
  join-SaysAll g frames hs.0 hs.1,
  refl,
)

-- A chain of at most 1000 exceptions that are well formed on the wire, in a buffer shorter than
-- 2^64 bytes: the parser reads the whole chain, whatever follows it, and stops right behind it. It
-- reports the outermost exception's code and name, and a message that gives, from the outermost
-- exception to the innermost, each one's name, its code in decimal digits, with a minus sign for a
-- code below zero, and its text.
pub parse_exception_chain-chain_bytes :
    (f : Frame) (frames : List Frame) (rest : List ℕ)
    → FrameFits f
    → All FrameFits frames
    → length frames < max_exception_chain_depth
    → length (chain_bytes f frames ++ rest) < 2 ^ 64
    → (chain : Chain) × (chain.root_code ≡ f.code)
      × (chain.root_name ≡ from_utf8_lossy f.name)
      × SaysAll f frames chain.joined
      × (parse_exception_chain (chain_bytes f frames ++ rest) 0
          ≡ done chain (length (chain_bytes f frames)))
unfolding Parses parse_exception_chain chain_of
parse_exception_chain-chain_bytes f frames rest hf hs few small = (
  chain_of (map level_of (f ∷ frames)),
  refl,
  refl,
  join-SaysAll f frames hf hs,
  Parses-mapped (exception_levels max_exception_chain_depth) _ (map level_of (f ∷ frames)) _
        (chain_bytes f frames)
        (Parses-exception_levels max_exception_chain_depth f frames hf hs few)
        (Parses-pure (chain_of (map level_of (f ∷ frames)))) _ rest 0
        (At-middle [] (chain_bytes f frames) rest small)
      ∙ ap (λ (p : ℕ). done (chain_of (map level_of (f ∷ frames))) p) (omega arith),
)

-- Bytes on which code over a buffer fails with an error.
unfoldable Fails : {A : Type 0} → Cursor A → Error → List ℕ → Type 0
Fails m e bs =
    (buf rest : List ℕ) (pos : ℕ) → At buf pos (bs ++ rest) → (p : ℕ) × (m buf pos ≡ fail e p)

module _ {A B : Type 0} (f : A → Cursor B) where
  after_done :
      (o : Outcome A) (buf : List ℕ) (a : A) (p : ℕ) → o ≡ done a p → after o f buf ≡ f a buf p
  after_done o buf a p e = rw e refl

  after_fail :
      (o : Outcome A) (buf : List ℕ) (x : Error) (p : ℕ) → o ≡ fail x p → after o f buf ≡ fail x p
  after_fail o buf x p e = rw e refl

  Fails-behind :
      (m : Cursor A) (a : A) (x : Error) (bs cs : List ℕ)
      → Parses m a bs
      → Fails (f a) x cs
      → Fails (m >>= f) x (bs ++ cs)
  unfolding Fails Parses ◌>>=◌
  Fails-behind m a x bs cs hm hf buf rest pos at =
      let first = At-assoc buf bs cs rest pos at in
      let (p, e) = hf buf rest (pos + length bs) (At-behind buf bs (cs ++ rest) pos first) in
      (p, after_done (m buf pos) buf a (pos + length bs) (hm buf (cs ++ rest) pos first) ∙ e)

  Fails-first : (m : Cursor A) (x : Error) (bs : List ℕ) → Fails m x bs → Fails (m >>= f) x bs
  unfolding Fails ◌>>=◌
  Fails-first m x bs hm buf rest pos at =
      let (p, e) = hm buf rest pos at in (p, after_fail (m buf pos) buf x p e)

abbrev pub too_deep : Error
too_deep = protocol (message "exception nesting too deep: more than {} levels" (num 1000 ∷ []))

Fails-exception_levels :
    (left : ℕ) (f : Frame) (frames : List Frame)
    → FrameFits f
    → All FrameFits frames
    → left ≤ length frames
    → Fails (exception_levels left) too_deep (chain_bytes f frames)
unfolding exception_levels chain_bytes Fails raise
Fails-exception_levels zero f frames hf hs h = λ buf rest pos at. (pos, refl)
Fails-exception_levels (suc left) f [] hf hs h = absurd (omega arith)
Fails-exception_levels (suc left) f (g ∷ frames) hf hs h =
    Fails-behind _ parse_level (level_of f) too_deep (frame_bytes f) _ (Parses-parse_level f hf) (
      Fails-behind _ (parse_bytes 1) (1 ∷ []) too_deep (1 ∷ []) _ (Parses-parse_bytes (1 ∷ [])) (
        Fails-first _ (exception_levels left) too_deep (chain_bytes g frames)
          (Fails-exception_levels left g frames hs.0 hs.1 (omega arith))))

-- A chain of more than 1000 exceptions that are well formed on the wire is refused with the
-- protocol error that names the cap, and not as an exception of the server, whatever follows it.
pub parse_exception_chain-too_deep :
    (f : Frame) (frames : List Frame) (rest : List ℕ)
    → FrameFits f
    → All FrameFits frames
    → max_exception_chain_depth ≤ length frames
    → length (chain_bytes f frames ++ rest) < 2 ^ 64
    → (p : ℕ) × (parse_exception_chain (chain_bytes f frames ++ rest) 0 ≡ fail too_deep p)
unfolding Fails parse_exception_chain
parse_exception_chain-too_deep f frames rest hf hs deep small =
    Fails-first _ (exception_levels max_exception_chain_depth) too_deep (chain_bytes f frames)
      (Fails-exception_levels max_exception_chain_depth f frames hf hs deep) _ rest 0
      (At-middle [] (chain_bytes f frames) rest small)
