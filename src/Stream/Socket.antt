-- ===== src/Stream/Socket.antt =====
-- The socket below the wrapper, which other crates provide, by its documented behaviour: a poll is
-- pending, fails, or brings some of the bytes that have arrived, as many as fit; no byte is the end.
use st_clickhouse_lib.Common.{
  ℕ, false, ◌≤◌, ◌<◌, ◌≡◌, ◌⊎◌, inl, inr, refl, sym, ap, ◌∙◌, List, [], ◌∷◌, ◌++◌, append_assoc,
  Bool-cases, Result, ok, err, leb, length, take, drop, take-append-drop, length-take,
  if◌then◌else◌, arith,
}
use st_clickhouse_lib.Error.{Error, io, IoKind}

pub data Event : Type 0 where
  waits : Event
  fails : IoKind → Event
  arrives : List ℕ → Event

-- `Poll<io::Result<..>>`, with the bytes that were put into the caller's buffer. `stuck` is no value
-- of the program: it is a loop out of rounds.
pub data Poll : Type 0 where
  pending : Poll
  ready : Result (List ℕ) Error → Poll
  stuck : Poll

-- A poll with room for `room` bytes.
unfoldable pub poll_inner_read : ℕ → List Event → Poll × List Event
poll_inner_read room [] = (ready (ok []), [])
poll_inner_read room (waits ∷ later) = (pending, later)
poll_inner_read room (fails e ∷ later) = (ready (err (io e)), later)
poll_inner_read room (arrives bs ∷ later) =
    if leb (length bs) room
    then (ready (ok bs), later)
    else (ready (ok (take room bs)), arrives (drop room bs) ∷ later)

-- All bytes that the socket is still to bring.
abbrev pub arrivals : List Event → List ℕ
arrivals [] = []
arrivals (waits ∷ later) = arrivals later
arrivals (fails e ∷ later) = arrivals later
arrivals (arrives bs ∷ later) = bs ++ arrivals later

pub record StreamWrapper : Type 0 where
  pub inner : List Event
  pub chunk : List ℕ
  pub chunk_pos : ℕ
  pub chunk_fill : ℕ
  pub len_buf : List ℕ
  pub len_pos : ℕ
  pub rd_buf : List ℕ
  pub rd_pos : ℕ
  pub rd_fill : ℕ

-- A poll that brings nothing to a buffer with room finds the end.
abbrev pub AtEnd : List Event → Type 0
AtEnd [] = Unit
AtEnd (arrives [] ∷ later) = Unit
AtEnd (arrives (b ∷ bs) ∷ later) = ⊥
AtEnd (waits ∷ later) = ⊥
AtEnd (fails e ∷ later) = ⊥

-- What a poll took from the socket.
abbrev pub Polled : ℕ → List Event → Poll × List Event → Type 0
Polled room inner (pending, later) = arrivals later ≡ arrivals inner
Polled room inner (stuck, later) = ⊥
Polled room inner (ready (err e), later) = arrivals later ≡ arrivals inner
Polled room inner (ready (ok bs), later) =
    (arrivals inner ≡ bs ++ arrivals later)
    × (length bs ≤ room)
    × (0 < room → (0 < length bs) ⊎ AtEnd inner)

leb→gt : (a b : ℕ) → leb a b ≡ false → b < a
leb→gt a b h = ground arith

all_fits :
    (room : ℕ) (bs : List ℕ) (later : List Event)
    → length bs ≤ room
    → Polled room (arrives bs ∷ later) (ready (ok bs), later)
all_fits room [] later h = (refl, h, λ _. inr tt)
all_fits room (b ∷ bs) later h = (refl, h, λ _. inl (omega arith))

pub poll_inner_read-Polled :
    (room : ℕ) (inner : List Event) → Polled room inner (poll_inner_read room inner)
unfolding poll_inner_read
poll_inner_read-Polled room [] = (refl, omega arith, λ _. inr tt)
poll_inner_read-Polled room (waits ∷ later) = refl
poll_inner_read-Polled room (fails e ∷ later) = refl
poll_inner_read-Polled room (arrives bs ∷ later) = elim (Bool-cases (leb (length bs) room)) [
  | inl fits ↦ rw fits (all_fits room bs later (ground (arith, fits)))
  | inr more ↦ rw more (
    ap (λ x. x ++ arrivals later) (sym (take-append-drop room bs))
        ∙ append_assoc (take room bs) (drop room bs) (arrivals later),
    omega (arith, length-take room bs),
    λ h. inl (omega (arith, length-take room bs, leb→gt (length bs) room more)),
  )
]
