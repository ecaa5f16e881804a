-- ===== src/Wire/Source.antt =====
-- `std::io::Read` as an interface: the operation, the standard library's `read_exact` over it, and
-- what an implementation promises to stand for. An interrupted read, which `read_exact` repeats, is
-- no result here.
pub mod Refines
pub mod Slices
use st_clickhouse_lib.Common.{
  ℕ, zero, suc, ◌-◌, ◌≤◌, ◌<◌, ◌≡◌, ◌⊎◌, List, [], ◌∷◌, ◌++◌, Result, ok, err, ◌>>=◌, length,
}
use st_clickhouse_lib.Error.{Error, io, invalid_data, unexpected_eof}

-- `read` into a buffer of so many bytes: the bytes read, none at the end, and the source behind them.
pub record Source (R : Type 0) : Type 0 where
  pub read : ℕ → R → Result (List ℕ × R) Error

module _ {R : Type 0} (S : Source R) where
  -- Each round brings one byte at least, so `n` rounds are enough.
  unfoldable pub read_all_loop : ℕ → ℕ → R → Result (List ℕ × R) Error
  read_all_loop fuel zero r = ok ([], r)
  read_all_loop zero (suc n) r = err (io invalid_data)
  read_all_loop (suc fuel) (suc n) r = elim (S.read (suc n) r) [
    | err e ↦ err e
    | ok (bytes, next) ↦ elim bytes [
      | [] ↦ err (io unexpected_eof)
      | b ∷ bs ↦
          (read_all_loop fuel (suc n - length (b ∷ bs)) next >>= λ (more, last).
          ok ((b ∷ bs) ++ more, last))
    ]
  ]

  unfoldable pub read_all : ℕ → R → Result (List ℕ × R) Error
  unfolding read_all_loop
  read_all n r = read_all_loop n n r

-- What a read hands out: some bytes from the front of the payload, and a source of the rest.
pub record Delivers {R : Type 0} (Stands : R → List ℕ → Type 0) (out_len : ℕ) (payload : List ℕ)
    (result : Result (List ℕ × R) Error) : Type 0 where
  pub b : ℕ
  pub bs : List ℕ
  pub rest : List ℕ
  pub next : R
  pub returns : result ≡ ok (b ∷ bs, next)
  pub splits : payload ≡ (b ∷ bs) ++ rest
  pub within_buffer : length (b ∷ bs) ≤ out_len
  pub stands : Stands next rest

-- The end of the payload: nothing is read, or the source fails for want of bytes.
abbrev pub Ended : {R : Type 0} → (R → List ℕ → Type 0) → Result (List ℕ × R) Error → Type 0
Ended {R} Stands result =
    (result ≡ err (io unexpected_eof)) ⊎ ((next : R) × (result ≡ ok ([], next)) × Stands next [])

-- The sources that stand for the payload `p` hand out `p`, in order and without gaps.
pub record SourceLaws {R : Type 0} (S : Source R) (Stands : R → List ℕ → Type 0) : Type 0 where
  pub delivers :
      (out_len : ℕ) (r : R) (b : ℕ) (payload : List ℕ)
      → 0 < out_len
      → Stands r (b ∷ payload)
      → Delivers Stands out_len (b ∷ payload) (S.read out_len r)
  pub at_end : (out_len : ℕ) (r : R) → 0 < out_len → Stands r [] → Ended Stands (S.read out_len r)
