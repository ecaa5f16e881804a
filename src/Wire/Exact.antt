-- ===== src/Wire/Exact.antt =====
-- `read_exact` on a stream that starts with known bytes, and what a successful read says.
use st_clickhouse_lib.Common.{
  ℕ, ◌-◌, ◌>>=◌, take-append_ge, drop-append_ge, ◌≡◌, ◌≤◌, List, [], ◌++◌, ok, err, suc, length,
  length-append, take-append, drop-append, take-append-drop, length-take, arith,
}
use st_clickhouse_lib.Error.{io, unexpected_eof}
use st_clickhouse_lib.Wire.Read.{read_exact}

pub read_exact_at :
    (n : ℕ) (bs rest : List ℕ) → length bs ≡ n → read_exact n (bs ++ rest) ≡ ok (bs, rest)
read_exact_at n bs rest h = rw h at (at_length bs)
  where
    at_length : (bs : List ℕ) → read_exact (length bs) (bs ++ rest) ≡ ok (bs, rest)
    at_length bs =
        unfold read_exact in
        ground (arith, length-append bs rest, take-append bs rest, drop-append bs rest)

pub read_exact_zero : (src : List ℕ) → read_exact 0 src ≡ ok ([], src)
unfolding read_exact
read_exact_zero src = ground arith

pub read_exact_empty : (n : ℕ) → read_exact (suc n) [] ≡ err (io unexpected_eof)
unfolding read_exact
read_exact_empty n = ground arith

-- A successful read splits the stream.
pub read_exact-ok :
    (n : ℕ) (src bs rest : List ℕ)
    → read_exact n src ≡ ok (bs, rest)
    → (src ≡ bs ++ rest) × (length bs ≡ n)
unfolding read_exact
read_exact-ok n src bs rest e = ground (arith, take-append-drop n src, length-take n src)

-- A stream that is longer than its first part.
pub read_exact_split :
    (n : ℕ) (bs rest : List ℕ)
    → length bs ≤ n
    → read_exact n (bs ++ rest)
      ≡ (read_exact (n - length bs) rest >>= λ (more, last). ok (bs ++ more, last))
unfolding read_exact
read_exact_split n bs rest h =
    ground (arith, length-append bs rest, take-append_ge n bs rest, drop-append_ge n bs rest)
