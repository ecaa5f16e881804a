-- ===== src/Wire/Strings.antt =====
-- Reading back the length-prefixed strings of shared/wire.rs.
use st_clickhouse_lib.Common.{
  ℕ, ◌+◌, ◌-◌, ◌^◌, ◌≤◌, ◌<◌, ◌≡◌, ap, ◌∙◌, List, ◌++◌, length, length-append, length-drop, drop,
  drop-append, drop_sum, take-append, [], ◌∷◌, append_assoc, ok, err, if◌then◌else◌, arith,
}
use st_clickhouse_lib.Error.{protocol, message, num}
use st_clickhouse_lib.Limits.Caps.{max_string_bytes, usize_try_from, checked_add}
use st_clickhouse_lib.Wire.Cursor.{done, fail, ◌>>=◌, lift}
use st_clickhouse_lib.Wire.Utf8.{is_utf8}
use st_clickhouse_lib.Wire.Parse.{
  parse_bytes, parse_string_bytes, parse_string, checked_string_len, parse_utf8, slice,
}
use st_clickhouse_lib.Wire.Write.{write_varint, write_string}
use st_clickhouse_lib.Wire.RoundTrip.{parse_varint_at}

-- What a buffer holds from `pos` on fits behind `pos`.
pub length_at :
    (buf : List ℕ) (pos : ℕ) (bs rest : List ℕ)
    → pos ≤ length buf
    → drop pos buf ≡ bs ++ rest
    → pos + length bs + length rest ≡ length buf
length_at buf pos bs rest h at =
    omega (arith, length-drop pos buf, ap length at, length-append bs rest)

pub slice_at :
    (buf : List ℕ) (pos : ℕ) (bs rest : List ℕ)
    → drop pos buf ≡ bs ++ rest
    → slice buf pos (pos + length bs) ≡ bs
slice_at buf pos bs rest at = rw (at, gap) (take-append bs rest)
  where
    gap : pos + length bs - pos ≡ length bs
    gap = omega arith

module _ (buf : List ℕ) (pos : ℕ) (bs rest : List ℕ) (inside : pos ≤ length buf)
    (fits : length buf < 2 ^ 64) (at : drop pos buf ≡ bs ++ rest) where
  pub parse_bytes_at : parse_bytes (length bs) buf pos ≡ done bs (pos + length bs)
  unfolding parse_bytes checked_add
  parse_bytes_at = ground (arith, length_at buf pos bs rest inside at, slice_at buf pos bs rest at)

  pub parse_utf8_at : parse_utf8 (length bs) buf pos ≡ (
      if is_utf8 bs
      then done bs (pos + length bs)
      else fail (protocol (message "invalid utf8 in response" [])) pos)
  unfolding parse_utf8 checked_add
  parse_utf8_at = ground (arith, length_at buf pos bs rest inside at, slice_at buf pos bs rest at)

pub checked_string_len_fits : (n : ℕ) → n ≤ max_string_bytes → checked_string_len n ≡ ok n
unfolding checked_string_len usize_try_from
checked_string_len_fits n h = ground arith

pub checked_string_len_long :
    (n : ℕ)
    → max_string_bytes < n
    → n < 2 ^ 64
    → checked_string_len n
      ≡ err (
          protocol (
            message "string length {} exceeds clickhouse-cpp limit {}"
              (num n ∷ num max_string_bytes ∷ [])))
unfolding checked_string_len usize_try_from
checked_string_len_long n h fits = ground arith

-- Where the varint of a length stands, followed by `rest`.
module _ (buf : List ℕ) (pos n : ℕ) (rest : List ℕ) (inside : pos ≤ length buf)
    (fits : length buf < 2 ^ 64) (small : n < 2 ^ 64)
    (at : drop pos buf ≡ write_varint n ++ rest) where
  pub behind_varint : drop (pos + length (write_varint n)) buf ≡ rest
  behind_varint = drop_sum buf pos (write_varint n) rest at

  pub varint_inside : pos + length (write_varint n) ≤ length buf
  varint_inside = omega (arith, length_at buf pos (write_varint n) rest inside at)

-- The same at a position where a written string stands.
module _ (buf : List ℕ) (pos : ℕ) (s rest : List ℕ) (inside : pos ≤ length buf)
    (fits : length buf < 2 ^ 64) (short : length s ≤ max_string_bytes)
    (at : drop pos buf ≡ write_varint (length s) ++ (s ++ rest)) where
  pub parse_string_bytes_at :
      parse_string_bytes buf pos ≡ done s (pos + length (write_varint (length s)) + length s)
  unfolding parse_string_bytes ◌>>=◌ lift
  parse_string_bytes_at =
      rw
        (
          parse_varint_at (length s) buf pos (s ++ rest) (omega arith) at,
          checked_string_len_fits (length s) short,
        )
        (parse_bytes_at buf _ s rest
          (varint_inside buf pos (length s) (s ++ rest) inside fits (omega arith) at) fits
          (behind_varint buf pos (length s) (s ++ rest) inside fits (omega arith) at))

  pub parse_string_at : parse_string buf pos ≡ (
      if is_utf8 s
      then done s (pos + length (write_varint (length s)) + length s)
      else fail
          (protocol (message "invalid utf8 in response" []))
          (pos + length (write_varint (length s))))
  unfolding parse_string ◌>>=◌ lift
  parse_string_at =
      rw
        (
          parse_varint_at (length s) buf pos (s ++ rest) (omega arith) at,
          checked_string_len_fits (length s) short,
        )
        (parse_utf8_at buf _ s rest
          (varint_inside buf pos (length s) (s ++ rest) inside fits (omega arith) at) fits
          (behind_varint buf pos (length s) (s ++ rest) inside fits (omega arith) at))

-- A string of at most 2^24 - 1 bytes that is written into a buffer reads back, and the reader stops
-- right behind it; `parse_string` also wants it to be UTF-8, and otherwise fails with the position
-- behind the length.
pub parse_string-write_string :
    (s before behind : List ℕ)
    → length s ≤ max_string_bytes
    → length (before ++ (write_string s ++ behind)) < 2 ^ 64
    → (parse_string_bytes (before ++ (write_string s ++ behind)) (length before)
        ≡ done s (length before + length (write_string s)))
      × (parse_string (before ++ (write_string s ++ behind)) (length before) ≡ (
          if is_utf8 s
          then done s (length before + length (write_string s))
          else fail
              (protocol (message "invalid utf8 in response" []))
              (length before + length (write_varint (length s)))))
unfolding write_string
parse_string-write_string s before behind h fits = rw ends (
  parse_string_bytes_at buf pos s behind inside fits h at,
  parse_string_at buf pos s behind inside fits h at,
)
  where
    buf : List ℕ
    buf = before ++ (write_string s ++ behind)

    pos : ℕ
    pos = length before

    inside : pos ≤ length buf
    inside = omega (arith, length-append before (write_string s ++ behind))

    at : drop pos buf ≡ write_varint (length s) ++ (s ++ behind)
    at =
        drop-append before (write_string s ++ behind)
        ∙ append_assoc (write_varint (length s)) s behind

    ends :
        length before + length (write_string s) ≡ pos + length (write_varint (length s)) + length s
    ends = omega (arith, length-append (write_varint (length s)) s)
