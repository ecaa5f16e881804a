-- ===== src/Response/Spans.antt =====
-- `let start = *pos; skip(buf, pos)?; &buf[start..*pos]` in sync/protocol/response.rs.
use st_clickhouse_lib.Common.{ℕ, refl, List, ◌++◌}
use st_clickhouse_lib.Wire.Cursor.{Outcome, done, fail, stuck, Cursor}
use st_clickhouse_lib.Wire.Parse.{slice}
use st_clickhouse_lib.Wire.Reads.{Reads, Within, Extends, slice-append}
use st_clickhouse_lib.Wire.Ends.{Ends, Returned, Any}

abbrev pub span_of : List ℕ → ℕ → Outcome (Unit {0}) → Outcome (List ℕ)
span_of buf start (done a end) = done (slice buf start end) end
span_of buf start (fail e p) = fail e p
span_of buf start stuck = stuck

-- The bytes that `skip` moves over.
unfoldable pub spanned : Cursor (Unit {0}) → Cursor (List ℕ)
spanned skip buf pos = span_of buf pos (skip buf pos)

span_of-Within :
    (o : Outcome (Unit {0})) (buf : List ℕ) (pos : ℕ)
    → Within buf pos o
    → Within buf pos (span_of buf pos o)
span_of-Within (done a p) buf pos h = h
span_of-Within (fail e p) buf pos h = h
span_of-Within stuck buf pos h = h

span_of-Extends :
    (o o' : Outcome (Unit {0})) (buf more : List ℕ) (pos : ℕ)
    → Within buf pos o
    → Extends o o'
    → Extends (span_of buf pos o) (span_of (buf ++ more) pos o')
span_of-Extends (done a p) o' buf more pos w e = rw (e, slice-append buf more pos p w.0 w.1) refl
span_of-Extends (fail x p) o' buf more pos w e = tt
span_of-Extends stuck o' buf more pos w e = tt

pub Reads-spanned : (skip : Cursor (Unit {0})) → Reads skip → Reads (spanned skip)
unfolding spanned
Reads-spanned skip r = record {
  within = λ buf pos h. span_of-Within (skip buf pos) buf pos (r.within buf pos h);
  extends = λ buf more pos h.
      span_of-Extends (skip buf pos) (skip (buf ++ more) pos) buf more pos (r.within buf pos h)
        (r.extends buf more pos h);
}

span_of-Returned :
    (o : Outcome (Unit {0})) (buf : List ℕ) (pos : ℕ)
    → Returned buf pos Any o
    → Returned buf pos Any (span_of buf pos o)
span_of-Returned (done a p) buf pos h = h
span_of-Returned (fail e p) buf pos h = tt
span_of-Returned stuck buf pos h = h

pub Ends-spanned :
    (room : ℕ) (skip : Cursor (Unit {0})) → Ends room Any skip → Ends room Any (spanned skip)
unfolding Ends spanned
Ends-spanned room skip h buf pos inside few =
    span_of-Returned (skip buf pos) buf pos (h buf pos inside few)
