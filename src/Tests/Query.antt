-- ===== src/Tests/Query.antt =====
-- The codes of the packets, and a query parameter with a quote and a backslash in it.
use st_clickhouse_lib.Common.{ℕ, ◌≡◌, refl, none, some, false, List, [], ◌∷◌}
use st_clickhouse_lib.Wire.Write.{write_string}
use st_clickhouse_lib.Packet.{from_u64}
use st_clickhouse_lib.Packet.Codes.{Exact, from_u64-Exact}
use st_clickhouse_lib.Query.Parameters.{write_quoted_string, write_param_null}
use st_clickhouse_lib.Query.Literal.{in_text, read_literal, read_field}
use st_clickhouse_lib.Query.Quoting.{write_quoted_string-quoted}

from_u64-Exact_example : Exact 17 (from_u64 17)
from_u64-Exact_example = from_u64-Exact 17

abbrev value : List ℕ
value = 97 ∷ 39 ∷ 92 ∷ []

sent : write_quoted_string value ≡ 11 ∷ 39 ∷ 97 ∷ 92 ∷ 120 ∷ 50 ∷ 55 ∷ 92 ∷ 92 ∷ 92 ∷ 92 ∷ 39 ∷ []
unfolding write_quoted_string
sent = refl

sent_null : write_param_null ≡ 5 ∷ 39 ∷ 92 ∷ 92 ∷ 78 ∷ 39 ∷ []
unfolding write_param_null
sent_null = refl

-- A quote that is not escaped ends the literal before its last byte.
bare_quote : read_literal in_text (97 ∷ 39 ∷ 98 ∷ 39 ∷ []) ≡ none
unfolding read_literal
bare_quote = refl

write_quoted_string-quoted_example :
    (text field : List ℕ) × (write_quoted_string value ≡ write_string (39 ∷ text))
    × (read_literal in_text text ≡ some field)
    × (read_field false field ≡ some value)
write_quoted_string-quoted_example = write_quoted_string-quoted value
