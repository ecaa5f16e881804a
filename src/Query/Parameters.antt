-- ===== src/Query/Parameters.antt =====
-- shared/parameters.rs: query parameters, as quoted texts.
use st_clickhouse_lib.Common.{
  ℕ, ◌+◌, List, [], ◌∷◌, ◌++◌, Option, none, some, ◌||◌, ◌==◌, if◌then◌else◌, length,
}
use st_clickhouse_lib.TypeParser.Text.{codes}
use st_clickhouse_lib.Wire.Write.{write_varint, write_string}

pub record QueryParameter : Type 0 where
  pub name : List ℕ
  pub value : Option (List ℕ)

-- The arms of the `match` on a byte, for `\x00`, `\x08`, three backslashes before `t` or `n`, `\x27`
-- and four backslashes.
unfoldable pub escape : ℕ → List ℕ
escape byte =
    if byte == 0
    then 92 ∷ 120 ∷ 48 ∷ 48 ∷ []
    else if byte == 8
    then 92 ∷ 120 ∷ 48 ∷ 56 ∷ []
    else if byte == 9
    then 92 ∷ 92 ∷ 92 ∷ 116 ∷ []
    else if byte == 10
    then 92 ∷ 92 ∷ 92 ∷ 110 ∷ []
    else if byte == 39
    then 92 ∷ 120 ∷ 50 ∷ 55 ∷ []
    else if byte == 92
    then 92 ∷ 92 ∷ 92 ∷ 92 ∷ []
    else byte ∷ []

unfoldable pub escape_all : List ℕ → List ℕ
unfolding escape
escape_all [] = []
escape_all (byte ∷ value) = escape byte ++ escape_all value

-- What a byte adds to `quoted_len`.
unfoldable pub escaped_len : ℕ → ℕ
escaped_len byte =
    if (byte == 0) || (byte == 8) || (byte == 9) || (byte == 10) || (byte == 39) || (byte == 92)
    then 4
    else 1

unfoldable pub sum_escaped : List ℕ → ℕ
unfolding escaped_len
sum_escaped [] = 0
sum_escaped (byte ∷ value) = escaped_len byte + sum_escaped value

unfoldable pub quoted_len : List ℕ → ℕ
unfolding sum_escaped
quoted_len value = sum_escaped value + 2

unfoldable pub write_quoted_string : List ℕ → List ℕ
unfolding write_varint quoted_len escape_all
write_quoted_string value =
    write_varint (quoted_len value) ++ ((39 ∷ []) ++ (escape_all value ++ (39 ∷ [])))

unfoldable pub write_param_null : List ℕ
unfolding write_string
write_param_null = write_string (codes "'\\\\N'")

unfoldable pub write_value : Option (List ℕ) → List ℕ
unfolding write_quoted_string write_param_null
write_value none = write_param_null
write_value (some value) = write_quoted_string value

-- The flag 2 marks a custom setting; an empty name ends the list.
unfoldable pub write_query_parameters : List QueryParameter → List ℕ
unfolding write_string write_varint write_value
write_query_parameters [] = write_string []
write_query_parameters (param ∷ params) =
    write_string param.name
    ++ (write_varint 2 ++ (write_value param.value ++ write_query_parameters params))

unfoldable pub value_len : Option (List ℕ) → ℕ
unfolding quoted_len
value_len none = 5
value_len (some value) = quoted_len value

unfoldable pub sum_parameters : List QueryParameter → ℕ
unfolding value_len
sum_parameters [] = 0
sum_parameters (param ∷ params) =
    length param.name + value_len param.value + 8 + sum_parameters params

unfoldable pub query_parameters_capacity : List QueryParameter → ℕ
unfolding sum_parameters
query_parameters_capacity [] = 1
query_parameters_capacity (param ∷ params) = sum_parameters (param ∷ params) + 1
