-- ===== src/Tests/Skip.antt =====
-- Runs of the skipper, and its theorem at a concrete column.
use st_clickhouse_lib.Common.{◌*◌, ℕ, List, [], ◌∷◌, ◌++◌, ◌≡◌, refl, arith}
use st_clickhouse_lib.TypeParser.Text.{codes}
use st_clickhouse_lib.Wire.Cursor.{done, ◌>>=◌}
use st_clickhouse_lib.Wire.Reads.{Within, Extends}
use st_clickhouse_lib.ColumnType.{decimal}
use st_clickhouse_lib.ColumnType.Width.{fixed_width}
use st_clickhouse_lib.TypeParser.Parser.{parse_type}
use st_clickhouse_lib.Wire.Ends.{Returned, Any}
use st_clickhouse_lib.Skip.Ends.Dispatch.{skip_column_data_by_name-Ends}
use st_clickhouse_lib.Skip.Fixed.{Exact, skip_column_data_by_name-Exact}
use st_clickhouse_lib.Skip.Dispatch.{skip_column_data_by_name}
use st_clickhouse_lib.Skip.Bounds.Dispatch.{skip_column_data_by_name-Within}
use Prim.{tt}

-- Two rows of `Nullable(UInt16)`: two null flags and two values.
abbrev two_rows : List ℕ
two_rows = 0 ∷ 1 ∷ 5 ∷ 0 ∷ 0 ∷ 0 ∷ []

skip_two_rows : skip_column_data_by_name 3 (codes "Nullable(UInt16)") 2 two_rows 0 ≡ done tt 6
unfolding skip_column_data_by_name ◌>>=◌
skip_two_rows = refl

skip_column_data_by_name-Within_example :
    Within two_rows 0 (skip_column_data_by_name 3 (codes "Nullable(UInt16)") 2 two_rows 0)
    × Extends
        (skip_column_data_by_name 3 (codes "Nullable(UInt16)") 2 two_rows 0)
        (skip_column_data_by_name 3 (codes "Nullable(UInt16)") 2 (two_rows ++ (9 ∷ [])) 0)
skip_column_data_by_name-Within_example =
    skip_column_data_by_name-Within 3 (codes "Nullable(UInt16)") 2 two_rows (9 ∷ []) 0 (omega arith)

-- Three rows of `Decimal(10, 2)`: twenty-four bytes.
skip_column_data_by_name-Exact_example :
    Exact (3 * 8) (skip_column_data_by_name 1 (codes "Decimal(10, 2)") 3)
unfolding parse_type fixed_width
skip_column_data_by_name-Exact_example =
    skip_column_data_by_name-Exact 0 (codes "Decimal(10, 2)") (decimal 10 2) 3 8 refl refl

-- The same two rows, from a buffer of six bytes.
skip_column_data_by_name-Ends_example :
    Returned two_rows 0 Any (skip_column_data_by_name 2000 (codes "Nullable(UInt16)") 2 two_rows 0)
skip_column_data_by_name-Ends_example =
    skip_column_data_by_name-Ends 2000 (codes "Nullable(UInt16)") 2 two_rows 0 (omega arith)
      (omega arith)
