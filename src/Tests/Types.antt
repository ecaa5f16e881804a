-- ===== src/Tests/Types.antt =====
-- Runs of the type parser.
use st_clickhouse_lib.Common.{◌≡◌, ◌+◌, refl, ok}
use st_clickhouse_lib.ColumnType.{
  nullable, array, uint64, map, string, tuple, one_more, none_left, decimal, other,
}
use st_clickhouse_lib.TypeParser.Text.{codes}
use st_clickhouse_lib.TypeParser.Parser.{parse_type, max_type_nesting}
use st_clickhouse_lib.TypeParser.Nesting.{Shallow, parse_type-Shallow}

parse_nested : parse_type (codes " Nullable(Array( UInt64 ))") ≡ ok (nullable (array uint64))
unfolding parse_type
parse_nested = refl

parse_mixed :
    parse_type (codes "Tuple(Map(String, Decimal(10, 2)), Foo(1))")
    ≡ ok
        (tuple (one_more (map string (decimal 10 2)) (one_more (other (codes "Foo(1)")) none_left)))
unfolding parse_type
parse_mixed = refl

parse_type-Shallow_example :
    Shallow (max_type_nesting + 7) (parse_type (codes "Array(MultiPolygon)"))
parse_type-Shallow_example = parse_type-Shallow (codes "Array(MultiPolygon)")
