-- ===== src/TypeParser/Keywords.antt =====
-- The arms of `parse_type_rec` for names without parentheses.
use st_clickhouse_lib.Common.{ℕ, List, [], ◌∷◌, Option, none, some, String, if◌then◌else◌}
use st_clickhouse_lib.TypeParser.Text.{codes, bytes_eq}
use st_clickhouse_lib.ColumnType.{
  ColumnType, uint8, uint16, uint32, uint64, uint128, uint256, int8, int16, int32, int64, int128,
  int256, float32, float64, bool, string, date, date32, date_time, uuid, ipv4, ipv6, nothing, time,
  json, dynamic, point, ring, polygon, multi_polygon,
}

abbrev pub simple_types : List (String × ColumnType)
simple_types =
    ("UInt8", uint8)
    ∷ ("UInt16", uint16)
    ∷ ("UInt32", uint32)
    ∷ ("UInt64", uint64)
    ∷ ("UInt128", uint128)
    ∷ ("UInt256", uint256)
    ∷ ("Int8", int8)
    ∷ ("Int16", int16)
    ∷ ("Int32", int32)
    ∷ ("Int64", int64)
    ∷ ("Int128", int128)
    ∷ ("Int256", int256)
    ∷ ("Float32", float32)
    ∷ ("Float64", float64)
    ∷ ("Bool", bool)
    ∷ ("String", string)
    ∷ ("JSON", json)
    ∷ ("Json", json)
    ∷ ("Dynamic", dynamic)
    ∷ ("Point", point)
    ∷ ("Ring", ring)
    ∷ ("Polygon", polygon)
    ∷ ("MultiPolygon", multi_polygon)
    ∷ ("Date", date)
    ∷ ("Date32", date32)
    ∷ ("Nothing", nothing)
    ∷ ("Time", time)
    ∷ []

-- The arms behind the one for `Time64`.
abbrev pub later_simple_types : List (String × ColumnType)
later_simple_types = ("DateTime", date_time) ∷ ("UUID", uuid) ∷ ("IPv4", ipv4) ∷ ("IPv6", ipv6) ∷ []

unfoldable pub find_type : List ℕ → List (String × ColumnType) → Option ColumnType
unfolding bytes_eq
find_type base [] = none
find_type base ((name, ct) ∷ arms) =
    let others = find_type base arms in if bytes_eq base (codes name) then some ct else others
