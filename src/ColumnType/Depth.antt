-- ===== src/ColumnType/Depth.antt =====
-- How deep a type nests, counting what shared/skip_column.rs unfolds the geo types to.
use st_clickhouse_lib.Common.{ℕ, suc, max}
use st_clickhouse_lib.ColumnType.{
  ColumnType, ColumnTypes, none_left, one_more, nullable, array, map, tuple, low_cardinality,
  variant, point, ring, polygon, multi_polygon,
}

unfoldable mutual
  pub depth : ColumnType → ℕ
  depth (nullable t) = suc (depth t)
  depth (array t) = suc (depth t)
  depth (map k v) = suc (max (depth k) (depth v))
  depth (tuple ts) = suc (depth_all ts)
  depth (low_cardinality t) = suc (depth t)
  depth (variant ts) = suc (depth_all ts)
  depth point = 1
  depth ring = 3
  depth polygon = 5
  depth multi_polygon = 7
  depth _ = 0

  pub depth_all : ColumnTypes → ℕ
  depth_all none_left = 0
  depth_all (one_more t ts) = max (depth t) (depth_all ts)
