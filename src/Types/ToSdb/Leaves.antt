-- ===== src/Types/ToSdb/Leaves.antt =====
-- The round trips of strings, numbers, durations and geometries.
use surrealdb_c.Prelude.{◌≡◌, refl, ap, ap₂, ◌∙◌, Text}
use surrealdb_c.Rust.Run.{ok}
use surrealdb_c.Rust.Time.{duration_new-IsDuration}
use surrealdb_c.Rust.Utf8.Laws.{IsCText, to_string_lossy-valid}
use surrealdb_c.Sdb.{
  SdbTypes, SdbLaws, SdbNumber, sdb_int, sdb_float, sdb_decimal, Geometry, Geometries, geo_point,
  geo_line, geo_polygon, geo_multi_point, geo_multi_line, geo_multi_polygon, geo_collection,
  geo_other, no_geo, cons_geo, Coord, LineString,
}
use surrealdb_c.Types.Slices.{IsShort, make_slice_self, slice_round, slice_round_all}
use surrealdb_c.Types.Strings.{string_from, to_string_t, to_string_t-IsNulFree}
use surrealdb_c.Types.Numbers.{
  number_from_sdb, decimal_or_float, number_to_sdb, duration_from_sdb, duration_to_sdb,
}
use surrealdb_c.Types.Geometries.{
  coord_from_geo, coord_to_geo, point_from_geo, point_to_geo, linestring_from_geo,
  linestring_to_geo, polygon_from_geo, polygon_to_geo, geometry_from_sdb, geometry_to_sdb,
  geometries_from_sdb, geometries_to_sdb, sr_geometries,
}
use surrealdb_c.Types.ToSdb.{datetime_to_sdb}
use surrealdb_c.Types.ToSdb.Fits.{
  FitsPolygon, FitsGeometry, FitGeometries, length-geometries_from_sdb,
}
use surrealdb_c.Types.ToSdb.Clean.{IsCleanGeometry, AreCleanGeometries}

pub string_from-to_string_t : (s : Text) → IsCText s → string_from (to_string_t s) ≡ ok s
unfolding string_from
string_from-to_string_t s h = rw (to_string_t-IsNulFree s h.0, (to_string_lossy-valid s h.1).0)

coord_round : (c : Coord) → coord_to_geo (coord_from_geo c) ≡ c
unfolding coord_to_geo coord_from_geo
coord_round c = refl

point_round : (c : Coord) → point_to_geo (point_from_geo c) ≡ c
unfolding point_to_geo point_from_geo
point_round c = refl

linestring_round : (l : LineString) → IsShort l → linestring_to_geo (linestring_from_geo l) ≡ l
linestring_round l s =
    unfold linestring_to_geo linestring_from_geo in
    slice_round coord_from_geo coord_to_geo coord_round l s

module _ (E : SdbTypes) (laws : SdbLaws E) where
  pub number_round : (n : SdbNumber E) → number_to_sdb E (number_from_sdb E n) ≡ ok n
  unfolding number_to_sdb number_from_sdb
  number_round (sdb_int i) = refl
  number_round (sdb_float f) = refl
  number_round (sdb_decimal d) = rw (
    to_string_t-IsNulFree (E.decimal_to_string d) (laws.decimal_text d).0,
    (to_string_lossy-valid (E.decimal_to_string d) (laws.decimal_text d).1).0,
    laws.decimal_round d,
    decimal_or_float,
  )

  pub duration_round : (d : E.SdbDuration) → duration_to_sdb E (duration_from_sdb E d) ≡ ok d
  unfolding duration_to_sdb duration_from_sdb
  duration_round d =
      rw (duration_new-IsDuration (E.duration_to_std d) (laws.duration_range d))
        (ap ok (laws.duration_round d))

  pub datetime_round :
      (d : E.Datetime) → datetime_to_sdb E (to_string_t (E.datetime_to_string d)) ≡ ok d
  unfolding datetime_to_sdb
  datetime_round d = rw (
    to_string_t-IsNulFree (E.datetime_to_string d) (laws.datetime_text d).0,
    (to_string_lossy-valid (E.datetime_to_string d) (laws.datetime_text d).1).0,
    laws.datetime_round d,
  )

  polygon_round : (p : E.Polygon) → FitsPolygon E p → polygon_to_geo E (polygon_from_geo E p) ≡ p
  unfolding polygon_to_geo polygon_from_geo
  polygon_round p s =
      ap₂ E.polygon_new (linestring_round (E.polygon_into_inner p).0 s.0) (
        slice_round_all linestring_from_geo linestring_to_geo IsShort linestring_round
          (E.polygon_into_inner p).1 s.1.0 s.1.1)
      ∙ laws.polygon_round p

  mutual
    unfolding geometry_to_sdb geometry_from_sdb sr_geometries

    geometry-round :
        (g : Geometry E)
        → IsCleanGeometry g
        → FitsGeometry g
        → geometry_to_sdb E (geometry_from_sdb E g) ≡ g
    geometry-round (geo_point c) h s = ap geo_point (point_round c)
    geometry-round (geo_line l) h s = ap geo_line (linestring_round l s)
    geometry-round (geo_polygon p) h s = ap geo_polygon (polygon_round p s)
    geometry-round (geo_multi_point m) h s =
        ap geo_multi_point (slice_round point_from_geo point_to_geo point_round m s)
    geometry-round (geo_multi_line m) h s =
        ap geo_multi_line
          (slice_round_all linestring_from_geo linestring_to_geo IsShort linestring_round m s.0 s.1)
    geometry-round (geo_multi_polygon m) h s = ap geo_multi_polygon (
        slice_round_all (polygon_from_geo E) (polygon_to_geo E) (FitsPolygon E) polygon_round m s.0
          s.1)
    geometry-round (geo_collection c) h s = rw (
      make_slice_self (geometries_from_sdb E c) (rw (length-geometries_from_sdb E c) s.0),
      geometries-round c h s.1,
    )
    geometry-round (geo_other _) h s = absurd h

    geometries-round :
        (c : Geometries E)
        → AreCleanGeometries c
        → FitGeometries c
        → geometries_to_sdb E (sr_geometries (geometries_from_sdb E c)) ≡ c
    geometries-round no_geo h s = refl
    geometries-round (cons_geo g gs) h s =
        ap₂ cons_geo (geometry-round g h.0 s.0) (geometries-round gs h.1 s.1)

  -- A geometry of a kind that the code names, with slices of fewer than 2^31 elements, comes back
  -- from C unchanged.
  pub geometry_round :
      (g : Geometry E)
      → IsCleanGeometry g
      → FitsGeometry g
      → geometry_to_sdb E (geometry_from_sdb E g) ≡ g
  geometry_round g h s = geometry-round g h s
