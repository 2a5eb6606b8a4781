-- ===== src/Types/Geometries.antt =====
-- src/types/geometry.rs. An `ArrayGen<T>` of these types is the slice that it owns.
pub mod Blocks
use surrealdb_c.Prelude.{List, [], ◌∷◌, map}
use surrealdb_c.Sdb.{
  Float, Coord, LineString, SdbTypes, Geometry, Geometries, geo_point, geo_line, geo_polygon,
  geo_multi_point, geo_multi_line, geo_multi_polygon, geo_collection, geo_other, no_geo, cons_geo,
}
use surrealdb_c.Types.Slices.{make_slice}

pub record SrGCoord : Type 0 where
  pub x : Float
  pub y : Float

abbrev pub SrGPoint : Type 0
SrGPoint = SrGCoord

abbrev pub SrGLinestring : Type 0
SrGLinestring = List SrGCoord

pub record SrGPolygon : Type 0 where
  pub exterior : SrGLinestring
  pub interiors : List SrGLinestring

abbrev pub SrGMultipoint : Type 0
SrGMultipoint = List SrGPoint

abbrev pub SrGMultilinestring : Type 0
SrGMultilinestring = List SrGLinestring

abbrev pub SrGMultipolygon : Type 0
SrGMultipolygon = List SrGPolygon

mutual
  pub data SrGeometry : Type 0 where
    sr_g_point : SrGPoint → SrGeometry
    sr_g_linestring : SrGLinestring → SrGeometry
    sr_g_polygon : SrGPolygon → SrGeometry
    sr_g_multipoint : SrGMultipoint → SrGeometry
    sr_g_multiline : SrGMultilinestring → SrGeometry
    sr_g_multipolygon : SrGMultipolygon → SrGeometry
    sr_g_collection : SrGeometries → SrGeometry
    sr_g_unimplemented : SrGeometry

  pub data SrGeometries : Type 0 where
    no_sr_g : SrGeometries
    cons_sr_g : SrGeometry → SrGeometries → SrGeometries

-- `sr_g_coord::from((f64, f64))`
unfoldable pub coord_from_pair : Float × Float → SrGCoord
coord_from_pair c = record { x = c.0; y = c.1 }

-- `sr_g_coord::from(Coord)` and back; points have the same fields.
unfoldable pub coord_from_geo : Coord → SrGCoord
coord_from_geo c = record { x = c.x; y = c.y }

unfoldable pub coord_to_geo : SrGCoord → Coord
coord_to_geo c = record { x = c.x; y = c.y }

-- `sr_g_point::from(Point)` and back
unfoldable pub point_from_geo : Coord → SrGPoint
point_from_geo p = record { x = p.x; y = p.y }

unfoldable pub point_to_geo : SrGPoint → Coord
point_to_geo p = record { x = p.x; y = p.y }

unfoldable pub linestring_from_geo : LineString → SrGLinestring
unfolding coord_from_geo
linestring_from_geo l = make_slice (map coord_from_geo l)

unfoldable pub linestring_to_geo : SrGLinestring → LineString
unfolding coord_to_geo
linestring_to_geo l = map coord_to_geo l

module _ (E : SdbTypes) where
  -- `sr_g_polygon::from(Polygon)` and back
  unfoldable pub polygon_from_geo : E.Polygon → SrGPolygon
  unfolding linestring_from_geo
  polygon_from_geo p =
      let (exterior, interiors) = E.polygon_into_inner p in
      record {
        exterior = linestring_from_geo exterior;
        interiors = make_slice (map linestring_from_geo interiors);
      }

  unfoldable pub polygon_to_geo : SrGPolygon → E.Polygon
  unfolding linestring_to_geo
  polygon_to_geo p =
      E.polygon_new (linestring_to_geo p.exterior) (map linestring_to_geo p.interiors)

-- `sr_g_multipoint::from(MultiPoint)` and its kin, and back
abbrev pub multipoint_from_geo : List Coord → SrGMultipoint
multipoint_from_geo m = make_slice (map point_from_geo m)

abbrev pub multipoint_to_geo : SrGMultipoint → List Coord
multipoint_to_geo m = map point_to_geo m

abbrev pub multilinestring_from_geo : List LineString → SrGMultilinestring
multilinestring_from_geo m = make_slice (map linestring_from_geo m)

abbrev pub multilinestring_to_geo : SrGMultilinestring → List LineString
multilinestring_to_geo m = map linestring_to_geo m

abbrev pub multipolygon_from_geo : (E : SdbTypes) → List E.Polygon → SrGMultipolygon
multipolygon_from_geo E m = make_slice (map (polygon_from_geo E) m)

abbrev pub multipolygon_to_geo : (E : SdbTypes) → SrGMultipolygon → List E.Polygon
multipolygon_to_geo E m = map (polygon_to_geo E) m

-- `Geometry::from(sr_geometry)`: what is not implemented becomes the point (0, 0).
unfoldable mutual
  unfolding polygon_to_geo point_to_geo

  pub geometry_to_sdb : (E : SdbTypes) → SrGeometry → Geometry E
  geometry_to_sdb E (sr_g_point p) = geo_point (point_to_geo p)
  geometry_to_sdb E (sr_g_linestring l) = geo_line (linestring_to_geo l)
  geometry_to_sdb E (sr_g_polygon p) = geo_polygon (polygon_to_geo E p)
  geometry_to_sdb E (sr_g_multipoint m) = geo_multi_point (multipoint_to_geo m)
  geometry_to_sdb E (sr_g_multiline m) = geo_multi_line (multilinestring_to_geo m)
  geometry_to_sdb E (sr_g_multipolygon m) = geo_multi_polygon (multipolygon_to_geo E m)
  geometry_to_sdb E (sr_g_collection c) = geo_collection (geometries_to_sdb E c)
  geometry_to_sdb E sr_g_unimplemented = geo_point (record { x = 0; y = 0 })

  pub geometries_to_sdb : (E : SdbTypes) → SrGeometries → Geometries E
  geometries_to_sdb E no_sr_g = no_geo
  geometries_to_sdb E (cons_sr_g g gs) = cons_geo (geometry_to_sdb E g) (geometries_to_sdb E gs)

-- The slice of a collection.
unfoldable pub sr_geometries : List SrGeometry → SrGeometries
sr_geometries [] = no_sr_g
sr_geometries (g ∷ gs) = cons_sr_g g (sr_geometries gs)

-- `sr_geometry::from(Geometry)`
unfoldable mutual
  unfolding polygon_from_geo point_from_geo

  pub geometry_from_sdb : (E : SdbTypes) → Geometry E → SrGeometry
  geometry_from_sdb E (geo_point p) = sr_g_point (point_from_geo p)
  geometry_from_sdb E (geo_line l) = sr_g_linestring (linestring_from_geo l)
  geometry_from_sdb E (geo_polygon p) = sr_g_polygon (polygon_from_geo E p)
  geometry_from_sdb E (geo_multi_point m) = sr_g_multipoint (multipoint_from_geo m)
  geometry_from_sdb E (geo_multi_line m) = sr_g_multiline (multilinestring_from_geo m)
  geometry_from_sdb E (geo_multi_polygon m) = sr_g_multipolygon (multipolygon_from_geo E m)
  geometry_from_sdb E (geo_collection c) =
      sr_g_collection (sr_geometries (make_slice (geometries_from_sdb E c)))
  geometry_from_sdb E (geo_other _) = sr_g_unimplemented

  pub geometries_from_sdb : (E : SdbTypes) → Geometries E → List SrGeometry
  geometries_from_sdb E no_geo = []
  geometries_from_sdb E (cons_geo g gs) = geometry_from_sdb E g ∷ geometries_from_sdb E gs
