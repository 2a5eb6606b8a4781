-- ===== src/Types/Equal/Geometry.antt =====
-- What the equality of geometries decides.
use surrealdb_c.Prelude.{◌≡◌, refl, ap, ap₂, true, List, map, All}
use surrealdb_c.Sdb.{Float}
use surrealdb_c.Types.Geometries.{
  SrGCoord, SrGLinestring, SrGPolygon, SrGeometry, SrGeometries, sr_g_point, sr_g_linestring,
  sr_g_polygon, sr_g_multipoint, sr_g_multiline, sr_g_multipolygon, sr_g_collection,
  sr_g_unimplemented, no_sr_g, cons_sr_g,
}
use surrealdb_c.Types.Equal.{
  f64_eq, slice_eq, coord_eq, linestring_eq, polygon_eq, geometry_eq, geometries_eq,
}
use surrealdb_c.Types.Equal.Simple.{
  Decides, IsNumber, unsigned_zero, f64_eq-has, f64_eq-same, f64_eq-full, and-left, and-right,
  and-both, slice_eq-Decides,
}

-- Numbers only, and 0.0 for -0.0, in every coordinate.
abbrev pub AreNumbers : SrGCoord → Type 0
AreNumbers c = IsNumber c.x × IsNumber c.y

abbrev pub plain_coord : SrGCoord → SrGCoord
plain_coord c = record { x = unsigned_zero c.x; y = unsigned_zero c.y }

abbrev pub AreNumbersPolygon : SrGPolygon → Type 0
AreNumbersPolygon p = All AreNumbers p.exterior × All (All AreNumbers) p.interiors

abbrev pub plain_polygon : SrGPolygon → SrGPolygon
plain_polygon p = record {
  exterior = map plain_coord p.exterior;
  interiors = map (map plain_coord) p.interiors;
}

coord_eq-Decides : Decides coord_eq AreNumbers plain_coord
unfolding coord_eq
coord_eq-Decides = record {
  has = λ a b h. (
    f64_eq-has a.x b.x (and-left (f64_eq a.x b.x) _ h),
    f64_eq-has a.y b.y (and-right (f64_eq a.x b.x) _ h),
  );
  same = λ a b h.
      ap₂ (λ (x y : Float). record { x = x; y = y })
        (f64_eq-same a.x b.x (and-left (f64_eq a.x b.x) _ h))
        (f64_eq-same a.y b.y (and-right (f64_eq a.x b.x) _ h));
  full = λ a b p e.
      and-both (f64_eq a.x b.x) _ (f64_eq-full a.x b.x p.0 (ap (λ (c : SrGCoord). c.x) e))
        (f64_eq-full a.y b.y p.1 (ap (λ (c : SrGCoord). c.y) e));
}

linestring_eq-Decides : Decides linestring_eq (All AreNumbers) (map plain_coord)
unfolding linestring_eq
linestring_eq-Decides = slice_eq-Decides coord_eq-Decides

lines_eq-Decides : Decides (slice_eq linestring_eq) (All (All AreNumbers)) (map (map plain_coord))
lines_eq-Decides = slice_eq-Decides linestring_eq-Decides

polygon_eq-Decides : Decides polygon_eq AreNumbersPolygon plain_polygon
unfolding polygon_eq
polygon_eq-Decides = record {
  has = λ p q h. (
    linestring_eq-Decides.has p.exterior q.exterior
        (and-left (linestring_eq p.exterior q.exterior) _ h),
    lines_eq-Decides.has p.interiors q.interiors
        (and-right (linestring_eq p.exterior q.exterior) _ h),
  );
  same = λ p q h.
      ap₂ (λ (k : SrGLinestring) (l : List SrGLinestring). record { exterior = k; interiors = l })
        (linestring_eq-Decides.same p.exterior q.exterior
          (and-left (linestring_eq p.exterior q.exterior) _ h))
        (lines_eq-Decides.same p.interiors q.interiors
          (and-right (linestring_eq p.exterior q.exterior) _ h));
  full = λ p q n e.
      and-both (linestring_eq p.exterior q.exterior) _
        (linestring_eq-Decides.full p.exterior q.exterior n.0
          (ap (λ (r : SrGPolygon). r.exterior) e))
        (lines_eq-Decides.full p.interiors q.interiors n.1
          (ap (λ (r : SrGPolygon). r.interiors) e));
}

points_eq-Decides : Decides (slice_eq coord_eq) (All AreNumbers) (map plain_coord)
points_eq-Decides = slice_eq-Decides coord_eq-Decides

polygons_eq-Decides : Decides (slice_eq polygon_eq) (All AreNumbersPolygon) (map plain_polygon)
polygons_eq-Decides = slice_eq-Decides polygon_eq-Decides

abbrev mutual
  pub AreNumbersGeometry : SrGeometry → Type 0
  AreNumbersGeometry (sr_g_point p) = AreNumbers p
  AreNumbersGeometry (sr_g_linestring l) = All AreNumbers l
  AreNumbersGeometry (sr_g_polygon p) = AreNumbersPolygon p
  AreNumbersGeometry (sr_g_multipoint m) = All AreNumbers m
  AreNumbersGeometry (sr_g_multiline m) = All (All AreNumbers) m
  AreNumbersGeometry (sr_g_multipolygon m) = All AreNumbersPolygon m
  AreNumbersGeometry (sr_g_collection c) = AreNumbersGeometries c
  AreNumbersGeometry sr_g_unimplemented = Unit

  pub AreNumbersGeometries : SrGeometries → Type 0
  AreNumbersGeometries no_sr_g = Unit
  AreNumbersGeometries (cons_sr_g g gs) = AreNumbersGeometry g × AreNumbersGeometries gs

abbrev mutual
  pub plain_geometry : SrGeometry → SrGeometry
  plain_geometry (sr_g_point p) = sr_g_point (plain_coord p)
  plain_geometry (sr_g_linestring l) = sr_g_linestring (map plain_coord l)
  plain_geometry (sr_g_polygon p) = sr_g_polygon (plain_polygon p)
  plain_geometry (sr_g_multipoint m) = sr_g_multipoint (map plain_coord m)
  plain_geometry (sr_g_multiline m) = sr_g_multiline (map (map plain_coord) m)
  plain_geometry (sr_g_multipolygon m) = sr_g_multipolygon (map plain_polygon m)
  plain_geometry (sr_g_collection c) = sr_g_collection (plain_geometries c)
  plain_geometry sr_g_unimplemented = sr_g_unimplemented

  pub plain_geometries : SrGeometries → SrGeometries
  plain_geometries no_sr_g = no_sr_g
  plain_geometries (cons_sr_g g gs) = cons_sr_g (plain_geometry g) (plain_geometries gs)

mutual
  unfolding geometry_eq

  pub geometry_eq-has : (g h : SrGeometry) → geometry_eq g h ≡ true → AreNumbersGeometry g
  geometry_eq-has (sr_g_point p) (sr_g_point q) e = coord_eq-Decides.has p q e
  geometry_eq-has (sr_g_linestring k) (sr_g_linestring l) e = linestring_eq-Decides.has k l e
  geometry_eq-has (sr_g_polygon p) (sr_g_polygon q) e = polygon_eq-Decides.has p q e
  geometry_eq-has (sr_g_multipoint m) (sr_g_multipoint n) e = points_eq-Decides.has m n e
  geometry_eq-has (sr_g_multiline m) (sr_g_multiline n) e = lines_eq-Decides.has m n e
  geometry_eq-has (sr_g_multipolygon m) (sr_g_multipolygon n) e = polygons_eq-Decides.has m n e
  geometry_eq-has (sr_g_collection c) (sr_g_collection d) e = geometries_eq-has c d e
  geometry_eq-has sr_g_unimplemented sr_g_unimplemented e = tt
  geometry_eq-has _ _ e = cc

  geometries_eq-has : (g h : SrGeometries) → geometries_eq g h ≡ true → AreNumbersGeometries g
  geometries_eq-has no_sr_g no_sr_g e = tt
  geometries_eq-has (cons_sr_g g gs) (cons_sr_g h hs) e = (
    geometry_eq-has g h (and-left (geometry_eq g h) _ e),
    geometries_eq-has gs hs (and-right (geometry_eq g h) _ e),
  )
  geometries_eq-has _ _ e = cc

mutual
  unfolding geometry_eq

  pub geometry_eq-same :
      (g h : SrGeometry) → geometry_eq g h ≡ true → plain_geometry g ≡ plain_geometry h
  geometry_eq-same (sr_g_point p) (sr_g_point q) e = ap sr_g_point (coord_eq-Decides.same p q e)
  geometry_eq-same (sr_g_linestring k) (sr_g_linestring l) e =
      ap sr_g_linestring (linestring_eq-Decides.same k l e)
  geometry_eq-same (sr_g_polygon p) (sr_g_polygon q) e =
      ap sr_g_polygon (polygon_eq-Decides.same p q e)
  geometry_eq-same (sr_g_multipoint m) (sr_g_multipoint n) e =
      ap sr_g_multipoint (points_eq-Decides.same m n e)
  geometry_eq-same (sr_g_multiline m) (sr_g_multiline n) e =
      ap sr_g_multiline (lines_eq-Decides.same m n e)
  geometry_eq-same (sr_g_multipolygon m) (sr_g_multipolygon n) e =
      ap sr_g_multipolygon (polygons_eq-Decides.same m n e)
  geometry_eq-same (sr_g_collection c) (sr_g_collection d) e =
      ap sr_g_collection (geometries_eq-same c d e)
  geometry_eq-same sr_g_unimplemented sr_g_unimplemented e = refl
  geometry_eq-same _ _ e = cc e

  geometries_eq-same :
      (g h : SrGeometries) → geometries_eq g h ≡ true → plain_geometries g ≡ plain_geometries h
  geometries_eq-same no_sr_g no_sr_g e = refl
  geometries_eq-same (cons_sr_g g gs) (cons_sr_g h hs) e =
      ap₂ cons_sr_g (geometry_eq-same g h (and-left (geometry_eq g h) _ e))
        (geometries_eq-same gs hs (and-right (geometry_eq g h) _ e))
  geometries_eq-same _ _ e = cc e

mutual
  unfolding geometry_eq

  pub geometry_eq-full :
      (g h : SrGeometry)
      → AreNumbersGeometry g
      → plain_geometry g ≡ plain_geometry h
      → geometry_eq g h ≡ true
  geometry_eq-full (sr_g_point p) (sr_g_point q) n e = coord_eq-Decides.full p q n (cc e)
  geometry_eq-full (sr_g_linestring k) (sr_g_linestring l) n e =
      linestring_eq-Decides.full k l n (cc e)
  geometry_eq-full (sr_g_polygon p) (sr_g_polygon q) n e = polygon_eq-Decides.full p q n (cc e)
  geometry_eq-full (sr_g_multipoint l) (sr_g_multipoint m) n e = points_eq-Decides.full l m n (cc e)
  geometry_eq-full (sr_g_multiline l) (sr_g_multiline m) n e = lines_eq-Decides.full l m n (cc e)
  geometry_eq-full (sr_g_multipolygon l) (sr_g_multipolygon m) n e =
      polygons_eq-Decides.full l m n (cc e)
  geometry_eq-full (sr_g_collection c) (sr_g_collection d) n e = geometries_eq-full c d n (cc e)
  geometry_eq-full sr_g_unimplemented sr_g_unimplemented n e = refl
  geometry_eq-full _ _ n e = cc e

  geometries_eq-full :
      (g h : SrGeometries)
      → AreNumbersGeometries g
      → plain_geometries g ≡ plain_geometries h
      → geometries_eq g h ≡ true
  geometries_eq-full no_sr_g no_sr_g n e = refl
  geometries_eq-full (cons_sr_g g gs) (cons_sr_g h hs) n e =
      and-both (geometry_eq g h) _ (geometry_eq-full g h n.0 (cc e))
        (geometries_eq-full gs hs n.1 (cc e))
  geometries_eq-full _ _ n e = cc e
