-- ===== src/Types/Geometries/Blocks.antt =====
-- The slices behind a geometry of src/types/geometry.rs, on the heap.
use surrealdb_c.Prelude.{ℕ, suc, ◌+◌, List, [], ◌∷◌}
use surrealdb_c.Types.Geometries.{
  SrGPolygon, SrGeometry, SrGeometries, sr_g_point, sr_g_linestring, sr_g_polygon, sr_g_multipoint,
  sr_g_multiline, sr_g_multipolygon, sr_g_collection, sr_g_unimplemented, no_sr_g, cons_sr_g,
}

-- The number of slices that a geometry owns: empty ones have no block.
abbrev slice_blocks : {A : Type 0} → List A → ℕ
slice_blocks [] = 0
slice_blocks (_ ∷ _) = 1

abbrev sum_blocks : {A : Type 0} → (A → ℕ) → List A → ℕ
sum_blocks f [] = 0
sum_blocks f (x ∷ xs) = f x + sum_blocks f xs

abbrev polygon_blocks : SrGPolygon → ℕ
polygon_blocks p =
    slice_blocks p.exterior
    + (slice_blocks p.interiors + sum_blocks (λ l. slice_blocks l) p.interiors)

abbrev mutual
  pub geometry_blocks : SrGeometry → ℕ
  geometry_blocks (sr_g_point p) = 0
  geometry_blocks (sr_g_linestring l) = slice_blocks l
  geometry_blocks (sr_g_polygon p) = polygon_blocks p
  geometry_blocks (sr_g_multipoint m) = slice_blocks m
  geometry_blocks (sr_g_multiline m) = slice_blocks m + sum_blocks (λ l. slice_blocks l) m
  geometry_blocks (sr_g_multipolygon m) = slice_blocks m + sum_blocks polygon_blocks m
  geometry_blocks (sr_g_collection c) = geometries_blocks c
  geometry_blocks sr_g_unimplemented = 0

  -- The slice of the collection, and what its elements own.
  geometries_blocks : SrGeometries → ℕ
  geometries_blocks no_sr_g = 0
  geometries_blocks (cons_sr_g g gs) = suc (geometry_blocks g + rest_blocks gs)

  rest_blocks : SrGeometries → ℕ
  rest_blocks no_sr_g = 0
  rest_blocks (cons_sr_g g gs) = geometry_blocks g + rest_blocks gs

-- The number of slices that `From<sr_geometry> for Geometry` copies and leaks, where it reads the
-- elements of a slice through `iter().cloned()`: the rings inside a polygon, the lines, the polygons,
-- whose copies are then converted, and the geometries of a collection.
abbrev polygon_copies : SrGPolygon → ℕ
polygon_copies p = sum_blocks (λ l. slice_blocks l) p.interiors

abbrev mutual
  pub geometry_copies : SrGeometry → ℕ
  geometry_copies (sr_g_point p) = 0
  geometry_copies (sr_g_linestring l) = 0
  geometry_copies (sr_g_polygon p) = polygon_copies p
  geometry_copies (sr_g_multipoint m) = 0
  geometry_copies (sr_g_multiline m) = sum_blocks (λ l. slice_blocks l) m
  geometry_copies (sr_g_multipolygon m) = sum_blocks (λ p. polygon_blocks p + polygon_copies p) m
  geometry_copies (sr_g_collection c) = geometries_copies c
  geometry_copies sr_g_unimplemented = 0

  geometries_copies : SrGeometries → ℕ
  geometries_copies no_sr_g = 0
  geometries_copies (cons_sr_g g gs) = geometry_blocks g + geometry_copies g + geometries_copies gs
