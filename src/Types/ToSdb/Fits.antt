-- ===== src/Types/ToSdb/Fits.antt =====
-- The values of the database whose arrays, bytes and geometries have lengths that fit a `c_int`.
use surrealdb_c.Prelude.{ℕ, suc, ◌≡◌, ◌<◌, refl, ap, length, All}
use surrealdb_c.Sdb.{
  SdbTypes, Geometry, Geometries, geo_point, geo_line, geo_polygon, geo_multi_point, geo_multi_line,
  geo_multi_polygon, geo_collection, geo_other, no_geo, cons_geo, SdbValue, RecordIdKey, SdbItems,
  SdbFields, sdb_none, sdb_null, sdb_bool, sdb_number, sdb_string, sdb_duration, sdb_datetime,
  sdb_uuid, sdb_array, sdb_object, sdb_geometry, sdb_bytes, sdb_record_id, sdb_other, key_number,
  key_string, key_array, key_object, key_other, no_items, item, no_fields, field, list_of_items,
}
use surrealdb_c.Types.Slices.{IsShort}
use surrealdb_c.Types.Geometries.{geometries_from_sdb}
use surrealdb_c.Types.FromSdb.{items_from_sdb}

abbrev pub FitsPolygon : (E : SdbTypes) → E.Polygon → Type 0
FitsPolygon E p =
    let (exterior, interiors) = E.polygon_into_inner p in
    IsShort exterior × (IsShort interiors × All IsShort interiors)

abbrev count : {E : SdbTypes} → Geometries E → ℕ
count no_geo = 0
count (cons_geo _ gs) = suc (count gs)

abbrev mutual
  pub FitsGeometry : {E : SdbTypes} → Geometry E → Type 0
  FitsGeometry (geo_line l) = IsShort l
  FitsGeometry {E} (geo_polygon p) = FitsPolygon E p
  FitsGeometry (geo_multi_point m) = IsShort m
  FitsGeometry (geo_multi_line m) = IsShort m × All IsShort m
  FitsGeometry {E} (geo_multi_polygon m) = IsShort m × All (FitsPolygon E) m
  FitsGeometry (geo_collection c) = (count c < 2147483648) × FitGeometries c
  FitsGeometry (geo_point _) = Unit
  FitsGeometry (geo_other _) = Unit

  pub FitGeometries : {E : SdbTypes} → Geometries E → Type 0
  FitGeometries no_geo = Unit
  FitGeometries (cons_geo g gs) = FitsGeometry g × FitGeometries gs

abbrev mutual
  pub Fits : {E : SdbTypes} → SdbValue E → Type 0
  Fits (sdb_array a) = IsShort (list_of_items a) × FitItems a
  Fits (sdb_object o) = FitFields o
  Fits (sdb_geometry g) = FitsGeometry g
  Fits (sdb_bytes b) = IsShort b
  Fits (sdb_record_id t k) = FitsKey k
  Fits (sdb_number _) = Unit
  Fits (sdb_string s) = Unit
  Fits (sdb_other _) = Unit
  Fits sdb_none = Unit
  Fits sdb_null = Unit
  Fits (sdb_bool _) = Unit
  Fits (sdb_duration _) = Unit
  Fits (sdb_datetime _) = Unit
  Fits (sdb_uuid _) = Unit

  pub FitsKey : {E : SdbTypes} → RecordIdKey E → Type 0
  FitsKey (key_array a) = IsShort (list_of_items a) × FitItems a
  FitsKey (key_object o) = FitFields o
  FitsKey (key_number _) = Unit
  FitsKey (key_string s) = Unit
  FitsKey (key_other _) = Unit

  pub FitItems : {E : SdbTypes} → SdbItems E → Type 0
  FitItems no_items = Unit
  FitItems (item v vs) = Fits v × FitItems vs

  pub FitFields : {E : SdbTypes} → SdbFields E → Type 0
  FitFields no_fields = Unit
  FitFields (field _ v fs) = Fits v × FitFields fs

-- The conversion keeps the number of elements.
module _ (E : SdbTypes) where
  pub length-items_from_sdb :
      (a : SdbItems E) → length (items_from_sdb E a) ≡ length (list_of_items a)
  unfolding items_from_sdb list_of_items
  length-items_from_sdb no_items = refl
  length-items_from_sdb (item v vs) = ap suc (length-items_from_sdb vs)

  pub length-geometries_from_sdb : (c : Geometries E) → length (geometries_from_sdb E c) ≡ count c
  unfolding geometries_from_sdb
  length-geometries_from_sdb no_geo = refl
  length-geometries_from_sdb (cons_geo g gs) = ap suc (length-geometries_from_sdb gs)
