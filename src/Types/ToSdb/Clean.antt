-- ===== src/Types/ToSdb/Clean.antt =====
-- The values of the database that C can hold without loss.
use surrealdb_c.Rust.Utf8.Laws.{IsCText}
use surrealdb_c.Rust.BTree.{IsSorted}
use surrealdb_c.Sdb.{
  SdbTypes, Geometry, Geometries, geo_point, geo_line, geo_polygon, geo_multi_point, geo_multi_line,
  geo_multi_polygon, geo_collection, geo_other, no_geo, cons_geo, SdbValue, RecordIdKey, SdbItems,
  SdbFields, sdb_none, sdb_null, sdb_bool, sdb_number, sdb_string, sdb_duration, sdb_datetime,
  sdb_uuid, sdb_array, sdb_object, sdb_geometry, sdb_bytes, sdb_record_id, sdb_other, key_number,
  key_string, key_array, key_object, key_other, no_items, item, no_fields, field, entries_of,
  list_of_items,
}
use surrealdb_c.Types.Slices.{IsShort}
use surrealdb_c.Types.ToSdb.Fits.{FitsGeometry}

abbrev mutual
  pub IsCleanGeometry : {E : SdbTypes} → Geometry E → Type 0
  IsCleanGeometry (geo_other _) = ⊥
  IsCleanGeometry (geo_collection c) = AreCleanGeometries c
  IsCleanGeometry (geo_point _) = Unit
  IsCleanGeometry (geo_line _) = Unit
  IsCleanGeometry (geo_polygon _) = Unit
  IsCleanGeometry (geo_multi_point _) = Unit
  IsCleanGeometry (geo_multi_line _) = Unit
  IsCleanGeometry (geo_multi_polygon _) = Unit

  pub AreCleanGeometries : {E : SdbTypes} → Geometries E → Type 0
  AreCleanGeometries no_geo = Unit
  AreCleanGeometries (cons_geo g gs) = IsCleanGeometry g × AreCleanGeometries gs

-- Strings are UTF-8 without NUL, the keys of objects are in order (as a `BTreeMap` has them), and
-- no part is of a variant that the code does not name. The lengths of arrays, bytes and geometries
-- fit a `c_int`.
abbrev mutual
  pub IsClean : {E : SdbTypes} → SdbValue E → Type 0
  IsClean (sdb_number _) = Unit
  IsClean (sdb_string s) = IsCText s
  IsClean (sdb_array a) = IsShort (list_of_items a) × AreClean a
  IsClean (sdb_object o) = AreCleanFields o × IsSorted (entries_of o)
  IsClean (sdb_geometry g) = IsCleanGeometry g × FitsGeometry g
  IsClean {E} (sdb_record_id t k) = IsCText (E.table_to_string t) × IsCleanKey k
  IsClean (sdb_other _) = ⊥
  IsClean sdb_none = Unit
  IsClean sdb_null = Unit
  IsClean (sdb_bool _) = Unit
  IsClean (sdb_duration _) = Unit
  IsClean (sdb_datetime _) = Unit
  IsClean (sdb_uuid _) = Unit
  IsClean (sdb_bytes b) = IsShort b

  pub IsCleanKey : {E : SdbTypes} → RecordIdKey E → Type 0
  IsCleanKey (key_number _) = Unit
  IsCleanKey (key_string s) = IsCText s
  IsCleanKey (key_array a) = IsShort (list_of_items a) × AreClean a
  IsCleanKey (key_object o) = AreCleanFields o × IsSorted (entries_of o)
  IsCleanKey (key_other _) = ⊥

  pub AreClean : {E : SdbTypes} → SdbItems E → Type 0
  AreClean no_items = Unit
  AreClean (item v vs) = IsClean v × AreClean vs

  pub AreCleanFields : {E : SdbTypes} → SdbFields E → Type 0
  AreCleanFields no_fields = Unit
  AreCleanFields (field _ v fs) = IsClean v × AreCleanFields fs
