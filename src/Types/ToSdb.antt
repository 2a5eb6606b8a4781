-- ===== src/Types/ToSdb.antt =====
-- The conversions to the database's types: `sdbValue::from(Value)`, `RecordId::from(Thing)`,
-- `sdbArray::from(Array)` and `sdbObject::from(Object)`. A null string faults, and a duration whose
-- carry does not fit panics.
pub mod Fits
pub mod Clean
pub mod Leaves
pub mod RoundTrip
pub mod Total
use surrealdb_c.Prelude.{Option, none, some, List, [], ◌∷◌, Text}
use surrealdb_c.Rust.Run.{Run, ok, fault, ◌>>=◌}
use surrealdb_c.Rust.Utf8.{to_string_lossy}
use surrealdb_c.Rust.BTree.{collect}
use surrealdb_c.Sdb.{
  SdbTypes, SdbValue, RecordIdKey, SdbItems, SdbFields, sdb_none, sdb_null, sdb_bool, sdb_number,
  sdb_string, sdb_duration, sdb_datetime, sdb_uuid, sdb_array, sdb_object, sdb_geometry, sdb_bytes,
  sdb_record_id, key_number, key_string, key_array, key_object, items_of, fields_of,
}
use surrealdb_c.Types.Strings.{StringT, string_from}
use surrealdb_c.Types.Numbers.{number_to_sdb, duration_to_sdb, uuid_to_sdb}
use surrealdb_c.Types.Geometries.{geometry_to_sdb}
use surrealdb_c.Types.Values.{
  Value, Thing, ThingId, Array, Object, sr_value_none, sr_value_null, sr_value_bool,
  sr_value_number, sr_value_strand, sr_value_duration, sr_value_datetime, sr_value_uuid,
  sr_value_array, sr_value_object, sr_geometry_object, sr_value_bytes, sr_value_thing, thing,
  sr_id_number, sr_id_string, sr_id_array, sr_id_object, empty, cons, end, entry,
}

-- `DateTime::parse_from_rfc3339(..).unwrap_or_default()`
abbrev or_default : (E : SdbTypes) → Option E.Datetime → E.Datetime
or_default E none = E.datetime_default
or_default E (some d) = d

unfoldable pub datetime_to_sdb : (E : SdbTypes) → StringT → Run E.Datetime
datetime_to_sdb E none = fault
datetime_to_sdb E (some s) = ok (or_default E (E.parse_from_rfc3339 (to_string_lossy s)))

unfoldable mutual
  unfolding number_to_sdb duration_to_sdb uuid_to_sdb datetime_to_sdb string_from

  pub value_to_sdb : (E : SdbTypes) → Value → Run (SdbValue E)
  value_to_sdb E sr_value_none = ok sdb_none
  value_to_sdb E sr_value_null = ok sdb_null
  value_to_sdb E (sr_value_bool b) = ok (sdb_bool b)
  value_to_sdb E (sr_value_number n) = do m ← number_to_sdb E n; ok (sdb_number m)
  value_to_sdb E (sr_value_strand s) = do t ← string_from s; ok (sdb_string t)
  value_to_sdb E (sr_value_duration d) = do e ← duration_to_sdb E d; ok (sdb_duration e)
  value_to_sdb E (sr_value_datetime s) = do d ← datetime_to_sdb E s; ok (sdb_datetime d)
  value_to_sdb E (sr_value_uuid u) = ok (sdb_uuid (uuid_to_sdb E u))
  value_to_sdb E (sr_value_array a) = do vs ← array_to_sdb E a; ok (sdb_array (items_of vs))
  value_to_sdb E (sr_value_object o) = do
    es ← object_to_sdb E o
    ok (sdb_object (fields_of (collect es)))
  value_to_sdb E (sr_geometry_object g) = ok (sdb_geometry (geometry_to_sdb E g))
  value_to_sdb E (sr_value_bytes b) = ok (sdb_bytes b)
  value_to_sdb E (sr_value_thing t) = thing_to_sdb E t

  -- The record id, as a value.
  pub thing_to_sdb : (E : SdbTypes) → Thing → Run (SdbValue E)
  thing_to_sdb E (thing table id) = do
    t ← string_from table
    key ← id_to_sdb E id
    ok (sdb_record_id (E.table_from_string t) key)

  pub id_to_sdb : (E : SdbTypes) → ThingId → Run (RecordIdKey E)
  id_to_sdb E (sr_id_number i) = ok (key_number i)
  id_to_sdb E (sr_id_string s) = do t ← string_from s; ok (key_string t)
  id_to_sdb E (sr_id_array a) = do vs ← array_to_sdb E a; ok (key_array (items_of vs))
  id_to_sdb E (sr_id_object o) = do es ← object_to_sdb E o; ok (key_object (fields_of (collect es)))

  pub array_to_sdb : (E : SdbTypes) → Array → Run (List (SdbValue E))
  array_to_sdb E empty = ok []
  array_to_sdb E (cons v vs) = do w ← value_to_sdb E v; ws ← array_to_sdb E vs; ok (w ∷ ws)

  pub object_to_sdb : (E : SdbTypes) → Object → Run (List (Text × SdbValue E))
  object_to_sdb E end = ok []
  object_to_sdb E (entry k v o) = do w ← value_to_sdb E v; ws ← object_to_sdb E o; ok ((k, w) ∷ ws)

-- `sdbObject::from(Object)`
unfoldable pub sdb_object_from : (E : SdbTypes) → Object → Run (SdbFields E)
sdb_object_from E o = do es ← object_to_sdb E o; ok (fields_of (collect es))
