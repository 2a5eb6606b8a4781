-- ===== src/Types/FromSdb.antt =====
-- The conversions from the database's types: `Value::from(sdbValue)`, `Thing::from(RecordId)`,
-- `Array::from(sdbArray)` and `Object::from(sdbObject)`.
use surrealdb_c.Prelude.{List, [], ◌∷◌, Text}
use surrealdb_c.Rust.BTree.{collect}
use surrealdb_c.Sdb.{
  SdbTypes, SdbValue, RecordIdKey, SdbItems, SdbFields, sdb_none, sdb_null, sdb_bool, sdb_number,
  sdb_string, sdb_duration, sdb_datetime, sdb_uuid, sdb_array, sdb_object, sdb_geometry, sdb_bytes,
  sdb_record_id, sdb_other, key_number, key_string, key_array, key_object, key_other, no_items,
  item, no_fields, field,
}
use surrealdb_c.Types.Slices.{make_slice}
use surrealdb_c.Types.Strings.{to_string_t}
use surrealdb_c.Types.Numbers.{number_from_sdb, duration_from_sdb, uuid_from_sdb}
use surrealdb_c.Types.Geometries.{geometry_from_sdb}
use surrealdb_c.Types.Values.{
  Value, ThingId, Array, Object, sr_value_none, sr_value_null, sr_value_bool, sr_value_number,
  sr_value_strand, sr_value_duration, sr_value_datetime, sr_value_uuid, sr_value_array,
  sr_value_object, sr_geometry_object, sr_value_bytes, sr_value_thing, thing, sr_id_number,
  sr_id_string, sr_id_array, sr_id_object, array_of, object_of,
}

-- The lists are the iterators that `Array::from` and `Object::from` collect.
unfoldable mutual
  unfolding number_from_sdb duration_from_sdb uuid_from_sdb

  pub value_from_sdb : (E : SdbTypes) → SdbValue E → Value
  value_from_sdb E sdb_none = sr_value_none
  value_from_sdb E sdb_null = sr_value_null
  value_from_sdb E (sdb_bool b) = sr_value_bool b
  value_from_sdb E (sdb_number n) = sr_value_number (number_from_sdb E n)
  value_from_sdb E (sdb_string s) = sr_value_strand (to_string_t s)
  value_from_sdb E (sdb_duration d) = sr_value_duration (duration_from_sdb E d)
  value_from_sdb E (sdb_datetime d) = sr_value_datetime (to_string_t (E.datetime_to_string d))
  value_from_sdb E (sdb_uuid u) = sr_value_uuid (uuid_from_sdb E u)
  value_from_sdb E (sdb_array a) = sr_value_array (array_of (items_from_sdb E a))
  value_from_sdb E (sdb_object o) = sr_value_object (object_of (collect (fields_from_sdb E o)))
  value_from_sdb E (sdb_geometry g) = sr_geometry_object (geometry_from_sdb E g)
  value_from_sdb E (sdb_bytes b) = sr_value_bytes (make_slice b)
  value_from_sdb E (sdb_record_id table key) =
      sr_value_thing (thing (to_string_t (E.table_to_string table)) (id_from_sdb E key))
  value_from_sdb E (sdb_other _) = sr_value_none

  pub id_from_sdb : (E : SdbTypes) → RecordIdKey E → ThingId
  id_from_sdb E (key_number i) = sr_id_number i
  id_from_sdb E (key_string s) = sr_id_string (to_string_t s)
  id_from_sdb E (key_array a) = sr_id_array (array_of (items_from_sdb E a))
  id_from_sdb E (key_object o) = sr_id_object (object_of (collect (fields_from_sdb E o)))
  id_from_sdb E (key_other k) = sr_id_string (to_string_t (E.other_key_debug k))

  pub items_from_sdb : (E : SdbTypes) → SdbItems E → List Value
  items_from_sdb E no_items = []
  items_from_sdb E (item v vs) = value_from_sdb E v ∷ items_from_sdb E vs

  pub fields_from_sdb : (E : SdbTypes) → SdbFields E → List (Text × Value)
  fields_from_sdb E no_fields = []
  fields_from_sdb E (field k v fs) = (k, value_from_sdb E v) ∷ fields_from_sdb E fs

-- `Array::from(sdbArray)`
unfoldable pub array_from_sdb : (E : SdbTypes) → SdbItems E → Array
array_from_sdb E a = array_of (items_from_sdb E a)

-- `Array::from(&sdbArray)`, which clones each value first
unfoldable pub array_from_sdb_ref : (E : SdbTypes) → SdbItems E → Array
array_from_sdb_ref E a = array_of (items_from_sdb E a)

-- `Object::from(sdbObject)`
unfoldable pub object_from_sdb : (E : SdbTypes) → SdbFields E → Object
object_from_sdb E o = object_of (collect (fields_from_sdb E o))

-- `Object::from(&sdbObject)`, which clones each key and value first
unfoldable pub object_from_sdb_ref : (E : SdbTypes) → SdbFields E → Object
object_from_sdb_ref E o = object_of (collect (fields_from_sdb E o))
