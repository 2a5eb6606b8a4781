-- ===== src/Types/Whole/Kept.antt =====
-- What comes from the database holds no null string.
use surrealdb_c.Prelude.{All}
use surrealdb_c.Rust.BTree.{collect}
use surrealdb_c.Rust.BTree.Values.{AllValues, AllValues-collect}
use surrealdb_c.Sdb.{
  SdbTypes, SdbValue, SdbNumber, RecordIdKey, SdbItems, SdbFields, sdb_int, sdb_float, sdb_decimal,
  sdb_none, sdb_null, sdb_bool, sdb_number, sdb_string, sdb_duration, sdb_datetime, sdb_uuid,
  sdb_array, sdb_object, sdb_geometry, sdb_bytes, sdb_record_id, sdb_other, key_number, key_string,
  key_array, key_object, key_other, no_items, item, no_fields, field,
}
use surrealdb_c.Types.Strings.{to_string_t}
use surrealdb_c.Types.Numbers.{number_from_sdb, number_from_decimal}
use surrealdb_c.Types.FromSdb.{
  array_from_sdb, object_from_sdb, value_from_sdb, id_from_sdb, items_from_sdb, fields_from_sdb,
}
use surrealdb_c.Types.Whole.{
  IsWhole, IsWholeNumber, IsWholeId, IsWholeArray, IsWholeObject, array_of-IsWholeArray,
  object_of-IsWholeObject,
}

module _ (E : SdbTypes) where
  number_from_sdb-IsWhole : (n : SdbNumber E) → IsWholeNumber (number_from_sdb E n)
  unfolding number_from_sdb number_from_decimal to_string_t
  number_from_sdb-IsWhole (sdb_int i) = tt
  number_from_sdb-IsWhole (sdb_float f) = tt
  number_from_sdb-IsWhole (sdb_decimal d) = tt

  mutual
    unfolding value_from_sdb to_string_t

    pub value_from_sdb-IsWhole : (v : SdbValue E) → IsWhole (value_from_sdb E v)
    value_from_sdb-IsWhole (sdb_number n) = number_from_sdb-IsWhole n
    value_from_sdb-IsWhole (sdb_array a) = array_of-IsWholeArray (items_from_sdb E a) (all_items a)
    value_from_sdb-IsWhole (sdb_object o) =
        object_of-IsWholeObject (collect (fields_from_sdb E o))
          (AllValues-collect IsWhole (fields_from_sdb E o) (all_fields o))
    value_from_sdb-IsWhole (sdb_record_id t k) = (tt, id_from_sdb-IsWholeId k)
    value_from_sdb-IsWhole (sdb_string s) = tt
    value_from_sdb-IsWhole (sdb_datetime d) = tt
    value_from_sdb-IsWhole sdb_none = tt
    value_from_sdb-IsWhole sdb_null = tt
    value_from_sdb-IsWhole (sdb_bool b) = tt
    value_from_sdb-IsWhole (sdb_duration d) = tt
    value_from_sdb-IsWhole (sdb_uuid u) = tt
    value_from_sdb-IsWhole (sdb_geometry g) = tt
    value_from_sdb-IsWhole (sdb_bytes b) = tt
    value_from_sdb-IsWhole (sdb_other o) = tt

    id_from_sdb-IsWholeId : (k : RecordIdKey E) → IsWholeId (id_from_sdb E k)
    id_from_sdb-IsWholeId (key_number i) = tt
    id_from_sdb-IsWholeId (key_string s) = tt
    id_from_sdb-IsWholeId (key_array a) = array_of-IsWholeArray (items_from_sdb E a) (all_items a)
    id_from_sdb-IsWholeId (key_object o) =
        object_of-IsWholeObject (collect (fields_from_sdb E o))
          (AllValues-collect IsWhole (fields_from_sdb E o) (all_fields o))
    id_from_sdb-IsWholeId (key_other k) = tt

    all_items : (a : SdbItems E) → All IsWhole (items_from_sdb E a)
    all_items no_items = tt
    all_items (item v vs) = (value_from_sdb-IsWhole v, all_items vs)

    all_fields : (o : SdbFields E) → AllValues IsWhole (fields_from_sdb E o)
    all_fields no_fields = tt
    all_fields (field k v fs) = (value_from_sdb-IsWhole v, all_fields fs)

  pub array_from_sdb-IsWholeArray : (a : SdbItems E) → IsWholeArray (array_from_sdb E a)
  unfolding array_from_sdb
  array_from_sdb-IsWholeArray a = array_of-IsWholeArray (items_from_sdb E a) (all_items a)

  pub object_from_sdb-IsWholeObject : (o : SdbFields E) → IsWholeObject (object_from_sdb E o)
  unfolding object_from_sdb
  object_from_sdb-IsWholeObject o =
      object_of-IsWholeObject (collect (fields_from_sdb E o))
        (AllValues-collect IsWhole (fields_from_sdb E o) (all_fields o))
