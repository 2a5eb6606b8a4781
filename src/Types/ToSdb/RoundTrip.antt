-- ===== src/Types/ToSdb/RoundTrip.antt =====
-- What the database's values become in C comes back unchanged: `sdbValue::from(Value::from(v))`.
use surrealdb_c.Prelude.{◌≡◌, refl, ap, Text}
use surrealdb_c.Rust.Run.{ok}
use surrealdb_c.Rust.BTree.{collect, Above, IsSorted}
use surrealdb_c.Rust.BTree.Collect.{collect-sorted}
use surrealdb_c.Sdb.{
  SdbTypes, SdbLaws, SdbValue, RecordIdKey, SdbItems, SdbFields, sdb_none, sdb_null, sdb_bool,
  sdb_number, sdb_string, sdb_duration, sdb_datetime, sdb_uuid, sdb_array, sdb_object, sdb_geometry,
  sdb_bytes, sdb_record_id, sdb_other, key_number, key_string, key_array, key_object, key_other,
  no_items, item, no_fields, field, items_of, list_of_items, fields_of, entries_of,
}
use surrealdb_c.Types.Slices.{IsShort, make_slice_self}
use surrealdb_c.Types.Values.{array_of, array_from_slice, array_of-IsShort, object_of}
use surrealdb_c.Types.FromSdb.{
  value_from_sdb, id_from_sdb, items_from_sdb, fields_from_sdb, array_from_sdb, object_from_sdb,
}
use surrealdb_c.Types.ToSdb.{value_to_sdb, id_to_sdb, array_to_sdb, object_to_sdb, sdb_object_from}
use surrealdb_c.Types.ToSdb.Fits.{length-items_from_sdb}
use surrealdb_c.Types.ToSdb.Clean.{IsClean, IsCleanKey, AreClean, AreCleanFields}
use surrealdb_c.Types.ToSdb.Leaves.{
  string_from-to_string_t, number_round, duration_round, datetime_round, geometry_round,
}

module _ {E : SdbTypes} where
  pub items_round : (a : SdbItems E) → items_of (list_of_items a) ≡ a
  unfolding items_of list_of_items
  items_round no_items = refl
  items_round (item v vs) = ap (item v) (items_round vs)

  pub fields_round : (o : SdbFields E) → fields_of (entries_of o) ≡ o
  unfolding fields_of entries_of
  fields_round no_fields = refl
  fields_round (field k v fs) = ap (field k v) (fields_round fs)

module _ (E : SdbTypes) where
  -- The conversion keeps the keys, and so their order.
  Above-fields_from_sdb :
      (k : Text) (o : SdbFields E) → Above k (entries_of o) → Above k (fields_from_sdb E o)
  unfolding entries_of fields_from_sdb
  Above-fields_from_sdb k no_fields h = tt
  Above-fields_from_sdb k (field j v fs) h = (h.0, Above-fields_from_sdb k fs h.1)

  IsSorted-fields_from_sdb :
      (o : SdbFields E) → IsSorted (entries_of o) → IsSorted (fields_from_sdb E o)
  unfolding entries_of fields_from_sdb
  IsSorted-fields_from_sdb no_fields h = tt
  IsSorted-fields_from_sdb (field k v fs) h =
      (Above-fields_from_sdb k fs h.0, IsSorted-fields_from_sdb fs h.1)

  pub collect-fields_from_sdb :
      (o : SdbFields E)
      → IsSorted (entries_of o)
      → collect (fields_from_sdb E o) ≡ fields_from_sdb E o
  collect-fields_from_sdb o h = collect-sorted (fields_from_sdb E o) (IsSorted-fields_from_sdb o h)

  -- Every element of a short array is read.
  pub array_of-items_from_sdb :
      (a : SdbItems E)
      → IsShort (list_of_items a)
      → array_of (items_from_sdb E a) ≡ array_from_slice (items_from_sdb E a)
  array_of-items_from_sdb a h =
      array_of-IsShort (items_from_sdb E a) (rw (length-items_from_sdb E a) h)

module _ (E : SdbTypes) (laws : SdbLaws E) where
  mutual
    unfolding value_from_sdb value_to_sdb array_from_slice list_of_items object_of entries_of

    value-round : (v : SdbValue E) → IsClean v → value_to_sdb E (value_from_sdb E v) ≡ ok v
    value-round sdb_none h = refl
    value-round sdb_null h = refl
    value-round (sdb_bool b) h = refl
    value-round (sdb_number n) h = rw (number_round E laws n)
    value-round (sdb_string s) h = rw (string_from-to_string_t s h)
    value-round (sdb_duration d) h = rw (duration_round E laws d)
    value-round (sdb_datetime d) h = rw (datetime_round E laws d)
    value-round (sdb_uuid u) h = ap (λ w. ok (sdb_uuid w)) (laws.uuid_round u)
    value-round (sdb_array a) h =
        rw (array_of-items_from_sdb E a h.0, items-round a h.1, items_round)
    value-round (sdb_object o) h = rw (
      collect-fields_from_sdb E o h.1,
      fields-round o h.0,
      collect-sorted (entries_of o) h.1,
      fields_round,
    )
    value-round (sdb_geometry g) h = ap (λ w. ok (sdb_geometry w)) (geometry_round E laws g h.0 h.1)
    value-round (sdb_bytes b) h = ap (λ w. ok (sdb_bytes w)) (make_slice_self b h)
    value-round (sdb_record_id t k) h =
        rw (string_from-to_string_t (E.table_to_string t) h.0, key-round k h.1, laws.table_round t)
    value-round (sdb_other o) h = absurd h

    key-round : (k : RecordIdKey E) → IsCleanKey k → id_to_sdb E (id_from_sdb E k) ≡ ok k
    key-round (key_number i) h = refl
    key-round (key_string s) h = rw (string_from-to_string_t s h)
    key-round (key_array a) h = rw (array_of-items_from_sdb E a h.0, items-round a h.1, items_round)
    key-round (key_object o) h = rw (
      collect-fields_from_sdb E o h.1,
      fields-round o h.0,
      collect-sorted (entries_of o) h.1,
      fields_round,
    )
    key-round (key_other k) h = absurd h

    items-round :
        (a : SdbItems E)
        → AreClean a
        → array_to_sdb E (array_from_slice (items_from_sdb E a)) ≡ ok (list_of_items a)
    items-round no_items h = refl
    items-round (item v vs) h = rw (value-round v h.0, items-round vs h.1)

    fields-round :
        (o : SdbFields E)
        → AreCleanFields o
        → object_to_sdb E (object_of (fields_from_sdb E o)) ≡ ok (entries_of o)
    fields-round no_fields h = refl
    fields-round (field k v fs) h = rw (value-round v h.0, fields-round fs h.1)

  -- If the crates' printers and parsers keep their laws, a value of the database whose strings are
  -- UTF-8 without NUL, whose objects have their keys in order, whose arrays, bytes and geometries
  -- have at every depth fewer than 2^31 elements, and which is of the kinds that the code names
  -- converts to C and back without an error, and comes back unchanged.
  pub value_to_sdb-value_from_sdb :
      (v : SdbValue E) → IsClean v → value_to_sdb E (value_from_sdb E v) ≡ ok v
  value_to_sdb-value_from_sdb v h = value-round v h

  -- A short array of clean values, and an object of clean values with its keys in order, as well.
  pub array_to_sdb-array_from_sdb :
      (a : SdbItems E)
      → IsShort (list_of_items a)
      → AreClean a
      → array_to_sdb E (array_from_sdb E a) ≡ ok (list_of_items a)
  unfolding array_from_sdb
  array_to_sdb-array_from_sdb a s h = rw (array_of-items_from_sdb E a s) (items-round a h)

  pub sdb_object_from-object_from_sdb :
      (o : SdbFields E)
      → AreCleanFields o
      → IsSorted (entries_of o)
      → sdb_object_from E (object_from_sdb E o) ≡ ok o
  unfolding sdb_object_from object_from_sdb
  sdb_object_from-object_from_sdb o h k = rw (
    collect-fields_from_sdb E o k,
    fields-round o h,
    collect-sorted (entries_of o) k,
    fields_round,
  )
