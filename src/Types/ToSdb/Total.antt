-- ===== src/Types/ToSdb/Total.antt =====
-- The conversions from the database to C and back end with a value, whatever the value.
use surrealdb_c.Prelude.{◌≡◌, refl, [], ◌∷◌}
use surrealdb_c.Rust.Run.{Run, ok}
use surrealdb_c.Rust.Utf8.{to_string_lossy}
use surrealdb_c.Rust.BTree.{BTreeMap, collect}
use surrealdb_c.Rust.BTree.Values.{AllValues, AllValues-collect}
use surrealdb_c.Sdb.{
  SdbTypes, SdbLaws, SdbValue, RecordIdKey, SdbItems, SdbFields, sdb_none, sdb_null, sdb_bool,
  sdb_number, sdb_string, sdb_duration, sdb_datetime, sdb_uuid, sdb_array, sdb_object, sdb_geometry,
  sdb_bytes, sdb_record_id, sdb_other, key_number, key_string, key_array, key_object, key_other,
  no_items, item, no_fields, field, items_of, fields_of,
}
use surrealdb_c.Types.Strings.{to_raw_char_ptr, string_from, to_string_t}
use surrealdb_c.Types.Values.{Value, array_from_slice, object_of}
use surrealdb_c.Types.FromSdb.{value_from_sdb, id_from_sdb, items_from_sdb, fields_from_sdb}
use surrealdb_c.Types.ToSdb.{value_to_sdb, id_to_sdb, array_to_sdb, object_to_sdb, datetime_to_sdb}
use surrealdb_c.Types.ToSdb.Fits.{Fits, FitsKey, FitItems, FitFields}
use surrealdb_c.Types.ToSdb.Leaves.{number_round, duration_round}
use surrealdb_c.Types.ToSdb.RoundTrip.{array_of-items_from_sdb}

-- It ends with a value: it neither panics nor faults.
abbrev pub Ends : {A : Type 0} → Run A → Type 0
Ends {A = A} r = (a : A) × (r ≡ ok a)

module _ (E : SdbTypes) (laws : SdbLaws E) where
  -- The conversion of the C value ends.
  abbrev pub Converts : Value → Type 0
  Converts v = Ends (value_to_sdb E v)

  object-Ends :
      (es : BTreeMap Value) → AllValues Converts es → Ends (object_to_sdb E (object_of es))
  unfolding object_to_sdb object_of
  object-Ends [] h = ([], refl)
  object-Ends ((k, v) ∷ es) h =
      let rest = object-Ends es h.1 in ((k, h.0.0) ∷ rest.0, rw (h.0.1, rest.1))

  mutual
    unfolding value_from_sdb value_to_sdb array_from_slice string_from to_string_t datetime_to_sdb

    value-Ends : (v : SdbValue E) → Fits v → Converts (value_from_sdb E v)
    value-Ends sdb_none h = (_, refl)
    value-Ends sdb_null h = (_, refl)
    value-Ends (sdb_bool b) h = (_, refl)
    value-Ends (sdb_number n) h = (sdb_number n, rw (number_round E laws n))
    value-Ends (sdb_string s) h = (_, refl)
    value-Ends (sdb_duration d) h = (sdb_duration d, rw (duration_round E laws d))
    value-Ends (sdb_datetime d) h = (_, refl)
    value-Ends (sdb_uuid u) h = (_, refl)
    value-Ends (sdb_array a) h =
        let r = items-Ends a h.1 in
        (sdb_array (items_of r.0), rw (array_of-items_from_sdb E a h.0, r.1))
    value-Ends (sdb_object o) h =
        let r =
          object-Ends (collect (fields_from_sdb E o))
            (AllValues-collect Converts (fields_from_sdb E o) (fields-Ends o h)) in
        (sdb_object (fields_of (collect r.0)), rw r.1)
    value-Ends (sdb_geometry g) h = (_, refl)
    value-Ends (sdb_bytes b) h = (_, refl)
    value-Ends (sdb_record_id t k) h =
        let r = key-Ends k h in
        (
          sdb_record_id
              (E.table_from_string (to_string_lossy (to_raw_char_ptr (E.table_to_string t)))) r.0,
          rw r.1,
        )
    value-Ends (sdb_other o) h = (_, refl)

    key-Ends : (k : RecordIdKey E) → FitsKey k → Ends (id_to_sdb E (id_from_sdb E k))
    key-Ends (key_number i) h = (_, refl)
    key-Ends (key_string s) h = (_, refl)
    key-Ends (key_array a) h =
        let r = items-Ends a h.1 in
        (key_array (items_of r.0), rw (array_of-items_from_sdb E a h.0, r.1))
    key-Ends (key_object o) h =
        let r =
          object-Ends (collect (fields_from_sdb E o))
            (AllValues-collect Converts (fields_from_sdb E o) (fields-Ends o h)) in
        (key_object (fields_of (collect r.0)), rw r.1)
    key-Ends (key_other k) h = (_, refl)

    items-Ends :
        (a : SdbItems E)
        → FitItems a
        → Ends (array_to_sdb E (array_from_slice (items_from_sdb E a)))
    items-Ends no_items h = (_, refl)
    items-Ends (item v vs) h =
        let r = value-Ends v h.0 in let s = items-Ends vs h.1 in (r.0 ∷ s.0, rw (r.1, s.1))

    fields-Ends : (o : SdbFields E) → FitFields o → AllValues Converts (fields_from_sdb E o)
    fields-Ends no_fields h = tt
    fields-Ends (field k v fs) h = (value-Ends v h.0, fields-Ends fs h.1)

  -- If the crates keep their laws, the conversion to C and back of any value of the database whose
  -- arrays, bytes and geometries have at every depth fewer than 2^31 elements ends with a value: no
  -- string that it holds is null, and no duration is out of range.
  pub value_from_sdb-Converts : (v : SdbValue E) → Fits v → Converts (value_from_sdb E v)
  value_from_sdb-Converts v h = value-Ends v h
