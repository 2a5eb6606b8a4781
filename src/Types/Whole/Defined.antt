-- ===== src/Types/Whole/Defined.antt =====
-- A value without a null string is converted to the database's without a fault.
use surrealdb_c.Prelude.{ℕ, ◌≢◌, subst, none, some, Bool, true, false, ltb, ◌+◌, ◌/◌, if◌then◌else◌}
use surrealdb_c.Rust.Run.{Run, ok, panic, fault, ◌>>=◌}
use surrealdb_c.Rust.Time.{StdDuration, duration_new, overflow_message}
use surrealdb_c.Sdb.{SdbTypes}
use surrealdb_c.Types.Strings.{StringT, string_from}
use surrealdb_c.Types.Numbers.{
  Number, sr_number_int, sr_number_float, sr_number_decimal, number_to_sdb, duration_to_sdb,
  Duration,
}
use surrealdb_c.Types.Values.{
  Value, ThingId, Array, Object, sr_value_none, sr_value_null, sr_value_bool, sr_value_number,
  sr_value_strand, sr_value_duration, sr_value_datetime, sr_value_uuid, sr_value_array,
  sr_value_object, sr_geometry_object, sr_value_bytes, sr_value_thing, thing, sr_id_number,
  sr_id_string, sr_id_array, sr_id_object, empty, cons, end, entry,
}
use surrealdb_c.Types.ToSdb.{value_to_sdb, id_to_sdb, array_to_sdb, object_to_sdb, datetime_to_sdb}
use surrealdb_c.Types.Whole.{
  IsThere, IsWhole, IsWholeNumber, IsWholeId, IsWholeArray, IsWholeObject,
}

module _ (E : SdbTypes) where
  -- It ends with a value or by a panic.
  abbrev IsDefined : {A : Type 0} → Run A → Type 0
  IsDefined fault = ⊥
  IsDefined (ok _) = Unit
  IsDefined (panic _) = Unit

  then-IsDefined :
      {A B : Type 0} (r : Run A) (f : A → Run B)
      → IsDefined r
      → ((a : A) → IsDefined (f a))
      → IsDefined (r >>= f)
  then-IsDefined (ok a) f h k = k a
  then-IsDefined (panic p) f h k = tt
  then-IsDefined fault f h k = elim h [ ]

  there-IsDefined : (s : StringT) → IsThere s → IsDefined (string_from s)
  unfolding string_from
  there-IsDefined none h = elim h [ ]
  there-IsDefined (some t) h = tt

  number-IsDefined : (n : Number) → IsWholeNumber n → IsDefined (number_to_sdb E n)
  unfolding number_to_sdb
  number-IsDefined (sr_number_int i) h = tt
  number-IsDefined (sr_number_float f) h = tt
  number-IsDefined (sr_number_decimal none) h = elim h [ ]
  number-IsDefined (sr_number_decimal (some s)) h = tt

  datetime-IsDefined : (s : StringT) → IsThere s → IsDefined (datetime_to_sdb E s)
  unfolding datetime_to_sdb
  datetime-IsDefined none h = elim h [ ]
  datetime-IsDefined (some s) h = tt

  duration_new-IsDefined : (secs n : ℕ) → IsDefined (duration_new secs n)
  unfolding duration_new
  duration_new-IsDefined secs n =
      go _ _ (ltb n 1000000000) (ltb (secs + n / 1000000000) 18446744073709551616)
    where
      go :
          (x y : StdDuration) (b c : Bool)
          → IsDefined (if b then ok x else if c then ok y else panic (some overflow_message))
      go x y true c = tt
      go x y false true = tt
      go x y false false = tt

  duration-IsDefined : (d : Duration) → IsDefined (duration_to_sdb E d)
  unfolding duration_to_sdb
  duration-IsDefined d =
      then-IsDefined (duration_new d.secs d.nanos) _ (duration_new-IsDefined d.secs d.nanos)
        (λ _. tt)

  mutual
    unfolding value_to_sdb

    value-IsDefined : (v : Value) → IsWhole v → IsDefined (value_to_sdb E v)
    value-IsDefined (sr_value_number n) h =
        then-IsDefined (number_to_sdb E n) _ (number-IsDefined n h) (λ _. tt)
    value-IsDefined (sr_value_strand s) h =
        then-IsDefined (string_from s) _ (there-IsDefined s h) (λ _. tt)
    value-IsDefined (sr_value_datetime s) h =
        then-IsDefined (datetime_to_sdb E s) _ (datetime-IsDefined s h) (λ _. tt)
    value-IsDefined (sr_value_duration d) h =
        then-IsDefined (duration_to_sdb E d) _ (duration-IsDefined d) (λ _. tt)
    value-IsDefined (sr_value_array a) h =
        then-IsDefined (array_to_sdb E a) _ (array-IsDefined a h) (λ _. tt)
    value-IsDefined (sr_value_object o) h =
        then-IsDefined (object_to_sdb E o) _ (object-IsDefined o h) (λ _. tt)
    value-IsDefined (sr_value_thing (thing t i)) h =
        then-IsDefined (string_from t) _ (there-IsDefined t h.0)
          (λ _. then-IsDefined (id_to_sdb E i) _ (id-IsDefined i h.1) (λ _. tt))
    value-IsDefined sr_value_none h = tt
    value-IsDefined sr_value_null h = tt
    value-IsDefined (sr_value_bool b) h = tt
    value-IsDefined (sr_value_uuid u) h = tt
    value-IsDefined (sr_geometry_object g) h = tt
    value-IsDefined (sr_value_bytes b) h = tt

    id-IsDefined : (i : ThingId) → IsWholeId i → IsDefined (id_to_sdb E i)
    id-IsDefined (sr_id_number n) h = tt
    id-IsDefined (sr_id_string s) h =
        then-IsDefined (string_from s) _ (there-IsDefined s h) (λ _. tt)
    id-IsDefined (sr_id_array a) h =
        then-IsDefined (array_to_sdb E a) _ (array-IsDefined a h) (λ _. tt)
    id-IsDefined (sr_id_object o) h =
        then-IsDefined (object_to_sdb E o) _ (object-IsDefined o h) (λ _. tt)

    array-IsDefined : (a : Array) → IsWholeArray a → IsDefined (array_to_sdb E a)
    array-IsDefined empty h = tt
    array-IsDefined (cons v vs) h =
        then-IsDefined (value_to_sdb E v) _ (value-IsDefined v h.0)
          (λ w. then-IsDefined (array_to_sdb E vs) _ (array-IsDefined vs h.1) (λ _. tt))

    object-IsDefined : (o : Object) → IsWholeObject o → IsDefined (object_to_sdb E o)
    object-IsDefined end h = tt
    object-IsDefined (entry k v o) h =
        then-IsDefined (value_to_sdb E v) _ (value-IsDefined v h.0)
          (λ w. then-IsDefined (object_to_sdb E o) _ (object-IsDefined o h.1) (λ _. tt))

  pub IsDefined-fault : {A : Type 0} (r : Run A) → IsDefined r → r ≢ fault
  IsDefined-fault r h e = subst IsDefined e h

  -- The conversion of a value without a null string does not read through a null pointer.
  pub value_to_sdb-IsWhole : (v : Value) → IsWhole v → value_to_sdb E v ≢ fault
  value_to_sdb-IsWhole v h = IsDefined-fault (value_to_sdb E v) (value-IsDefined v h)
