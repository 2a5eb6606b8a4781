-- ===== src/Types/Equal/Plain.antt =====
-- What equality does not tell apart: the values with 0.0 for -0.0, and those without a NaN.
use surrealdb_c.Types.Numbers.{Number, sr_number_int, sr_number_float, sr_number_decimal}
use surrealdb_c.Types.Values.{
  Value, Thing, ThingId, Array, Object, sr_value_none, sr_value_null, sr_value_bool,
  sr_value_number, sr_value_strand, sr_value_duration, sr_value_datetime, sr_value_uuid,
  sr_value_array, sr_value_object, sr_geometry_object, sr_value_bytes, sr_value_thing, thing,
  sr_id_number, sr_id_string, sr_id_array, sr_id_object, empty, cons, end, entry,
}
use surrealdb_c.Types.Equal.Simple.{IsNumber, unsigned_zero}
use surrealdb_c.Types.Equal.Geometry.{AreNumbersGeometry, plain_geometry}

abbrev pub IsNumberNumber : Number → Type 0
IsNumberNumber (sr_number_float x) = IsNumber x
IsNumberNumber (sr_number_int _) = Unit
IsNumberNumber (sr_number_decimal _) = Unit

abbrev pub plain_number : Number → Number
plain_number (sr_number_float x) = sr_number_float (unsigned_zero x)
plain_number (sr_number_int i) = sr_number_int i
plain_number (sr_number_decimal s) = sr_number_decimal s

abbrev mutual
  pub HasNoNan : Value → Type 0
  HasNoNan (sr_value_number n) = IsNumberNumber n
  HasNoNan (sr_value_array a) = HasNoNanArray a
  HasNoNan (sr_value_object o) = HasNoNanObject o
  HasNoNan (sr_geometry_object g) = AreNumbersGeometry g
  HasNoNan (sr_value_thing t) = HasNoNanThing t
  HasNoNan sr_value_none = Unit
  HasNoNan sr_value_null = Unit
  HasNoNan (sr_value_bool _) = Unit
  HasNoNan (sr_value_strand _) = Unit
  HasNoNan (sr_value_duration _) = Unit
  HasNoNan (sr_value_datetime _) = Unit
  HasNoNan (sr_value_uuid _) = Unit
  HasNoNan (sr_value_bytes _) = Unit

  pub HasNoNanThing : Thing → Type 0
  HasNoNanThing (thing t i) = HasNoNanId i

  pub HasNoNanId : ThingId → Type 0
  HasNoNanId (sr_id_number _) = Unit
  HasNoNanId (sr_id_string _) = Unit
  HasNoNanId (sr_id_array a) = HasNoNanArray a
  HasNoNanId (sr_id_object o) = HasNoNanObject o

  pub HasNoNanArray : Array → Type 0
  HasNoNanArray empty = Unit
  HasNoNanArray (cons v vs) = HasNoNan v × HasNoNanArray vs

  pub HasNoNanObject : Object → Type 0
  HasNoNanObject end = Unit
  HasNoNanObject (entry _ v o) = HasNoNan v × HasNoNanObject o

abbrev mutual
  pub plain_value : Value → Value
  plain_value (sr_value_number n) = sr_value_number (plain_number n)
  plain_value (sr_value_array a) = sr_value_array (plain_array a)
  plain_value (sr_value_object o) = sr_value_object (plain_object o)
  plain_value (sr_geometry_object g) = sr_geometry_object (plain_geometry g)
  plain_value (sr_value_thing t) = sr_value_thing (plain_thing t)
  plain_value sr_value_none = sr_value_none
  plain_value sr_value_null = sr_value_null
  plain_value (sr_value_bool b) = sr_value_bool b
  plain_value (sr_value_strand s) = sr_value_strand s
  plain_value (sr_value_duration d) = sr_value_duration d
  plain_value (sr_value_datetime s) = sr_value_datetime s
  plain_value (sr_value_uuid u) = sr_value_uuid u
  plain_value (sr_value_bytes b) = sr_value_bytes b

  pub plain_thing : Thing → Thing
  plain_thing (thing t i) = thing t (plain_id i)

  pub plain_id : ThingId → ThingId
  plain_id (sr_id_number i) = sr_id_number i
  plain_id (sr_id_string s) = sr_id_string s
  plain_id (sr_id_array a) = sr_id_array (plain_array a)
  plain_id (sr_id_object o) = sr_id_object (plain_object o)

  pub plain_array : Array → Array
  plain_array empty = empty
  plain_array (cons v vs) = cons (plain_value v) (plain_array vs)

  pub plain_object : Object → Object
  plain_object end = end
  plain_object (entry k v o) = entry k (plain_value v) (plain_object o)
