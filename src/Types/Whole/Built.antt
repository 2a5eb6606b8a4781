-- ===== src/Types/Whole/Built.antt =====
-- The values that a C program can come by: those that the functions of src/types/value.rs make, those
-- that the database returns, and what it puts into arrays and objects and takes out of them.
use surrealdb_c.Prelude.{ℕ, ◌≡◌, Bool, Option, none, some, List}
use surrealdb_c.Prelude.Int.{ℤ, CInt}
use surrealdb_c.Rust.Run.{ok}
use surrealdb_c.Sdb.{Float, SdbTypes, SdbValue, SdbItems, SdbFields}
use surrealdb_c.Types.Strings.{StringT}
use surrealdb_c.Types.Geometries.{SrGCoord}
use surrealdb_c.Types.Values.{Value, Array, Object}
use surrealdb_c.Types.FromSdb.{value_from_sdb, array_from_sdb, object_from_sdb}
use surrealdb_c.Types.Constructors.{
  value_none, value_null, value_bool, value_int, value_float, value_string, value_object,
  value_duration, value_datetime, value_uuid, value_array, value_bytes, value_thing, value_point,
  value_linestring, value_polygon, value_multipoint, value_multilinestring, value_multipolygon,
  value_decimal,
}
use surrealdb_c.Types.Objects.{get, insert, insert_str, insert_int, insert_float, insert_double}
use surrealdb_c.Types.Objects
use surrealdb_c.Types.Arrays.{array_get, array_push}

module _ (E : SdbTypes) (widen : Float → Float) where
  mutual
    pub data Built : Value → Type 0 where
      built_none : Built value_none
      built_null : Built value_null
      built_bool : (b : Bool) → Built (value_bool b)
      built_int : (i : ℤ) → Built (value_int i)
      built_float : (f : Float) → Built (value_float f)
      built_array : Built value_array
      built_duration : (secs nanos : ℕ) → Built (value_duration secs nanos)
      built_point : (x y : Float) → Built (value_point x y)
      built_string : (s : StringT) (v : Value) → value_string s ≡ ok v → Built v
      built_datetime : (s : StringT) (v : Value) → value_datetime s ≡ ok v → Built v
      built_decimal : (s : StringT) (v : Value) → value_decimal s ≡ ok v → Built v
      built_thing : (t i : StringT) (v : Value) → value_thing t i ≡ ok v → Built v
      built_uuid : (b : Option (List ℕ)) (v : Value) → value_uuid b ≡ ok v → Built v
      built_bytes : (b : Option (List ℕ)) (n : CInt) (v : Value) → value_bytes b n ≡ ok v → Built v
      built_linestring :
          (c : Option (List SrGCoord)) (n : CInt) (v : Value)
          → value_linestring c n ≡ ok v
          → Built v
      built_polygon :
          (c : Option (List SrGCoord)) (n : CInt) (v : Value) → value_polygon c n ≡ ok v → Built v
      built_multipoint :
          (c : Option (List SrGCoord)) (n : CInt) (v : Value)
          → value_multipoint c n ≡ ok v
          → Built v
      built_multilinestring :
          (p : Option (List (Option (List SrGCoord)))) (l : Option (List CInt)) (n : CInt)
          (v : Value)
          → value_multilinestring p l n ≡ ok v
          → Built v
      built_multipolygon :
          (p : Option (List (Option (List SrGCoord)))) (l : Option (List CInt)) (n : CInt)
          (v : Value)
          → value_multipolygon p l n ≡ ok v
          → Built v
      built_object :
          (o : Object) (v : Value) → BuiltObject o → value_object (some o) ≡ ok v → Built v
      -- a value of a reply, an element of an array, and a field of an object
      received : (w : SdbValue E) → Built (value_from_sdb E w)
      element :
          (a : Array) (i : CInt) (v : Value)
          → BuiltArray a
          → array_get (some a) i ≡ some v
          → Built v
      found : (o : Object) (k : StringT) (v : Value) → BuiltObject o → get o k ≡ some v → Built v

    pub data BuiltArray : Array → Type 0 where
      built_push_new : BuiltArray (array_push none none)
      built_push_one : (v : Value) → Built v → BuiltArray (array_push none (some v))
      built_push_copy : (a : Array) → BuiltArray a → BuiltArray (array_push (some a) none)
      built_push :
          (a : Array) (v : Value)
          → BuiltArray a
          → Built v
          → BuiltArray (array_push (some a) (some v))
      received_rows : (w : SdbItems E) → BuiltArray (array_from_sdb E w)

    pub data BuiltObject : Object → Type 0 where
      built_new : BuiltObject Objects.new
      built_insert :
          (o p : Object) (k : StringT) (v : Value)
          → BuiltObject o
          → Built v
          → insert (some o) k v ≡ some p
          → BuiltObject p
      built_insert_str :
          (o p : Object) (k s : StringT)
          → BuiltObject o
          → insert_str (some o) k s ≡ some p
          → BuiltObject p
      built_insert_int :
          (o p : Object) (k : StringT) (i : CInt)
          → BuiltObject o
          → insert_int (some o) k i ≡ some p
          → BuiltObject p
      built_insert_float :
          (o p : Object) (k : StringT) (f : Float)
          → BuiltObject o
          → insert_float widen (some o) k f ≡ some p
          → BuiltObject p
      built_insert_double :
          (o p : Object) (k : StringT) (f : Float)
          → BuiltObject o
          → insert_double (some o) k f ≡ some p
          → BuiltObject p
      received_object : (w : SdbFields E) → BuiltObject (object_from_sdb E w)
