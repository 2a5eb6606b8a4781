-- ===== src/Types/Whole.antt =====
-- Values without a null string, such as `CStr::from_ptr` must not read.
pub mod Kept
pub mod Defined
pub mod Built
pub mod Invariant
use surrealdb_c.Prelude.{Option, none, some, List, [], ◌∷◌, All}
use surrealdb_c.Rust.BTree.{BTreeMap}
use surrealdb_c.Rust.BTree.Values.{AllValues}
use surrealdb_c.Types.Strings.{StringT}
use surrealdb_c.Types.Numbers.{Number, sr_number_int, sr_number_float, sr_number_decimal}
use surrealdb_c.Types.Slices.{make_slice, All-make_slice}
use surrealdb_c.Types.Values.{
  Value, Thing, ThingId, Array, Object, sr_value_none, sr_value_null, sr_value_bool,
  sr_value_number, sr_value_strand, sr_value_duration, sr_value_datetime, sr_value_uuid,
  sr_value_array, sr_value_object, sr_geometry_object, sr_value_bytes, sr_value_thing, thing,
  sr_id_number, sr_id_string, sr_id_array, sr_id_object, empty, cons, end, entry, array_of,
  array_from_slice, as_slice, object_of, entries,
}

abbrev pub IsThere : StringT → Type 0
IsThere none = ⊥
IsThere (some _) = Unit

abbrev pub IsWholeNumber : Number → Type 0
IsWholeNumber (sr_number_decimal s) = IsThere s
IsWholeNumber (sr_number_int _) = Unit
IsWholeNumber (sr_number_float _) = Unit

abbrev mutual
  pub IsWhole : Value → Type 0
  IsWhole (sr_value_number n) = IsWholeNumber n
  IsWhole (sr_value_strand s) = IsThere s
  IsWhole (sr_value_datetime s) = IsThere s
  IsWhole (sr_value_array a) = IsWholeArray a
  IsWhole (sr_value_object o) = IsWholeObject o
  IsWhole (sr_value_thing t) = IsWholeThing t
  IsWhole sr_value_none = Unit
  IsWhole sr_value_null = Unit
  IsWhole (sr_value_bool _) = Unit
  IsWhole (sr_value_duration _) = Unit
  IsWhole (sr_value_uuid _) = Unit
  IsWhole (sr_geometry_object _) = Unit
  IsWhole (sr_value_bytes _) = Unit

  pub IsWholeThing : Thing → Type 0
  IsWholeThing (thing t i) = IsThere t × IsWholeId i

  pub IsWholeId : ThingId → Type 0
  IsWholeId (sr_id_number _) = Unit
  IsWholeId (sr_id_string s) = IsThere s
  IsWholeId (sr_id_array a) = IsWholeArray a
  IsWholeId (sr_id_object o) = IsWholeObject o

  pub IsWholeArray : Array → Type 0
  IsWholeArray empty = Unit
  IsWholeArray (cons v vs) = IsWhole v × IsWholeArray vs

  pub IsWholeObject : Object → Type 0
  IsWholeObject end = Unit
  IsWholeObject (entry _ v o) = IsWhole v × IsWholeObject o

-- Arrays and objects, by their elements.
array_from_slice-IsWholeArray :
    (vs : List Value) → All IsWhole vs → IsWholeArray (array_from_slice vs)
unfolding array_from_slice
array_from_slice-IsWholeArray [] h = tt
array_from_slice-IsWholeArray (v ∷ vs) h = (h.0, array_from_slice-IsWholeArray vs h.1)

pub array_of-IsWholeArray : (vs : List Value) → All IsWhole vs → IsWholeArray (array_of vs)
unfolding array_of
array_of-IsWholeArray vs h =
    array_from_slice-IsWholeArray (make_slice vs) (All-make_slice IsWhole vs h)

pub as_slice-IsWhole : (a : Array) → IsWholeArray a → All IsWhole (as_slice a)
unfolding as_slice
as_slice-IsWhole empty h = tt
as_slice-IsWhole (cons v vs) h = (h.0, as_slice-IsWhole vs h.1)

pub object_of-IsWholeObject :
    (m : BTreeMap Value) → AllValues IsWhole m → IsWholeObject (object_of m)
unfolding object_of
object_of-IsWholeObject [] h = tt
object_of-IsWholeObject ((k, v) ∷ m) h = (h.0, object_of-IsWholeObject m h.1)

pub entries-IsWhole : (o : Object) → IsWholeObject o → AllValues IsWhole (entries o)
unfolding entries
entries-IsWhole end h = tt
entries-IsWhole (entry k v o) h = (h.0, entries-IsWhole o h.1)
