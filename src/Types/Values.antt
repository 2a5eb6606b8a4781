-- ===== src/Types/Values.antt =====
-- The data of src/types/value.rs, thing.rs and object.rs. An `Array` is the slice that it owns: its
-- null pointer is the empty slice, as `as_slice` reads it.
use surrealdb_c.Prelude.{ℕ, Bool, List, [], ◌∷◌, Text, ◌≡◌, ◌∙◌, refl, ap, arith}
use surrealdb_c.Prelude.Int.{ℤ}
use surrealdb_c.Rust.BTree.{BTreeMap}
use surrealdb_c.Types.Slices.{IsShort, make_slice, make_slice_self}
use surrealdb_c.Types.Strings.{StringT}
use surrealdb_c.Types.Numbers.{Number, Duration, Uuid}
use surrealdb_c.Types.Geometries.{SrGeometry, sr_g_unimplemented}

mutual
  pub data Value : Type 0 where
    sr_value_none : Value
    sr_value_null : Value
    sr_value_bool : Bool → Value
    sr_value_number : Number → Value
    sr_value_strand : StringT → Value
    sr_value_duration : Duration → Value
    sr_value_datetime : StringT → Value
    sr_value_uuid : Uuid → Value
    sr_value_array : Array → Value
    sr_value_object : Object → Value
    sr_geometry_object : SrGeometry → Value
    sr_value_bytes : List ℕ → Value
    sr_value_thing : Thing → Value

  pub data Thing : Type 0 where
    thing : StringT → ThingId → Thing

  -- `Id` of thing.rs
  pub data ThingId : Type 0 where
    sr_id_number : ℤ → ThingId
    sr_id_string : StringT → ThingId
    sr_id_array : Array → ThingId
    sr_id_object : Object → ThingId

  pub data Array : Type 0 where
    empty : Array
    cons : Value → Array → Array

  -- The entries of the boxed `BTreeMap`.
  pub data Object : Type 0 where
    end : Object
    entry : Text → Value → Object → Object

-- The array that owns a slice.
unfoldable pub array_from_slice : List Value → Array
array_from_slice [] = empty
array_from_slice (v ∷ vs) = cons v (array_from_slice vs)

-- `Array::from(Vec<Value>)`
unfoldable pub array_of : List Value → Array
array_of vs = array_from_slice (make_slice vs)

-- `Array::as_slice`
unfoldable pub as_slice : Array → List Value
as_slice empty = []
as_slice (cons v vs) = v ∷ as_slice vs

-- `Object` and its map
unfoldable pub object_of : BTreeMap Value → Object
object_of [] = end
object_of ((k, v) ∷ m) = entry k v (object_of m)

unfoldable pub entries : Object → BTreeMap Value
entries end = []
entries (entry k v o) = (k, v) ∷ entries o

pub array_of-IsShort : (vs : List Value) → IsShort vs → array_of vs ≡ array_from_slice vs
unfolding array_of
array_of-IsShort vs h = ap array_from_slice (make_slice_self vs h)

pub array_of_one : (v : Value) → array_of (v ∷ []) ≡ cons v empty
unfolding array_from_slice
array_of_one v = array_of-IsShort (v ∷ []) (omega arith)

as_slice-array_from_slice : (vs : List Value) → as_slice (array_from_slice vs) ≡ vs
unfolding as_slice array_from_slice
as_slice-array_from_slice [] = refl
as_slice-array_from_slice (v ∷ vs) = ap (◌∷◌ v) (as_slice-array_from_slice vs)

pub as_slice-array_of : (vs : List Value) → IsShort vs → as_slice (array_of vs) ≡ vs
as_slice-array_of vs h = ap as_slice (array_of-IsShort vs h) ∙ as_slice-array_from_slice vs

pub entries-object_of : (m : BTreeMap Value) → entries (object_of m) ≡ m
unfolding entries object_of
entries-object_of [] = refl
entries-object_of ((k, v) ∷ m) = ap (◌∷◌ (k, v)) (entries-object_of m)

-- `sr_geometry::from(Value)`
unfoldable pub geometry_of_value : Value → SrGeometry
geometry_of_value (sr_geometry_object g) = g
geometry_of_value _ = sr_g_unimplemented
