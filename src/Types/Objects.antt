-- ===== src/Types/Objects.antt =====
-- The functions of C on objects, of src/types/object.rs.
pub mod Keys
pub mod Laws
pub mod Refinement
use surrealdb_c.Prelude.{ℕ, Option, none, some, List, [], map, Text, length}
use surrealdb_c.Prelude.Int.{CInt, pos, negsuc, as_c_int}
use surrealdb_c.Rust.BTree
use surrealdb_c.Rust.Utf8.{to_string_lossy}
use surrealdb_c.Sdb.{Float}
use surrealdb_c.Types.Strings.{StringT, to_raw_char_ptr}
use surrealdb_c.Types.Numbers.{
  Number, sr_number_float, number_from_c_int, number_from_c_float, number_from_c_double,
}
use surrealdb_c.Types.Values.{
  Value, Object, sr_value_number, sr_value_strand, end, entries, object_of,
}

-- `sr_object_get`
unfoldable pub get : Object → StringT → Option Value
get obj none = none
get obj (some key) = BTree.get (to_string_lossy key) (entries obj)

-- `sr_object_new`
unfoldable pub new : Object
new = end

-- `sr_object_insert`: what `obj` points to afterwards, if it is not null.
unfoldable pub insert : Option Object → StringT → Value → Option Object
insert none key value = none
insert (some obj) none value = some obj
insert (some obj) (some key) value =
    some (object_of (BTree.insert (to_string_lossy key) value (entries obj)))

-- `sr_object_insert_str`, which copies the bytes of the string as they are
unfoldable pub insert_str : Option Object → StringT → StringT → Option Object
unfolding insert
insert_str obj key none = obj
insert_str obj key (some value) = insert obj key (sr_value_strand (some value))

-- `sr_object_insert_int`
unfoldable pub insert_int : Option Object → StringT → CInt → Option Object
unfolding insert number_from_c_int
insert_int obj key value = insert obj key (sr_value_number (number_from_c_int value))

-- `sr_object_insert_float`; `widen` is `value as f64`.
unfoldable pub insert_float : (Float → Float) → Option Object → StringT → Float → Option Object
unfolding insert number_from_c_float
insert_float widen obj key value =
    insert obj key (sr_value_number (number_from_c_float widen value))

-- `sr_object_insert_double`
unfoldable pub insert_double : Option Object → StringT → Float → Option Object
unfolding insert number_from_c_double
insert_double obj key value = insert obj key (sr_value_number (number_from_c_double value))

-- `sr_object_len`
unfoldable pub object_len : Option Object → CInt
object_len none = pos 0
object_len (some obj) = as_c_int (length (entries obj))

abbrev pub key_of : Text × Value → Text
key_of (k, _) = to_raw_char_ptr k

-- `sr_object_keys`: the code, and the strings of the array that is written at `keys_ptr`. `keys` tells
-- whether that pointer is not null. An object without keys has a null array.
unfoldable pub object_keys : Option Object → Option (Unit {0}) → CInt × Option (List StringT)
object_keys none keys = (negsuc 0, none)
object_keys (some obj) none = (negsuc 0, none)
object_keys (some obj) (some _) =
    (as_c_int (length (entries obj)), some (map (λ e. some (key_of e)) (entries obj)))
