-- ===== src/Types/Arrays.antt =====
-- The functions of C on arrays, of src/types/array.rs.
pub mod Laws
use surrealdb_c.Prelude.{
  Bool, true, false, Option, none, some, List, [], ◌∷◌, ◌++◌, length, get_elem?, leb, if◌then◌else◌,
}
use surrealdb_c.Prelude.Int.{ℤ, CInt, pos, negsuc, as_c_int}
use surrealdb_c.Types.Values.{Value, Array, as_slice, array_of, empty}

-- The field `len`
unfoldable pub len : Array → CInt
len arr = as_c_int (length (as_slice arr))

-- `sr_array_len`
unfoldable pub array_len : Option Array → CInt
unfolding len
array_len none = pos 0
array_len (some arr) = len arr

-- `index >= len`
abbrev pub geb : ℤ → ℤ → Bool
geb (pos i) (pos n) = leb n i
geb (pos i) (negsuc n) = true
geb (negsuc i) (pos n) = false
geb (negsuc i) (negsuc n) = leb i n

-- `sr_array_get`
unfoldable pub array_get : Option Array → CInt → Option Value
unfolding len
array_get none index = none
array_get (some arr) (negsuc _) = none
array_get (some arr) (pos i) = if geb (pos i) (len arr) then none else get_elem? (as_slice arr) i

-- `sr_array_push`, which leaves `arr` as it is.
unfoldable pub array_push : Option Array → Option Value → Array
array_push none none = empty
array_push (some arr) none = arr
array_push none (some value) = array_of (value ∷ [])
array_push (some arr) (some value) = array_of (as_slice arr ++ value ∷ [])
