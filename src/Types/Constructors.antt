-- ===== src/Types/Constructors.antt =====
-- The constructors `sr_value_*` of src/types/value.rs. Each returns a boxed value; reading a null
-- string, or a slice that is longer than the memory at its pointer, is a fault.
pub mod Converted
pub mod Lines
use surrealdb_c.Prelude.{
  ℕ, Bool, ◌||◌, Option, none, some, List, [], ◌∷◌, map, Text, length, take, ltb, if◌then◌else◌,
}
use surrealdb_c.Prelude.Int.{ℤ, CInt, pos, as_usize, le_zero}
use surrealdb_c.Rust.Run.{Run, ok, fault, ◌>>=◌}
use surrealdb_c.Rust.Utf8.{to_string_lossy}
use surrealdb_c.Sdb.{Float}
use surrealdb_c.Types.Strings.{StringT, is_null, to_string_t}
use surrealdb_c.Types.Numbers.{sr_number_int, sr_number_float, sr_number_decimal}
use surrealdb_c.Types.Geometries.{
  SrGCoord, SrGPoint, SrGLinestring, SrGPolygon, SrGeometry, sr_g_point, sr_g_linestring,
  sr_g_polygon, sr_g_multipoint, sr_g_multiline, sr_g_multipolygon,
}
use surrealdb_c.Types.Values.{
  Value, Object, thing, sr_id_string, empty, sr_value_none, sr_value_null, sr_value_bool,
  sr_value_number, sr_value_strand, sr_value_duration, sr_value_datetime, sr_value_uuid,
  sr_value_array, sr_value_object, sr_geometry_object, sr_value_bytes, sr_value_thing,
}

-- `CStr::from_ptr(val).to_string_lossy().to_string().to_string_t()`
unfoldable pub lossy_copy : StringT → Run StringT
lossy_copy none = fault
lossy_copy (some s) = ok (to_string_t (to_string_lossy s))

-- `slice::from_raw_parts(ptr, len)`
unfoldable pub slice_at : {A : Type 0} → Option (List A) → ℕ → Run (List A)
slice_at none len = fault
slice_at (some memory) len = if ltb (length memory) len then fault else ok (take len memory)

-- `if ptr.is_null() || len <= 0` with the empty vector, and otherwise a copy of the slice.
unfoldable pub copied : {A : Type 0} → Option (List A) → CInt → Run (List A)
unfolding slice_at as_usize
copied ptr len = if is_null ptr || le_zero len then ok [] else slice_at ptr (as_usize len)

unfoldable pub value_none : Value
value_none = sr_value_none

unfoldable pub value_null : Value
value_null = sr_value_null

unfoldable pub value_bool : Bool → Value
value_bool val = sr_value_bool val

unfoldable pub value_int : ℤ → Value
value_int val = sr_value_number (sr_number_int val)

unfoldable pub value_float : Float → Value
value_float val = sr_value_number (sr_number_float val)

unfoldable pub value_string : StringT → Run Value
unfolding lossy_copy
value_string val = do s ← lossy_copy val; ok (sr_value_strand s)

unfoldable pub value_object : Option Object → Run Value
value_object none = fault
value_object (some obj) = ok (sr_value_object obj)

unfoldable pub value_duration : ℕ → ℕ → Value
value_duration secs nanos = sr_value_duration (record { secs = secs; nanos = nanos })

unfoldable pub value_datetime : StringT → Run Value
unfolding lossy_copy
value_datetime val = do s ← lossy_copy val; ok (sr_value_datetime s)

unfoldable pub value_uuid : Option (List ℕ) → Run Value
unfolding slice_at
value_uuid bytes = do b ← slice_at bytes 16; ok (sr_value_uuid (record { bytes = b }))

unfoldable pub value_array : Value
value_array = sr_value_array empty

unfoldable pub value_bytes : Option (List ℕ) → CInt → Run Value
unfolding copied
value_bytes data_ptr len = do b ← copied data_ptr len; ok (sr_value_bytes b)

unfoldable pub value_thing : StringT → StringT → Run Value
unfolding lossy_copy
value_thing table id = do
  table_str ← lossy_copy table
  id_str ← lossy_copy id
  ok (sr_value_thing (thing table_str (sr_id_string id_str)))

unfoldable pub value_point : Float → Float → Value
value_point x y = sr_geometry_object (sr_g_point (record { x = x; y = y }))

unfoldable pub value_linestring : Option (List SrGCoord) → CInt → Run Value
unfolding copied
value_linestring coords len = do c ← copied coords len; ok (sr_geometry_object (sr_g_linestring c))

-- A polygon without holes.
abbrev pub ring : SrGLinestring → SrGPolygon
ring l = record { exterior = l; interiors = [] }

unfoldable pub value_polygon : Option (List SrGCoord) → CInt → Run Value
unfolding copied
value_polygon coords len = do c ← copied coords len; ok (sr_geometry_object (sr_g_polygon (ring c)))

abbrev pub point_of : SrGCoord → SrGPoint
point_of c = record { x = c.x; y = c.y }

unfoldable pub value_multipoint : Option (List SrGCoord) → CInt → Run Value
unfolding copied
value_multipoint coords len = do
  c ← copied coords len
  ok (sr_geometry_object (sr_g_multipoint (map point_of c)))

-- The lines of the pointers and of their lengths, in pairs.
unfoldable pub lines_of : List (Option (List SrGCoord)) → List CInt → Run (List SrGLinestring)
unfolding copied
lines_of [] lens = ok []
lines_of (p ∷ ps) [] = ok []
lines_of (p ∷ ps) (len ∷ lens) = do line ← copied p len; rest ← lines_of ps lens; ok (line ∷ rest)

-- The lines of the first `count` pointers, and none if an array is null or `count` is not positive.
unfoldable pub lines_at :
    Option (List (Option (List SrGCoord))) → Option (List CInt) → CInt → Run (List SrGLinestring)
unfolding slice_at as_usize lines_of
lines_at ptrs lens count = if is_null ptrs || (is_null lens || le_zero count) then ok [] else do
  linestring_ptrs ← slice_at ptrs (as_usize count)
  lengths ← slice_at lens (as_usize count)
  lines_of linestring_ptrs lengths

unfoldable pub value_multilinestring :
    Option (List (Option (List SrGCoord))) → Option (List CInt) → CInt → Run Value
unfolding lines_at
value_multilinestring linestrings lens count = do
  lines ← lines_at linestrings lens count
  ok (sr_geometry_object (sr_g_multiline lines))

unfoldable pub value_multipolygon :
    Option (List (Option (List SrGCoord))) → Option (List CInt) → CInt → Run Value
unfolding lines_at
value_multipolygon polygons lens count = do
  lines ← lines_at polygons lens count
  ok (sr_geometry_object (sr_g_multipolygon (map ring lines)))

unfoldable pub value_decimal : StringT → Run Value
unfolding lossy_copy
value_decimal val = do s ← lossy_copy val; ok (sr_value_number (sr_number_decimal s))
