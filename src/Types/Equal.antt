-- ===== src/Types/Equal.antt =====
-- The derived and the written equalities of src/types, on which `sr_value_eq` stands.
pub mod Simple
pub mod Geometry
pub mod Plain
pub mod Sound
pub mod Complete
pub mod Total
use surrealdb_c.Prelude.{
  ℕ, ◌%◌, Bool, true, false, not, ◌&&◌, ◌||◌, Option, none, some, List, [], ◌∷◌, Text, length, ltb,
  ◌==◌,
}
use surrealdb_c.Prelude.Int.{ℤ, pos, negsuc}
use surrealdb_c.Rust.Run.{Run, ok, panic, fault}
use surrealdb_c.Rust.BTree.{text_eq}
use surrealdb_c.Sdb.{Float}
use surrealdb_c.Types.Strings.{StringT, string_t_eq}
use surrealdb_c.Types.Numbers.{
  Number, Duration, Uuid, sr_number_int, sr_number_float, sr_number_decimal,
}
use surrealdb_c.Types.Geometries.{
  SrGCoord, SrGPoint, SrGLinestring, SrGPolygon, SrGeometry, SrGeometries, sr_g_point,
  sr_g_linestring, sr_g_polygon, sr_g_multipoint, sr_g_multiline, sr_g_multipolygon,
  sr_g_collection, sr_g_unimplemented, no_sr_g, cons_sr_g,
}
use surrealdb_c.Types.Values.{
  Value, Thing, ThingId, Array, Object, sr_value_none, sr_value_null, sr_value_bool,
  sr_value_number, sr_value_strand, sr_value_duration, sr_value_datetime, sr_value_uuid,
  sr_value_array, sr_value_object, sr_geometry_object, sr_value_bytes, sr_value_thing, thing,
  sr_id_number, sr_id_string, sr_id_array, sr_id_object, empty, cons, end, entry, as_slice, entries,
}

-- An `f64` without its sign.
abbrev pub magnitude : Float → ℕ
magnitude x = x % 9223372036854775808

abbrev pub is_nan : Float → Bool
is_nan x = ltb 9218868437227405312 (magnitude x)

-- `==` on `f64`: a NaN equals nothing, and 0.0 equals -0.0.
unfoldable pub f64_eq : Float → Float → Bool
f64_eq x y =
    not (is_nan x) && (not (is_nan y) && (x == y || (magnitude x == 0 && magnitude y == 0)))

unfoldable pub bool_eq : Bool → Bool → Bool
bool_eq true true = true
bool_eq false false = true
bool_eq _ _ = false

unfoldable pub i64_eq : ℤ → ℤ → Bool
i64_eq (pos m) (pos n) = m == n
i64_eq (negsuc m) (negsuc n) = m == n
i64_eq _ _ = false

-- `==` on slices, of elements that compare without a fault.
unfoldable pub slice_eq : {A : Type 0} → (A → A → Bool) → List A → List A → Bool
slice_eq eq [] [] = true
slice_eq eq (x ∷ xs) (y ∷ ys) = eq x y && slice_eq eq xs ys
slice_eq eq _ _ = false

unfoldable pub coord_eq : SrGCoord → SrGCoord → Bool
unfolding f64_eq
coord_eq a b = f64_eq a.x b.x && f64_eq a.y b.y

unfoldable pub linestring_eq : SrGLinestring → SrGLinestring → Bool
unfolding slice_eq
linestring_eq k l = slice_eq coord_eq k l

unfoldable pub polygon_eq : SrGPolygon → SrGPolygon → Bool
unfolding linestring_eq
polygon_eq p q =
    linestring_eq p.exterior q.exterior && slice_eq linestring_eq p.interiors q.interiors

unfoldable mutual
  unfolding coord_eq linestring_eq polygon_eq slice_eq

  pub geometry_eq : SrGeometry → SrGeometry → Bool
  geometry_eq (sr_g_point p) (sr_g_point q) = coord_eq p q
  geometry_eq (sr_g_linestring k) (sr_g_linestring l) = linestring_eq k l
  geometry_eq (sr_g_polygon p) (sr_g_polygon q) = polygon_eq p q
  geometry_eq (sr_g_multipoint m) (sr_g_multipoint n) = slice_eq coord_eq m n
  geometry_eq (sr_g_multiline m) (sr_g_multiline n) = slice_eq linestring_eq m n
  geometry_eq (sr_g_multipolygon m) (sr_g_multipolygon n) = slice_eq polygon_eq m n
  geometry_eq (sr_g_collection c) (sr_g_collection d) = geometries_eq c d
  geometry_eq sr_g_unimplemented sr_g_unimplemented = true
  geometry_eq _ _ = false

  pub geometries_eq : SrGeometries → SrGeometries → Bool
  geometries_eq no_sr_g no_sr_g = true
  geometries_eq (cons_sr_g g gs) (cons_sr_g h hs) = geometry_eq g h && geometries_eq gs hs
  geometries_eq _ _ = false

-- `a && b`, where a comparison may read through a null pointer.
abbrev pub and_then : Run Bool → Run Bool → Run Bool
and_then (ok true) r = r
and_then (ok false) r = ok false
and_then (panic p) r = panic p
and_then fault r = fault

unfoldable pub number_eq : Number → Number → Run Bool
unfolding f64_eq i64_eq
number_eq (sr_number_int i) (sr_number_int j) = ok (i64_eq i j)
number_eq (sr_number_float x) (sr_number_float y) = ok (f64_eq x y)
number_eq (sr_number_decimal s) (sr_number_decimal t) = string_t_eq s t
number_eq _ _ = ok false

unfoldable pub duration_eq : Duration → Duration → Bool
duration_eq d e = d.secs == e.secs && d.nanos == e.nanos

unfoldable pub bytes_eq : List ℕ → List ℕ → Bool
unfolding slice_eq
bytes_eq b c = slice_eq (λ m n. m == n) b c

-- The lengths of slices and of maps are compared before their elements.
unfoldable mutual
  unfolding bool_eq number_eq duration_eq bytes_eq geometry_eq string_t_eq i64_eq

  pub value_eq : Value → Value → Run Bool
  value_eq sr_value_none sr_value_none = ok true
  value_eq sr_value_null sr_value_null = ok true
  value_eq (sr_value_bool b) (sr_value_bool c) = ok (bool_eq b c)
  value_eq (sr_value_number n) (sr_value_number m) = number_eq n m
  value_eq (sr_value_strand s) (sr_value_strand t) = string_t_eq s t
  value_eq (sr_value_duration d) (sr_value_duration e) = ok (duration_eq d e)
  value_eq (sr_value_datetime s) (sr_value_datetime t) = string_t_eq s t
  value_eq (sr_value_uuid u) (sr_value_uuid w) = ok (bytes_eq u.bytes w.bytes)
  value_eq (sr_value_array a) (sr_value_array b) =
      and_then (ok (length (as_slice a) == length (as_slice b))) (items_eq a b)
  value_eq (sr_value_object o) (sr_value_object p) =
      and_then (ok (length (entries o) == length (entries p))) (entries_eq o p)
  value_eq (sr_geometry_object g) (sr_geometry_object h) = ok (geometry_eq g h)
  value_eq (sr_value_bytes b) (sr_value_bytes c) = ok (bytes_eq b c)
  value_eq (sr_value_thing t) (sr_value_thing u) = thing_eq t u
  value_eq _ _ = ok false

  pub thing_eq : Thing → Thing → Run Bool
  thing_eq (thing t i) (thing u j) = and_then (string_t_eq t u) (id_eq i j)

  pub id_eq : ThingId → ThingId → Run Bool
  id_eq (sr_id_number i) (sr_id_number j) = ok (i64_eq i j)
  id_eq (sr_id_string s) (sr_id_string t) = string_t_eq s t
  id_eq (sr_id_array a) (sr_id_array b) =
      and_then (ok (length (as_slice a) == length (as_slice b))) (items_eq a b)
  id_eq (sr_id_object o) (sr_id_object p) =
      and_then (ok (length (entries o) == length (entries p))) (entries_eq o p)
  id_eq _ _ = ok false

  pub items_eq : Array → Array → Run Bool
  items_eq empty empty = ok true
  items_eq (cons v vs) (cons w ws) = and_then (value_eq v w) (items_eq vs ws)
  items_eq _ _ = ok false

  pub entries_eq : Object → Object → Run Bool
  entries_eq end end = ok true
  entries_eq (entry j v o) (entry k w p) =
      and_then (ok (text_eq j k)) (and_then (value_eq v w) (entries_eq o p))
  entries_eq _ _ = ok false
