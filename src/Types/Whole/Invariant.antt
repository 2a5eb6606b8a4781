-- ===== src/Types/Whole/Invariant.antt =====
-- Every value, array and object that a C program can come by is without a null string.
use surrealdb_c.Prelude.{
  ℕ, zero, suc, ◌≡◌, ◌≢◌, subst, Bool, true, false, none, some, List, [], ◌∷◌, ◌++◌, All, get_elem?,
  if◌then◌else◌,
}
use mathlib.Core.Option.{some-injective}
use surrealdb_c.Prelude.Int.{CInt, pos, negsuc}
use surrealdb_c.Rust.Run.{Run, ok, panic, fault, ◌>>=◌}
use surrealdb_c.Rust.Utf8.{to_string_lossy}
use surrealdb_c.Rust.BTree
use surrealdb_c.Rust.BTree.Values.{AllValues-insert, AllValues-get}
use surrealdb_c.Sdb.{Float, SdbTypes}
use surrealdb_c.Types.Strings.{StringT, to_string_t}
use surrealdb_c.Types.Numbers.{number_from_c_int, number_from_c_double, sr_number_float}
use surrealdb_c.Types.Values.{
  Value, Array, Object, as_slice, array_of, entries, sr_value_strand, sr_value_number,
}
use surrealdb_c.Types.ToSdb.{value_to_sdb}
use surrealdb_c.Types.Constructors.{
  value_none, value_null, value_bool, value_int, value_float, value_string, value_object,
  value_duration, value_datetime, value_uuid, value_array, value_bytes, value_thing, value_point,
  value_linestring, value_polygon, value_multipoint, value_multilinestring, value_multipolygon,
  value_decimal, lossy_copy, copied, slice_at, lines_at,
}
use surrealdb_c.Types.Objects.{get, insert, insert_str, insert_int, insert_float, insert_double}
use surrealdb_c.Types.Objects
use surrealdb_c.Types.Arrays.{array_get, array_push, geb, len}
use surrealdb_c.Types.Whole.{
  IsWhole, IsWholeArray, IsWholeObject, array_of-IsWholeArray, as_slice-IsWhole,
  object_of-IsWholeObject, entries-IsWhole,
}
use surrealdb_c.Types.Whole.Kept.{
  value_from_sdb-IsWhole, array_from_sdb-IsWholeArray, object_from_sdb-IsWholeObject,
}
use surrealdb_c.Types.Whole.Defined.{value_to_sdb-IsWhole}
use surrealdb_c.Types.Whole.Built.{
  Built, BuiltArray, BuiltObject, built_none, built_null, built_bool, built_int, built_float,
  built_array, built_duration, built_point, built_string, built_datetime, built_decimal,
  built_thing, built_uuid, built_bytes, built_linestring, built_polygon, built_multipoint,
  built_multilinestring, built_multipolygon, built_object, received, element, found, built_push_new,
  built_push_one, built_push_copy, built_push, received_rows, built_new, built_insert,
  built_insert_str, built_insert_int, built_insert_float, built_insert_double, received_object,
}

ok-injective : {A : Type 0} (a b : A) → ok a ≡ ok b → a ≡ b
ok-injective a b e = cc e

-- What ends with a value made by `k` has the property that every value made by `k` has.
made :
    {A B : Type 0} (P : B → Type 0) (r : Run A) (k : A → B) (b : B)
    → ((a : A) → P (k a))
    → (r >>= λ a. ok (k a)) ≡ ok b
    → P b
made P (ok a) k b h e = subst P (ok-injective _ _ e) (h a)
made P (panic p) k b h e = cc e
made P fault k b h e = cc e

-- The four functions that copy strings.
value_string-IsWhole : (s : StringT) (v : Value) → value_string s ≡ ok v → IsWhole v
unfolding value_string lossy_copy to_string_t
value_string-IsWhole none v e = cc e
value_string-IsWhole (some s) v e = subst IsWhole (ok-injective _ _ e) tt

value_datetime-IsWhole : (s : StringT) (v : Value) → value_datetime s ≡ ok v → IsWhole v
unfolding value_datetime lossy_copy to_string_t
value_datetime-IsWhole none v e = cc e
value_datetime-IsWhole (some s) v e = subst IsWhole (ok-injective _ _ e) tt

value_decimal-IsWhole : (s : StringT) (v : Value) → value_decimal s ≡ ok v → IsWhole v
unfolding value_decimal lossy_copy to_string_t
value_decimal-IsWhole none v e = cc e
value_decimal-IsWhole (some s) v e = subst IsWhole (ok-injective _ _ e) tt

value_thing-IsWhole : (t i : StringT) (v : Value) → value_thing t i ≡ ok v → IsWhole v
unfolding value_thing lossy_copy to_string_t
value_thing-IsWhole none i v e = cc e
value_thing-IsWhole (some t) none v e = cc e
value_thing-IsWhole (some t) (some i) v e = subst IsWhole (ok-injective _ _ e) (tt, tt)

-- An insertion keeps the property, if the value that is inserted has it.
insert-IsWholeObject :
    (o p : Object) (k : StringT) (v : Value)
    → IsWholeObject o
    → IsWhole v
    → insert (some o) k v ≡ some p
    → IsWholeObject p
unfolding insert
insert-IsWholeObject o p none v h w e = subst IsWholeObject (some-injective _ _ e) h
insert-IsWholeObject o p (some k) v h w e = subst IsWholeObject (some-injective _ _ e) (
    object_of-IsWholeObject (BTree.insert (to_string_lossy k) v (entries o))
      (AllValues-insert IsWhole (to_string_lossy k) v (entries o) w (entries-IsWhole o h)))

get-IsWhole :
    (o : Object) (k : StringT) (v : Value) → IsWholeObject o → get o k ≡ some v → IsWhole v
unfolding get
get-IsWhole o none v h e = cc e
get-IsWhole o (some k) v h e =
    AllValues-get IsWhole (to_string_lossy k) (entries o) v (entries-IsWhole o h) e

-- Elements of lists.
All-get_elem? :
    {A : Type 0} (P : A → Type 0) (xs : List A) (i : ℕ) (x : A)
    → All P xs
    → get_elem? xs i ≡ some x
    → P x
All-get_elem? P [] i x h e = cc e
All-get_elem? P (y ∷ ys) zero x h e = subst P (some-injective _ _ e) h.0
All-get_elem? P (y ∷ ys) (suc i) x h e = All-get_elem? P ys i x h.1 e

All-append : {A : Type 0} (P : A → Type 0) (xs ys : List A) → All P xs → All P ys → All P (xs ++ ys)
All-append P [] ys h k = k
All-append P (x ∷ xs) ys h k = (h.0, All-append P xs ys h.1 k)

array_get-IsWhole :
    (a : Array) (i : CInt) (v : Value) → IsWholeArray a → array_get (some a) i ≡ some v → IsWhole v
unfolding array_get
array_get-IsWhole a (negsuc i) v h e = cc e
array_get-IsWhole a (pos i) v h e = go (geb (pos i) (len a)) e
  where
    go : (b : Bool) → (if b then none else get_elem? (as_slice a) i) ≡ some v → IsWhole v
    go true p = cc p
    go false p = All-get_elem? IsWhole (as_slice a) i v (as_slice-IsWhole a h) p

array_push-IsWholeArray :
    (a : Array) (v : Value)
    → IsWholeArray a
    → IsWhole v
    → IsWholeArray (array_push (some a) (some v))
unfolding array_push
array_push-IsWholeArray a v h w =
    array_of-IsWholeArray (as_slice a ++ v ∷ [])
      (All-append IsWhole (as_slice a) (v ∷ []) (as_slice-IsWhole a h) (w, tt))

module _ (E : SdbTypes) (widen : Float → Float) where
  mutual
    unfolding value_none value_null value_bool value_int value_float value_array value_duration
        value_point value_uuid value_bytes value_linestring value_polygon value_multipoint
        value_multilinestring value_multipolygon value_object array_push array_of insert_str
        insert_int insert_float insert_double number_from_c_int number_from_c_double Objects.new

    value_whole : {v : Value} → Built E widen v → IsWhole v
    value_whole built_none = tt
    value_whole built_null = tt
    value_whole (built_bool b) = tt
    value_whole (built_int i) = tt
    value_whole (built_float f) = tt
    value_whole built_array = tt
    value_whole (built_duration s n) = tt
    value_whole (built_point x y) = tt
    value_whole (built_string s v e) = value_string-IsWhole s v e
    value_whole (built_datetime s v e) = value_datetime-IsWhole s v e
    value_whole (built_decimal s v e) = value_decimal-IsWhole s v e
    value_whole (built_thing t i v e) = value_thing-IsWhole t i v e
    value_whole (built_uuid b v e) = made IsWhole (slice_at b 16) _ v (λ _. tt) e
    value_whole (built_bytes b n v e) = made IsWhole (copied b n) _ v (λ _. tt) e
    value_whole (built_linestring c n v e) = made IsWhole (copied c n) _ v (λ _. tt) e
    value_whole (built_polygon c n v e) = made IsWhole (copied c n) _ v (λ _. tt) e
    value_whole (built_multipoint c n v e) = made IsWhole (copied c n) _ v (λ _. tt) e
    value_whole (built_multilinestring p l n v e) = made IsWhole (lines_at p l n) _ v (λ _. tt) e
    value_whole (built_multipolygon p l n v e) = made IsWhole (lines_at p l n) _ v (λ _. tt) e
    value_whole (built_object o v b e) = subst IsWhole (ok-injective _ _ e) (object_whole b)
    value_whole (received w) = value_from_sdb-IsWhole E w
    value_whole (element a i v b e) = array_get-IsWhole a i v (array_whole b) e
    value_whole (found o k v b e) = get-IsWhole o k v (object_whole b) e

    array_whole : {a : Array} → BuiltArray E widen a → IsWholeArray a
    array_whole built_push_new = tt
    array_whole (built_push_one v b) = array_of-IsWholeArray (v ∷ []) (value_whole b, tt)
    array_whole (built_push_copy a b) = array_whole b
    array_whole (built_push a v b c) = array_push-IsWholeArray a v (array_whole b) (value_whole c)
    array_whole (received_rows w) = array_from_sdb-IsWholeArray E w

    object_whole : {o : Object} → BuiltObject E widen o → IsWholeObject o
    object_whole built_new = tt
    object_whole (built_insert o p k v b c e) =
        insert-IsWholeObject o p k v (object_whole b) (value_whole c) e
    object_whole (built_insert_str o p k none b e) =
        subst IsWholeObject (some-injective _ _ e) (object_whole b)
    object_whole (built_insert_str o p k (some s) b e) =
        insert-IsWholeObject o p k (sr_value_strand (some s)) (object_whole b) tt e
    object_whole (built_insert_int o p k i b e) =
        insert-IsWholeObject o p k (sr_value_number (number_from_c_int i)) (object_whole b) tt e
    object_whole (built_insert_float o p k f b e) =
        insert-IsWholeObject o p k (sr_value_number (sr_number_float (widen f))) (object_whole b) tt
          e
    object_whole (built_insert_double o p k f b e) =
        insert-IsWholeObject o p k (sr_value_number (number_from_c_double f)) (object_whole b) tt e
    object_whole (received_object w) = object_from_sdb-IsWholeObject E w

  -- Every value that a C program can come by, through the functions that make values, the replies of
  -- the database, and the elements of the arrays and the fields of the objects that it holds, is
  -- without a null string, at any depth.
  pub Built-IsWhole : (v : Value) → Built E widen v → IsWhole v
  Built-IsWhole v b = value_whole b

  -- The conversion to the database of a value that a C program can come by never reads through a null
  -- pointer.
  pub value_to_sdb-Built : (v : Value) → Built E widen v → value_to_sdb E v ≢ fault
  value_to_sdb-Built v b = value_to_sdb-IsWhole E v (value_whole b)
