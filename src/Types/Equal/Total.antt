-- ===== src/Types/Equal/Total.antt =====
-- Values without a null string are compared without a fault.
use surrealdb_c.Prelude.{◌≡◌, refl, Bool, true, false, none, some, length, ◌==◌}
use surrealdb_c.Rust.Run.{Run, ok, panic, fault}
use surrealdb_c.Rust.BTree.{text_eq}
use surrealdb_c.Types.Whole.{
  IsThere, IsWhole, IsWholeNumber, IsWholeThing, IsWholeId, IsWholeArray, IsWholeObject,
}
use surrealdb_c.Types.Strings.{StringT, string_t_eq}
use surrealdb_c.Types.Numbers.{Number, sr_number_int, sr_number_float, sr_number_decimal}
use surrealdb_c.Types.Values.{
  Value, Thing, ThingId, Array, Object, sr_value_none, sr_value_null, sr_value_bool,
  sr_value_number, sr_value_strand, sr_value_duration, sr_value_datetime, sr_value_uuid,
  sr_value_array, sr_value_object, sr_geometry_object, sr_value_bytes, sr_value_thing, thing,
  sr_id_number, sr_id_string, sr_id_array, sr_id_object, empty, cons, end, entry, as_slice, entries,
}
use surrealdb_c.Types.Equal.{and_then, number_eq, value_eq, thing_eq, id_eq, items_eq, entries_eq}

-- It ends with an answer.
abbrev Answers : Run Bool → Type 0
Answers r = (b : Bool) × (r ≡ ok b)

then-Answers : (r s : Run Bool) → Answers r → Answers s → Answers (and_then r s)
then-Answers (ok true) s a b = b
then-Answers (ok false) s a b = (false, refl)
then-Answers (panic p) s a b = cc a.1
then-Answers fault s a b = cc a.1

string_t_eq-Answers : (s t : StringT) → IsThere s → IsThere t → Answers (string_t_eq s t)
unfolding string_t_eq
string_t_eq-Answers none t h k = elim h [ ]
string_t_eq-Answers (some s) none h k = elim k [ ]
string_t_eq-Answers (some s) (some t) h k = (_, refl)

number_eq-Answers : (n m : Number) → IsWholeNumber n → IsWholeNumber m → Answers (number_eq n m)
unfolding number_eq
number_eq-Answers (sr_number_int i) (sr_number_int j) h k = (_, refl)
number_eq-Answers (sr_number_float x) (sr_number_float y) h k = (_, refl)
number_eq-Answers (sr_number_decimal s) (sr_number_decimal t) h k = string_t_eq-Answers s t h k
number_eq-Answers _ _ h k = (false, refl)

mutual
  unfolding value_eq

  value_eq-Answers : (v w : Value) → IsWhole v → IsWhole w → Answers (value_eq v w)
  value_eq-Answers sr_value_none sr_value_none h k = (_, refl)
  value_eq-Answers sr_value_null sr_value_null h k = (_, refl)
  value_eq-Answers (sr_value_bool b) (sr_value_bool c) h k = (_, refl)
  value_eq-Answers (sr_value_number n) (sr_value_number m) h k = number_eq-Answers n m h k
  value_eq-Answers (sr_value_strand s) (sr_value_strand t) h k = string_t_eq-Answers s t h k
  value_eq-Answers (sr_value_duration d) (sr_value_duration f) h k = (_, refl)
  value_eq-Answers (sr_value_datetime s) (sr_value_datetime t) h k = string_t_eq-Answers s t h k
  value_eq-Answers (sr_value_uuid u) (sr_value_uuid w) h k = (_, refl)
  value_eq-Answers (sr_value_array a) (sr_value_array b) h k =
      then-Answers (ok (length (as_slice a) == length (as_slice b))) _ (_, refl)
        (items_eq-Answers a b h k)
  value_eq-Answers (sr_value_object o) (sr_value_object p) h k =
      then-Answers (ok (length (entries o) == length (entries p))) _ (_, refl)
        (entries_eq-Answers o p h k)
  value_eq-Answers (sr_geometry_object g) (sr_geometry_object l) h k = (_, refl)
  value_eq-Answers (sr_value_bytes b) (sr_value_bytes c) h k = (_, refl)
  value_eq-Answers (sr_value_thing t) (sr_value_thing u) h k = thing_eq-Answers t u h k
  value_eq-Answers _ _ h k = (false, refl)

  thing_eq-Answers : (t u : Thing) → IsWholeThing t → IsWholeThing u → Answers (thing_eq t u)
  thing_eq-Answers (thing t i) (thing u j) h k =
      then-Answers (string_t_eq t u) _ (string_t_eq-Answers t u h.0 k.0) (id_eq-Answers i j h.1 k.1)

  id_eq-Answers : (i j : ThingId) → IsWholeId i → IsWholeId j → Answers (id_eq i j)
  id_eq-Answers (sr_id_number i) (sr_id_number j) h k = (_, refl)
  id_eq-Answers (sr_id_string s) (sr_id_string t) h k = string_t_eq-Answers s t h k
  id_eq-Answers (sr_id_array a) (sr_id_array b) h k =
      then-Answers (ok (length (as_slice a) == length (as_slice b))) _ (_, refl)
        (items_eq-Answers a b h k)
  id_eq-Answers (sr_id_object o) (sr_id_object p) h k =
      then-Answers (ok (length (entries o) == length (entries p))) _ (_, refl)
        (entries_eq-Answers o p h k)
  id_eq-Answers _ _ h k = (false, refl)

  items_eq-Answers : (a b : Array) → IsWholeArray a → IsWholeArray b → Answers (items_eq a b)
  items_eq-Answers empty empty h k = (_, refl)
  items_eq-Answers (cons v vs) (cons w ws) h k =
      then-Answers (value_eq v w) _ (value_eq-Answers v w h.0 k.0) (items_eq-Answers vs ws h.1 k.1)
  items_eq-Answers _ _ h k = (false, refl)

  entries_eq-Answers : (o p : Object) → IsWholeObject o → IsWholeObject p → Answers (entries_eq o p)
  entries_eq-Answers end end h k = (_, refl)
  entries_eq-Answers (entry j v o) (entry l w p) h k =
      then-Answers (ok (text_eq j l)) _ (_, refl)
        (then-Answers (value_eq v w) _ (value_eq-Answers v w h.0 k.0)
          (entries_eq-Answers o p h.1 k.1))
  entries_eq-Answers _ _ h k = (false, refl)

-- `sr_value_eq` of two values without a null string, at any depth, ends with an answer: it does not
-- read through a null pointer, and it does not panic.
pub value_eq-ends : (v w : Value) → IsWhole v → IsWhole w → (b : Bool) × (value_eq v w ≡ ok b)
value_eq-ends v w h k = value_eq-Answers v w h k
