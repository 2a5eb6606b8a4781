-- ===== src/Types/Equal/Complete.antt =====
-- `sr_value_eq` decides equality up to the sign of zero, of values without a NaN and without a null
-- string.
use surrealdb_c.Prelude.{
  suc, List, ◌↔◌, subst, arith, ℕ, ◌≡◌, refl, ap, Bool, true, false, none, some, Text, length, ◌==◌,
}
use surrealdb_c.Prelude.Int.{ℤ}
use surrealdb_c.Rust.Run.{Run, ok, panic, fault}
use surrealdb_c.Rust.BTree.{text_eq}
use surrealdb_c.Rust.BTree.Laws.{text_eq_refl}
use surrealdb_c.Types.Whole.{
  IsThere, IsWhole, IsWholeNumber, IsWholeThing, IsWholeId, IsWholeArray, IsWholeObject,
}
use surrealdb_c.Types.Equal.Sound.{value_eq-has, value_eq-same}
use surrealdb_c.Types.Strings.{StringT, string_t_eq}
use surrealdb_c.Types.Numbers.{
  Number, Duration, Uuid, sr_number_int, sr_number_float, sr_number_decimal,
}
use surrealdb_c.Types.Values.{
  Value, Thing, ThingId, Array, Object, sr_value_none, sr_value_null, sr_value_bool,
  sr_value_number, sr_value_strand, sr_value_duration, sr_value_datetime, sr_value_uuid,
  sr_value_array, sr_value_object, sr_geometry_object, sr_value_bytes, sr_value_thing, thing,
  sr_id_number, sr_id_string, sr_id_array, sr_id_object, empty, cons, end, entry, as_slice, entries,
}
use surrealdb_c.Types.Equal.{
  i64_eq, bool_eq, bytes_eq, duration_eq, and_then, number_eq, value_eq, thing_eq, id_eq, items_eq,
  entries_eq,
}
use surrealdb_c.Types.Equal.Simple.{
  f64_eq-full, i64_eq_refl, bool_eq_refl, bytes_eq_refl, duration_eq_refl,
}
use surrealdb_c.Types.Equal.Geometry.{geometry_eq-full}
use surrealdb_c.Types.Equal.Plain.{
  IsNumberNumber, plain_number, HasNoNan, HasNoNanThing, HasNoNanId, HasNoNanArray, HasNoNanObject,
  plain_value, plain_thing, plain_id, plain_array, plain_object,
}

then-both : (r s : Run Bool) → r ≡ ok true → s ≡ ok true → and_then r s ≡ ok true
then-both (ok true) s e f = f
then-both (ok false) s e f = cc e
then-both (panic p) s e f = cc e
then-both fault s e f = cc e

string_t_eq-full : (s t : StringT) → IsThere s → s ≡ t → string_t_eq s t ≡ ok true
unfolding string_t_eq text_eq
string_t_eq-full none t h e = elim h [ ]
string_t_eq-full (some s) t h e =
    subst (λ u. string_t_eq (some s) u ≡ ok true) e (ap ok (text_eq_refl s))

bool_eq-full : (b c : Bool) → b ≡ c → bool_eq b c ≡ true
bool_eq-full b c e = rw e (bool_eq_refl c)

duration_eq-full : (d e : Duration) → d ≡ e → duration_eq d e ≡ true
duration_eq-full d e p = rw p (duration_eq_refl e)

bytes_eq-full : (b c : List ℕ) → b ≡ c → bytes_eq b c ≡ true
bytes_eq-full b c e = rw e (bytes_eq_refl c)

uuid_eq-full : (u w : Uuid) → u ≡ w → bytes_eq u.bytes w.bytes ≡ true
uuid_eq-full u w e = rw e (bytes_eq_refl w.bytes)

i64_eq-full : (i j : ℤ) → i ≡ j → i64_eq i j ≡ true
i64_eq-full i j e = rw e (i64_eq_refl j)

text_eq-full : (s t : Text) → s ≡ t → text_eq s t ≡ true
text_eq-full s t e = rw e (text_eq_refl t)

number_eq-full :
    (n m : Number)
    → IsWholeNumber n
    → IsNumberNumber n
    → plain_number n ≡ plain_number m
    → number_eq n m ≡ ok true
unfolding number_eq
number_eq-full (sr_number_int i) (sr_number_int j) h p e = ap ok (i64_eq-full i j (cc e))
number_eq-full (sr_number_float x) (sr_number_float y) h p e = ap ok (f64_eq-full x y p (cc e))
number_eq-full (sr_number_decimal s) (sr_number_decimal t) h p e = string_t_eq-full s t h (cc e)
number_eq-full _ _ h p e = cc e

-- The same up to the sign of zero, so of the same length.
array_length :
    (a b : Array) → plain_array a ≡ plain_array b → length (as_slice a) ≡ length (as_slice b)
unfolding as_slice
array_length empty empty e = refl
array_length empty (cons w ws) e = cc e
array_length (cons v vs) empty e = cc e
array_length (cons v vs) (cons w ws) e = ap (λ n. suc n) (array_length vs ws (cc e))

object_length :
    (o p : Object) → plain_object o ≡ plain_object p → length (entries o) ≡ length (entries p)
unfolding entries
object_length end end e = refl
object_length end (entry k w p) e = cc e
object_length (entry k v o) end e = cc e
object_length (entry j v o) (entry k w p) e = ap (λ n. suc n) (object_length o p (cc e))

same_length : (m n : ℕ) → m ≡ n → ok (m == n) ≡ ok true
same_length m n e = ap ok (ground arith)

mutual
  unfolding value_eq

  value_eq-full :
      (v w : Value)
      → IsWhole v
      → HasNoNan v
      → plain_value v ≡ plain_value w
      → value_eq v w ≡ ok true
  value_eq-full sr_value_none sr_value_none h p e = refl
  value_eq-full sr_value_null sr_value_null h p e = refl
  value_eq-full (sr_value_bool b) (sr_value_bool c) h p e = ap ok (bool_eq-full b c (cc e))
  value_eq-full (sr_value_number n) (sr_value_number m) h p e = number_eq-full n m h p (cc e)
  value_eq-full (sr_value_strand s) (sr_value_strand t) h p e = string_t_eq-full s t h (cc e)
  value_eq-full (sr_value_duration d) (sr_value_duration f) h p e =
      ap ok (duration_eq-full d f (cc e))
  value_eq-full (sr_value_datetime s) (sr_value_datetime t) h p e = string_t_eq-full s t h (cc e)
  value_eq-full (sr_value_uuid u) (sr_value_uuid w) h p e = ap ok (uuid_eq-full u w (cc e))
  value_eq-full (sr_value_array a) (sr_value_array b) h p e =
      then-both (ok (length (as_slice a) == length (as_slice b))) _
        (same_length _ _ (array_length a b (cc e))) (items_eq-full a b h p (cc e))
  value_eq-full (sr_value_object o) (sr_value_object q) h p e =
      then-both (ok (length (entries o) == length (entries q))) _
        (same_length _ _ (object_length o q (cc e))) (entries_eq-full o q h p (cc e))
  value_eq-full (sr_geometry_object g) (sr_geometry_object k) h p e =
      ap ok (geometry_eq-full g k p (cc e))
  value_eq-full (sr_value_bytes b) (sr_value_bytes c) h p e = ap ok (bytes_eq-full b c (cc e))
  value_eq-full (sr_value_thing t) (sr_value_thing u) h p e = thing_eq-full t u h p (cc e)
  value_eq-full _ _ h p e = cc e

  thing_eq-full :
      (t u : Thing)
      → IsWholeThing t
      → HasNoNanThing t
      → plain_thing t ≡ plain_thing u
      → thing_eq t u ≡ ok true
  thing_eq-full (thing t i) (thing u j) h p e =
      then-both (string_t_eq t u) _ (string_t_eq-full t u h.0 (cc e)) (id_eq-full i j h.1 p (cc e))

  id_eq-full :
      (i j : ThingId) → IsWholeId i → HasNoNanId i → plain_id i ≡ plain_id j → id_eq i j ≡ ok true
  id_eq-full (sr_id_number i) (sr_id_number j) h p e = ap ok (i64_eq-full i j (cc e))
  id_eq-full (sr_id_string s) (sr_id_string t) h p e = string_t_eq-full s t h (cc e)
  id_eq-full (sr_id_array a) (sr_id_array b) h p e =
      then-both (ok (length (as_slice a) == length (as_slice b))) _
        (same_length _ _ (array_length a b (cc e))) (items_eq-full a b h p (cc e))
  id_eq-full (sr_id_object o) (sr_id_object q) h p e =
      then-both (ok (length (entries o) == length (entries q))) _
        (same_length _ _ (object_length o q (cc e))) (entries_eq-full o q h p (cc e))
  id_eq-full _ _ h p e = cc e

  items_eq-full :
      (a b : Array)
      → IsWholeArray a
      → HasNoNanArray a
      → plain_array a ≡ plain_array b
      → items_eq a b ≡ ok true
  items_eq-full empty empty h p e = refl
  items_eq-full (cons v vs) (cons w ws) h p e =
      then-both (value_eq v w) _ (value_eq-full v w h.0 p.0 (cc e))
        (items_eq-full vs ws h.1 p.1 (cc e))
  items_eq-full _ _ h p e = cc e

  entries_eq-full :
      (o q : Object)
      → IsWholeObject o
      → HasNoNanObject o
      → plain_object o ≡ plain_object q
      → entries_eq o q ≡ ok true
  entries_eq-full end end h p e = refl
  entries_eq-full (entry j v o) (entry k w q) h p e =
      then-both (ok (text_eq j k)) _ (ap ok (text_eq-full j k (cc e))) (
        then-both (value_eq v w) _ (value_eq-full v w h.0 p.0 (cc e))
          (entries_eq-full o q h.1 p.1 (cc e)))
  entries_eq-full _ _ h p e = cc e

-- `sr_value_eq` holds of a value without a null string and another value exactly if the first holds no
-- NaN, at any depth, and the two are the same but for the signs of zeros.
pub value_eq_iff :
    (v w : Value)
    → IsWhole v
    → value_eq v w ≡ ok true ↔ HasNoNan v × (plain_value v ≡ plain_value w)
value_eq_iff v w h =
    (λ e. (value_eq-has v w e, value_eq-same v w e), λ p. value_eq-full v w h p.0 p.1)
