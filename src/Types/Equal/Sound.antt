-- ===== src/Types/Equal/Sound.antt =====
-- Values that compare equal hold no NaN and are the same up to the sign of zero.
use surrealdb_c.Prelude.{◌≡◌, refl, ap, ap₂, Bool, true, false, none, some, length, ◌==◌}
use surrealdb_c.Rust.Run.{Run, ok, panic, fault}
use surrealdb_c.Rust.BTree.{text_eq}
use surrealdb_c.Rust.BTree.Laws.{text_eq→eq}
use surrealdb_c.Types.Strings.{StringT, string_t_eq}
use surrealdb_c.Types.Numbers.{Number, sr_number_int, sr_number_float, sr_number_decimal}
use surrealdb_c.Types.Values.{
  Value, Thing, ThingId, Array, Object, sr_value_none, sr_value_null, sr_value_bool,
  sr_value_number, sr_value_strand, sr_value_duration, sr_value_datetime, sr_value_uuid,
  sr_value_array, sr_value_object, sr_geometry_object, sr_value_bytes, sr_value_thing, thing,
  sr_id_number, sr_id_string, sr_id_array, sr_id_object, empty, cons, end, entry, as_slice, entries,
}
use surrealdb_c.Types.Equal.{and_then, number_eq, value_eq, thing_eq, id_eq, items_eq, entries_eq}
use surrealdb_c.Types.Equal.Simple.{
  f64_eq-has, f64_eq-same, i64_eq→eq, bool_eq→eq, bytes_eq→eq, duration_eq→eq,
}
use surrealdb_c.Types.Equal.Geometry.{geometry_eq-has, geometry_eq-same}
use surrealdb_c.Types.Equal.Plain.{
  IsNumberNumber, plain_number, HasNoNan, HasNoNanThing, HasNoNanId, HasNoNanArray, HasNoNanObject,
  plain_value, plain_thing, plain_id, plain_array, plain_object,
}

pub ok-true : (b : Bool) → ok b ≡ ok true → b ≡ true
ok-true b e = cc e

pub then-first : (r s : Run Bool) → and_then r s ≡ ok true → r ≡ ok true
then-first (ok true) s e = refl
then-first (ok false) s e = cc e
then-first (panic p) s e = cc e
then-first fault s e = cc e

pub then-second : (r s : Run Bool) → and_then r s ≡ ok true → s ≡ ok true
then-second (ok true) s e = e
then-second (ok false) s e = cc e
then-second (panic p) s e = cc e
then-second fault s e = cc e

pub string_t_eq→eq : (s t : StringT) → string_t_eq s t ≡ ok true → s ≡ t
unfolding string_t_eq
string_t_eq→eq none t e = cc e
string_t_eq→eq (some s) none e = cc e
string_t_eq→eq (some s) (some t) e = ap some (text_eq→eq s t (unfold text_eq in ok-true _ e))

number_eq-has : (n m : Number) → number_eq n m ≡ ok true → IsNumberNumber n
unfolding number_eq
number_eq-has (sr_number_float x) (sr_number_float y) e = f64_eq-has x y (ok-true _ e)
number_eq-has (sr_number_float x) (sr_number_int j) e = cc e
number_eq-has (sr_number_float x) (sr_number_decimal t) e = cc e
number_eq-has (sr_number_int i) m e = tt
number_eq-has (sr_number_decimal s) m e = tt

number_eq-same : (n m : Number) → number_eq n m ≡ ok true → plain_number n ≡ plain_number m
unfolding number_eq
number_eq-same (sr_number_float x) (sr_number_float y) e =
    ap sr_number_float (f64_eq-same x y (ok-true _ e))
number_eq-same (sr_number_int i) (sr_number_int j) e =
    ap sr_number_int (i64_eq→eq i j (ok-true _ e))
number_eq-same (sr_number_decimal s) (sr_number_decimal t) e =
    ap sr_number_decimal (string_t_eq→eq s t e)
number_eq-same _ _ e = cc e

mutual
  unfolding value_eq

  pub value_eq-has : (v w : Value) → value_eq v w ≡ ok true → HasNoNan v
  value_eq-has (sr_value_number n) (sr_value_number m) e = number_eq-has n m e
  value_eq-has (sr_value_array a) (sr_value_array b) e =
      items_eq-has a b (then-second (ok (length (as_slice a) == length (as_slice b))) _ e)
  value_eq-has (sr_value_object o) (sr_value_object p) e =
      entries_eq-has o p (then-second (ok (length (entries o) == length (entries p))) _ e)
  value_eq-has (sr_geometry_object g) (sr_geometry_object h) e = geometry_eq-has g h (ok-true _ e)
  value_eq-has (sr_value_thing t) (sr_value_thing u) e = thing_eq-has t u e
  value_eq-has sr_value_none w e = tt
  value_eq-has sr_value_null w e = tt
  value_eq-has (sr_value_bool _) w e = tt
  value_eq-has (sr_value_strand _) w e = tt
  value_eq-has (sr_value_duration _) w e = tt
  value_eq-has (sr_value_datetime _) w e = tt
  value_eq-has (sr_value_uuid _) w e = tt
  value_eq-has (sr_value_bytes _) w e = tt
  value_eq-has _ _ e = cc e

  thing_eq-has : (t u : Thing) → thing_eq t u ≡ ok true → HasNoNanThing t
  thing_eq-has (thing t i) (thing u j) e = id_eq-has i j (then-second (string_t_eq t u) _ e)

  id_eq-has : (i j : ThingId) → id_eq i j ≡ ok true → HasNoNanId i
  id_eq-has (sr_id_array a) (sr_id_array b) e =
      items_eq-has a b (then-second (ok (length (as_slice a) == length (as_slice b))) _ e)
  id_eq-has (sr_id_object o) (sr_id_object p) e =
      entries_eq-has o p (then-second (ok (length (entries o) == length (entries p))) _ e)
  id_eq-has (sr_id_number _) j e = tt
  id_eq-has (sr_id_string _) j e = tt
  id_eq-has _ _ e = cc e

  items_eq-has : (a b : Array) → items_eq a b ≡ ok true → HasNoNanArray a
  items_eq-has empty b e = tt
  items_eq-has (cons v vs) empty e = cc e
  items_eq-has (cons v vs) (cons w ws) e = (
    value_eq-has v w (then-first (value_eq v w) _ e),
    items_eq-has vs ws (then-second (value_eq v w) _ e),
  )

  entries_eq-has : (o p : Object) → entries_eq o p ≡ ok true → HasNoNanObject o
  entries_eq-has end p e = tt
  entries_eq-has (entry j v o) end e = cc e
  entries_eq-has (entry j v o) (entry k w p) e =
      let f = then-second (ok (text_eq j k)) _ e in
      (
        value_eq-has v w (then-first (value_eq v w) _ f),
        entries_eq-has o p (then-second (value_eq v w) _ f),
      )

mutual
  unfolding value_eq

  pub value_eq-same : (v w : Value) → value_eq v w ≡ ok true → plain_value v ≡ plain_value w
  value_eq-same sr_value_none sr_value_none e = refl
  value_eq-same sr_value_null sr_value_null e = refl
  value_eq-same (sr_value_bool b) (sr_value_bool c) e =
      ap sr_value_bool (bool_eq→eq b c (ok-true _ e))
  value_eq-same (sr_value_number n) (sr_value_number m) e =
      ap sr_value_number (number_eq-same n m e)
  value_eq-same (sr_value_strand s) (sr_value_strand t) e =
      ap sr_value_strand (string_t_eq→eq s t e)
  value_eq-same (sr_value_duration d) (sr_value_duration f) e =
      ap sr_value_duration (duration_eq→eq d f (ok-true _ e))
  value_eq-same (sr_value_datetime s) (sr_value_datetime t) e =
      ap sr_value_datetime (string_t_eq→eq s t e)
  value_eq-same (sr_value_uuid u) (sr_value_uuid w) e =
      ap (λ b. sr_value_uuid (record { bytes = b })) (bytes_eq→eq u.bytes w.bytes (ok-true _ e))
  value_eq-same (sr_value_array a) (sr_value_array b) e =
      ap sr_value_array
        (items_eq-same a b (then-second (ok (length (as_slice a) == length (as_slice b))) _ e))
  value_eq-same (sr_value_object o) (sr_value_object p) e =
      ap sr_value_object
        (entries_eq-same o p (then-second (ok (length (entries o) == length (entries p))) _ e))
  value_eq-same (sr_geometry_object g) (sr_geometry_object h) e =
      ap sr_geometry_object (geometry_eq-same g h (ok-true _ e))
  value_eq-same (sr_value_bytes b) (sr_value_bytes c) e =
      ap sr_value_bytes (bytes_eq→eq b c (ok-true _ e))
  value_eq-same (sr_value_thing t) (sr_value_thing u) e = ap sr_value_thing (thing_eq-same t u e)
  value_eq-same _ _ e = cc e

  thing_eq-same : (t u : Thing) → thing_eq t u ≡ ok true → plain_thing t ≡ plain_thing u
  thing_eq-same (thing t i) (thing u j) e =
      ap₂ thing (string_t_eq→eq t u (then-first (string_t_eq t u) _ e))
        (id_eq-same i j (then-second (string_t_eq t u) _ e))

  id_eq-same : (i j : ThingId) → id_eq i j ≡ ok true → plain_id i ≡ plain_id j
  id_eq-same (sr_id_number i) (sr_id_number j) e = ap sr_id_number (i64_eq→eq i j (ok-true _ e))
  id_eq-same (sr_id_string s) (sr_id_string t) e = ap sr_id_string (string_t_eq→eq s t e)
  id_eq-same (sr_id_array a) (sr_id_array b) e =
      ap sr_id_array
        (items_eq-same a b (then-second (ok (length (as_slice a) == length (as_slice b))) _ e))
  id_eq-same (sr_id_object o) (sr_id_object p) e =
      ap sr_id_object
        (entries_eq-same o p (then-second (ok (length (entries o) == length (entries p))) _ e))
  id_eq-same _ _ e = cc e

  items_eq-same : (a b : Array) → items_eq a b ≡ ok true → plain_array a ≡ plain_array b
  items_eq-same empty empty e = refl
  items_eq-same (cons v vs) (cons w ws) e =
      ap₂ cons (value_eq-same v w (then-first (value_eq v w) _ e))
        (items_eq-same vs ws (then-second (value_eq v w) _ e))
  items_eq-same _ _ e = cc e

  entries_eq-same : (o p : Object) → entries_eq o p ≡ ok true → plain_object o ≡ plain_object p
  entries_eq-same end end e = refl
  entries_eq-same (entry j v o) (entry k w p) e =
      let f = then-second (ok (text_eq j k)) _ e in
      rw (text_eq→eq j k (ok-true _ (then-first (ok (text_eq j k)) _ e))) (
        ap₂ (entry k) (value_eq-same v w (then-first (value_eq v w) _ f))
          (entries_eq-same o p (then-second (value_eq v w) _ f)))
  entries_eq-same _ _ e = cc e
