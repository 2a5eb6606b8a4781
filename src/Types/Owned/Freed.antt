-- ===== src/Types/Owned/Freed.antt =====
-- Freeing a value that was put on the heap.
use surrealdb_c.Prelude.{ℕ, suc, ◌≡◌, refl, ap, arith}
use surrealdb_c.Rust.Run.{ok}
use surrealdb_c.Types.Numbers.{Number, sr_number_int, sr_number_float, sr_number_decimal}
use surrealdb_c.Types.Values.{
  Value, Thing, ThingId, Array, Object, sr_value_number, sr_value_strand, sr_value_datetime,
  sr_value_array, sr_value_object, sr_geometry_object, sr_value_bytes, sr_value_thing, thing,
  sr_id_number, sr_id_string, sr_id_array, sr_id_object, empty, cons, end, entry,
}
use surrealdb_c.Types.Owned.{
  Live, drop_string, drop_cell, drop_cells, place_string, place_value, place_number, place_thing,
  place_id, place_array, place_object,
}
use surrealdb_c.Types.Owned.Blocks.{
  AreLive, after, nothing, after_none, after_kept, AreLive-after, then_after,
}
use surrealdb_c.Types.Owned.Ranges.{
  Fits, FitsThing, FitsId, FitsArray, FitsObject, everything, leaked, leaked_thing, leaked_id,
  leaked_array, leaked_object, place_value-le, place_string-le, place_id-le, place_array-le,
  place_object-le, boxed_array-le,
}
use surrealdb_c.Types.Owned.Parts.{
  AreLive-prefix, AreLive-suffix, last_block, drop_string-after, boxed_after,
}

number_after :
    (n : Number) (lo : ℕ) (k : Live)
    → AreLive lo (place_number n lo).1 k
    → drop_cell (place_number n lo).0 k ≡ ok (after nothing lo (place_number n lo).1 k)
unfolding drop_cell
number_after (sr_number_int _) lo k l = ap ok (after_none nothing lo k)
number_after (sr_number_float _) lo k l = ap ok (after_none nothing lo k)
number_after (sr_number_decimal s) lo k l = drop_string-after s lo k l

mutual
  unfolding drop_cell

  pub value_after :
      (v : Value) (lo : ℕ) (k : Live)
      → Fits v
      → AreLive lo (place_value v lo).1 k
      → drop_cell (place_value v lo).0 k ≡ ok (after (leaked v lo) lo (place_value v lo).1 k)
  value_after (sr_value_number n) lo k h l = number_after n lo k l
  value_after (sr_value_strand s) lo k h l = drop_string-after s lo k l
  value_after (sr_value_datetime s) lo k h l = drop_string-after s lo k l
  value_after (sr_value_array a) lo k h l = boxed_after a lo k h.0 l (
      array_after a lo k h.1 (
        AreLive-prefix lo (place_array a lo).1 _ k
          (boxed_array-le (place_array a lo).0 (place_array a lo).1) l))
  value_after (sr_value_object o) lo k h l =
      let m = (place_object o lo).1 in
      last_block (drop_cells (place_object o lo).0 k) (leaked_object o lo) k lo m
        (place_object-le o lo) (AreLive-suffix lo m (suc m) k (place_object-le o lo) l)
        (object_after o lo k h (AreLive-prefix lo m (suc m) k (omega arith) l))
  value_after (sr_geometry_object g) lo k h l =
      ap ok (after_kept everything k lo _ l (λ _ _ _. refl))
  value_after (sr_value_bytes b) lo k h l = ap ok (after_kept everything k lo _ l (λ _ _ _. refl))
  value_after (sr_value_thing t) lo k h l = thing_after t lo k h l
  value_after _ lo k h l = ap ok (after_none nothing lo k)

  thing_after :
      (t : Thing) (lo : ℕ) (k : Live)
      → FitsThing t
      → AreLive lo (place_thing t lo).1 k
      → drop_cell (place_thing t lo).0 k ≡ ok (after (leaked_thing t lo) lo (place_thing t lo).1 k)
  thing_after (thing t i) lo k h l =
      let m = (place_string t lo).1 in
      then_after (drop_string (place_string t lo).0 k) (λ j. drop_cell (place_id i m).0 j) nothing
        (leaked_id i m) k lo m (place_id i m).1 (place_string-le t lo) (place_id-le i m)
        (drop_string-after t lo k (AreLive-prefix lo m _ k (place_id-le i m) l))
        (id_after i m (after nothing lo m k) h (
          AreLive-after nothing k lo m m (place_id i m).1 (omega arith)
            (AreLive-suffix lo m _ k (place_string-le t lo) l)))

  id_after :
      (i : ThingId) (lo : ℕ) (k : Live)
      → FitsId i
      → AreLive lo (place_id i lo).1 k
      → drop_cell (place_id i lo).0 k ≡ ok (after (leaked_id i lo) lo (place_id i lo).1 k)
  id_after (sr_id_number _) lo k h l = ap ok (after_none nothing lo k)
  id_after (sr_id_string s) lo k h l = drop_string-after s lo k l
  id_after (sr_id_array a) lo k h l = boxed_after a lo k h.0 l (
      array_after a lo k h.1 (
        AreLive-prefix lo (place_array a lo).1 _ k
          (boxed_array-le (place_array a lo).0 (place_array a lo).1) l))
  id_after (sr_id_object o) lo k h l =
      let m = (place_object o lo).1 in
      last_block (drop_cells (place_object o lo).0 k) (leaked_object o lo) k lo m
        (place_object-le o lo) (AreLive-suffix lo m (suc m) k (place_object-le o lo) l)
        (object_after o lo k h (AreLive-prefix lo m (suc m) k (omega arith) l))

  pub array_after :
      (a : Array) (lo : ℕ) (k : Live)
      → FitsArray a
      → AreLive lo (place_array a lo).1 k
      → drop_cells (place_array a lo).0 k ≡ ok (after (leaked_array a lo) lo (place_array a lo).1 k)
  array_after empty lo k h l = ap ok (after_none nothing lo k)
  array_after (cons v vs) lo k h l =
      let m = (place_value v lo).1 in
      then_after (drop_cell (place_value v lo).0 k) (λ j. drop_cells (place_array vs m).0 j)
        (leaked v lo) (leaked_array vs m) k lo m (place_array vs m).1 (place_value-le v lo)
        (place_array-le vs m)
        (value_after v lo k h.0 (AreLive-prefix lo m _ k (place_array-le vs m) l))
        (array_after vs m (after (leaked v lo) lo m k) h.1 (
          AreLive-after (leaked v lo) k lo m m (place_array vs m).1 (omega arith)
            (AreLive-suffix lo m _ k (place_value-le v lo) l)))

  pub object_after :
      (o : Object) (lo : ℕ) (k : Live)
      → FitsObject o
      → AreLive lo (place_object o lo).1 k
      → drop_cells (place_object o lo).0 k
        ≡ ok (after (leaked_object o lo) lo (place_object o lo).1 k)
  object_after end lo k h l = ap ok (after_none nothing lo k)
  object_after (entry j v o) lo k h l =
      let m = (place_value v lo).1 in
      then_after (drop_cell (place_value v lo).0 k) (λ j. drop_cells (place_object o m).0 j)
        (leaked v lo) (leaked_object o m) k lo m (place_object o m).1 (place_value-le v lo)
        (place_object-le o m)
        (value_after v lo k h.0 (AreLive-prefix lo m _ k (place_object-le o m) l))
        (object_after o m (after (leaked v lo) lo m k) h.1 (
          AreLive-after (leaked v lo) k lo m m (place_object o m).1 (omega arith)
            (AreLive-suffix lo m _ k (place_value-le v lo) l)))
