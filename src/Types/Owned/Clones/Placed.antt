-- ===== src/Types/Owned/Clones/Placed.antt =====
-- A value that was put on the heap is intact.
use surrealdb_c.Prelude.{ℕ, suc, ◌+◌, ◌≡◌, ◌≤◌, ◌<◌, ap, sym, ◌∙◌, false, none, some, length, arith}
use surrealdb_c.Prelude.Int.{as_c_int, as_c_int-pos}
use surrealdb_c.Rust.Run.{ok}
use surrealdb_c.Types.Numbers.{sr_number_int, sr_number_float, sr_number_decimal}
use surrealdb_c.Types.Values.{
  Value, Thing, ThingId, Array, Object, sr_value_number, sr_value_strand, sr_value_datetime,
  sr_value_array, sr_value_object, sr_geometry_object, sr_value_bytes, sr_value_thing, thing,
  sr_id_number, sr_id_string, sr_id_array, sr_id_object, empty, cons, end, entry, as_slice,
}
use surrealdb_c.Types.Whole.{IsWhole, IsWholeThing, IsWholeId, IsWholeArray, IsWholeObject}
use surrealdb_c.Types.Owned.{
  Live, Cell, count, drop_cell, place_value, place_thing, place_id, place_array, place_object,
  boxed_array,
}
use surrealdb_c.Types.Owned.Blocks.{AreLive, after, after_none}
use surrealdb_c.Types.Owned.Ranges.{
  everything, Fits, FitsThing, FitsId, FitsArray, FitsObject, place_value-le, place_id-le,
  place_array-le, place_object-le, boxed_array-le,
}
use surrealdb_c.Types.Owned.Parts.{AreLive-prefix, AreLive-suffix, count-place_array, count-cell}
use surrealdb_c.Types.Owned.Balance.{
  IsBlobless, IsBloblessThing, IsBloblessId, IsBloblessArray, IsBloblessObject,
}
use surrealdb_c.Types.Owned.Clones.{clone_cell, take_cell, clone_and_take}
use surrealdb_c.Types.Owned.Clones.Ranges.{Clears-new}
use surrealdb_c.Types.Owned.Clones.Copied.{IsIntact, AreIntact, cell_Copied}

-- The box of an array, and its slice.
boxed_IsIntact :
    (a : Array) (lo : ℕ) (k : Live)
    → length (as_slice a) < 2147483648
    → AreLive lo (boxed_array (place_array a lo)).1 k
    → AreIntact k (place_array a lo).0
    → IsIntact k (boxed_array (place_array a lo)).0
boxed_IsIntact empty lo k h l i = l lo (omega arith) (omega arith)
boxed_IsIntact (cons v vs) lo k h l i =
    let m = (place_array (cons v vs) lo).1 in
    let cs = (place_array (cons v vs) lo).0 in
    let le = place_array-le (cons v vs) lo in
    let n = count-cell (place_value v lo).0 (place_array vs (place_value v lo).1).0 in
    let e = count-place_array (cons v vs) lo in
    (
      l (suc m) (omega (arith, le)) (omega arith),
      l m le (omega arith),
      ap as_c_int (sym n) ∙ as_c_int-pos (count cs) (omega (arith, e, h)),
      omega (arith, n),
      omega (arith, e, h),
      i,
    )

mutual
  value_IsIntact :
      (v : Value) (lo : ℕ) (k : Live)
      → Fits v
      → IsBlobless v
      → IsWhole v
      → AreLive lo (place_value v lo).1 k
      → IsIntact k (place_value v lo).0
  value_IsIntact (sr_value_number (sr_number_decimal none)) lo k f b w l = elim w [ ]
  value_IsIntact (sr_value_number (sr_number_decimal (some s))) lo k f b w l =
      l lo (omega arith) (omega arith)
  value_IsIntact (sr_value_number (sr_number_int _)) lo k f b w l = tt
  value_IsIntact (sr_value_number (sr_number_float _)) lo k f b w l = tt
  value_IsIntact (sr_value_strand none) lo k f b w l = elim w [ ]
  value_IsIntact (sr_value_strand (some s)) lo k f b w l = l lo (omega arith) (omega arith)
  value_IsIntact (sr_value_datetime none) lo k f b w l = elim w [ ]
  value_IsIntact (sr_value_datetime (some s)) lo k f b w l = l lo (omega arith) (omega arith)
  value_IsIntact (sr_value_array a) lo k f b w l = boxed_IsIntact a lo k f.0 l (
      array_IsIntact a lo k f.1 b w (
        AreLive-prefix lo (place_array a lo).1 _ k
          (boxed_array-le (place_array a lo).0 (place_array a lo).1) l))
  value_IsIntact (sr_value_object o) lo k f b w l =
      let m = (place_object o lo).1 in
      (
        l m (place_object-le o lo) (omega arith),
        object_IsIntact o lo k f b w (AreLive-prefix lo m (suc m) k (omega arith) l),
      )
  value_IsIntact (sr_geometry_object _) lo k f b w l = elim b [ ]
  value_IsIntact (sr_value_bytes _) lo k f b w l = elim b [ ]
  value_IsIntact (sr_value_thing t) lo k f b w l = thing_IsIntact t lo k f b w l
  value_IsIntact _ lo k f b w l = tt

  thing_IsIntact :
      (t : Thing) (lo : ℕ) (k : Live)
      → FitsThing t
      → IsBloblessThing t
      → IsWholeThing t
      → AreLive lo (place_thing t lo).1 k
      → IsIntact k (place_thing t lo).0
  thing_IsIntact (thing none i) lo k f b w l = elim w.0 [ ]
  thing_IsIntact (thing (some s) i) lo k f b w l = (
    l lo (omega arith) (omega (arith, place_id-le i (suc lo))),
    id_IsIntact i (suc lo) k f b w.1 (AreLive-suffix lo (suc lo) _ k (omega arith) l),
  )

  id_IsIntact :
      (i : ThingId) (lo : ℕ) (k : Live)
      → FitsId i
      → IsBloblessId i
      → IsWholeId i
      → AreLive lo (place_id i lo).1 k
      → IsIntact k (place_id i lo).0
  id_IsIntact (sr_id_number _) lo k f b w l = tt
  id_IsIntact (sr_id_string none) lo k f b w l = elim w [ ]
  id_IsIntact (sr_id_string (some s)) lo k f b w l = l lo (omega arith) (omega arith)
  id_IsIntact (sr_id_array a) lo k f b w l = boxed_IsIntact a lo k f.0 l (
      array_IsIntact a lo k f.1 b w (
        AreLive-prefix lo (place_array a lo).1 _ k
          (boxed_array-le (place_array a lo).0 (place_array a lo).1) l))
  id_IsIntact (sr_id_object o) lo k f b w l =
      let m = (place_object o lo).1 in
      (
        l m (place_object-le o lo) (omega arith),
        object_IsIntact o lo k f b w (AreLive-prefix lo m (suc m) k (omega arith) l),
      )

  array_IsIntact :
      (a : Array) (lo : ℕ) (k : Live)
      → FitsArray a
      → IsBloblessArray a
      → IsWholeArray a
      → AreLive lo (place_array a lo).1 k
      → AreIntact k (place_array a lo).0
  array_IsIntact empty lo k f b w l = tt
  array_IsIntact (cons v vs) lo k f b w l =
      let m = (place_value v lo).1 in
      (
        value_IsIntact v lo k f.0 b.0 w.0 (AreLive-prefix lo m _ k (place_array-le vs m) l),
        array_IsIntact vs m k f.1 b.1 w.1 (AreLive-suffix lo m _ k (place_value-le v lo) l),
      )

  object_IsIntact :
      (o : Object) (lo : ℕ) (k : Live)
      → FitsObject o
      → IsBloblessObject o
      → IsWholeObject o
      → AreLive lo (place_object o lo).1 k
      → AreIntact k (place_object o lo).0
  object_IsIntact end lo k f b w l = tt
  object_IsIntact (entry j v o) lo k f b w l =
      let m = (place_value v lo).1 in
      (
        value_IsIntact v lo k f.0 b.0 w.0 (AreLive-prefix lo m _ k (place_object-le o m) l),
        object_IsIntact o m k f.1 b.1 w.1 (AreLive-suffix lo m _ k (place_value-le v lo) l),
      )

plus_zero : (n : ℕ) → n + 0 ≡ n
plus_zero n = omega arith

none_leaked : (n : ℕ) (k : Live) → after everything n (n + 0) k ≡ k
none_leaked n k = ap (λ m. after everything n m k) (plus_zero n) ∙ sym (after_none everything n k)

-- A value without bytes and geometries on the heap, none of its strings null, that is cloned to new
-- addresses: the clone owns new blocks only, and dropping it gives back each of them once and no
-- other, so that the value is as it was. To clone it and convert the clone, which is what the functions
-- with a content or a value do, leaves the heap as it was. The lengths of its arrays fit a `c_int`.
pub clone_and_take-keeps :
    (v : Value) (lo n : ℕ) (k : Live)
    → Fits v
    → IsBlobless v
    → IsWhole v
    → AreLive lo (place_value v lo).1 k
    → ((i : ℕ) → n ≤ i → k i ≡ false)
    → (clone_and_take (place_value v lo).0 n k ≡ ok k)
      × ((copy : Cell) × (next : ℕ) × (clone_cell (place_value v lo).0 n k ≡ ok (copy, next))
          × (drop_cell copy (after everything n next k) ≡ ok k))
unfolding clone_and_take take_cell
clone_and_take-keeps v lo n k f b w l h =
    let r = cell_Copied (place_value v lo).0 n k (value_IsIntact v lo k f b w l) in
    (
      rw (r.cloned, r.unleaked, Clears-new _ n r.next k r.taken h) (ap ok (none_leaked r.next k)),
      (r.copy, r.next, r.cloned, Clears-new _ n r.next k r.dropped h),
    )
