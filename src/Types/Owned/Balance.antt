-- ===== src/Types/Owned/Balance.antt =====
-- What `sr_value_free` leaves on the heap.
use surrealdb_c.Prelude.{ℕ, suc, ◌≡◌, ◌≤◌, ◌<◌, refl, ap, ◌∙◌, true, false, Option, some, arith}
use mathlib.Core.Path.{fun_ext}
use surrealdb_c.Rust.Run.{ok, fault}
use surrealdb_c.Types.Values.{
  Value, Thing, ThingId, Array, Object, sr_value_none, sr_value_null, sr_value_bool,
  sr_value_number, sr_value_strand, sr_value_duration, sr_value_datetime, sr_value_uuid,
  sr_value_array, sr_value_object, sr_geometry_object, sr_value_bytes, sr_value_thing, thing,
  sr_id_number, sr_id_string, sr_id_array, sr_id_object, empty, cons, end, entry,
}
use surrealdb_c.Types.Owned.{
  Live, Cell, drop_cell, value_free, place_string, place_value, place_array, place_object,
}
use surrealdb_c.Types.Owned.Blocks.{AreLive, after, split, nothing}
use surrealdb_c.Types.Owned.Ranges.{
  Fits, everything, leaked, leaked_thing, leaked_id, leaked_array, leaked_object, place_value-le,
}
use surrealdb_c.Types.Owned.Freed.{value_after}
use surrealdb_c.Types.Owned.Parts.{AreLive-prefix, AreLive-suffix, last_block}

-- Without bytes and geometries, at any depth.
abbrev mutual
  pub IsBlobless : Value → Type 0
  IsBlobless (sr_value_array a) = IsBloblessArray a
  IsBlobless (sr_value_object o) = IsBloblessObject o
  IsBlobless (sr_value_thing t) = IsBloblessThing t
  IsBlobless (sr_geometry_object _) = ⊥
  IsBlobless (sr_value_bytes _) = ⊥
  IsBlobless sr_value_none = Unit
  IsBlobless sr_value_null = Unit
  IsBlobless (sr_value_bool _) = Unit
  IsBlobless (sr_value_number _) = Unit
  IsBlobless (sr_value_strand _) = Unit
  IsBlobless (sr_value_duration _) = Unit
  IsBlobless (sr_value_datetime _) = Unit
  IsBlobless (sr_value_uuid _) = Unit

  pub IsBloblessThing : Thing → Type 0
  IsBloblessThing (thing t i) = IsBloblessId i

  pub IsBloblessId : ThingId → Type 0
  IsBloblessId (sr_id_number _) = Unit
  IsBloblessId (sr_id_string _) = Unit
  IsBloblessId (sr_id_array a) = IsBloblessArray a
  IsBloblessId (sr_id_object o) = IsBloblessObject o

  pub IsBloblessArray : Array → Type 0
  IsBloblessArray empty = Unit
  IsBloblessArray (cons v vs) = IsBlobless v × IsBloblessArray vs

  pub IsBloblessObject : Object → Type 0
  IsBloblessObject end = Unit
  IsBloblessObject (entry _ v o) = IsBlobless v × IsBloblessObject o

split-false : (m : ℕ) (p q : Live) (i : ℕ) → p i ≡ false → q i ≡ false → split m p q i ≡ false
split-false m p q i e f = ground arith

mutual
  leaked_none : (v : Value) → IsBlobless v → (lo i : ℕ) → leaked v lo i ≡ false
  leaked_none (sr_value_array a) h lo i =
      split-false (place_array a lo).1 (leaked_array a lo) nothing i (leaked_none_array a h lo i)
        refl
  leaked_none (sr_value_object o) h lo i =
      split-false (place_object o lo).1 (leaked_object o lo) nothing i (leaked_none_object o h lo i)
        refl
  leaked_none (sr_value_thing t) h lo i = leaked_none_thing t h lo i
  leaked_none (sr_geometry_object _) h lo i = elim h [ ]
  leaked_none (sr_value_bytes _) h lo i = elim h [ ]
  leaked_none _ h lo i = refl

  leaked_none_thing : (t : Thing) → IsBloblessThing t → (lo i : ℕ) → leaked_thing t lo i ≡ false
  leaked_none_thing (thing t j) h lo i =
      let m = (place_string t lo).1 in
      split-false m nothing (leaked_id j m) i refl (leaked_none_id j h m i)

  leaked_none_id : (j : ThingId) → IsBloblessId j → (lo i : ℕ) → leaked_id j lo i ≡ false
  leaked_none_id (sr_id_number _) h lo i = refl
  leaked_none_id (sr_id_string _) h lo i = refl
  leaked_none_id (sr_id_array a) h lo i =
      split-false (place_array a lo).1 (leaked_array a lo) nothing i (leaked_none_array a h lo i)
        refl
  leaked_none_id (sr_id_object o) h lo i =
      split-false (place_object o lo).1 (leaked_object o lo) nothing i (leaked_none_object o h lo i)
        refl

  leaked_none_array : (a : Array) → IsBloblessArray a → (lo i : ℕ) → leaked_array a lo i ≡ false
  leaked_none_array empty h lo i = refl
  leaked_none_array (cons v vs) h lo i =
      let m = (place_value v lo).1 in
      split-false m (leaked v lo) (leaked_array vs m) i (leaked_none v h.0 lo i)
        (leaked_none_array vs h.1 m i)

  leaked_none_object : (o : Object) → IsBloblessObject o → (lo i : ℕ) → leaked_object o lo i ≡ false
  leaked_none_object end h lo i = refl
  leaked_none_object (entry k v o) h lo i =
      let m = (place_value v lo).1 in
      split-false m (leaked v lo) (leaked_object o m) i (leaked_none v h.0 lo i)
        (leaked_none_object o h.1 m i)

-- A value from the address on, and after it its box.
abbrev pub boxed : Value → ℕ → Option (ℕ × Cell)
boxed v lo = let (c, hi) = place_value v lo in some (hi, c)

-- The blocks of bytes and geometries stay, the others of the range go.
abbrev pub left : Value → ℕ → Live → Live
left v lo k = let hi = (place_value v lo).1 in after (split hi (leaked v lo) nothing) lo (suc hi) k

freed_box : (v : Value) (lo : ℕ) (k : Live) → left v lo k (place_value v lo).1 ≡ false
freed_box v lo k = box_point (leaked v lo) k lo (place_value v lo).1 (place_value-le v lo)
  where
    box_point : (p k : Live) (lo m : ℕ) → lo ≤ m → after (split m p nothing) lo (suc m) k m ≡ false
    box_point p k lo m h = ground arith

-- The value and its box being live, `sr_value_free` frees each of their blocks once, but those of bytes and
-- of geometries, at any depth, which stay live, and touches no other block. Freed once more, it is a double
-- free. The lengths of the arrays fit a `c_int`.
pub value_free-left :
    (v : Value) (lo : ℕ) (k : Live)
    → Fits v
    → AreLive lo (suc (place_value v lo).1) k
    → (value_free (boxed v lo) k ≡ ok (left v lo k))
      × (value_free (boxed v lo) (left v lo k) ≡ fault)
unfolding value_free
value_free-left v lo k h l =
    let m = (place_value v lo).1 in
    (
      rw (l m (place_value-le v lo) (omega arith)) (
          last_block (drop_cell (place_value v lo).0 k) (leaked v lo) k lo m (place_value-le v lo)
            (AreLive-suffix lo m (suc m) k (place_value-le v lo) l)
            (value_after v lo k h (AreLive-prefix lo m (suc m) k (omega arith) l))),
      rw (freed_box v lo k) refl,
    )

restored_point :
    (p k : Live) (lo m i : ℕ)
    → ((i : ℕ) → lo ≤ i → k i ≡ false)
    → p i ≡ false
    → after (split m p nothing) lo (suc m) (after everything lo (suc m) k) i ≡ k i
restored_point p k lo m i h e = ground (arith, h i)

live_point : (k : Live) (lo hi i : ℕ) → lo ≤ i → i < hi → after everything lo hi k i ≡ true
live_point k lo hi i a b = ground arith

-- A value without bytes and geometries that is put on the heap, in a box, and freed by `sr_value_free`
-- leaves the heap as it was: nothing leaks. Nothing is live from the first address on before, and the
-- lengths of the arrays fit a `c_int`.
pub value_free-balance :
    (v : Value) (lo : ℕ) (k : Live)
    → Fits v
    → IsBlobless v
    → ((i : ℕ) → lo ≤ i → k i ≡ false)
    → value_free (boxed v lo) (after everything lo (suc (place_value v lo).1) k) ≡ ok k
value_free-balance v lo k h b f =
    let m = (place_value v lo).1 in
    (value_free-left v lo (after everything lo (suc m) k) h
      (λ i p q. live_point k lo (suc m) i p q)).0
    ∙ ap ok (fun_ext (λ i. restored_point (leaked v lo) k lo m i f (leaked_none v b lo i)))
