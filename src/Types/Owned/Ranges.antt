-- ===== src/Types/Owned/Ranges.antt =====
-- The range of addresses that a value is put at, and which of its blocks no `Drop` frees.
use surrealdb_c.Prelude.{ℕ, ◌≤◌, ◌<◌, true, none, some, List, [], ◌∷◌, length, arith}
use surrealdb_c.Types.Strings.{StringT}
use surrealdb_c.Types.Numbers.{Number, sr_number_int, sr_number_float, sr_number_decimal}
use surrealdb_c.Types.Values.{
  Value, Thing, ThingId, Array, Object, sr_value_none, sr_value_null, sr_value_bool,
  sr_value_number, sr_value_strand, sr_value_duration, sr_value_datetime, sr_value_uuid,
  sr_value_array, sr_value_object, sr_geometry_object, sr_value_bytes, sr_value_thing, thing,
  sr_id_number, sr_id_string, sr_id_array, sr_id_object, empty, cons, end, entry, as_slice,
}
use surrealdb_c.Types.Owned.{
  Live, Cells, no_cells, cell, place_string, slice_at_next, boxed_array, place_value, place_number,
  place_thing, place_id, place_array, place_object,
}
use surrealdb_c.Types.Owned.Blocks.{split, nothing}

-- The length of every array fits a `c_int`.
abbrev mutual
  pub Fits : Value → Type 0
  Fits (sr_value_array a) = (length (as_slice a) < 2147483648) × FitsArray a
  Fits (sr_value_object o) = FitsObject o
  Fits (sr_value_thing t) = FitsThing t
  Fits sr_value_none = Unit
  Fits sr_value_null = Unit
  Fits (sr_value_bool _) = Unit
  Fits (sr_value_number _) = Unit
  Fits (sr_value_strand _) = Unit
  Fits (sr_value_duration _) = Unit
  Fits (sr_value_datetime _) = Unit
  Fits (sr_value_uuid _) = Unit
  Fits (sr_geometry_object _) = Unit
  Fits (sr_value_bytes _) = Unit

  pub FitsThing : Thing → Type 0
  FitsThing (thing t i) = FitsId i

  pub FitsId : ThingId → Type 0
  FitsId (sr_id_number _) = Unit
  FitsId (sr_id_string _) = Unit
  FitsId (sr_id_array a) = (length (as_slice a) < 2147483648) × FitsArray a
  FitsId (sr_id_object o) = FitsObject o

  pub FitsArray : Array → Type 0
  FitsArray empty = Unit
  FitsArray (cons v vs) = Fits v × FitsArray vs

  pub FitsObject : Object → Type 0
  FitsObject end = Unit
  FitsObject (entry _ v o) = Fits v × FitsObject o

abbrev pub everything : Live
everything _ = true

-- Which of the blocks of a value that starts at an address belong to bytes and geometries.
abbrev mutual
  pub leaked : Value → ℕ → Live
  leaked (sr_value_array a) lo = split (place_array a lo).1 (leaked_array a lo) nothing
  leaked (sr_value_object o) lo = split (place_object o lo).1 (leaked_object o lo) nothing
  leaked (sr_geometry_object g) lo = everything
  leaked (sr_value_bytes b) lo = everything
  leaked (sr_value_thing t) lo = leaked_thing t lo
  leaked sr_value_none lo = nothing
  leaked sr_value_null lo = nothing
  leaked (sr_value_bool _) lo = nothing
  leaked (sr_value_number _) lo = nothing
  leaked (sr_value_strand _) lo = nothing
  leaked (sr_value_duration _) lo = nothing
  leaked (sr_value_datetime _) lo = nothing
  leaked (sr_value_uuid _) lo = nothing

  pub leaked_thing : Thing → ℕ → Live
  leaked_thing (thing t i) lo = let b = (place_string t lo).1 in split b nothing (leaked_id i b)

  pub leaked_id : ThingId → ℕ → Live
  leaked_id (sr_id_number _) lo = nothing
  leaked_id (sr_id_string _) lo = nothing
  leaked_id (sr_id_array a) lo = split (place_array a lo).1 (leaked_array a lo) nothing
  leaked_id (sr_id_object o) lo = split (place_object o lo).1 (leaked_object o lo) nothing

  pub leaked_array : Array → ℕ → Live
  leaked_array empty lo = nothing
  leaked_array (cons v vs) lo =
      let b = (place_value v lo).1 in split b (leaked v lo) (leaked_array vs b)

  pub leaked_object : Object → ℕ → Live
  leaked_object end lo = nothing
  leaked_object (entry k v o) lo =
      let b = (place_value v lo).1 in split b (leaked v lo) (leaked_object o b)

pub place_string-le : (s : StringT) (lo : ℕ) → lo ≤ (place_string s lo).1
place_string-le none lo = omega arith
place_string-le (some s) lo = omega arith

pub slice_at_next-le : (b : List ℕ) (lo : ℕ) → lo ≤ (slice_at_next b lo).1
slice_at_next-le [] lo = omega arith
slice_at_next-le (x ∷ b) lo = omega arith

pub boxed_array-le : (cs : Cells) (n : ℕ) → n ≤ (boxed_array (cs, n)).1
boxed_array-le no_cells n = omega arith
boxed_array-le (cell c cs) n = omega arith

pub place_number-le : (n : Number) (lo : ℕ) → lo ≤ (place_number n lo).1
place_number-le (sr_number_int _) lo = omega arith
place_number-le (sr_number_float _) lo = omega arith
place_number-le (sr_number_decimal s) lo = place_string-le s lo

mutual
  pub place_value-le : (v : Value) (lo : ℕ) → lo ≤ (place_value v lo).1
  place_value-le (sr_value_number n) lo = place_number-le n lo
  place_value-le (sr_value_strand s) lo = place_string-le s lo
  place_value-le (sr_value_datetime s) lo = place_string-le s lo
  place_value-le (sr_value_array a) lo =
      omega (arith, place_array-le a lo, boxed_array-le (place_array a lo).0 (place_array a lo).1)
  place_value-le (sr_value_object o) lo = omega (arith, place_object-le o lo)
  place_value-le (sr_geometry_object g) lo = omega arith
  place_value-le (sr_value_bytes b) lo = slice_at_next-le b lo
  place_value-le (sr_value_thing t) lo = place_thing-le t lo
  place_value-le _ lo = omega arith

  pub place_thing-le : (t : Thing) (lo : ℕ) → lo ≤ (place_thing t lo).1
  place_thing-le (thing t i) lo =
      omega (arith, place_string-le t lo, place_id-le i (place_string t lo).1)

  pub place_id-le : (i : ThingId) (lo : ℕ) → lo ≤ (place_id i lo).1
  place_id-le (sr_id_number _) lo = omega arith
  place_id-le (sr_id_string s) lo = place_string-le s lo
  place_id-le (sr_id_array a) lo =
      omega (arith, place_array-le a lo, boxed_array-le (place_array a lo).0 (place_array a lo).1)
  place_id-le (sr_id_object o) lo = omega (arith, place_object-le o lo)

  pub place_array-le : (a : Array) (lo : ℕ) → lo ≤ (place_array a lo).1
  place_array-le empty lo = omega arith
  place_array-le (cons v vs) lo =
      omega (arith, place_value-le v lo, place_array-le vs (place_value v lo).1)

  pub place_object-le : (o : Object) (lo : ℕ) → lo ≤ (place_object o lo).1
  place_object-le end lo = omega arith
  place_object-le (entry k v o) lo =
      omega (arith, place_value-le v lo, place_object-le o (place_value v lo).1)
