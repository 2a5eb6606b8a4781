-- ===== src/Types/Owned/Owners.antt =====
-- What `sr_free_string`, `sr_free_object`, `sr_array_free`, `sr_free_arr`, `sr_free_string_arr`,
-- `sr_free_arr_res` and `sr_free_arr_res_arr` leave on the heap.
use surrealdb_c.Prelude.{ℕ, suc, ◌≡◌, ◌<◌, length, arith, some, List}
use surrealdb_c.Prelude.Int.{as_c_int}
use surrealdb_c.Rust.Run.{Run, ok}
use surrealdb_c.Types.Strings.{StringT}
use surrealdb_c.Types.Values.{Array, Object, as_slice}
use surrealdb_c.Types.Owned.{
  Live, drop_cell, drop_cells, free_string, free_object, array_free, place_string, place_array,
  place_object, boxed_array,
}
use surrealdb_c.Types.Owned.Blocks.{AreLive, after, split, nothing}
use surrealdb_c.Types.Owned.Ranges.{
  FitsArray, FitsObject, leaked_array, leaked_object, boxed_array-le, place_object-le,
}
use surrealdb_c.Types.Owned.Parts.{
  AreLive-prefix, AreLive-suffix, last_block, drop_string-after, boxed_after,
}
use surrealdb_c.Types.Owned.Freed.{array_after, object_after}
use surrealdb_c.Types.Owned.Slices.{
  free_arr, free_string_arr, free_arr_res, place_strings, slice_ptr,
}
use surrealdb_c.Types.Owned.Slices.Results.{
  slice_of, slice_elements, leaked_result, end_of_result, free_arr_res-after, Results,
  place_results, leaked_results, FitResults, free_arr_res_arr, free_arr_res_arr-after,
}
use surrealdb_c.Types.Owned.Slices.Laws.{free_arr-after, free_string_arr-after}

-- What the functions take, each from the address on.
pub data Owner : Type 0 where
  a_string : StringT → Owner
  an_object : Object → Owner
  an_array : Array → Owner
  a_slice : Array → Owner
  some_strings : List StringT → Owner
  a_result : Array → StringT → Owner
  some_results : Results → Owner

abbrev pub OwnerFits : Owner → Type 0
OwnerFits (a_string s) = Unit
OwnerFits (an_object o) = FitsObject o
OwnerFits (an_array a) = (length (as_slice a) < 2147483648) × FitsArray a
OwnerFits (a_slice a) = (length (as_slice a) < 2147483648) × FitsArray a
OwnerFits (some_strings ss) = length ss < 2147483648
OwnerFits (a_result a msg) = (length (as_slice a) < 2147483648) × FitsArray a
OwnerFits (some_results rs) = (length rs < 2147483648) × FitResults rs

-- The first address behind its blocks.
abbrev pub end_of : Owner → ℕ → ℕ
end_of (a_string s) lo = (place_string s lo).1
end_of (an_object o) lo = suc (place_object o lo).1
end_of (an_array a) lo = (boxed_array (place_array a lo)).1
end_of (a_slice a) lo = (slice_of a lo).1
end_of (some_strings ss) lo = (slice_ptr ss (place_strings ss lo).1).1
end_of (a_result a msg) lo = end_of_result a msg lo
end_of (some_results rs) lo = (slice_ptr rs (place_results rs lo).1).1

abbrev pub leaked_owner : Owner → ℕ → Live
leaked_owner (a_string s) lo = nothing
leaked_owner (an_object o) lo = split (place_object o lo).1 (leaked_object o lo) nothing
leaked_owner (an_array a) lo = split (place_array a lo).1 (leaked_array a lo) nothing
leaked_owner (a_slice a) lo = split (place_array a lo).1 (leaked_array a lo) nothing
leaked_owner (some_strings ss) lo = nothing
leaked_owner (a_result a msg) lo = leaked_result a msg lo
leaked_owner (some_results rs) lo = split (place_results rs lo).1 (leaked_results rs lo) nothing

abbrev pub free_owner : Owner → ℕ → Live → Run Live
free_owner (a_string s) lo k = free_string (place_string s lo).0 k
free_owner (an_object o) lo k = let (cs, box) = place_object o lo in free_object (box, cs) k
free_owner (an_array a) lo k = array_free (some (boxed_array (place_array a lo)).0) k
free_owner (a_slice a) lo k =
    free_arr (slice_of a lo).0 (as_c_int (length (as_slice a))) (place_array a lo).0 k
free_owner (some_strings ss) lo k =
    free_string_arr (slice_ptr ss (place_strings ss lo).1).0 (as_c_int (length ss))
      (place_strings ss lo).0 k
free_owner (a_result a msg) lo k =
    free_arr_res (slice_of a lo).0 (as_c_int (length (as_slice a))) (place_array a lo).0
      (place_string msg (slice_of a lo).1).0 k
free_owner (some_results rs) lo k =
    free_arr_res_arr (slice_ptr rs (place_results rs lo).1).0 (as_c_int (length rs))
      (place_results rs lo).0 k

-- The blocks of a string, an object, an array in its box, an array's slice, a slice of strings, a result, or
-- a slice of results, as `sr_free_string`, `sr_free_object`, `sr_array_free`, `sr_free_arr`,
-- `sr_free_string_arr`, `sr_free_arr_res` and `sr_free_arr_res_arr` take them, being live, the function frees
-- each of them once, but those of bytes and of geometries, which stay live, and touches no other block. The
-- lengths of the arrays and of the slices fit a `c_int`.
pub free_owner_lem :
    (w : Owner) (lo : ℕ) (k : Live)
    → OwnerFits w
    → AreLive lo (end_of w lo) k
    → free_owner w lo k ≡ ok (after (leaked_owner w lo) lo (end_of w lo) k)
unfolding free_string free_object array_free drop_cell
free_owner_lem (a_string s) lo k h l = drop_string-after s lo k l
free_owner_lem (an_object o) lo k h l =
    let m = (place_object o lo).1 in
    last_block (drop_cells (place_object o lo).0 k) (leaked_object o lo) k lo m
      (place_object-le o lo) (AreLive-suffix lo m (suc m) k (place_object-le o lo) l)
      (object_after o lo k h (AreLive-prefix lo m (suc m) k (omega arith) l))
free_owner_lem (an_array a) lo k h l = boxed_after a lo k h.0 l (
    array_after a lo k h.1 (
      AreLive-prefix lo (place_array a lo).1 _ k
        (boxed_array-le (place_array a lo).0 (place_array a lo).1) l))
free_owner_lem (a_slice a) lo k h l = free_arr-after a lo k h.0 l (slice_elements a lo k h.1 l)
free_owner_lem (some_strings ss) lo k h l = free_string_arr-after ss lo k h l
free_owner_lem (a_result a msg) lo k h l = free_arr_res-after a msg lo k h l
free_owner_lem (some_results rs) lo k h l = free_arr_res_arr-after rs lo k h.0 h.1 l
