-- ===== src/Types/Owned/Slices/Results.antt =====
-- Results in memory, of which `sr_free_arr_res_arr` frees a slice.
use surrealdb_c.Prelude.{
  ℕ, suc, ◌≡◌, ◌≤◌, ◌<◌, refl, ap, ◌∙◌, length, arith, none, some, Option, List, [], ◌∷◌, ◌==◌,
  if◌then◌else◌,
}
use surrealdb_c.Prelude.Int.{CInt, as_c_int, as_c_int-pos, as_usize, le_zero}
use surrealdb_c.Rust.Run.{Run, ok, fault, ◌>>=◌}
use surrealdb_c.Types.Strings.{StringT}
use surrealdb_c.Types.Values.{Array, as_slice}
use surrealdb_c.Types.Owned.{
  free_block, Live, Cells, cell, no_cells, drop_string, drop_cells, place_string, place_array,
}
use surrealdb_c.Types.Owned.Blocks.{
  after_none, AreLive, after, split, nothing, then_after, AreLive-after,
}
use surrealdb_c.Types.Owned.Ranges.{FitsArray, leaked_array, place_array-le, place_string-le}
use surrealdb_c.Types.Owned.Parts.{AreLive-prefix, AreLive-suffix, last_block, drop_string-after}
use surrealdb_c.Types.Owned.Freed.{array_after}
use surrealdb_c.Types.Owned.Slices.{free_arr, free_arr_res, slice_ptr, cells_ptr}
use surrealdb_c.Types.Owned.Slices.Laws.{free_arr-after}

-- The pointer of an array's slice, and the first address behind it.
abbrev pub slice_of : Array → ℕ → Option ℕ × ℕ
slice_of a lo = let (cs, m) = place_array a lo in cells_ptr cs m

cells_ptr-le : (cs : Cells) (m : ℕ) → m ≤ (cells_ptr cs m).1
cells_ptr-le no_cells m = omega arith
cells_ptr-le (cell c cs) m = omega arith

-- The values of an array whose slice is live.
pub slice_elements :
    (a : Array) (lo : ℕ) (k : Live)
    → FitsArray a
    → AreLive lo (slice_of a lo).1 k
    → drop_cells (place_array a lo).0 k ≡ ok (after (leaked_array a lo) lo (place_array a lo).1 k)
slice_elements a lo k h l = array_after a lo k h (
    AreLive-prefix lo (place_array a lo).1 _ k
      (cells_ptr-le (place_array a lo).0 (place_array a lo).1) l)

pub slice_of-le : (a : Array) (lo : ℕ) → lo ≤ (slice_of a lo).1
slice_of-le a lo =
    omega (arith, place_array-le a lo, cells_ptr-le (place_array a lo).0 (place_array a lo).1)

-- Which blocks of a result stay.
abbrev pub leaked_result : Array → StringT → ℕ → Live
leaked_result a msg lo =
    split (slice_of a lo).1 (split (place_array a lo).1 (leaked_array a lo) nothing) nothing

abbrev pub end_of_result : Array → StringT → ℕ → ℕ
end_of_result a msg lo = (place_string msg (slice_of a lo).1).1

pub free_arr_res-after :
    (a : Array) (msg : StringT) (lo : ℕ) (k : Live)
    → (length (as_slice a) < 2147483648) × FitsArray a
    → AreLive lo (end_of_result a msg lo) k
    → free_arr_res
        (slice_of a lo).0
        (as_c_int (length (as_slice a)))
        (place_array a lo).0
        (place_string msg (slice_of a lo).1).0
        k
      ≡ ok (after (leaked_result a msg lo) lo (end_of_result a msg lo) k)
unfolding free_arr_res
free_arr_res-after a msg lo k h l =
    let m = (slice_of a lo).1 in
    let hi = (place_string msg m).1 in
    let first = AreLive-prefix lo m hi k (place_string-le msg m) l in
    then_after (free_arr (slice_of a lo).0 (as_c_int (length (as_slice a))) (place_array a lo).0 k)
      (λ j. drop_string (place_string msg m).0 j)
      (split (place_array a lo).1 (leaked_array a lo) nothing) nothing k lo m hi (slice_of-le a lo)
      (place_string-le msg m) (free_arr-after a lo k h.0 first (slice_elements a lo k h.1 first))
      (drop_string-after msg m
        (after (split (place_array a lo).1 (leaked_array a lo) nothing) lo m k)
        (AreLive-after (split (place_array a lo).1 (leaked_array a lo) nothing) k lo m m hi
          (omega arith) (AreLive-suffix lo m hi k (slice_of-le a lo) l)))

-- An `ArrayResult` in memory
pub record MemResult : Type 0 where
  pub arr : Option ℕ
  pub len : CInt
  pub elements : Cells
  pub msg : Option ℕ

unfoldable pub drop_results : List MemResult → Live → Run Live
drop_results [] k = ok k
drop_results (r ∷ rs) k = free_arr_res r.arr r.len r.elements r.msg k >>= λ l. drop_results rs l

-- `sr_free_arr_res_arr`, through `ArrayGen::free`
unfoldable pub free_arr_res_arr : Option ℕ → CInt → List MemResult → Live → Run Live
unfolding as_usize
free_arr_res_arr none len rs k = ok k
free_arr_res_arr (some ptr) len rs k =
    if le_zero len
    then ok k
    else if length rs == as_usize len
    then (drop_results rs k >>= λ l. free_block ptr l)
    else fault

abbrev pub Results : Type 0
Results = List (Array × StringT)

abbrev pub place_results : Results → ℕ → List MemResult × ℕ
place_results [] a = ([], a)
place_results ((vs, msg) ∷ rs) a =
    let (ms, d) = place_results rs (end_of_result vs msg a) in
    (
      record {
        arr = (slice_of vs a).0;
        len = as_c_int (length (as_slice vs));
        elements = (place_array vs a).0;
        msg = (place_string msg (slice_of vs a).1).0;
      }
          ∷ ms,
      d,
    )

abbrev pub leaked_results : Results → ℕ → Live
leaked_results [] lo = nothing
leaked_results ((vs, msg) ∷ rs) lo =
    let b = end_of_result vs msg lo in split b (leaked_result vs msg lo) (leaked_results rs b)

abbrev pub FitResults : Results → Type 0
FitResults [] = Unit
FitResults ((vs, msg) ∷ rs) = ((length (as_slice vs) < 2147483648) × FitsArray vs) × FitResults rs

end_of_result-le : (a : Array) (msg : StringT) (lo : ℕ) → lo ≤ end_of_result a msg lo
end_of_result-le a msg lo = omega (arith, slice_of-le a lo, place_string-le msg (slice_of a lo).1)

place_results-le : (rs : Results) (lo : ℕ) → lo ≤ (place_results rs lo).1
place_results-le [] lo = omega arith
place_results-le ((vs, msg) ∷ rs) lo =
    omega (arith, end_of_result-le vs msg lo, place_results-le rs (end_of_result vs msg lo))

length-place_results : (rs : Results) (lo : ℕ) → length (place_results rs lo).0 ≡ length rs
length-place_results [] lo = refl
length-place_results ((vs, msg) ∷ rs) lo =
    ap (λ n. suc n) (length-place_results rs (end_of_result vs msg lo))

drop_results-after :
    (rs : Results) (lo : ℕ) (k : Live)
    → FitResults rs
    → AreLive lo (place_results rs lo).1 k
    → drop_results (place_results rs lo).0 k
      ≡ ok (after (leaked_results rs lo) lo (place_results rs lo).1 k)
unfolding drop_results
drop_results-after [] lo k h l = ap ok (after_none nothing lo k)
drop_results-after ((vs, msg) ∷ rs) lo k h l =
    let m = end_of_result vs msg lo in
    let hi = (place_results rs m).1 in
    then_after _ (λ j. drop_results (place_results rs m).0 j) (leaked_result vs msg lo)
      (leaked_results rs m) k lo m hi (end_of_result-le vs msg lo) (place_results-le rs m)
      (free_arr_res-after vs msg lo k h.0 (AreLive-prefix lo m hi k (place_results-le rs m) l))
      (drop_results-after rs m (after (leaked_result vs msg lo) lo m k) h.1 (
        AreLive-after (leaked_result vs msg lo) k lo m m hi (omega arith)
          (AreLive-suffix lo m hi k (end_of_result-le vs msg lo) l)))

free_arr_res_arr-whole :
    (ptr n : ℕ) (ms : List MemResult) (k : Live)
    → length ms ≡ suc n
    → suc n < 2147483648
    → free_arr_res_arr (some ptr) (as_c_int (suc n)) ms k
      ≡ (drop_results ms k >>= λ l. free_block ptr l)
unfolding free_arr_res_arr as_usize
free_arr_res_arr-whole ptr n ms k e h = rw (as_c_int-pos (suc n) h, e) (ground arith)

pub free_arr_res_arr-after :
    (rs : Results) (lo : ℕ) (k : Live)
    → length rs < 2147483648
    → FitResults rs
    → AreLive lo (slice_ptr rs (place_results rs lo).1).1 k
    → free_arr_res_arr
        (slice_ptr rs (place_results rs lo).1).0
        (as_c_int (length rs))
        (place_results rs lo).0
        k
      ≡ ok (
          after
            (split (place_results rs lo).1 (leaked_results rs lo) nothing)
            lo
            (slice_ptr rs (place_results rs lo).1).1
            k)
unfolding free_arr_res_arr
free_arr_res_arr-after [] lo k h f l = ap ok (after_none (split lo nothing nothing) lo k)
free_arr_res_arr-after (r ∷ rs) lo k h f l =
    let m = (place_results (r ∷ rs) lo).1 in
    let le = place_results-le (r ∷ rs) lo in
    let ms = (place_results (r ∷ rs) lo).0 in
    free_arr_res_arr-whole m (length rs) ms k (length-place_results (r ∷ rs) lo) h
    ∙ last_block (drop_results ms k) (leaked_results (r ∷ rs) lo) k lo m le
        (AreLive-suffix lo m (suc m) k le l)
        (drop_results-after (r ∷ rs) lo k f (AreLive-prefix lo m (suc m) k (omega arith) l))
