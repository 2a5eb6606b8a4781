-- ===== src/Types/Owned/Slices/Laws.antt =====
-- What the functions that free slices leave on the heap.
use surrealdb_c.Prelude.{
  ℕ, suc, ◌≡◌, ◌≤◌, ◌<◌, refl, sym, ap, ◌∙◌, Option, some, List, [], ◌∷◌, length, arith,
}
use surrealdb_c.Prelude.Int.{as_c_int, as_c_int-pos, as_usize}
use surrealdb_c.Rust.Run.{ok, ◌>>=◌}
use surrealdb_c.Types.Strings.{StringT}
use surrealdb_c.Types.Values.{Array, empty, cons, as_slice}
use surrealdb_c.Types.Owned.{
  Live, Cells, count, free_block, drop_string, drop_cells, place_string, place_array,
}
use surrealdb_c.Types.Owned.Blocks.{
  AreLive, after, split, nothing, after_none, AreLive-after, then_after, after_ext,
}
use surrealdb_c.Types.Owned.Ranges.{leaked_array, place_array-le, place_string-le}
use surrealdb_c.Types.Owned.Parts.{
  AreLive-prefix, AreLive-suffix, last_block, drop_string-after, split-nothing, count-place_array,
}
use surrealdb_c.Types.Owned.Slices.{
  free_arr, drop_strings, free_string_arr, place_strings, slice_ptr, cells_ptr,
}

place_strings-le : (ss : List StringT) (lo : ℕ) → lo ≤ (place_strings ss lo).1
place_strings-le [] lo = omega arith
place_strings-le (s ∷ ss) lo =
    omega (arith, place_string-le s lo, place_strings-le ss (place_string s lo).1)

drop_strings-after :
    (ss : List StringT) (lo : ℕ) (k : Live)
    → AreLive lo (place_strings ss lo).1 k
    → drop_strings (place_strings ss lo).0 k ≡ ok (after nothing lo (place_strings ss lo).1 k)
unfolding drop_strings
drop_strings-after [] lo k l = ap ok (after_none nothing lo k)
drop_strings-after (s ∷ ss) lo k l =
    let m = (place_string s lo).1 in
    let hi = (place_strings ss m).1 in
    then_after (drop_string (place_string s lo).0 k) (λ j. drop_strings (place_strings ss m).0 j)
      nothing nothing k lo m hi (place_string-le s lo) (place_strings-le ss m)
      (drop_string-after s lo k (AreLive-prefix lo m hi k (place_strings-le ss m) l))
      (drop_strings-after ss m (after nothing lo m k) (
        AreLive-after nothing k lo m m hi (omega arith)
          (AreLive-suffix lo m hi k (place_string-le s lo) l)))
    ∙ ap ok (after_ext (split m nothing nothing) nothing k lo hi (λ i a b. sym (split-nothing m i)))

length-place_strings : (ss : List StringT) (lo : ℕ) → length (place_strings ss lo).0 ≡ length ss
length-place_strings [] lo = refl
length-place_strings (s ∷ ss) lo = ap (λ n. suc n) (length-place_strings ss (place_string s lo).1)

free_string_arr-whole :
    (arr n : ℕ) (ps : List (Option ℕ)) (k : Live)
    → length ps ≡ suc n
    → suc n < 2147483648
    → free_string_arr (some arr) (as_c_int (suc n)) ps k
      ≡ (drop_strings ps k >>= λ l. free_block arr l)
unfolding free_string_arr as_usize
free_string_arr-whole arr n ps k e h = rw (as_c_int-pos (suc n) h, e) (ground arith)

free_arr-whole :
    (arr n : ℕ) (cs : Cells) (k : Live)
    → count cs ≡ suc n
    → suc n < 2147483648
    → free_arr (some arr) (as_c_int (suc n)) cs k ≡ (drop_cells cs k >>= λ l. free_block arr l)
unfolding free_arr as_usize
free_arr-whole arr n cs k e h = rw (as_c_int-pos (suc n) h, e) (ground arith)

-- The slice of strings, with its length.
pub free_string_arr-after :
    (ss : List StringT) (lo : ℕ) (k : Live)
    → length ss < 2147483648
    → AreLive lo (slice_ptr ss (place_strings ss lo).1).1 k
    → free_string_arr
        (slice_ptr ss (place_strings ss lo).1).0
        (as_c_int (length ss))
        (place_strings ss lo).0
        k
      ≡ ok (after nothing lo (slice_ptr ss (place_strings ss lo).1).1 k)
unfolding free_string_arr
free_string_arr-after [] lo k h l = ap ok (after_none nothing lo k)
free_string_arr-after (s ∷ ss) lo k h l =
    let m = (place_strings (s ∷ ss) lo).1 in
    let le = place_strings-le (s ∷ ss) lo in
    let ps = (place_strings (s ∷ ss) lo).0 in
    free_string_arr-whole m (length ss) ps k (length-place_strings (s ∷ ss) lo) h
    ∙ last_block (drop_strings ps k) nothing k lo m le (AreLive-suffix lo m (suc m) k le l)
        (drop_strings-after (s ∷ ss) lo k (AreLive-prefix lo m (suc m) k (omega arith) l))
    ∙ ap ok (
        after_ext (split m nothing nothing) nothing k lo (suc m) (λ i a b. sym (split-nothing m i)))

-- The slice of an array, with its length.
pub free_arr-after :
    (a : Array) (lo : ℕ) (k : Live)
    → length (as_slice a) < 2147483648
    → AreLive lo (cells_ptr (place_array a lo).0 (place_array a lo).1).1 k
    → drop_cells (place_array a lo).0 k ≡ ok (after (leaked_array a lo) lo (place_array a lo).1 k)
    → free_arr
        (cells_ptr (place_array a lo).0 (place_array a lo).1).0
        (as_c_int (length (as_slice a)))
        (place_array a lo).0
        k
      ≡ ok (
          after
            (split (place_array a lo).1 (leaked_array a lo) nothing)
            lo
            (cells_ptr (place_array a lo).0 (place_array a lo).1).1
            k)
unfolding free_arr as_slice
free_arr-after empty lo k h l e = ap ok (after_none (split lo nothing nothing) lo k)
free_arr-after (cons v vs) lo k h l e =
    let m = (place_array (cons v vs) lo).1 in
    let le = place_array-le (cons v vs) lo in
    let cs = (place_array (cons v vs) lo).0 in
    free_arr-whole m (length (as_slice vs)) cs k (count-place_array (cons v vs) lo) h
    ∙ last_block (drop_cells cs k) (leaked_array (cons v vs) lo) k lo m le
        (AreLive-suffix lo m (suc m) k le l) e
