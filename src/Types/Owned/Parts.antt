-- ===== src/Types/Owned/Parts.antt =====
-- Freeing strings, boxes and arrays that were put on the heap.
use surrealdb_c.Prelude.{ℕ, suc, ◌≡◌, ◌≤◌, ◌<◌, refl, ap, ◌∙◌, none, some, length, arith}
use surrealdb_c.Prelude.Int.{pos, as_c_int, as_c_int-pos, as_usize}
use surrealdb_c.Rust.Run.{Run, ok, ◌>>=◌}
use surrealdb_c.Types.Strings.{StringT}
use surrealdb_c.Types.Values.{Array, empty, cons, as_slice}
use surrealdb_c.Types.Owned.{
  Live, Cell, Cells, no_cells, cell, mem_array, count, free_block, drop_string, drop_cell,
  drop_cells, place_string, boxed_array, place_value, place_array,
}
use surrealdb_c.Types.Owned.Blocks.{
  AreLive, after, split, nothing, after_none, free_block-after, AreLive-after, then_after,
  after_ext,
}
use surrealdb_c.Types.Owned.Ranges.{leaked_array, place_array-le}

-- A prefix of a live range is live.
pub AreLive-prefix : (lo m hi : ℕ) (k : Live) → m ≤ hi → AreLive lo hi k → AreLive lo m k
AreLive-prefix lo m hi k h l i a b = l i a (omega arith)

pub AreLive-suffix : (lo m hi : ℕ) (k : Live) → lo ≤ m → AreLive lo hi k → AreLive m hi k
AreLive-suffix lo m hi k h l i a b = l i (omega arith) b

-- The block at the end of a range, after the others.
pub last_block :
    (r : Run Live) (p k : Live) (lo m : ℕ)
    → lo ≤ m
    → AreLive m (suc m) k
    → r ≡ ok (after p lo m k)
    → (r >>= λ l. free_block m l) ≡ ok (after (split m p nothing) lo (suc m) k)
last_block r p k lo m h l e =
    then_after r (λ l. free_block m l) p nothing k lo m (suc m) h (omega arith) e
      (free_block-after (after p lo m k) m
        (AreLive-after p k lo m m (suc m) (omega arith) l m (omega arith) (omega arith)))

pub drop_string-after :
    (s : StringT) (lo : ℕ) (k : Live)
    → AreLive lo (place_string s lo).1 k
    → drop_string (place_string s lo).0 k ≡ ok (after nothing lo (place_string s lo).1 k)
unfolding drop_string
drop_string-after none lo k l = ap ok (after_none nothing lo k)
drop_string-after (some s) lo k l = free_block-after k lo (l lo (omega arith) (omega arith))

pub count-place_array : (a : Array) (lo : ℕ) → count (place_array a lo).0 ≡ length (as_slice a)
unfolding count as_slice
count-place_array empty lo = refl
count-place_array (cons v vs) lo = ap (λ n. suc n) (count-place_array vs (place_value v lo).1)

-- `ArrayGen::free` on an array whose length is that of its slice.
free_array :
    (box arr n : ℕ) (cs : Cells) (k : Live)
    → count cs ≡ suc n
    → count cs < 2147483648
    → drop_cell (mem_array box (some arr) (as_c_int (suc n)) cs) k
      ≡ ((drop_cells cs k >>= λ l. free_block arr l) >>= λ l. free_block box l)
unfolding drop_cell as_usize
free_array box arr n cs k e h = rw (as_c_int-pos (suc n) (omega (arith, e, h)), e) (ground arith)

free_empty :
    (box : ℕ) (k : Live) → drop_cell (mem_array box none (pos 0) no_cells) k ≡ free_block box k
unfolding drop_cell
free_empty box k = refl

pub count-cell : (c : Cell) (cs : Cells) → count (cell c cs) ≡ suc (count cs)
unfolding count
count-cell c cs = refl

pub split-nothing : (m i : ℕ) → nothing i ≡ split m nothing nothing i
split-nothing m i = ground arith

split-split :
    (m : ℕ) (p : Live) (i : ℕ) → split (suc m) (split m p nothing) nothing i ≡ split m p nothing i
split-split m p i = ground arith

pub boxed_after :
    (a : Array) (lo : ℕ) (k : Live)
    → length (as_slice a) < 2147483648
    → AreLive lo (boxed_array (place_array a lo)).1 k
    → drop_cells (place_array a lo).0 k ≡ ok (after (leaked_array a lo) lo (place_array a lo).1 k)
    → drop_cell (boxed_array (place_array a lo)).0 k
      ≡ ok (
          after
            (split (place_array a lo).1 (leaked_array a lo) nothing)
            lo
            (boxed_array (place_array a lo)).1
            k)
boxed_after empty lo k h l e =
    free_empty lo k
    ∙ free_block-after k lo (l lo (omega arith) (omega arith))
    ∙ ap ok
        (after_ext nothing (split lo nothing nothing) k lo (suc lo) (λ i a b. split-nothing lo i))
boxed_after (cons v vs) lo k h l e =
    let m = (place_array (cons v vs) lo).1 in
    let le = place_array-le (cons v vs) lo in
    let p = leaked_array (cons v vs) lo in
    let cs = (place_array (cons v vs) lo).0 in
    free_array (suc m) m (count (place_array vs (place_value v lo).1).0) cs k (count-cell _ _)
      (omega (arith, count-place_array (cons v vs) lo, h))
    ∙ last_block (drop_cells cs k >>= λ j. free_block m j) (split m p nothing) k lo (suc m)
        (omega (arith, le)) (AreLive-suffix lo (suc m) (suc (suc m)) k (omega (arith, le)) l)
        (last_block (drop_cells cs k) p k lo m le
          (AreLive-prefix m (suc m) (suc (suc m)) k (omega arith)
            (AreLive-suffix lo m (suc (suc m)) k le l))
          e)
    ∙ ap ok (
        after_ext (split (suc m) (split m p nothing) nothing) (split m p nothing) k lo (suc (suc m))
          (λ i a b. split-split m p i))
