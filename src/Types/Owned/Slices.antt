-- ===== src/Types/Owned/Slices.antt =====
-- The functions that free slices: `sr_free_arr`, `sr_free_string_arr` and `sr_free_arr_res`.
pub mod Laws
pub mod Results
use surrealdb_c.Prelude.{ℕ, suc, Option, none, some, List, [], ◌∷◌, length, ◌==◌, if◌then◌else◌}
use surrealdb_c.Prelude.Int.{CInt, pos, as_c_int, as_usize, le_zero}
use surrealdb_c.Rust.Run.{Run, ok, fault, ◌>>=◌}
use surrealdb_c.Types.Strings.{StringT}
use surrealdb_c.Types.Owned.{
  Live, Cells, no_cells, cell, count, free_block, drop_string, drop_cells, place_string,
}

-- `sr_free_arr`, which is `ArrayGen::free` and what `Drop for Array` calls: a slice that is freed under
-- another length is undefined behaviour.
unfoldable pub free_arr : Option ℕ → CInt → Cells → Live → Run Live
unfolding as_usize
free_arr none len cs k = ok k
free_arr (some ptr) len cs k =
    if le_zero len
    then ok k
    else if count cs == as_usize len
    then (drop_cells cs k >>= λ l. free_block ptr l)
    else fault

-- The loop over the strings of a slice.
unfoldable pub drop_strings : List (Option ℕ) → Live → Run Live
drop_strings [] k = ok k
drop_strings (s ∷ ss) k = drop_string s k >>= λ l. drop_strings ss l

-- `sr_free_string_arr`
unfoldable pub free_string_arr : Option ℕ → CInt → List (Option ℕ) → Live → Run Live
unfolding as_usize
free_string_arr none len ss k = ok k
free_string_arr (some arr) len ss k =
    if le_zero len
    then ok k
    else if length ss == as_usize len
    then (drop_strings ss k >>= λ l. free_block arr l)
    else fault

-- `sr_free_arr_res`: the array and then the message are dropped.
unfoldable pub free_arr_res : Option ℕ → CInt → Cells → Option ℕ → Live → Run Live
free_arr_res arr len cs msg k = free_arr arr len cs k >>= λ l. drop_string msg l

-- The strings from an address on, and then their slice, if they have any.
abbrev pub place_strings : List StringT → ℕ → List (Option ℕ) × ℕ
place_strings [] a = ([], a)
place_strings (s ∷ ss) a =
    let (p, b) = place_string s a in let (ps, c) = place_strings ss b in (p ∷ ps, c)

abbrev pub slice_ptr : {A : Type 0} → List A → ℕ → Option ℕ × ℕ
slice_ptr [] a = (none, a)
slice_ptr (_ ∷ _) a = (some a, suc a)

abbrev pub cells_ptr : Cells → ℕ → Option ℕ × ℕ
cells_ptr no_cells a = (none, a)
cells_ptr (cell _ _) a = (some a, suc a)
