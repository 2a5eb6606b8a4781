-- ===== src/Types/Owned/Clones.antt =====
-- Copies of values on the heap, and conversions that take a value over: `Clone` and `From<Value>` of
-- src/types, as far as memory goes.
pub mod Ranges
pub mod Copied
pub mod Placed
use surrealdb_c.Prelude.{ℕ, zero, suc, ◌+◌, ◌==◌, ◌&&◌, Bool, Option, none, some, if◌then◌else◌}
use surrealdb_c.Prelude.Int.{CInt, pos, as_c_int, as_usize, is_zero}
use surrealdb_c.Rust.Run.{Run, ok, fault, ◌>>=◌}
use surrealdb_c.Types.Owned.{
  Live, Cell, Cells, mem_plain, mem_string, mem_array, mem_object, mem_bytes, mem_geometry,
  mem_thing, no_cells, cell, count, free_block,
}
use surrealdb_c.Types.Owned.Blocks.{after}
use surrealdb_c.Types.Owned.Ranges.{everything}

-- `Clone for string_t`, `n` being the next address: what is freed cannot be read.
unfoldable pub clone_string : Option ℕ → ℕ → Live → Run (Option ℕ × ℕ)
clone_string none n k = ok (none, n)
clone_string (some a) n k = if k a then ok (some n, suc n) else fault

-- An array without elements, in its box.
abbrev pub empty_box : ℕ → Cell × ℕ
empty_box n = (mem_array n none (pos 0) no_cells, suc n)

unfoldable mutual
  unfolding clone_string as_usize as_c_int count

  -- The clone of a value, with the next address after it. A bytes value keeps the pointer of the
  -- original; every slice of a geometry is copied.
  pub clone_cell : Cell → ℕ → Live → Run (Cell × ℕ)
  clone_cell mem_plain n k = ok (mem_plain, n)
  clone_cell (mem_string s) n k = clone_string s n k >>= λ r. ok (mem_string r.0, r.1)
  clone_cell (mem_array box none len cs) n k = if k box then ok (empty_box n) else fault
  clone_cell (mem_array box (some arr) len cs) n k =
      let elements = clone_cells (as_usize len) cs (suc (suc n)) k in
      if k box
      then (if is_zero len
          then ok (empty_box n)
          else if k arr
          then (elements >>= λ r.
              ok (mem_array n (some (suc n)) (as_c_int (as_usize len)) r.0, r.1))
          else fault)
      else fault
  clone_cell (mem_object box cs) n k =
      let fields = clone_cells (count cs) cs (suc n) k in
      if k box then (fields >>= λ r. ok (mem_object n r.0, r.1)) else fault
  clone_cell (mem_bytes arr) n k = ok (mem_bytes arr, n)
  clone_cell (mem_geometry slices copies) n k = ok (mem_geometry slices copies, n + slices)
  clone_cell (mem_thing table id) n k =
      clone_string table n k >>= λ r. (clone_cell id r.1 k >>= λ s. ok (mem_thing r.0 s.0, s.1))

  -- So many of the elements: beyond their end is memory that is not theirs.
  pub clone_cells : ℕ → Cells → ℕ → Live → Run (Cells × ℕ)
  clone_cells zero cs n k = ok (no_cells, n)
  clone_cells (suc m) no_cells n k = fault
  clone_cells (suc m) (cell c cs) n k =
      clone_cell c n k >>= λ r. (clone_cells m cs r.1 k >>= λ s. ok (cell r.0 s.0, s.1))

-- `String::from(string_t)`, which reads the string and drops it.
unfoldable pub take_string : Option ℕ → Live → Run Live
unfolding free_block
take_string none k = fault
take_string (some a) k = free_block a k

-- `ArrayGen::into_vec` of bytes: the block is Rust's from then on.
unfoldable pub take_slice : Option ℕ → Live → Run Live
unfolding free_block
take_slice none k = ok k
take_slice (some a) k = free_block a k

unfoldable mutual
  unfolding take_string take_slice free_block as_usize count

  -- The blocks that `From<Value> for sdbValue`, which takes the value over, gives back or hands to
  -- Rust, in order. The slices of a geometry are only read.
  pub release_cell : Cell → Live → Run Live
  release_cell mem_plain k = ok k
  release_cell (mem_string s) k = take_string s k
  release_cell (mem_array box none len cs) k = free_block box k
  release_cell (mem_array box (some arr) len cs) k =
      (if is_zero len
        then ok k
        else if count cs == as_usize len
        then (release_cells cs k >>= λ l. free_block arr l)
        else fault)
      >>= λ l. free_block box l
  release_cell (mem_object box cs) k = release_cells cs k >>= λ l. free_block box l
  release_cell (mem_bytes arr) k = take_slice arr k
  release_cell (mem_geometry slices copies) k = ok k
  release_cell (mem_thing table id) k = take_string table k >>= λ l. release_cell id l

  pub release_cells : Cells → Live → Run Live
  release_cells no_cells k = ok k
  release_cells (cell c cs) k = release_cell c k >>= λ l. release_cells cs l

-- The slices of geometries that the conversion copies and leaks.
unfoldable mutual
  pub leaked_slices : Cell → ℕ
  leaked_slices (mem_geometry slices copies) = copies
  leaked_slices (mem_array box none len cs) = 0
  leaked_slices (mem_array box (some arr) len cs) = if is_zero len then 0 else leaked_all cs
  leaked_slices (mem_object box cs) = leaked_all cs
  leaked_slices (mem_thing table id) = leaked_slices id
  leaked_slices mem_plain = 0
  leaked_slices (mem_string s) = 0
  leaked_slices (mem_bytes arr) = 0

  pub leaked_all : Cells → ℕ
  leaked_all no_cells = 0
  leaked_all (cell c cs) = leaked_slices c + leaked_all cs

-- `From<Value> for sdbValue`, `n` being the next address, from which on the leaked copies are: no
-- address is given out twice, so that it does not matter when each was.
unfoldable pub take_cell : Cell → ℕ → Live → Run Live
unfolding release_cell leaked_slices
take_cell c n k = release_cell c k >>= λ l. ok (after everything n (n + leaked_slices c) l)

-- `unsafe { &*content }.clone()`, and its conversion: what the functions with a content do to memory.
unfoldable pub clone_and_take : Cell → ℕ → Live → Run Live
unfolding clone_cell take_cell
clone_and_take c n k = clone_cell c n k >>= λ r. take_cell r.0 r.1 (after everything n r.1 k)
