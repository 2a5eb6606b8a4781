-- ===== src/Types/Owned.antt =====
-- The memory that a value of C owns, and what frees it: the `Drop` of strings and arrays, `ArrayGen::free`,
-- `sr_value_free`, `sr_array_free`, `sr_free_object` and `sr_free_string`; what takes a slice is in Slices.
-- `Bytes` and the geometries of src/types have no `Drop`.
pub mod Blocks
pub mod Ranges
pub mod Parts
pub mod Freed
pub mod Balance
pub mod Slices
pub mod Owners
pub mod Clones
use surrealdb_c.Prelude.{
  ℕ, suc, ◌+◌, Bool, true, false, ◌&&◌, ◌||◌, Option, none, some, List, [], ◌∷◌, Text, length, ltb,
  leb, ◌==◌, if◌then◌else◌,
}
use surrealdb_c.Prelude.Int.{CInt, pos, as_c_int, as_usize, le_zero}
use surrealdb_c.Rust.Run.{Run, ok, fault, ◌>>=◌}
use surrealdb_c.Types.Strings.{StringT, is_null}
use surrealdb_c.Types.Numbers.{Number, sr_number_int, sr_number_float, sr_number_decimal}
use surrealdb_c.Types.Geometries.Blocks.{geometry_blocks, geometry_copies}
use surrealdb_c.Types.Values.{
  Value, Thing, ThingId, Array, Object, sr_value_none, sr_value_null, sr_value_bool,
  sr_value_number, sr_value_strand, sr_value_duration, sr_value_datetime, sr_value_uuid,
  sr_value_array, sr_value_object, sr_geometry_object, sr_value_bytes, sr_value_thing, thing,
  sr_id_number, sr_id_string, sr_id_array, sr_id_object, empty, cons, end, entry,
}

-- The blocks that are given out and not freed, by their address.
abbrev pub Live : Type 0
Live = ℕ → Bool

-- What a value holds in memory, as far as freeing it goes.
mutual
  pub data Cell : Type 0 where
    -- nothing on the heap
    mem_plain : Cell
    mem_string : Option ℕ → Cell
    -- the box, and `arr` and `len` with the elements behind them
    mem_array : ℕ → Option ℕ → CInt → Cells → Cell
    -- the box with the map
    mem_object : ℕ → Cells → Cell
    -- the slice
    mem_bytes : Option ℕ → Cell
    -- the number of its slices, and of those that its conversion copies
    mem_geometry : ℕ → ℕ → Cell
    mem_thing : Option ℕ → Cell → Cell

  pub data Cells : Type 0 where
    no_cells : Cells
    cell : Cell → Cells → Cells

unfoldable pub count : Cells → ℕ
count no_cells = 0
count (cell _ cs) = suc (count cs)

-- Giving a block back: one that is not given out is a double free.
unfoldable pub free_block : ℕ → Live → Run Live
free_block a k = if k a then ok (λ i. if i == a then false else k i) else fault

-- `Drop for string_t`
unfoldable pub drop_string : Option ℕ → Live → Run Live
unfolding free_block
drop_string none k = ok k
drop_string (some a) k = free_block a k

unfoldable mutual
  unfolding drop_string free_block as_usize count

  -- The drop of a value: its own `Drop`, then those of its fields in order.
  pub drop_cell : Cell → Live → Run Live
  drop_cell mem_plain k = ok k
  drop_cell (mem_string s) k = drop_string s k
  drop_cell (mem_array box none len cs) k = free_block box k
  drop_cell (mem_array box (some arr) len cs) k =
      (if le_zero len
        then ok k
        else if count cs == as_usize len
        then (drop_cells cs k >>= λ l. free_block arr l)
        else fault)
      >>= λ l. free_block box l
  drop_cell (mem_object box cs) k = drop_cells cs k >>= λ l. free_block box l
  drop_cell (mem_bytes arr) k = ok k
  drop_cell (mem_geometry slices copies) k = ok k
  drop_cell (mem_thing table id) k = drop_string table k >>= λ l. drop_cell id l

  pub drop_cells : Cells → Live → Run Live
  drop_cells no_cells k = ok k
  drop_cells (cell c cs) k = drop_cell c k >>= λ l. drop_cells cs l

-- `sr_value_free`: the box is taken back, its value dropped, and the box freed.
unfoldable pub value_free : Option (ℕ × Cell) → Live → Run Live
unfolding drop_cell free_block
value_free none k = ok k
value_free (some (box, c)) k = if k box then (drop_cell c k >>= λ l. free_block box l) else fault

-- A string is copied to a new block, `n` being the next address.
abbrev pub place_string : StringT → ℕ → Option ℕ × ℕ
place_string none n = (none, n)
place_string (some s) n = (some n, suc n)

abbrev pub slice_at_next : {A : Type 0} → List A → ℕ → Option ℕ × ℕ
slice_at_next [] n = (none, n)
slice_at_next (_ ∷ _) n = (some n, suc n)

-- The box of an array whose elements are placed: after them its slice, if it has any.
abbrev pub boxed_array : Cells × ℕ → Cell × ℕ
boxed_array (no_cells, n) = (mem_array n none (pos 0) no_cells, suc n)
boxed_array (cell c cs, n) =
    (mem_array (suc n) (some n) (as_c_int (suc (count cs))) (cell c cs), suc (suc n))

abbrev pub place_number : Number → ℕ → Cell × ℕ
place_number (sr_number_int _) a = (mem_plain, a)
place_number (sr_number_float _) a = (mem_plain, a)
place_number (sr_number_decimal s) a = let (p, b) = place_string s a in (mem_string p, b)

-- A value is put on the heap, from the next address on: what the conversions and the constructors leave
-- there.
abbrev mutual
  pub place_value : Value → ℕ → Cell × ℕ
  place_value (sr_value_number n) a = place_number n a
  place_value (sr_value_strand s) a = let (p, b) = place_string s a in (mem_string p, b)
  place_value (sr_value_datetime s) a = let (p, b) = place_string s a in (mem_string p, b)
  place_value (sr_value_array vs) a = boxed_array (place_array vs a)
  place_value (sr_value_object o) a = let (cs, b) = place_object o a in (mem_object b cs, suc b)
  place_value (sr_geometry_object g) a =
      (mem_geometry (geometry_blocks g) (geometry_copies g), a + geometry_blocks g)
  place_value (sr_value_bytes bs) a = let (p, b) = slice_at_next bs a in (mem_bytes p, b)
  place_value (sr_value_thing t) a = place_thing t a
  place_value sr_value_none a = (mem_plain, a)
  place_value sr_value_null a = (mem_plain, a)
  place_value (sr_value_bool _) a = (mem_plain, a)
  place_value (sr_value_duration _) a = (mem_plain, a)
  place_value (sr_value_uuid _) a = (mem_plain, a)

  pub place_thing : Thing → ℕ → Cell × ℕ
  place_thing (thing t i) a =
      let (p, b) = place_string t a in let (c, d) = place_id i b in (mem_thing p c, d)

  pub place_id : ThingId → ℕ → Cell × ℕ
  place_id (sr_id_number _) a = (mem_plain, a)
  place_id (sr_id_string s) a = let (p, b) = place_string s a in (mem_string p, b)
  place_id (sr_id_array vs) a = boxed_array (place_array vs a)
  place_id (sr_id_object o) a = let (cs, b) = place_object o a in (mem_object b cs, suc b)

  pub place_array : Array → ℕ → Cells × ℕ
  place_array empty a = (no_cells, a)
  place_array (cons v vs) a =
      let (c, b) = place_value v a in let (cs, d) = place_array vs b in (cell c cs, d)

  pub place_object : Object → ℕ → Cells × ℕ
  place_object end a = (no_cells, a)
  place_object (entry k v o) a =
      let (c, b) = place_value v a in let (cs, d) = place_object o b in (cell c cs, d)

-- `sr_free_string`
unfoldable pub free_string : Option ℕ → Live → Run Live
unfolding drop_string
free_string string k = drop_string string k

-- `sr_free_object`: the object is passed by value, its box and map with it.
unfoldable pub free_object : ℕ × Cells → Live → Run Live
unfolding drop_cell
free_object (box, cs) k = drop_cell (mem_object box cs) k

-- `sr_array_free`: the array is in a box.
unfoldable pub array_free : Option Cell → Live → Run Live
unfolding drop_cell
array_free none k = ok k
array_free (some arr) k = drop_cell arr k
