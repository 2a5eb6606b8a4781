-- ===== src/Tests/Owned.antt =====
-- The theorems on what frees memory.
use surrealdb_c.Prelude.{◌≡◌, refl, true, false, some, [], ◌∷◌, text, arith, ltb}
use surrealdb_c.Rust.Run.{ok, fault, ◌>>=◌}
use surrealdb_c.Types.Values.{
  Value, Object, sr_value_array, sr_value_object, sr_value_strand, sr_value_bytes, cons, empty,
  entry, end, as_slice,
}
use surrealdb_c.Types.Owned.{
  Live, Cell, mem_bytes, mem_geometry, value_free, place_value, drop_cell, free_block,
}
use surrealdb_c.Types.Owned.Clones.{
  clone_and_take, clone_cell, take_cell, release_cell, leaked_slices, take_slice,
}
use surrealdb_c.Types.Owned.Clones.Placed.{clone_and_take-keeps}
use surrealdb_c.Types.Owned.Blocks.{after}
use surrealdb_c.Types.Owned.Ranges.{everything}
use surrealdb_c.Types.Owned.Balance.{boxed, left, value_free-left, value_free-balance}
use surrealdb_c.Types.Owned.Owners.{an_object, free_owner, leaked_owner, end_of, free_owner_lem}

-- ["x", a byte] and { a: ["x"] }
abbrev mixed : Value
mixed =
    sr_value_array (cons (sr_value_strand (some (text "x"))) (cons (sr_value_bytes (1 ∷ [])) empty))

abbrev nested : Object
nested = entry (text "a") (sr_value_array (cons (sr_value_strand (some (text "x"))) empty)) end

-- The blocks below five are live.
abbrev five : Live
five i = ltb i 5

value_free-left_example :
    (value_free (boxed mixed 0) five ≡ ok (left mixed 0 five))
    × (value_free (boxed mixed 0) (left mixed 0 five) ≡ fault)
unfolding as_slice
value_free-left_example =
    value_free-left mixed 0 five (ground arith, (tt, (tt, tt))) (λ i a b. ground arith)

-- The slice of the byte is still there.
bytes_stay : left mixed 0 five 1 ≡ true
bytes_stay = refl

value_free-balance_example :
    value_free (boxed (sr_value_object nested) 0) (after everything 0 5 (λ _. false))
    ≡ ok (λ _. false)
unfolding as_slice
value_free-balance_example =
    value_free-balance (sr_value_object nested) 0 (λ _. false) ((ground arith, (tt, tt)), tt)
      ((tt, tt), tt) (λ i h. refl)

free_owner_lem_example :
    free_owner (an_object nested) 0 five
    ≡ ok (after (leaked_owner (an_object nested) 0) 0 (end_of (an_object nested) 0) five)
unfolding as_slice
free_owner_lem_example =
    free_owner_lem (an_object nested) 0 five ((ground arith, (tt, tt)), tt) (λ i a b. ground arith)

-- The blocks of { a: ["x"] }, at 0 to 3, are cloned to 4 and on.
abbrev four : Live
four i = ltb i 4

clone_and_take-keeps_example :
    (clone_and_take (place_value (sr_value_object nested) 0).0 4 four ≡ ok four)
    × ((copy : Cell) × (next : _) × (clone_cell (place_value (sr_value_object nested) 0).0 4 four
          ≡ ok (copy, next))
        × (drop_cell copy (after everything 4 next four) ≡ ok four))
unfolding as_slice
clone_and_take-keeps_example =
    clone_and_take-keeps (sr_value_object nested) 0 4 four ((ground arith, (tt, tt)), tt)
      ((tt, tt), tt) ((tt, tt), tt) (λ i a b. ground arith) (λ i h. ground arith)

-- A bytes value shares its block with the clone: after one call the block is gone, and the second faults.
bytes_once :
    (clone_and_take (mem_bytes (some 0)) 4 four >>= λ k. clone_and_take (mem_bytes (some 0)) 4 k)
    ≡ fault
unfolding clone_and_take clone_cell take_cell release_cell take_slice free_block
bytes_once = refl

-- A polygon with one ring inside, three slices: the clone's stay, and so does the ring's copy.
polygon_leaked :
    clone_and_take (mem_geometry 3 1) 4 four ≡ ok (after everything 7 8 (after everything 4 7 four))
unfolding clone_and_take clone_cell take_cell release_cell leaked_slices
polygon_leaked = refl
