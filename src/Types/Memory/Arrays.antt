-- ===== src/Types/Memory/Arrays.antt =====
-- An array owns its block, and a clone has a block of its own.
use surrealdb_c.Prelude.{◌≡◌, ◌<◌, List, ◌∷◌, length, take-length, arith}
use surrealdb_c.Prelude.Int.{as_c_int-pos}
use surrealdb_c.Rust.Run.{ok, ◌>>=◌}
use surrealdb_c.Types.Memory.{Heap, make_array, as_slice, into_vec, free, clone}

-- An array of values, not empty and of fewer than 2^31, reads as those values. After a clone of it is
-- freed it still does, and after it is freed its clone still gives the values up.
pub clone_apart :
    {A : Type 0} (x : A) (xs : List A) (h : Heap A)
    → length (x ∷ xs) < 2147483648
    → (as_slice (make_array (x ∷ xs) h).0 (make_array (x ∷ xs) h).1 ≡ ok (x ∷ xs))
      × ((clone (make_array (x ∷ xs) h).0 (make_array (x ∷ xs) h).1 >>= λ c.
            free c.0 c.1 >>= λ h'. as_slice (make_array (x ∷ xs) h).0 h')
          ≡ ok (x ∷ xs))
      × ((clone (make_array (x ∷ xs) h).0 (make_array (x ∷ xs) h).1 >>= λ c.
            free (make_array (x ∷ xs) h).0 c.1 >>= λ h'. into_vec c.0 h' >>= λ r. ok r.0)
          ≡ ok (x ∷ xs))
unfolding make_array as_slice clone free into_vec
clone_apart x xs h k =
    let e = as_c_int-pos (length (x ∷ xs)) k in
    let t = take-length xs in
    (rw e (ground (arith, t)), rw e (ground (arith, t)), rw e (ground (arith, t)))
