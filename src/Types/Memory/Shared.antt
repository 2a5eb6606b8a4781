-- ===== src/Types/Memory/Shared.antt =====
-- `Bytes::clone` shares the block of the original.
use surrealdb_c.Prelude.{ℕ, ◌≡◌, ◌<◌, List, ◌∷◌, length, arith}
use surrealdb_c.Prelude.Int.{as_c_int-pos}
use surrealdb_c.Rust.Run.{Run, ok, fault, ◌>>=◌}
use surrealdb_c.Types.Memory.{
  Heap, Bytes, as_slice, free_bytes, clone_bytes, bytes_from_sdb, bytes_to_sdb,
}

-- What the functions with a content do with bytes in it: they clone the bytes and convert the clone.
abbrev pub send : Bytes → Heap ℕ → Run (List ℕ × Heap ℕ)
send bytes h = bytes_to_sdb (clone_bytes bytes) h

-- Bytes that are not empty, of fewer than 2^31, are sent once as they are. The same bytes cannot be
-- read, freed or sent after that: each is an access to freed memory.
pub send_once :
    (x : ℕ) (xs : List ℕ) (h : Heap ℕ)
    → length (x ∷ xs) < 2147483648
    → ((send (bytes_from_sdb (x ∷ xs) h).0 (bytes_from_sdb (x ∷ xs) h).1 >>= λ r. ok r.0)
        ≡ ok (x ∷ xs))
      × ((send (bytes_from_sdb (x ∷ xs) h).0 (bytes_from_sdb (x ∷ xs) h).1 >>= λ r.
            as_slice (bytes_from_sdb (x ∷ xs) h).0 r.1)
          ≡ fault)
      × ((send (bytes_from_sdb (x ∷ xs) h).0 (bytes_from_sdb (x ∷ xs) h).1 >>= λ r.
            free_bytes (bytes_from_sdb (x ∷ xs) h).0 r.1)
          ≡ fault)
      × ((send (bytes_from_sdb (x ∷ xs) h).0 (bytes_from_sdb (x ∷ xs) h).1 >>= λ r.
            send (bytes_from_sdb (x ∷ xs) h).0 r.1)
          ≡ fault)
unfolding bytes_from_sdb bytes_to_sdb clone_bytes as_slice free_bytes
send_once x xs h k =
    let e = as_c_int-pos (length (x ∷ xs)) k in
    (rw e (ground arith), rw e (ground arith), rw e (ground arith), rw e (ground arith))
