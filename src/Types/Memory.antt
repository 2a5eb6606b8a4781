-- ===== src/Types/Memory.antt =====
-- Who owns the memory behind an array: `ArrayGen<T>` of src/types/array.rs and `Bytes` of
-- src/types/bytes.rs, on a heap of blocks.
pub mod Arrays
pub mod Shared
use surrealdb_c.Prelude.{
  ℕ, ◌+◌, Bool, true, false, Option, none, some, List, [], ◌∷◌, length, take, ltb, ◌==◌,
  if◌then◌else◌, ◌||◌,
}
use surrealdb_c.Prelude.Int.{CInt, pos, as_c_int, as_usize, le_zero, is_zero}
use surrealdb_c.Rust.Run.{Run, ok, fault, ◌>>=◌}

-- `at a` is the content of the block at `a`, if it was given out and is not freed.
pub record Heap (A : Type 0) : Type 0 where
  pub next : ℕ
  pub at : ℕ → Option (List A)

-- A pointer: null, that of an empty slice (which has no block), or one to a block.
pub data Ptr : Type 0 where
  null dangling : Ptr
  block : ℕ → Ptr

abbrev pub is_null_ptr : Ptr → Bool
is_null_ptr null = true
is_null_ptr dangling = false
is_null_ptr (block _) = false

-- `ArrayGen<T>`; `Bytes` has the same fields.
pub record ArrayGen : Type 0 where
  pub ptr : Ptr
  pub len : CInt

abbrev pub Bytes : Type 0
Bytes = ArrayGen

module _ {A : Type 0} where
  abbrev set_at : ℕ → Option (List A) → Heap A → Heap A
  set_at a b h = record h { at = λ i. if i == a then b else h.at i }

  -- A slice on the heap, as `Box::leak` leaves it.
  unfoldable pub leak : List A → Heap A → Ptr × Heap A
  leak [] h = (dangling, h)
  leak (x ∷ xs) h =
      (block h.next, record { next = h.next + 1; at = (set_at h.next (some (x ∷ xs)) h).at })

  -- `Vec::make_array`
  unfoldable pub make_array : List A → Heap A → ArrayGen × Heap A
  unfolding leak
  make_array vec h =
      let (p, h') = leak vec h in (record { ptr = p; len = as_c_int (length vec) }, h')

  -- `&*slice_from_raw_parts(ptr, len)`: what is freed, or shorter, cannot be read.
  unfoldable pub read_block : Option (List A) → ℕ → Run (List A)
  read_block none len = fault
  read_block (some content) len = if ltb (length content) len then fault else ok (take len content)

  unfoldable pub read : Ptr → ℕ → Heap A → Run (List A)
  unfolding read_block
  read null len h = fault
  read dangling len h = fault
  read (block a) len h = read_block (h.at a) len

  -- `ArrayGen::as_slice` and `Bytes::as_slice`
  unfoldable pub as_slice : ArrayGen → Heap A → Run (List A)
  unfolding read as_usize
  as_slice arr h =
      if is_null_ptr arr.ptr || is_zero arr.len then ok [] else read arr.ptr (as_usize arr.len) h

  -- `Box::from_raw` of the slice: its content, and the heap without its block. A block that is freed,
  -- or of another length, cannot be taken back.
  unfoldable pub take_block : ℕ → Option (List A) → ℕ → Heap A → Run (List A × Heap A)
  take_block a none len h = fault
  take_block a (some content) len h =
      if length content == len then ok (content, set_at a none h) else fault

  unfoldable pub from_raw : Ptr → ℕ → Heap A → Run (List A × Heap A)
  unfolding take_block
  from_raw null len h = fault
  from_raw dangling len h = fault
  from_raw (block a) len h = take_block a (h.at a) len h

  -- `ArrayGen::into_vec`
  unfoldable pub into_vec : ArrayGen → Heap A → Run (List A × Heap A)
  unfolding from_raw as_usize
  into_vec arr h =
      if is_null_ptr arr.ptr || is_zero arr.len
      then ok ([], h)
      else from_raw arr.ptr (as_usize arr.len) h

  -- `ArrayGen::free`
  unfoldable pub free : ArrayGen → Heap A → Run (Heap A)
  unfolding from_raw as_usize
  free arr h =
      if is_null_ptr arr.ptr || le_zero arr.len
      then ok h
      else do r ← from_raw arr.ptr (as_usize arr.len) h; ok r.1

  -- `ArrayGen::clone`, for values that are copied as they are.
  unfoldable pub clone : ArrayGen → Heap A → Run (ArrayGen × Heap A)
  unfolding make_array read as_usize
  clone arr h =
      if is_null_ptr arr.ptr || is_zero arr.len
      then ok (record { ptr = null; len = pos 0 }, h)
      else do slice ← read arr.ptr (as_usize arr.len) h; ok (make_array slice h)

-- `Bytes::clone`
unfoldable pub clone_bytes : Bytes → Bytes
clone_bytes bytes = record { ptr = bytes.ptr; len = bytes.len }

-- `Bytes::from(ArrayGen<u8>)` and back
abbrev pub bytes_of_gen : ArrayGen → Bytes
bytes_of_gen value = record { ptr = value.ptr; len = value.len }

abbrev pub gen_of_bytes : Bytes → ArrayGen
gen_of_bytes value = record { ptr = value.ptr; len = value.len }

-- `Bytes::as_slice`
unfoldable pub bytes_as_slice : Bytes → Heap ℕ → Run (List ℕ)
unfolding read as_usize
bytes_as_slice bytes h =
    if is_null_ptr bytes.ptr || is_zero bytes.len
    then ok []
    else read bytes.ptr (as_usize bytes.len) h

-- `struct Array`, as its two fields, with `Array::empty`; `From<ArrayGen<Value>> for Array` and back, of
-- an array that is taken over and of one that is not; `Array::clone`, for values that are copied as they
-- are.
abbrev pub RawArray : Type 0
RawArray = ArrayGen

unfoldable pub raw_empty : RawArray
raw_empty = record { ptr = null; len = pos 0 }

abbrev pub raw_of_gen : ArrayGen → RawArray
raw_of_gen value = record { ptr = value.ptr; len = value.len }

abbrev pub gen_of_raw : RawArray → ArrayGen
gen_of_raw value = record { ptr = value.ptr; len = value.len }

abbrev pub gen_of_raw_ref : RawArray → ArrayGen
gen_of_raw_ref value = record { ptr = value.ptr; len = value.len }

unfoldable pub raw_clone : {A : Type 0} → RawArray → Heap A → Run (RawArray × Heap A)
unfolding clone
raw_clone arr h = do (copy, h') ← clone (gen_of_raw_ref arr) h; ok (raw_of_gen copy, h')

-- `Bytes::from(sdbBytes)` and `sdbBytes::from(Bytes)`
unfoldable pub bytes_from_sdb : List ℕ → Heap ℕ → Bytes × Heap ℕ
unfolding make_array
bytes_from_sdb value h = let (a, h') = make_array value h in (bytes_of_gen a, h')

unfoldable pub bytes_to_sdb : Bytes → Heap ℕ → Run (List ℕ × Heap ℕ)
unfolding into_vec
bytes_to_sdb value h = into_vec (gen_of_bytes value) h

-- `sr_free_bytes` and `sr_free_byte_arr`
unfoldable pub free_bytes : Bytes → Heap ℕ → Run (Heap ℕ)
unfolding free
free_bytes bytes h = free (record { ptr = bytes.ptr; len = bytes.len }) h

unfoldable pub free_byte_arr : Ptr → CInt → Heap ℕ → Run (Heap ℕ)
unfolding free
free_byte_arr ptr len h = free (record { ptr = ptr; len = len }) h
