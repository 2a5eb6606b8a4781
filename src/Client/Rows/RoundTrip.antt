-- ===== src/Client/Rows/RoundTrip.antt =====
-- What an operation writes at `res_ptr` is the reply.
use surrealdb_c.Prelude.{◌≡◌, ap, ◌∙◌, ◌<◌, List, [], ◌∷◌, length}
use surrealdb_c.Prelude.Int.{pos, as_c_int-pos}
use surrealdb_c.Rust.Run.{ok}
use surrealdb_c.Sdb.{SdbTypes, SdbLaws, SdbValue, sdb_array, list_of_items}
use surrealdb_c.Types.Values.{as_slice, array_of_one, array_from_slice, as_slice-array_of}
use surrealdb_c.Types.FromSdb.{array_from_sdb, items_from_sdb}
use surrealdb_c.Types.ToSdb.{array_to_sdb}
use surrealdb_c.Types.ToSdb.Fits.{length-items_from_sdb}
use surrealdb_c.Types.ToSdb.Clean.{IsClean}
use surrealdb_c.Types.ToSdb.RoundTrip.{value_to_sdb-value_from_sdb, array_to_sdb-array_from_sdb}
use surrealdb_c.Client.Rows.{rows, rows_code}

-- The elements of a reply: those of an array, or the one value.
abbrev pub elements : {E : SdbTypes} → SdbValue E → List (SdbValue E)
elements (sdb_array a) = list_of_items a
elements v = v ∷ []

module _ (E : SdbTypes) where
  length-rows :
      (v : SdbValue E)
      → length (elements v) < 2147483648
      → length (as_slice (rows E v)) ≡ length (elements v)
  unfolding rows array_from_sdb
  length-rows (sdb_array a) h =
      ap length (as_slice-array_of (items_from_sdb E a) (rw (length-items_from_sdb E a) h))
      ∙ length-items_from_sdb E a
  length-rows _ h = ap length (as_slice-array_of _ h)

  -- For a reply of fewer than 2^31 elements, a single value being one, the code that is returned
  -- counts them.
  pub rows_code-length :
      (v : SdbValue E)
      → length (elements v) < 2147483648
      → rows_code (rows E v) ≡ pos (length (elements v))
  unfolding rows_code
  rows_code-length v h = rw (length-rows v h) (as_c_int-pos (length (elements v)) h)

module _ (E : SdbTypes) (laws : SdbLaws E) where
  -- If the crates keep their laws, the array written for a clean reply, which is no array of
  -- 2^31 elements or more and holds no arrays, bytes or geometries of so many, converts back to the
  -- reply's elements, in order.
  pub array_to_sdb-rows : (v : SdbValue E) → IsClean v → array_to_sdb E (rows E v) ≡ ok (elements v)
  unfolding rows array_to_sdb array_from_slice
  array_to_sdb-rows (sdb_array a) h = array_to_sdb-array_from_sdb E laws a h.0 h.1
  array_to_sdb-rows _ h = rw (array_of_one, value_to_sdb-value_from_sdb E laws _ h)
