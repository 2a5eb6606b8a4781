-- ===== src/Client/Rows.antt =====
-- How the operations of src/lib.rs turn a reply into the array that they write at `res_ptr`.
pub mod RoundTrip
use surrealdb_c.Prelude.{ℕ, ◌≡◌, refl, ◌<◌, Bool, Option, none, some, List, [], ◌∷◌, length}
use surrealdb_c.Prelude.Int.{CInt, pos, as_c_int, as_c_int-pos}
use surrealdb_c.Rust.Run.{Run}
use surrealdb_c.Sdb.{SdbTypes, SdbValue, SdbFields, sdb_array, list_of_items}
use surrealdb_c.Types.Strings.{StringT}
use surrealdb_c.Types.Values.{Value, Array, Object, array_of, as_slice}
use surrealdb_c.Types.FromSdb.{value_from_sdb, array_from_sdb}
use surrealdb_c.Types.ToSdb.{value_to_sdb, sdb_object_from}
use surrealdb_c.Client.Engine.{Engine, Async, faulted, lift, pure, of_ended}

module _ (E : SdbTypes) where
  -- `match val { sdbValue::Array(a) => Array::from(a), v => Array::from(vec![Value::from(v)]) }`
  unfoldable pub rows : SdbValue E → Array
  rows (sdb_array a) = array_from_sdb E a
  rows v = array_of (value_from_sdb E v ∷ [])

-- `res_ptr.write(ptr); Ok(len as c_int)`, the length being the array's.
unfoldable pub rows_code : Array → CInt
rows_code a = as_c_int (length (as_slice a))

unfoldable pub write_rows : {Db : Type 0} → Array → Async Db (CInt × Option Array)
unfolding rows_code
write_rows a = pure (rows_code a, some a)

-- `sdbObject::from(unsafe { &*content }.clone())`, and a fault at a null pointer.
unfoldable pub object_at : {Db : Type 0} (E : SdbTypes) → Option Object → Async Db (SdbFields E)
object_at E none d = (faulted, d)
object_at E (some o) d = lift (sdb_object_from E o) d

-- `unsafe { &*value }.clone().into()`
unfoldable pub value_at : {Db : Type 0} (E : SdbTypes) → Option Value → Async Db (SdbValue E)
value_at E none d = (faulted, d)
value_at E (some v) d = lift (value_to_sdb E v) d

-- `res.take(0).map_err(|e| string_t::from(e.to_string()))?`, where the answer is then dropped
unfoldable pub take_first : {E : SdbTypes} (G : Engine E) → G.Response → Async G.Db (SdbValue E)
take_first G res d = (of_ended (G.take 0 res).0, d)
