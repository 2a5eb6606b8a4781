-- ===== src/Client/Connect.antt =====
-- `sr_connect` of src/lib.rs
use surrealdb_c.Prelude.{false, Option, none, some, text, if◌then◌else◌}
use surrealdb_c.Prelude.Int.{CInt, pos}
use surrealdb_c.Rust.Utf8.{to_str}
use surrealdb_c.Sdb.{SdbTypes}
use surrealdb_c.Types.Strings.{StringT, is_null, to_string_t}
use surrealdb_c.Client.Engine.{
  Engine, Ended, replied, refused, panicked, Step, done, failed, unwound, faulted,
}
use surrealdb_c.Client.Guard.{
  OutPtr, is_null_out, Exit, returned, Surreal, write_error, settle, sr_error,
}

module _ {E : SdbTypes} (G : Engine E) where
  -- `Ok(Surreal { db, rt, ps: AtomicBool::new(false) })`, after `any::connect`
  unfoldable pub connected : Ended G.Db → Step (Surreal G.Db)
  connected (replied db) = done (record { db = db; ps = false })
  connected (refused e) = failed (to_string_t e)
  connected (panicked p) = unwound p

  -- What runs under `catch_unwind`.
  unfoldable pub open_connection : StringT → Step (Surreal G.Db)
  unfolding connected
  open_connection none = faulted
  open_connection (some s) = elim (to_str s) [
    | none ↦ failed (to_string_t (text "invalid utf8"))
    | some endpoint ↦
        if G.runtime_new
        then connected (G.connect endpoint)
        else failed (to_string_t (text "error creating runtime"))
  ]

  abbrev pub with_code : Step (Surreal G.Db) → Step (CInt × Option (Surreal G.Db))
  with_code (done s) = done (pos 1, some s)
  with_code (failed e) = failed e
  with_code (unwound p) = unwound p
  with_code faulted = faulted

  unfoldable pub connect : OutPtr → OutPtr → StringT → Exit (Surreal G.Db)
  unfolding open_connection write_error settle
  connect err_ptr surreal_ptr endpoint =
      if is_null_out surreal_ptr
      then returned sr_error (write_error err_ptr (text "surreal_ptr is null")) none
      else if is_null endpoint
      then returned sr_error (write_error err_ptr (text "endpoint is null")) none
      else settle err_ptr (with_code (open_connection endpoint))
