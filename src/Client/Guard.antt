-- ===== src/Client/Guard.antt =====
-- `write_error`, `check_null!`, `with_surreal_async` and the poison flag of src/lib.rs.
use surrealdb_c.Prelude.{
  ◌≡◌, Bool, true, false, Option, none, some, ◌++◌, Text, text, if◌then◌else◌, arith,
}
use surrealdb_c.Prelude.Int.{CInt, pos, negsuc}
use surrealdb_c.Rust.Run.{Payload}
use surrealdb_c.Types.Strings.{StringT, to_string_t}
use surrealdb_c.Client.Engine.{Async, Step, done, failed, unwound, faulted}

abbrev pub sr_none : CInt
sr_none = pos 0

abbrev pub sr_closed : CInt
sr_closed = negsuc 0

abbrev pub sr_error : CInt
sr_error = negsuc 1

abbrev pub sr_fatal : CInt
sr_fatal = negsuc 2

-- A pointer that C passes for a result.
pub data OutPtr : Type 0 where
  null valid : OutPtr

abbrev pub is_null_out : OutPtr → Bool
is_null_out null = true
is_null_out valid = false

-- How a C function ends: with a code and what it wrote at `err_ptr` and at its result pointer, by
-- `process::abort`, or by a write through null or a read of it.
pub data Exit (R : Type 0) : Type 0 where
  returned : CInt → Option StringT → Option R → Exit R
  aborted crashed : Exit R

-- `struct Surreal`, without the runtime handle
pub record Surreal (Db : Type 0) : Type 0 where
  pub db : Db
  pub ps : Bool

-- A C function on a connection.
abbrev pub CFn : Type 0 → Type 0 → Type 0
CFn Db R = Surreal Db → Exit R × Surreal Db

unfoldable pub write_error : OutPtr → Text → Option StringT
write_error null msg = none
write_error valid msg = some (to_string_t msg)

-- `check_null!(ptr, err_ptr, msg); rest`
unfoldable pub check_null : {Db R : Type 0} → Bool → OutPtr → Text → CFn Db R → CFn Db R
unfolding write_error
check_null is_null err_ptr msg rest s =
    if is_null then (returned sr_error (write_error err_ptr msg) none, s) else rest s

unfoldable pub panic_message : Payload → StringT
panic_message (some e_str) = to_string_t (text "Panicked with: " ++ e_str)
panic_message none = to_string_t (text "Panicked")

-- `err_ptr.write(e)`, which is not guarded, and the code.
unfoldable pub write_and_return : {R : Type 0} → OutPtr → StringT → CInt → Exit R
write_and_return null e code = crashed
write_and_return valid e code = returned code (some e) none

unfoldable pub settle : {R : Type 0} → OutPtr → Step (CInt × Option R) → Exit R
unfolding write_and_return panic_message
settle err_ptr (done (n, r)) = returned n none r
settle err_ptr (failed e) = write_and_return err_ptr e sr_error
settle err_ptr (unwound p) = write_and_return err_ptr (panic_message p) sr_fatal
settle err_ptr faulted = crashed

-- The body runs under `catch_unwind`. The flag is read and never written.
unfoldable pub with_surreal_async : {Db R : Type 0} → OutPtr → Async Db (CInt × Option R) → CFn Db R
unfolding settle
with_surreal_async err_ptr fun s =
    if s.ps then (aborted, s) else let (r, d) = fun s.db in (settle err_ptr r, record s { db = d })

-- With the flag set, and with it clear.
module _ {Db R : Type 0} (err_ptr : OutPtr) (fun : Async Db (CInt × Option R))
    (s : Surreal Db) where
  pub with_surreal_async-poisoned : s.ps ≡ true → with_surreal_async err_ptr fun s ≡ (aborted, s)
  unfolding with_surreal_async
  with_surreal_async-poisoned h = ground arith

  pub with_surreal_async-clear :
      s.ps ≡ false
      → with_surreal_async err_ptr fun s
        ≡ (settle err_ptr (fun s.db).0, record { db = (fun s.db).1; ps = s.ps })
  unfolding with_surreal_async
  with_surreal_async-clear h = ground arith
