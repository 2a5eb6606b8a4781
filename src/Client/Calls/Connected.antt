-- ===== src/Client/Calls/Connected.antt =====
-- A connection that `sr_connect` gives out.
use surrealdb_c.Prelude.{
  ◌≡◌, ◌≢◌, refl, Bool, true, false, Option, none, some, List, All, text, if◌then◌else◌,
}
use surrealdb_c.Prelude.Int.{CInt}
use surrealdb_c.Rust.Utf8.{to_str}
use surrealdb_c.Sdb.{SdbTypes}
use surrealdb_c.Types.Strings.{StringT, to_string_t}
use surrealdb_c.Client.Engine.{
  Engine, Ended, replied, refused, panicked, Step, done, failed, unwound, faulted,
}
use surrealdb_c.Client.Guard.{OutPtr, null, valid, returned, aborted, Surreal, settle}
use surrealdb_c.Client.Connect.{connected, open_connection, connect, with_code}
use surrealdb_c.Client.Calls.{Call, calls}
use surrealdb_c.Client.Calls.Poison.{calls_never_abort}

module _ {E : SdbTypes} (G : Engine E) where
  -- The flag of what a step ends with, if it ends with a connection, is clear.
  abbrev IsClear : Step (Surreal G.Db) → Type 0
  IsClear (done s) = s.ps ≡ false
  IsClear _ = Unit

  connected-IsClear : (r : Ended G.Db) → IsClear (connected G r)
  unfolding connected
  connected-IsClear (replied d) = refl
  connected-IsClear (refused e) = tt
  connected-IsClear (panicked p) = tt

  started-IsClear :
      (b : Bool) (r : Step (Surreal G.Db)) (x : StringT)
      → IsClear r
      → IsClear (if b then r else failed x)
  started-IsClear true r x h = h
  started-IsClear false r x h = tt

  open_connection-IsClear : (endpoint : StringT) → IsClear (open_connection G endpoint)
  unfolding open_connection
  open_connection-IsClear none = tt
  open_connection-IsClear (some s) =
      elim (to_str s)
        as (λ t. IsClear (elim t [
          | none ↦ failed (to_string_t (text "invalid utf8"))
          | some endpoint ↦
              if G.runtime_new
              then connected G (G.connect endpoint)
              else failed (to_string_t (text "error creating runtime"))
        ])) [
          | none ↦ tt
          | some t ↦
              started-IsClear G.runtime_new (connected G (G.connect t))
                (to_string_t (text "error creating runtime")) (connected-IsClear (G.connect t))
        ]

  settled-clear :
      (err_ptr : OutPtr) (r : Step (Surreal G.Db)) (code : CInt) (e : Option StringT)
      (s : Surreal G.Db)
      → IsClear r
      → settle err_ptr (with_code G r) ≡ returned code e (some s)
      → s.ps ≡ false
  unfolding settle
  settled-clear err_ptr (done s') code e s h k = cc
  settled-clear null (failed x) code e s h k = cc
  settled-clear valid (failed x) code e s h k = cc
  settled-clear null (unwound p) code e s h k = cc
  settled-clear valid (unwound p) code e s h k = cc
  settled-clear err_ptr faulted code e s h k = cc

  -- Whatever calls are made on a connection that `sr_connect` wrote, none aborts, and the connection's
  -- flag stays clear.
  pub calls-connect :
      (err_ptr surreal_ptr : OutPtr) (endpoint : StringT) (code : CInt) (e : Option StringT)
      (s : Surreal G.Db) (cs : List Call)
      → connect G err_ptr surreal_ptr endpoint ≡ returned code e (some s)
      → All (λ x. x ≢ aborted) (calls G cs s).0 × ((calls G cs s).1.ps ≡ false)
  unfolding connect
  calls-connect err_ptr null endpoint code e s cs h = cc
  calls-connect err_ptr valid none code e s cs h = cc
  calls-connect err_ptr valid (some t) code e s cs h = calls_never_abort G cs s (
      settled-clear err_ptr (open_connection G (some t)) code e s (open_connection-IsClear (some t))
        h)
