-- ===== src/Client/Calls.antt =====
-- The functions of src/lib.rs on a connection as one type of calls, and sequences of calls.
pub mod Errors
pub mod Null
pub mod Connected
pub mod Poison
use surrealdb_c.Prelude.{Option, none, some, List, [], ◌∷◌}
use surrealdb_c.Sdb.{SdbTypes}
use surrealdb_c.Types.Strings.{StringT}
use surrealdb_c.Types.Values.{Value, Array, Object}
use surrealdb_c.Client.Engine.{Engine}
use surrealdb_c.Client.Guard.{OutPtr, Exit, returned, aborted, crashed, Surreal, CFn}
use surrealdb_c.Client.Create
use surrealdb_c.Client.Records
use surrealdb_c.Client.Patch
use surrealdb_c.Client.Graph
use surrealdb_c.Client.Session
use surrealdb_c.Client.Query
use surrealdb_c.Client.Auth
use surrealdb_c.Client.Auth.{TokenPtr, Scope, Credentials, CredentialsAccess}

-- A call with its arguments, `err_ptr` first.
pub data Call : Type 0 where
  authenticate : OutPtr → StringT → Call
  begin : OutPtr → Call
  cancel : OutPtr → Call
  commit : OutPtr → Call
  create : OutPtr → OutPtr → StringT → Option Object → Call
  delete : OutPtr → OutPtr → StringT → Call
  export : OutPtr → StringT → Call
  health : OutPtr → Call
  import : OutPtr → StringT → Call
  insert : OutPtr → OutPtr → StringT → Option Object → Call
  insert_relation : OutPtr → OutPtr → StringT → Option Object → Call
  run : OutPtr → OutPtr → StringT → Option Array → Call
  relate : OutPtr → OutPtr → StringT → StringT → StringT → Option Object → Call
  invalidate : OutPtr → Call
  kill : OutPtr → StringT → Call
  select_live : OutPtr → OutPtr → StringT → Call
  merge : OutPtr → OutPtr → StringT → Option Object → Call
  patch_add : OutPtr → OutPtr → StringT → StringT → Option Value → Call
  patch_remove : OutPtr → OutPtr → StringT → StringT → Call
  patch_replace : OutPtr → OutPtr → StringT → StringT → Option Value → Call
  query : OutPtr → OutPtr → StringT → Option Object → Call
  select : OutPtr → OutPtr → StringT → Call
  set : OutPtr → StringT → Option Value → Call
  signin :
      OutPtr
      → TokenPtr
      → Scope
      → Option Credentials
      → Option CredentialsAccess
      → Option Object
      → Call
  signup :
      OutPtr
      → TokenPtr
      → Scope
      → Option Credentials
      → Option CredentialsAccess
      → Option Object
      → Call
  unset : OutPtr → StringT → Call
  update : OutPtr → OutPtr → StringT → Option Object → Call
  upsert : OutPtr → OutPtr → StringT → Option Object → Call
  use_db : OutPtr → StringT → Call
  use_ns : OutPtr → StringT → Call
  version : OutPtr → OutPtr → Call

-- Whether something was written at the result pointer.
abbrev pub Wrote : Type 0
Wrote = Option (Unit {0})

abbrev pub wrote : {R : Type 0} → Option R → Wrote
wrote none = none
wrote (some _) = some tt

abbrev pub erase_exit : {R : Type 0} → Exit R → Exit (Unit {0})
erase_exit (returned code e r) = returned code e (wrote r)
erase_exit aborted = aborted
erase_exit crashed = crashed

abbrev pub erase : {Db R : Type 0} → CFn Db R → CFn Db (Unit {0})
erase f s = let (x, s') = f s in (erase_exit x, s')

module _ {E : SdbTypes} (G : Engine E) where
  unfoldable pub call : Call → CFn G.Db (Unit {0})
  call (authenticate a b) = erase (Session.authenticate G a b)
  call (begin a) = erase (Session.begin G a)
  call (cancel a) = erase (Session.cancel G a)
  call (commit a) = erase (Session.commit G a)
  call (create a b c d) = erase (Create.create G a b c d)
  call (delete a b c) = erase (Records.delete G a b c)
  call (export a b) = erase (Session.export G a b)
  call (health a) = erase (Session.health G a)
  call (import a b) = erase (Session.import G a b)
  call (insert a b c d) = erase (Records.insert G a b c d)
  call (insert_relation a b c d) = erase (Records.insert_relation G a b c d)
  call (run a b c d) = erase (Graph.run G a b c d)
  call (relate a b c d e f) = erase (Graph.relate G a b c d e f)
  call (invalidate a) = erase (Session.invalidate G a)
  call (kill a b) = erase (Session.kill G a b)
  call (select_live a b c) = erase (Query.select_live G a b c)
  call (merge a b c d) = erase (Records.merge G a b c d)
  call (patch_add a b c d e) = erase (Patch.patch_add G a b c d e)
  call (patch_remove a b c d) = erase (Patch.patch_remove G a b c d)
  call (patch_replace a b c d e) = erase (Patch.patch_replace G a b c d e)
  call (query a b c d) = erase (Query.query G a b c d)
  call (select a b c) = erase (Records.select G a b c)
  call (set a b c) = erase (Session.set G a b c)
  call (signin a b c d e f) = erase (Auth.signin G a b c d e f)
  call (signup a b c d e f) = erase (Auth.signup G a b c d e f)
  call (unset a b) = erase (Session.unset G a b)
  call (update a b c d) = erase (Records.update G a b c d)
  call (upsert a b c d) = erase (Records.upsert G a b c d)
  call (use_db a b) = erase (Session.use_db G a b)
  call (use_ns a b) = erase (Session.use_ns G a b)
  call (version a b) = erase (Session.version G a b)

  -- The connection after the calls, and how each of them ended.
  unfoldable pub calls : List Call → Surreal G.Db → List (Exit (Unit {0})) × Surreal G.Db
  calls [] s = ([], s)
  calls (c ∷ cs) s = let (x, s') = call c s in let (xs, s'') = calls cs s' in (x ∷ xs, s'')
