-- ===== src/Client/Calls/Poison.antt =====
-- The poison flag: `connect` clears it and no call sets it, so no call aborts.
use surrealdb_c.Prelude.{
  ◌≡◌, ◌∙◌, ◌≢◌, refl, Bool, true, false, Option, List, [], ◌∷◌, All, Text, arith,
}
use surrealdb_c.Prelude.Int.{CInt}
use surrealdb_c.Sdb.{SdbTypes}
use surrealdb_c.Client.Engine.{Engine, Async, Step}
use surrealdb_c.Client.Guard.{
  OutPtr, null, valid, Exit, returned, aborted, crashed, Surreal, CFn, check_null, settle,
  with_surreal_async,
}
use surrealdb_c.Client.Create
use surrealdb_c.Client.Records
use surrealdb_c.Client.Patch
use surrealdb_c.Client.Graph
use surrealdb_c.Client.Session
use surrealdb_c.Client.Query
use surrealdb_c.Client.Auth
use surrealdb_c.Client.Calls.{
  Call, call, calls, erase, erase_exit, authenticate, begin, cancel, commit, create, delete, export,
  health, import, insert, insert_relation, run, relate, invalidate, kill, select_live, merge,
  patch_add, patch_remove, patch_replace, query, select, set, signin, signup, unset, update, upsert,
  use_db, use_ns, version,
}

-- A call keeps the flag, and aborts exactly if it was set or not at all.
pub record KeepsFlag {Db R : Type 0} (f : CFn Db R) : Type 0 where
  pub flag : (s : Surreal Db) → (f s).1.ps ≡ s.ps
  pub no_abort : (s : Surreal Db) → s.ps ≡ false → (f s).0 ≢ aborted

settle-ne-aborted :
    {R : Type 0} (err_ptr : OutPtr) (r : Step (CInt × Option R)) → settle err_ptr r ≢ aborted
unfolding settle
settle-ne-aborted null r h = ground arith
settle-ne-aborted valid r h = ground arith

module _ {Db R : Type 0} where
  KeepsFlag-with_surreal_async :
      (err_ptr : OutPtr) (fun : Async Db (CInt × Option R))
      → KeepsFlag (with_surreal_async err_ptr fun)
  unfolding with_surreal_async
  KeepsFlag-with_surreal_async err_ptr fun = record {
    flag = λ s. ground arith;
    no_abort = λ s h k. settle-ne-aborted err_ptr (fun s.db).0 (ground (arith, h));
  }

  KeepsFlag-check_null :
      (b : Bool) (err_ptr : OutPtr) (msg : Text) (rest : CFn Db R)
      → KeepsFlag rest
      → KeepsFlag (check_null b err_ptr msg rest)
  unfolding check_null
  KeepsFlag-check_null true err_ptr msg rest k = record { flag = λ s. refl; no_abort = λ s h e. cc }
  KeepsFlag-check_null false err_ptr msg rest k = record { flag = k.flag; no_abort = k.no_abort }

  KeepsFlag-erase : (f : CFn Db R) → KeepsFlag f → KeepsFlag (erase f)
  KeepsFlag-erase f k = record {
    flag = k.flag;
    no_abort = λ s h e. k.no_abort s h (erased (f s).0 e);
  }
    where
      erased : (x : Exit R) → erase_exit x ≡ aborted → x ≡ aborted
      erased (returned c m r) h = cc
      erased aborted h = refl
      erased crashed h = cc

ruleset flag_rules = (KeepsFlag-erase, KeepsFlag-check_null, KeepsFlag-with_surreal_async)

module _ {E : SdbTypes} (G : Engine E) where
  call-KeepsFlag : (c : Call) → KeepsFlag (call G c)
  unfolding call Session.authenticate Session.begin Session.cancel Session.commit Create.create
      Records.delete Session.export Session.health Session.import Records.insert
      Records.insert_relation Graph.run Graph.relate Session.invalidate Session.kill
      Query.select_live Records.merge Patch.patch_add Patch.patch_remove Patch.patch_replace
      Query.query Records.select Session.set Auth.signin Auth.signup Session.unset Records.update
      Records.upsert Session.use_db Session.use_ns Session.version
  call-KeepsFlag (authenticate a b) = search flag_rules depth 8
  call-KeepsFlag (begin a) = search flag_rules depth 8
  call-KeepsFlag (cancel a) = search flag_rules depth 8
  call-KeepsFlag (commit a) = search flag_rules depth 8
  call-KeepsFlag (create a b c d) = search flag_rules depth 8
  call-KeepsFlag (delete a b c) = search flag_rules depth 8
  call-KeepsFlag (export a b) = search flag_rules depth 8
  call-KeepsFlag (health a) = search flag_rules depth 8
  call-KeepsFlag (import a b) = search flag_rules depth 8
  call-KeepsFlag (insert a b c d) = search flag_rules depth 8
  call-KeepsFlag (insert_relation a b c d) = search flag_rules depth 8
  call-KeepsFlag (run a b c d) = search flag_rules depth 8
  call-KeepsFlag (relate a b c d e f) = search flag_rules depth 8
  call-KeepsFlag (invalidate a) = search flag_rules depth 8
  call-KeepsFlag (kill a b) = search flag_rules depth 8
  call-KeepsFlag (select_live a b c) = search flag_rules depth 8
  call-KeepsFlag (merge a b c d) = search flag_rules depth 8
  call-KeepsFlag (patch_add a b c d e) = search flag_rules depth 8
  call-KeepsFlag (patch_remove a b c d) = search flag_rules depth 8
  call-KeepsFlag (patch_replace a b c d e) = search flag_rules depth 8
  call-KeepsFlag (query a b c d) = search flag_rules depth 8
  call-KeepsFlag (select a b c) = search flag_rules depth 8
  call-KeepsFlag (set a b c) = search flag_rules depth 8
  call-KeepsFlag (signin a b c d e f) = search flag_rules depth 8
  call-KeepsFlag (signup a b c d e f) = search flag_rules depth 8
  call-KeepsFlag (unset a b) = search flag_rules depth 8
  call-KeepsFlag (update a b c d) = search flag_rules depth 8
  call-KeepsFlag (upsert a b c d) = search flag_rules depth 8
  call-KeepsFlag (use_db a b) = search flag_rules depth 8
  call-KeepsFlag (use_ns a b) = search flag_rules depth 8
  call-KeepsFlag (version a b) = search flag_rules depth 8

  -- On a connection whose flag is clear no call of a sequence aborts, and the flag stays clear,
  -- however the calls before it ended: also after one that returned `SR_FATAL`.
  pub calls_never_abort :
      (cs : List Call) (s : Surreal G.Db)
      → s.ps ≡ false
      → All (λ x. x ≢ aborted) (calls G cs s).0 × ((calls G cs s).1.ps ≡ false)
  unfolding calls
  calls_never_abort [] s h = (tt, h)
  calls_never_abort (c ∷ cs) s h =
      let k = call-KeepsFlag c in
      let rest = calls_never_abort cs (call G c s).1 (k.flag s ∙ h) in
      ((k.no_abort s h, rest.0), rest.1)
