-- ===== src/Client/Calls/Errors.antt =====
-- What `err_ptr` is given, and what becomes of the same call when it is null.
use surrealdb_c.Prelude.{
  ◌≡◌, refl, ◌⊎◌, inl, inr, Bool, true, false, ◌||◌, Option, List, [], ◌∷◌, String, none, some,
  Text, Bool-cases,
}
use surrealdb_c.Prelude.Int.{CInt}
use surrealdb_c.Sdb.{SdbTypes}
use surrealdb_c.Types.Strings.{StringT}
use surrealdb_c.Client.Engine.{Engine, Async, Step, done, failed, unwound, faulted}
use surrealdb_c.Client.Guard.{
  OutPtr, null, valid, Exit, returned, aborted, crashed, Surreal, CFn, sr_error, sr_fatal,
  check_null, settle, with_surreal_async, with_surreal_async-poisoned, with_surreal_async-clear,
  panic_message,
}
use surrealdb_c.Client.Calls.Null.{required}
use surrealdb_c.Client.Create
use surrealdb_c.Client.Records
use surrealdb_c.Client.Patch
use surrealdb_c.Client.Graph
use surrealdb_c.Client.Session
use surrealdb_c.Client.Query
use surrealdb_c.Client.Auth
use surrealdb_c.Client.Calls.{
  Call, call, erase, erase_exit, authenticate, begin, cancel, commit, create, delete, export,
  health, import, insert, insert_relation, run, relate, invalidate, kill, select_live, merge,
  patch_add, patch_remove, patch_replace, query, select, set, signin, signup, unset, update, upsert,
  use_db, use_ns, version,
}

-- The same call with another `err_ptr`.
abbrev pub with_err : OutPtr → Call → Call
with_err p (authenticate _ b) = authenticate p b
with_err p (begin _) = begin p
with_err p (cancel _) = cancel p
with_err p (commit _) = commit p
with_err p (create _ b c d) = create p b c d
with_err p (delete _ b c) = delete p b c
with_err p (export _ b) = export p b
with_err p (health _) = health p
with_err p (import _ b) = import p b
with_err p (insert _ b c d) = insert p b c d
with_err p (insert_relation _ b c d) = insert_relation p b c d
with_err p (run _ b c d) = run p b c d
with_err p (relate _ b c d e f) = relate p b c d e f
with_err p (invalidate _) = invalidate p
with_err p (kill _ b) = kill p b
with_err p (select_live _ b c) = select_live p b c
with_err p (merge _ b c d) = merge p b c d
with_err p (patch_add _ b c d e) = patch_add p b c d e
with_err p (patch_remove _ b c d) = patch_remove p b c d
with_err p (patch_replace _ b c d e) = patch_replace p b c d e
with_err p (query _ b c d) = query p b c d
with_err p (select _ b c) = select p b c
with_err p (set _ b c) = set p b c
with_err p (signin _ b c d e f) = signin p b c d e f
with_err p (signup _ b c d e f) = signup p b c d e f
with_err p (unset _ b) = unset p b
with_err p (update _ b c d) = update p b c d
with_err p (upsert _ b c d) = upsert p b c d
with_err p (use_db _ b) = use_db p b
with_err p (use_ns _ b) = use_ns p b
with_err p (version _ b) = version p b

-- Whether any of some pointers is null.
abbrev pub any_null : List (Bool × String) → Bool
any_null [] = false
any_null ((b, _) ∷ rest) = b || any_null rest

-- The end of a call with a valid `err_ptr`, and that of the same call with a null one; the Boolean
-- says whether a pointer that the call needs is null.
-- `same`: no message, the same code and result. `null_argument`: `SR_ERROR` with a message, which is
-- left out. `lost`: an error or a panic with its message, and a write through null.
pub data NullErr {R : Type 0} : Bool → Exit R → Exit R → Type 0 where
  same : (code : CInt) (r : Option R) → NullErr false (returned code none r) (returned code none r)
  null_argument :
      (m : StringT) → NullErr true (returned sr_error (some m) none) (returned sr_error none none)
  lost :
      (code : CInt) (m : StringT)
      → (code ≡ sr_error) ⊎ (code ≡ sr_fatal)
      → NullErr false (returned code (some m) none) crashed
  both_abort : NullErr false aborted aborted
  both_crash : NullErr false crashed crashed

pub record Twin {Db R : Type 0} (b : Bool) (f g : CFn Db R) : Type 0 where
  pub exit : (s : Surreal Db) → NullErr b (f s).0 (g s).0
  pub state : (s : Surreal Db) → (f s).1 ≡ (g s).1

settle-NullErr :
    {R : Type 0} (r : Step (CInt × Option R)) → NullErr false (settle valid r) (settle null r)
unfolding settle
settle-NullErr (done (n, r)) = same n r
settle-NullErr (failed e) = lost sr_error e (inl refl)
settle-NullErr (unwound p) = lost sr_fatal (panic_message p) (inr refl)
settle-NullErr faulted = both_crash

NullErr-erase :
    {R : Type 0} {b : Bool} {x y : Exit R} → NullErr b x y → NullErr b (erase_exit x) (erase_exit y)
NullErr-erase (same code r) = same code _
NullErr-erase (null_argument m) = null_argument m
NullErr-erase (lost code m h) = lost code m h
NullErr-erase both_abort = both_abort
NullErr-erase both_crash = both_crash

module _ {Db R : Type 0} where
  Twin-with_surreal_async :
      (fun : Async Db (CInt × Option R))
      → Twin false (with_surreal_async valid fun) (with_surreal_async null fun)
  Twin-with_surreal_async fun = record {
    exit = λ s. elim (Bool-cases s.ps) [
      | inl h ↦
          rw (with_surreal_async-poisoned valid fun s h, with_surreal_async-poisoned null fun s h)
            both_abort
      | inr h ↦
          rw (with_surreal_async-clear valid fun s h, with_surreal_async-clear null fun s h)
            (settle-NullErr (fun s.db).0)
    ];
    state = λ s. elim (Bool-cases s.ps) [
      | inl h ↦
          rw (with_surreal_async-poisoned valid fun s h, with_surreal_async-poisoned null fun s h)
      | inr h ↦ rw (with_surreal_async-clear valid fun s h, with_surreal_async-clear null fun s h)
    ];
  }

  Twin-check_null :
      (b c : Bool) (msg : Text) (f g : CFn Db R)
      → Twin c f g
      → Twin (b || c) (check_null b valid msg f) (check_null b null msg g)
  unfolding check_null
  Twin-check_null true c msg f g t = record { exit = λ s. null_argument _; state = λ s. refl }
  Twin-check_null false c msg f g t = record { exit = t.exit; state = t.state }

  Twin-erase : (b : Bool) (f g : CFn Db R) → Twin b f g → Twin b (erase f) (erase g)
  Twin-erase b f g t = record { exit = λ s. NullErr-erase (t.exit s); state = t.state }

ruleset twin_rules = (Twin-erase, Twin-check_null, Twin-with_surreal_async)

module _ {E : SdbTypes} (G : Engine E) where
  call-Twin :
      (c : Call)
      → Twin (any_null (required c)) (call G (with_err valid c)) (call G (with_err null c))
  unfolding call Session.authenticate Session.begin Session.cancel Session.commit Create.create
      Records.delete Session.export Session.health Session.import Records.insert
      Records.insert_relation Graph.run Graph.relate Session.invalidate Session.kill
      Query.select_live Records.merge Patch.patch_add Patch.patch_remove Patch.patch_replace
      Query.query Records.select Session.set Auth.signin Auth.signup Session.unset Records.update
      Records.upsert Session.use_db Session.use_ns Session.version
  call-Twin (authenticate a b) = search twin_rules depth 8
  call-Twin (begin a) = search twin_rules depth 8
  call-Twin (cancel a) = search twin_rules depth 8
  call-Twin (commit a) = search twin_rules depth 8
  call-Twin (create a b c d) = search twin_rules depth 8
  call-Twin (delete a b c) = search twin_rules depth 8
  call-Twin (export a b) = search twin_rules depth 8
  call-Twin (health a) = search twin_rules depth 8
  call-Twin (import a b) = search twin_rules depth 8
  call-Twin (insert a b c d) = search twin_rules depth 8
  call-Twin (insert_relation a b c d) = search twin_rules depth 8
  call-Twin (run a b c d) = search twin_rules depth 8
  call-Twin (relate a b c d e f) = search twin_rules depth 8
  call-Twin (invalidate a) = search twin_rules depth 8
  call-Twin (kill a b) = search twin_rules depth 8
  call-Twin (select_live a b c) = search twin_rules depth 8
  call-Twin (merge a b c d) = search twin_rules depth 8
  call-Twin (patch_add a b c d e) = search twin_rules depth 8
  call-Twin (patch_remove a b c d) = search twin_rules depth 8
  call-Twin (patch_replace a b c d e) = search twin_rules depth 8
  call-Twin (query a b c d) = search twin_rules depth 8
  call-Twin (select a b c) = search twin_rules depth 8
  call-Twin (set a b c) = search twin_rules depth 8
  call-Twin (signin a b c d e f) = search twin_rules depth 8
  call-Twin (signup a b c d e f) = search twin_rules depth 8
  call-Twin (unset a b) = search twin_rules depth 8
  call-Twin (update a b c d) = search twin_rules depth 8
  call-Twin (upsert a b c d) = search twin_rules depth 8
  call-Twin (use_db a b) = search twin_rules depth 8
  call-Twin (use_ns a b) = search twin_rules depth 8
  call-Twin (version a b) = search twin_rules depth 8

  -- For every call: with a valid `err_ptr` a message is written only beside `SR_ERROR` or
  -- `SR_FATAL` and with nothing at the result pointer. With a null `err_ptr` the connection is left
  -- the same, and what becomes of its end is this. If a pointer that the call needs is null, it
  -- returns `SR_ERROR` as before, without the message. If none is, a call without a message ends the
  -- same, and every call that would have written one, for an error or a panic, writes through null.
  pub call_err_ptr :
      (c : Call) (s : Surreal G.Db)
      → NullErr
          (any_null (required c))
          (call G (with_err valid c) s).0
          (call G (with_err null c) s).0
        × ((call G (with_err valid c) s).1 ≡ (call G (with_err null c) s).1)
  call_err_ptr c s = ((call-Twin c).exit s, (call-Twin c).state s)
