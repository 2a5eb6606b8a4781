-- ===== src/Client/Calls/Null.antt =====
-- A null pointer where a call needs one: `SR_ERROR`, and nothing else happens.
use mathlib.Core.Option.{some-injective}
use surrealdb_c.Prelude.{
  ◌≡◌, ap, ◌++◌, Bool, true, false, Option, none, some, List, [], ◌∷◌, text, String,
}
use surrealdb_c.Sdb.{SdbTypes}
use surrealdb_c.Types.Strings.{is_null}
use surrealdb_c.Client.Engine.{Engine}
use surrealdb_c.Client.Guard.{
  OutPtr, is_null_out, Exit, returned, Surreal, CFn, sr_error, write_error, check_null,
}
use surrealdb_c.Client.Create
use surrealdb_c.Client.Records
use surrealdb_c.Client.Patch
use surrealdb_c.Client.Graph
use surrealdb_c.Client.Session
use surrealdb_c.Client.Query
use surrealdb_c.Client.Auth
use surrealdb_c.Client.Calls.{
  Call, call, erase, erase_exit, authenticate, begin, cancel, commit, create, delete, export,
  health, import, insert, insert_relation, run, relate, invalidate, kill, select_live, merge,
  patch_add, patch_remove, patch_replace, query, select, set, signin, signup, unset, update, upsert,
  use_db, use_ns, version,
}

-- `err_ptr`
abbrev pub err_ptr_of : Call → OutPtr
err_ptr_of (authenticate a _) = a
err_ptr_of (begin a) = a
err_ptr_of (cancel a) = a
err_ptr_of (commit a) = a
err_ptr_of (create a _ _ _) = a
err_ptr_of (delete a _ _) = a
err_ptr_of (export a _) = a
err_ptr_of (health a) = a
err_ptr_of (import a _) = a
err_ptr_of (insert a _ _ _) = a
err_ptr_of (insert_relation a _ _ _) = a
err_ptr_of (run a _ _ _) = a
err_ptr_of (relate a _ _ _ _ _) = a
err_ptr_of (invalidate a) = a
err_ptr_of (kill a _) = a
err_ptr_of (select_live a _ _) = a
err_ptr_of (merge a _ _ _) = a
err_ptr_of (patch_add a _ _ _ _) = a
err_ptr_of (patch_remove a _ _ _) = a
err_ptr_of (patch_replace a _ _ _ _) = a
err_ptr_of (query a _ _ _) = a
err_ptr_of (select a _ _) = a
err_ptr_of (set a _ _) = a
err_ptr_of (signin a _ _ _ _ _) = a
err_ptr_of (signup a _ _ _ _ _) = a
err_ptr_of (unset a _) = a
err_ptr_of (update a _ _ _) = a
err_ptr_of (upsert a _ _ _) = a
err_ptr_of (use_db a _) = a
err_ptr_of (use_ns a _) = a
err_ptr_of (version a _) = a

-- The pointers that a call needs, in the order of its documentation, each with whether it is null
-- and its name. The others may be null.
abbrev pub required : Call → List (Bool × String)
required (authenticate _ b) = (is_null b, "token") ∷ []
required (create _ _ c d) = (is_null c, "resource") ∷ (is_null d, "content") ∷ []
required (delete _ b c) = (is_null_out b, "res_ptr") ∷ (is_null c, "resource") ∷ []
required (export _ b) = (is_null b, "file_path") ∷ []
required (import _ b) = (is_null b, "file_path") ∷ []
required (insert _ b c d) =
    (is_null_out b, "res_ptr") ∷ (is_null c, "resource") ∷ (is_null d, "content") ∷ []
required (insert_relation _ b c d) =
    (is_null_out b, "res_ptr") ∷ (is_null c, "table") ∷ (is_null d, "content") ∷ []
required (run _ b c _) = (is_null_out b, "res_ptr") ∷ (is_null c, "function_name") ∷ []
required (relate _ b c d e _) =
    (is_null_out b, "res_ptr")
    ∷ (is_null c, "from")
    ∷ (is_null d, "relation")
    ∷ (is_null e, "to")
    ∷ []
required (kill _ b) = (is_null b, "query_id") ∷ []
required (select_live _ b c) = (is_null_out b, "stream_ptr") ∷ (is_null c, "resource") ∷ []
required (merge _ b c d) =
    (is_null_out b, "res_ptr") ∷ (is_null c, "resource") ∷ (is_null d, "content") ∷ []
required (patch_add _ b c d e) =
    (is_null_out b, "res_ptr")
    ∷ (is_null c, "resource")
    ∷ (is_null d, "path")
    ∷ (is_null e, "value")
    ∷ []
required (patch_remove _ b c d) =
    (is_null_out b, "res_ptr") ∷ (is_null c, "resource") ∷ (is_null d, "path") ∷ []
required (patch_replace _ b c d e) =
    (is_null_out b, "res_ptr")
    ∷ (is_null c, "resource")
    ∷ (is_null d, "path")
    ∷ (is_null e, "value")
    ∷ []
required (query _ b c _) = (is_null_out b, "res_ptr") ∷ (is_null c, "query") ∷ []
required (select _ b c) = (is_null_out b, "res_ptr") ∷ (is_null c, "resource") ∷ []
required (set _ b c) = (is_null b, "key") ∷ (is_null c, "value") ∷ []
required (unset _ b) = (is_null b, "key") ∷ []
required (update _ b c d) =
    (is_null_out b, "res_ptr") ∷ (is_null c, "resource") ∷ (is_null d, "content") ∷ []
required (upsert _ b c d) =
    (is_null_out b, "res_ptr") ∷ (is_null c, "resource") ∷ (is_null d, "content") ∷ []
required (use_db _ b) = (is_null b, "db_name") ∷ []
required (use_ns _ b) = (is_null b, "ns_name") ∷ []
required (version _ b) = (is_null_out b, "res_ptr") ∷ []
required (begin _) = []
required (cancel _) = []
required (commit _) = []
required (health _) = []
required (invalidate _) = []
required (signin _ _ _ _ _ _) = []
required (signup _ _ _ _ _ _) = []

-- The name of the first that is null.
abbrev pub first_null : List (Bool × String) → Option String
first_null [] = none
first_null ((true, name) ∷ _) = some name
first_null ((false, _) ∷ rest) = first_null rest

-- The end of a call that finds a null pointer of this name.
abbrev pub refusal : {R : Type 0} → OutPtr → String → Exit R
refusal err_ptr name = returned sr_error (write_error err_ptr (text name ++ text " is null")) none

-- `f` refuses the first null pointer of the list and changes nothing.
record Guarded {Db R : Type 0} (err_ptr : OutPtr) (rs : List (Bool × String)) (f : CFn Db R)
    : Type 0 where
  pub refuses :
      (name : String) (s : Surreal Db) → first_null rs ≡ some name → f s ≡ (refusal err_ptr name, s)

module _ {Db R : Type 0} (err_ptr : OutPtr) where
  Guarded-nil : (f : CFn Db R) → Guarded err_ptr [] f
  Guarded-nil f = record { refuses = λ name s h. cc }

  Guarded-check_null :
      (b : Bool) (name : String) (rs : List (Bool × String)) (f : CFn Db R)
      → Guarded err_ptr rs f
      → Guarded err_ptr ((b, name) ∷ rs) (check_null b err_ptr (text name ++ text " is null") f)
  unfolding check_null
  Guarded-check_null true name rs f g = record {
    refuses = λ found s h. ap (λ (n : String). (refusal err_ptr n, s)) (some-injective _ _ h);
  }
  Guarded-check_null false name rs f g = record { refuses = g.refuses }

  Guarded-erase :
      (rs : List (Bool × String)) (f : CFn Db R)
      → Guarded err_ptr rs f
      → Guarded err_ptr rs (erase f)
  Guarded-erase rs f g = record {
    refuses =
        λ name s h. ap (λ (p : Exit R × Surreal Db). (erase_exit p.0, p.1)) (g.refuses name s h);
  }

module _ {E : SdbTypes} (G : Engine E) where
  call-Guarded : (c : Call) → Guarded (err_ptr_of c) (required c) (call G c)
  unfolding call Session.authenticate Session.begin Session.cancel Session.commit Create.create
      Records.delete Session.export Session.health Session.import Records.insert
      Records.insert_relation Graph.run Graph.relate Session.invalidate Session.kill
      Query.select_live Records.merge Patch.patch_add Patch.patch_remove Patch.patch_replace
      Query.query Records.select Session.set Auth.signin Auth.signup Session.unset Records.update
      Records.upsert Session.use_db Session.use_ns Session.version
  call-Guarded (authenticate a b) =
      Guarded-erase a _ _ (Guarded-check_null a _ "token" _ _ (Guarded-nil a _))
  call-Guarded (begin a) = Guarded-erase a _ _ (Guarded-nil a _)
  call-Guarded (cancel a) = Guarded-erase a _ _ (Guarded-nil a _)
  call-Guarded (commit a) = Guarded-erase a _ _ (Guarded-nil a _)
  call-Guarded (create a b c d) = Guarded-erase a _ _ (
      Guarded-check_null a _ "resource" _ _
        (Guarded-check_null a _ "content" _ _ (Guarded-nil a _)))
  call-Guarded (delete a b c) = Guarded-erase a _ _ (
      Guarded-check_null a _ "res_ptr" _ _
        (Guarded-check_null a _ "resource" _ _ (Guarded-nil a _)))
  call-Guarded (export a b) =
      Guarded-erase a _ _ (Guarded-check_null a _ "file_path" _ _ (Guarded-nil a _))
  call-Guarded (health a) = Guarded-erase a _ _ (Guarded-nil a _)
  call-Guarded (import a b) =
      Guarded-erase a _ _ (Guarded-check_null a _ "file_path" _ _ (Guarded-nil a _))
  call-Guarded (insert a b c d) = Guarded-erase a _ _ (
      Guarded-check_null a _ "res_ptr" _ _ (
        Guarded-check_null a _ "resource" _ _
          (Guarded-check_null a _ "content" _ _ (Guarded-nil a _))))
  call-Guarded (insert_relation a b c d) = Guarded-erase a _ _ (
      Guarded-check_null a _ "res_ptr" _ _ (
        Guarded-check_null a _ "table" _ _
          (Guarded-check_null a _ "content" _ _ (Guarded-nil a _))))
  call-Guarded (run a b c d) = Guarded-erase a _ _ (
      Guarded-check_null a _ "res_ptr" _ _
        (Guarded-check_null a _ "function_name" _ _ (Guarded-nil a _)))
  call-Guarded (relate a b c d e f) = Guarded-erase a _ _ (
      Guarded-check_null a _ "res_ptr" _ _ (
        Guarded-check_null a _ "from" _ _ (
          Guarded-check_null a _ "relation" _ _
            (Guarded-check_null a _ "to" _ _ (Guarded-nil a _)))))
  call-Guarded (invalidate a) = Guarded-erase a _ _ (Guarded-nil a _)
  call-Guarded (kill a b) =
      Guarded-erase a _ _ (Guarded-check_null a _ "query_id" _ _ (Guarded-nil a _))
  call-Guarded (select_live a b c) = Guarded-erase a _ _ (
      Guarded-check_null a _ "stream_ptr" _ _
        (Guarded-check_null a _ "resource" _ _ (Guarded-nil a _)))
  call-Guarded (merge a b c d) = Guarded-erase a _ _ (
      Guarded-check_null a _ "res_ptr" _ _ (
        Guarded-check_null a _ "resource" _ _
          (Guarded-check_null a _ "content" _ _ (Guarded-nil a _))))
  call-Guarded (patch_add a b c d e) = Guarded-erase a _ _ (
      Guarded-check_null a _ "res_ptr" _ _ (
        Guarded-check_null a _ "resource" _ _ (
          Guarded-check_null a _ "path" _ _
            (Guarded-check_null a _ "value" _ _ (Guarded-nil a _)))))
  call-Guarded (patch_remove a b c d) = Guarded-erase a _ _ (
      Guarded-check_null a _ "res_ptr" _ _ (
        Guarded-check_null a _ "resource" _ _
          (Guarded-check_null a _ "path" _ _ (Guarded-nil a _))))
  call-Guarded (patch_replace a b c d e) = Guarded-erase a _ _ (
      Guarded-check_null a _ "res_ptr" _ _ (
        Guarded-check_null a _ "resource" _ _ (
          Guarded-check_null a _ "path" _ _
            (Guarded-check_null a _ "value" _ _ (Guarded-nil a _)))))
  call-Guarded (query a b c d) =
      Guarded-erase a _ _ (
        Guarded-check_null a _ "res_ptr" _ _ (Guarded-check_null a _ "query" _ _ (Guarded-nil a _)))
  call-Guarded (select a b c) = Guarded-erase a _ _ (
      Guarded-check_null a _ "res_ptr" _ _
        (Guarded-check_null a _ "resource" _ _ (Guarded-nil a _)))
  call-Guarded (set a b c) =
      Guarded-erase a _ _
        (Guarded-check_null a _ "key" _ _ (Guarded-check_null a _ "value" _ _ (Guarded-nil a _)))
  call-Guarded (signin a b c d e f) = Guarded-erase a _ _ (Guarded-nil a _)
  call-Guarded (signup a b c d e f) = Guarded-erase a _ _ (Guarded-nil a _)
  call-Guarded (unset a b) =
      Guarded-erase a _ _ (Guarded-check_null a _ "key" _ _ (Guarded-nil a _))
  call-Guarded (update a b c d) = Guarded-erase a _ _ (
      Guarded-check_null a _ "res_ptr" _ _ (
        Guarded-check_null a _ "resource" _ _
          (Guarded-check_null a _ "content" _ _ (Guarded-nil a _))))
  call-Guarded (upsert a b c d) = Guarded-erase a _ _ (
      Guarded-check_null a _ "res_ptr" _ _ (
        Guarded-check_null a _ "resource" _ _
          (Guarded-check_null a _ "content" _ _ (Guarded-nil a _))))
  call-Guarded (use_db a b) =
      Guarded-erase a _ _ (Guarded-check_null a _ "db_name" _ _ (Guarded-nil a _))
  call-Guarded (use_ns a b) =
      Guarded-erase a _ _ (Guarded-check_null a _ "ns_name" _ _ (Guarded-nil a _))
  call-Guarded (version a b) =
      Guarded-erase a _ _ (Guarded-check_null a _ "res_ptr" _ _ (Guarded-nil a _))

  -- A call whose first null pointer among those that it needs has this name returns `SR_ERROR`, with
  -- the message "<name> is null" unless `err_ptr` is null too, writes no result and leaves the
  -- connection as it was, also where the flag is set.
  pub call_null_argument :
      (c : Call) (s : Surreal G.Db) (name : String)
      → first_null (required c) ≡ some name
      → call G c s ≡ (refusal (err_ptr_of c) name, s)
  call_null_argument c s name h = (call-Guarded c).refuses name s h
