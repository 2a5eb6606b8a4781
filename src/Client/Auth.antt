-- ===== src/Client/Auth.antt =====
-- `sr_signin` and `sr_signup` of src/lib.rs, and src/types/credentials.rs.
pub mod Checks
use surrealdb_c.Prelude.{Bool, true, false, Option, none, some, [], ◌∷◌, Text, text, if◌then◌else◌}
use surrealdb_c.Prelude.Int.{CInt, pos}
use surrealdb_c.Rust.BTree
use surrealdb_c.Sdb.{SdbTypes, SdbFields, sdb_string, fields_of}
use surrealdb_c.Types.Strings.{StringT, is_null, to_string_t}
use surrealdb_c.Types.Values.{Object}
use surrealdb_c.Client.Engine.{
  Engine, Reply, Async, Login, login_root, login_namespace, login_database, login_record, continue,
  faulted, ◌>>=◌, ◌>>◌, pure, fail, await, text_of,
}
use surrealdb_c.Client.Guard.{OutPtr, is_null_out, CFn, with_surreal_async}
use surrealdb_c.Client.Resource.{is_empty}
use surrealdb_c.Client.Rows.{object_at}

-- `credentials_scope`
pub data Scope : Type 0 where
  root namespace database record_scope : Scope

-- `Display for credentials_scope`
unfoldable pub scope_text : Scope → Text
scope_text root = text "root"
scope_text namespace = text "namespace"
scope_text database = text "database"
scope_text record_scope = text "record"

pub record Credentials : Type 0 where
  pub username : StringT
  pub password : StringT

pub record CredentialsAccess : Type 0 where
  pub namespace : StringT
  pub database : StringT
  pub access : StringT

-- `token_ptr`: null, to a `string_t` of the library, which may be the null one, or to memory that
-- holds none, as that of a variable which is not initialised.
pub data TokenPtr : Type 0 where
  null_token held_token wild_token : TokenPtr

-- The texts that a login is made of.
pub record Names : Type 0 where
  pub user : Text
  pub pass : Text
  pub ns : Text
  pub db_name : Text
  pub ac : Text

module _ {E : SdbTypes} (G : Engine E) where
  -- A null string is the empty one.
  unfoldable pub text_or_empty : StringT → Async G.Db Text
  text_or_empty none = pure []
  text_or_empty (some s) = text_of G (some s)

  unfoldable pub creds_texts : Option Credentials → Async G.Db (Text × Text)
  unfolding text_or_empty
  creds_texts none = pure ([], [])
  creds_texts (some creds) = do
    user ← text_or_empty creds.username
    pass ← text_or_empty creds.password
    pure (user, pass)

  unfoldable pub names_of : Option CredentialsAccess → Text → Text → Async G.Db Names
  unfolding text_or_empty
  names_of none user pass =
      pure (record { user = user; pass = pass; ns = []; db_name = []; ac = [] })
  names_of (some details) user pass = do
    ns ← text_or_empty details.namespace
    db_name ← text_or_empty details.database
    ac ← text_or_empty details.access
    pure (record { user = user; pass = pass; ns = ns; db_name = db_name; ac = ac })

  -- `if s.is_empty() { return Err(message) }`
  unfoldable pub provided : Text → Text → Async G.Db (Unit {0})
  provided s message = if is_empty s then fail message else pure tt

  unfoldable pub need_namespace : Names → Async G.Db (Unit {0})
  unfolding provided
  need_namespace n = provided n.ns (text "Namespace must be provided.")

  unfoldable pub need_database : Names → Async G.Db (Unit {0})
  unfolding provided
  need_database n = provided n.db_name (text "Database must be provided.")

  unfoldable pub need_access : Names → Async G.Db (Unit {0})
  unfolding provided
  need_access n = provided n.ac (text "Access method must be provided.")

  -- Without parameters a record signs in by its username and password.
  unfoldable pub record_params : Option Object → Names → Async G.Db (SdbFields E)
  record_params (some o) n = object_at E (some o)
  record_params none n = pure (
      fields_of (
        BTree.insert (text "password") (sdb_string n.pass)
          (BTree.insert (text "username") (sdb_string n.user) [])))

  unfoldable pub record_login : Option Object → Names → Async G.Db (Login E)
  unfolding need_namespace need_database need_access record_params
  record_login params n = do
    need_namespace n
    need_database n
    need_access n
    obj ← record_params params n
    pure (login_record n.ns n.db_name n.ac obj)

  unfoldable pub signin_token : Scope → Option Object → Names → Async G.Db Text
  unfolding record_login
  signin_token root params n = await (G.signin (login_root n.user n.pass))
  signin_token namespace params n = do
    need_namespace n
    await (G.signin (login_namespace n.ns n.user n.pass))
  signin_token database params n = do
    need_namespace n
    need_database n
    await (G.signin (login_database n.ns n.db_name n.user n.pass))
  signin_token record_scope params n = do login ← record_login params n; await (G.signin login)

  unfoldable pub signup_token : Scope → Option Object → Names → Async G.Db Text
  unfolding record_login
  signup_token root params n = fail (text "Cannot signup as ROOT user")
  signup_token namespace params n =
      fail (text "Namespace scope does not support signup. Use RECORD scope instead.")
  signup_token database params n =
      fail (text "Database scope does not support signup. Use RECORD scope instead.")
  signup_token record_scope params n = do login ← record_login params n; await (G.signup login)

  -- `if !token_ptr.is_null() { *token_ptr = token.to_string_t(); }`: the assignment drops the string
  -- that was there, and so faults where there was none.
  unfoldable pub write_token : TokenPtr → Text → Async G.Db (CInt × Option StringT)
  write_token null_token token = pure (pos 0, none)
  write_token held_token token = pure (pos 0, some (to_string_t token))
  write_token wild_token token = λ d. (faulted, d)

  unfoldable pub signin :
      OutPtr
      → TokenPtr
      → Scope
      → Option Credentials
      → Option CredentialsAccess
      → Option Object
      → CFn G.Db StringT
  signin err_ptr token_ptr scope creds details params = with_surreal_async err_ptr do
    user_pass ← creds_texts creds
    names ← names_of details user_pass.0 user_pass.1
    token ← signin_token scope params names
    write_token token_ptr token

  unfoldable pub signup :
      OutPtr
      → TokenPtr
      → Scope
      → Option Credentials
      → Option CredentialsAccess
      → Option Object
      → CFn G.Db StringT
  signup err_ptr token_ptr scope creds details params = with_surreal_async err_ptr do
    user_pass ← creds_texts creds
    names ← names_of details user_pass.0 user_pass.1
    token ← signup_token scope params names
    write_token token_ptr token
