-- ===== src/Client/Outcomes/Others.antt =====
-- The operations that read their arguments and write something else than rows: `sr_set`, `sr_version`,
-- `sr_select_live`, `sr_signin` and `sr_signup`.
pub mod Bodies
use surrealdb_c.Prelude.{
  ◌≡◌, refl, sym, ap, ◌∙◌, Bool, true, false, Option, none, some, Text, text, length, ◌⊎◌, inl, inr,
  if◌then◌else◌,
}
use surrealdb_c.Prelude.Int.{CInt, pos, as_c_int}
use surrealdb_c.Sdb.{SdbTypes}
use surrealdb_c.Types.Strings.{StringT, is_null, to_string_t}
use surrealdb_c.Types.Values.{Value, Object}
use surrealdb_c.Client.Engine.{Engine, Async, Reply, ◌>>=◌, pure, await, text_of}
use surrealdb_c.Client.Guard.{
  OutPtr, valid, is_null_out, Exit, returned, crashed, sr_error, sr_fatal, Surreal, CFn, check_null,
  with_surreal_async,
}
use surrealdb_c.Client.Resource.{parse_resource}
use surrealdb_c.Client.Session.{set, version, write_version}
use surrealdb_c.Client.Query.{select_live}
use surrealdb_c.Client.Auth.{TokenPtr, Scope, Credentials, CredentialsAccess, signin, signup}
use surrealdb_c.Client.Outcomes.{outcome, after}
use surrealdb_c.Client.Requests.Reading.{
  ◌>>?◌, text_at, sdb_value_at, credentials_at, access_at, signin_at, signup_at,
}
use surrealdb_c.Client.Requests.Sent.Arguments.{
  Reads-text_of, Reads-value_at, Reads-creds_texts, Reads-names_of,
}
use surrealdb_c.Client.Outcomes.Others.Bodies.{
  with_token, Asks, Asks-bind, Ends, Asks-Ends, Asks-signin_token, Asks-signup_token,
}

-- The operations with their arguments, those pointers that must not be null being valid.
pub data OtherOp : Type 0 where
  versioning : OtherOp
  setting : Text → Value → OtherOp
  watching : Text → OtherOp
  signing_in signing_up :
      TokenPtr → Scope → Option Credentials → Option CredentialsAccess → Option Object → OtherOp

module _ {E : SdbTypes} (G : Engine E) where
  -- What the client replies, and what is written.
  abbrev pub Answer : OtherOp → Type 0
  Answer versioning = Text
  Answer (setting _ _) = Unit
  Answer (watching _) = G.LiveStream
  Answer (signing_in _ _ _ _ _) = Text
  Answer (signing_up _ _ _ _ _) = Text

  abbrev pub Written : OtherOp → Type 0
  Written versioning = StringT
  Written (setting _ _) = Unit
  Written (watching _) = G.LiveStream
  Written (signing_in _ _ _ _ _) = StringT
  Written (signing_up _ _ _ _ _) = StringT

  abbrev pub other_function : (op : OtherOp) → CFn G.Db (Written op)
  other_function versioning = version G valid valid
  other_function (setting t v) = set G valid (some t) (some v)
  other_function (watching t) = select_live G valid valid (some t)
  other_function (signing_in p scope c a params) = signin G valid p scope c a params
  other_function (signing_up p scope c a params) = signup G valid p scope c a params

  -- The call of the client, where the arguments can be read and a login has what its scope needs.
  abbrev pub other_call : (op : OtherOp) → Option (Reply G.Db (Answer op))
  other_call versioning = some G.version
  other_call (setting t v) =
      text_at (some t) >>? λ x. sdb_value_at E (some v) >>? λ c. some (G.set x c)
  other_call (watching t) = text_at (some t) >>? λ x. some (G.select_live (parse_resource E x))
  other_call (signing_in p scope c a params) = credentials_at c >>? λ up.
      (access_at a up >>? λ n. (signin_at E scope params n >>? λ l. some (G.signin l)))
  other_call (signing_up p scope c a params) = credentials_at c >>? λ up.
      (access_at a up >>? λ n. (signup_at E scope params n >>? λ l. some (G.signup l)))

  -- The code and what is written for a reply, unless the C function faults.
  abbrev pub reported : (op : OtherOp) → Answer op → Option (CInt × Option (Written op))
  reported versioning v = some (as_c_int (length v), some (to_string_t v))
  reported (setting _ _) _ = some (pos 0, none)
  reported (watching _) stream = some (pos 1, some stream)
  reported (signing_in p _ _ _ _) token = with_token p token
  reported (signing_up p _ _ _ _) token = with_token p token

  -- On a clear connection with a valid `err_ptr` and no null pointer where one is needed, `sr_version`,
  -- `sr_set`, `sr_select_live`, `sr_signin` and `sr_signup` make one call of the client with their
  -- arguments, and end as it decides: a reply gives the version and its length, 0, the stream and 1,
  -- or, for a login, 0 and no token where its pointer is null, 0 and the token where the pointer holds
  -- a string of the library, and a fault where it holds none, since the assignment drops what was
  -- there; an error gives `SR_ERROR` with its text, a panic `SR_FATAL` with its message. If a text is not UTF-8, a value cannot be converted, a name that the
  -- scope needs is empty, or the scope has no sign-up, no call is made, nothing but an error is
  -- written, and the connection stays as it was.
  pub other_function-Ends :
      (op : OtherOp) (s : Surreal G.Db)
      → s.ps ≡ false
      → Ends (reported op) (other_call op) (other_function op s) s
  unfolding set version write_version select_live signin signup check_null
  other_function-Ends versioning s h =
      Asks-Ends (reported versioning) _ (some G.version) s h (record { asks = λ d. refl })
  other_function-Ends (setting t v) s h =
      Asks-Ends (reported (setting t v)) _ (other_call (setting t v)) s h (
        Asks-bind (reported (setting t v)) _ _ _ _ (Reads-text_of G (some t)) λ x.
          Asks-bind (reported (setting t v)) _ _ _ _ (Reads-value_at G (some v))
            λ c. record { asks = λ d. refl })
  other_function-Ends (watching t) s h =
      Asks-Ends (reported (watching t)) _ (other_call (watching t)) s h (
        Asks-bind (reported (watching t)) _ _ _ _ (Reads-text_of G (some t))
          λ x. record { asks = λ d. refl })
  other_function-Ends (signing_in p scope c a params) s h =
      let op = signing_in p scope c a params in
      Asks-Ends (reported op) _ (other_call op) s h (
        Asks-bind (reported op) _ _ _ _ (Reads-creds_texts G c) λ up.
          Asks-bind (reported op) _ _ _ _ (Reads-names_of G a up)
            λ n. Asks-signin_token G p scope params n)
  other_function-Ends (signing_up p scope c a params) s h =
      let op = signing_up p scope c a params in
      Asks-Ends (reported op) _ (other_call op) s h (
        Asks-bind (reported op) _ _ _ _ (Reads-creds_texts G c) λ up.
          Asks-bind (reported op) _ _ _ _ (Reads-names_of G a up)
            λ n. Asks-signup_token G p scope params n)
