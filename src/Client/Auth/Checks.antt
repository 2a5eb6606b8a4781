-- ===== src/Client/Auth/Checks.antt =====
-- What `sr_signin` and `sr_signup` refuse without asking the database, and the defaults of a record.
use surrealdb_c.Prelude.{
  ◌≡◌, ◌∙◌, ◌≢◌, refl, false, Option, none, some, [], ◌∷◌, Text, text, ◌⊎◌, inl, inr, Option-cases,
  if◌then◌else◌, arith,
}
use surrealdb_c.Rust.BTree
use surrealdb_c.Rust.Utf8.{to_str}
use surrealdb_c.Sdb.{SdbTypes, sdb_string, fields_of}
use surrealdb_c.Types.Strings.{StringT, to_string_t}
use surrealdb_c.Types.Values.{Object}
use surrealdb_c.Client.Engine.{
  Engine, Login, login_root, login_namespace, login_database, login_record, Async, done, failed,
  await, text_of, ◌>>=◌,
}
use surrealdb_c.Client.Guard.{valid, returned, Surreal, sr_error, with_surreal_async-clear, settle}
use surrealdb_c.Client.Resource.{is_empty}
use surrealdb_c.Client.Auth.{
  TokenPtr, Scope, root, namespace, database, record_scope, Credentials, CredentialsAccess, Names,
  text_or_empty, creds_texts, names_of, signin_token, signup_token, write_token, signup,
}

-- The message for the first name that a scope needs and that is empty.
abbrev pub missing : Scope → Names → Option Text
missing root n = none
missing namespace n = if is_empty n.ns then some (text "Namespace must be provided.") else none
missing database n =
    if is_empty n.ns
    then some (text "Namespace must be provided.")
    else if is_empty n.db_name
    then some (text "Database must be provided.")
    else none
missing record_scope n =
    if is_empty n.ns
    then some (text "Namespace must be provided.")
    else if is_empty n.db_name
    then some (text "Database must be provided.")
    else if is_empty n.ac
    then some (text "Access method must be provided.")
    else none

module _ {E : SdbTypes} (G : Engine E) where
  -- A sign-in that lacks a name which its scope needs fails with the message of the first such name,
  -- and the database is neither asked nor changed.
  pub signin_missing :
      (scope : Scope) (params : Option Object) (n : Names) (msg : Text) (d : G.Db)
      → missing scope n ≡ some msg
      → signin_token G scope params n d ≡ (failed (to_string_t msg), d)
  unfolding signin_token
  signin_missing root params n msg d h = cc
  signin_missing namespace params n msg d h = ground arith
  signin_missing database params n msg d h = ground arith
  signin_missing record_scope params n msg d h = ground arith

  -- The login of a scope, for a record without parameters by username and password.
  abbrev pub login_of : Scope → Names → Login E
  login_of root n = login_root n.user n.pass
  login_of namespace n = login_namespace n.ns n.user n.pass
  login_of database n = login_database n.ns n.db_name n.user n.pass
  login_of record_scope n =
      login_record n.ns n.db_name n.ac (
        fields_of
          ((text "password", sdb_string n.pass) ∷ (text "username", sdb_string n.user) ∷ []))

  -- A sign-in without parameters that has every name which its scope needs asks the database once,
  -- with the login of that scope: for a record, its username and password as parameters.
  pub signin_asks :
      (scope : Scope) (n : Names) (d : G.Db)
      → missing scope n ≡ none
      → signin_token G scope none n d ≡ await (G.signin (login_of scope n)) d
  unfolding signin_token BTree.insert BTree.compare_text
  signin_asks root n d h = refl
  signin_asks namespace n d h = ground arith
  signin_asks database n d h = ground arith
  signin_asks record_scope n d h = ground arith

-- The action ends with a value or an error, and leaves the database alone.
abbrev Quiet : {Db A : Type 0} → Async Db A → Type 0
Quiet {Db} {A} m =
    (d : Db) → ((a : A) × (m d ≡ (done a, d))) ⊎ ((e : StringT) × (m d ≡ (failed e, d)))

-- It ends with an error, and leaves the database alone.
abbrev Refuses : {Db A : Type 0} → Async Db A → Type 0
Refuses {Db} m = (d : Db) → (e : StringT) × (m d ≡ (failed e, d))

module _ {Db A B : Type 0} (m : Async Db A) (f : A → Async Db B) (q : Quiet m) where
  Refuses-bind : ((a : A) → Refuses (f a)) → Refuses (m >>= f)
  Refuses-bind r d = elim (q d) [ inl (a, e) ↦ rw e (r a d) | inr (x, e) ↦ rw e (x, refl) ]

  Quiet-bind : ((a : A) → Quiet (f a)) → Quiet (m >>= f)
  Quiet-bind r d = elim (q d) [ inl (a, e) ↦ rw e (r a d) | inr (x, e) ↦ rw e (inr (x, refl)) ]

Refuses-then :
    {Db A B : Type 0} (m : Async Db A) (f : A → Async Db B) → Refuses m → Refuses (m >>= f)
Refuses-then m f r d = let (x, e) = r d in (x, rw e)

module _ {E : SdbTypes} (G : Engine E) where
  text_or_empty-Quiet : (s : StringT) → Quiet (text_or_empty G s)
  unfolding text_or_empty
  text_or_empty-Quiet none d = inl ([], refl)
  text_or_empty-Quiet (some s) d =
      unfold text_of in
      elim (Option-cases (to_str s)) [
        | inl e ↦ inr (to_string_t (G.utf8_error s), rw (e, text_of))
        | inr (t, e) ↦ inl (t, rw (e, text_of))
      ]

  creds_texts-Quiet : (c : Option Credentials) → Quiet (creds_texts G c)
  unfolding creds_texts
  creds_texts-Quiet none = λ d. inl (([], []), refl)
  creds_texts-Quiet (some c) =
      Quiet-bind (text_or_empty G c.username) _ (text_or_empty-Quiet c.username) λ user.
        Quiet-bind (text_or_empty G c.password) _ (text_or_empty-Quiet c.password)
          λ pass d. inl (_, refl)

  names_of-Quiet :
      (a : Option CredentialsAccess) (user pass : Text) → Quiet (names_of G a user pass)
  unfolding names_of
  names_of-Quiet none user pass = λ d. inl (_, refl)
  names_of-Quiet (some a) user pass =
      Quiet-bind (text_or_empty G a.namespace) _ (text_or_empty-Quiet a.namespace) λ ns.
        Quiet-bind (text_or_empty G a.database) _ (text_or_empty-Quiet a.database) λ db.
          Quiet-bind (text_or_empty G a.access) _ (text_or_empty-Quiet a.access)
            λ ac d. inl (_, refl)

  signup_token-Refuses :
      (scope : Scope) (params : Option Object) (n : Names)
      → scope ≢ record_scope
      → Refuses (signup_token G scope params n)
  unfolding signup_token
  signup_token-Refuses root params n h d = (_, refl)
  signup_token-Refuses namespace params n h d = (_, refl)
  signup_token-Refuses database params n h d = (_, refl)
  signup_token-Refuses record_scope params n h d = absurd (h refl)

  signup_body :
      (token_ptr : TokenPtr) (scope : Scope) (creds : Option Credentials)
      (details : Option CredentialsAccess) (params : Option Object)
      → scope ≢ record_scope
      → Refuses (do
        up ← creds_texts G creds
        n ← names_of G details up.0 up.1
        token ← signup_token G scope params n
        write_token G token_ptr token)
  signup_body token_ptr scope creds details params h =
      Refuses-bind (creds_texts G creds) _ (creds_texts-Quiet creds) λ up.
        Refuses-bind (names_of G details up.0 up.1) _ (names_of-Quiet details up.0 up.1) λ n.
          Refuses-then (signup_token G scope params n) _ (signup_token-Refuses scope params n h)

  -- On a clear connection and with a valid `err_ptr`, `sr_signup` in any scope but RECORD returns
  -- `SR_ERROR` with a message, writes no token and leaves the database as it was, whatever the
  -- credentials.
  pub signup_only_record :
      (token_ptr : TokenPtr) (scope : Scope) (creds : Option Credentials)
      (details : Option CredentialsAccess) (params : Option Object) (s : Surreal G.Db)
      → scope ≢ record_scope
      → s.ps ≡ false
      → (m : StringT) × (signup G valid token_ptr scope creds details params s
          ≡ (returned sr_error (some m) none, record { db = s.db; ps = s.ps }))
  unfolding signup settle
  signup_only_record token_ptr scope creds details params s h hp =
      let body = signup_body token_ptr scope creds details params h s.db in
      (body.0, with_surreal_async-clear valid _ s hp ∙ rw body.1)
