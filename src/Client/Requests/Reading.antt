-- ===== src/Client/Requests/Reading.antt =====
-- The arguments of the calls of src/lib.rs, read: what each stands for, if it stands for anything.
use surrealdb_c.Prelude.{Option, none, some, List, [], ◌∷◌, Text, text}
use surrealdb_c.Rust.Run.{Run, ok, panic, fault}
use surrealdb_c.Rust.Utf8.{to_str}
use surrealdb_c.Sdb.{SdbTypes, SdbValue, SdbFields, no_fields, sdb_string, fields_of}
use surrealdb_c.Types.Strings.{StringT}
use surrealdb_c.Types.Values.{Value, Array, Object}
use surrealdb_c.Types.ToSdb.{value_to_sdb, array_to_sdb, sdb_object_from}
use surrealdb_c.Client.Engine.{
  Binding, Login, unbound, bind_one, login_root, login_namespace, login_database, login_record,
}
use surrealdb_c.Client.Guard.{OutPtr, null, valid}
use surrealdb_c.Client.Auth.{
  Scope, root, namespace, database, record_scope, Credentials, CredentialsAccess, Names,
}

infixl 5 ◌>>?◌
-- The next argument, where the one before could be read.
unfoldable pub ◌>>?◌ : {A B : Type 0} → Option A → (A → Option B) → Option B
none >>? f = none
some a >>? f = f a

-- A text that is there and is UTF-8.
unfoldable pub text_at : StringT → Option Text
text_at none = none
text_at (some t) = to_str t

-- A text that may be missing, and is then the empty one.
unfoldable pub text_or : StringT → Option Text
text_or none = some []
text_or (some t) = to_str t

abbrev pub converted : {A : Type 0} → Run A → Option A
converted (ok a) = some a
converted (panic _) = none
converted fault = none

-- A result pointer that must not be null.
unfoldable pub needs : {A : Type 0} → OutPtr → Option A → Option A
needs null r = none
needs valid r = r

module _ (E : SdbTypes) where
  unfoldable pub fields_at : Option Object → Option (SdbFields E)
  fields_at none = none
  fields_at (some o) = converted (sdb_object_from E o)

  unfoldable pub sdb_value_at : Option Value → Option (SdbValue E)
  sdb_value_at none = none
  sdb_value_at (some v) = converted (value_to_sdb E v)

  unfoldable pub arguments_at : Option Array → Option (List (SdbValue E))
  arguments_at none = some []
  arguments_at (some a) = converted (array_to_sdb E a)

  unfoldable pub variables_at : Option Object → Option (SdbFields E)
  variables_at none = some no_fields
  variables_at (some o) = converted (sdb_object_from E o)

  unfoldable pub binding_at : Option Object → Option (Binding E)
  binding_at none = some unbound
  binding_at (some o) = converted (sdb_object_from E o) >>? λ c. some (bind_one (text "content") c)

-- The end of a `RELATE`, with a content and without.
abbrev pub content_clause : Option Object → Text
content_clause none = []
content_clause (some _) = text " CONTENT $content"

-- The texts of a sign-in.
unfoldable pub credentials_at : Option Credentials → Option (Text × Text)
credentials_at none = some ([], [])
credentials_at (some c) =
    text_or c.username >>? λ user. text_or c.password >>? λ pass. some (user, pass)

unfoldable pub access_at : Option CredentialsAccess → Text × Text → Option Names
access_at none (user, pass) =
    some (record { user = user; pass = pass; ns = []; db_name = []; ac = [] })
access_at (some a) (user, pass) = text_or a.namespace >>? λ ns. text_or a.database >>? λ db.
    text_or a.access >>? λ ac.
    some (record { user = user; pass = pass; ns = ns; db_name = db; ac = ac })

-- A name that must not be empty.
abbrev pub given : {A : Type 0} → Text → Option A → Option A
given [] r = none
given (_ ∷ _) r = r

module _ (E : SdbTypes) where
  unfoldable pub params_at : Option Object → Names → Option (SdbFields E)
  params_at (some o) n = fields_at E (some o)
  params_at none n =
      some (
        fields_of
          ((text "password", sdb_string n.pass) ∷ (text "username", sdb_string n.user) ∷ []))

  unfoldable pub record_login_at : Option Object → Names → Option (Login E)
  record_login_at params n = given n.ns (
      given n.db_name
        (given n.ac (params_at params n >>? λ o. some (login_record n.ns n.db_name n.ac o))))

  unfoldable pub signin_at : Scope → Option Object → Names → Option (Login E)
  signin_at root params n = some (login_root n.user n.pass)
  signin_at namespace params n = given n.ns (some (login_namespace n.ns n.user n.pass))
  signin_at database params n =
      given n.ns (given n.db_name (some (login_database n.ns n.db_name n.user n.pass)))
  signin_at record_scope params n = record_login_at params n

  unfoldable pub signup_at : Scope → Option Object → Names → Option (Login E)
  signup_at record_scope params n = record_login_at params n
  signup_at _ params n = none
