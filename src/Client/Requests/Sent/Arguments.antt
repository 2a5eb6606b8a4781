-- ===== src/Client/Requests/Sent/Arguments.antt =====
-- The arguments are read as `Client/Requests/Reading` says.
use surrealdb_c.Prelude.{refl, Option, none, some, [], ◌∷◌, Text, text}
use surrealdb_c.Rust.BTree
use surrealdb_c.Rust.Utf8.{to_str}
use surrealdb_c.Sdb.{SdbTypes}
use surrealdb_c.Types.Strings.{StringT, to_string_t}
use surrealdb_c.Types.Values.{Value, Array, Object}
use surrealdb_c.Types.ToSdb.{value_to_sdb, array_to_sdb, sdb_object_from}
use surrealdb_c.Client.Engine.{Engine, Async, done, failed, ◌>>◌, bind_one, text_of}
use surrealdb_c.Client.Rows.{object_at, value_at}
use surrealdb_c.Client.Graph.{args_of, relate_binding}
use surrealdb_c.Client.Query.{vars_of}
use surrealdb_c.Client.Auth.{
  Credentials, CredentialsAccess, Names, text_or_empty, creds_texts, names_of, provided,
  need_namespace, need_database, need_access, record_params, record_login,
}
use surrealdb_c.Client.Requests.Reading.{
  text_at, text_or, fields_at, sdb_value_at, arguments_at, variables_at, binding_at, credentials_at,
  access_at, params_at, record_login_at, given,
}
use surrealdb_c.Client.Requests.Sent.Steps.{
  Reads, given_value, given_error, given_fault, Reads-pure, Reads-lift, Reads-bind,
}

module _ {E : SdbTypes} (G : Engine E) where
  pub Reads-text_of : (t : StringT) → Reads (text_of G t) (text_at t)
  unfolding text_of text_at
  Reads-text_of none = record { still = λ d. refl; gives = λ d. given_fault }
  Reads-text_of (some t) = go (to_str t)
    where
      go :
          (o : Option Text)
          → Reads {Db = G.Db}
              (λ d. elim o [
                | some t ↦ (done t, d)
                | none ↦ (failed (to_string_t (G.utf8_error t)), d)
              ])
              o
      go none = record { still = λ d. refl; gives = λ d. given_error _ }
      go (some x) = record { still = λ d. refl; gives = λ d. given_value x }

  pub Reads-object_at : (o : Option Object) → Reads {Db = G.Db} (object_at E o) (fields_at E o)
  unfolding object_at fields_at
  Reads-object_at none = record { still = λ d. refl; gives = λ d. given_fault }
  Reads-object_at (some o) = Reads-lift (sdb_object_from E o)

  pub Reads-value_at : (v : Option Value) → Reads {Db = G.Db} (value_at E v) (sdb_value_at E v)
  unfolding value_at sdb_value_at
  Reads-value_at none = record { still = λ d. refl; gives = λ d. given_fault }
  Reads-value_at (some v) = Reads-lift (value_to_sdb E v)

  pub Reads-args_of : (a : Option Array) → Reads (args_of G a) (arguments_at E a)
  unfolding args_of arguments_at
  Reads-args_of none = Reads-pure []
  Reads-args_of (some a) = Reads-lift (array_to_sdb E a)

  pub Reads-vars_of : (o : Option Object) → Reads (vars_of G o) (variables_at E o)
  unfolding vars_of variables_at object_at
  Reads-vars_of none = Reads-pure _
  Reads-vars_of (some o) = Reads-lift (sdb_object_from E o)

  pub Reads-relate_binding : (o : Option Object) → Reads (relate_binding G o) (binding_at E o)
  unfolding relate_binding binding_at fields_at
  Reads-relate_binding none = Reads-pure _
  Reads-relate_binding (some o) =
      Reads-bind (object_at E (some o)) (fields_at E (some o)) _ _ (Reads-object_at (some o))
        λ c. Reads-pure (bind_one (text "content") c)

  Reads-text_or_empty : (t : StringT) → Reads (text_or_empty G t) (text_or t)
  unfolding text_or_empty text_or text_at
  Reads-text_or_empty none = Reads-pure []
  Reads-text_or_empty (some t) = Reads-text_of (some t)

  pub Reads-creds_texts : (c : Option Credentials) → Reads (creds_texts G c) (credentials_at c)
  unfolding creds_texts credentials_at
  Reads-creds_texts none = Reads-pure ([], [])
  Reads-creds_texts (some c) =
      Reads-bind _ _ _ _ (Reads-text_or_empty c.username)
        λ user. Reads-bind _ _ _ _ (Reads-text_or_empty c.password) λ pass. Reads-pure (user, pass)

  pub Reads-names_of :
      (a : Option CredentialsAccess) (up : Text × Text)
      → Reads (names_of G a up.0 up.1) (access_at a up)
  unfolding names_of access_at
  Reads-names_of none up = Reads-pure _
  Reads-names_of (some a) up = Reads-bind _ _ _ _ (Reads-text_or_empty a.namespace) λ ns.
      Reads-bind _ _ _ _ (Reads-text_or_empty a.database)
        λ db. Reads-bind _ _ _ _ (Reads-text_or_empty a.access) λ ac. Reads-pure _

  Reads-given :
      {A : Type 0} (s message : Text) (m : Async G.Db A) (o : Option A)
      → Reads m o
      → Reads (provided G s message >> m) (given s o)
  unfolding provided
  Reads-given [] message m o r = record { still = λ d. refl; gives = λ d. given_error _ }
  Reads-given (_ ∷ _) message m o r = record { still = r.still; gives = r.gives }

  Reads-record_params :
      (p : Option Object) (n : Names) → Reads (record_params G p n) (params_at E p n)
  unfolding record_params params_at BTree.insert BTree.compare_text
  Reads-record_params none n = Reads-pure _
  Reads-record_params (some o) n = Reads-object_at (some o)

  pub Reads-record_login :
      (p : Option Object) (n : Names) → Reads (record_login G p n) (record_login_at E p n)
  unfolding record_login record_login_at need_namespace need_database need_access
  Reads-record_login p n = Reads-given n.ns _ _ _ (
      Reads-given n.db_name _ _ _
        (Reads-given n.ac _ _ _ (Reads-bind _ _ _ _ (Reads-record_params p n) λ o. Reads-pure _)))
