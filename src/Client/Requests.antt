-- ===== src/Client/Requests.antt =====
-- What a call of src/lib.rs is for, by its arguments alone: the one request that it makes of the
-- client, if it makes any. The reading of the arguments is written here on its own, without the
-- code's states, steps and messages.
pub mod Reading
pub mod Sent
pub mod Refines
use surrealdb_c.Prelude.{Bool, true, false, Option, none, some, List, [], ◌∷◌, ◌++◌, Text, text}
use surrealdb_c.Rust.Run.{Run, ok, panic, fault}
use surrealdb_c.Rust.Utf8.{to_str}
use surrealdb_c.Sdb.{SdbTypes, SdbValue, SdbFields, no_fields}
use surrealdb_c.Types.Strings.{StringT}
use surrealdb_c.Types.Values.{Value, Array, Object}
use surrealdb_c.Types.ToSdb.{value_to_sdb, array_to_sdb, sdb_object_from}
use surrealdb_c.Client.Engine.{
  Engine, Resource, PatchOp, Binding, Login, unbound, bind_one, bind_all, login_root,
  login_namespace, login_database, login_record, resource_from, patch_op_add, patch_op_remove,
  patch_op_replace,
}
use surrealdb_c.Client.Resource.{parse_resource}
use surrealdb_c.Client.Requests.Reading.{
  ◌>>?◌, text_at, needs, fields_at, sdb_value_at, arguments_at, variables_at, binding_at,
  credentials_at, access_at, signin_at, signup_at, content_clause,
}
use surrealdb_c.Client.Calls.{
  Call, authenticate, begin, cancel, commit, create, delete, export, health, import, insert,
  insert_relation, run, relate, invalidate, kill, select_live, merge, patch_add, patch_remove,
  patch_replace, query, select, set, signin, signup, unset, update, upsert, use_db, use_ns, version,
}

-- The requests that a connection can make of the client.
pub data Request (E : SdbTypes) : Type 0 where
  ask_query : Text → Binding E → Request E
  ask_delete ask_select ask_select_live : Resource E → Request E
  ask_insert ask_insert_relation ask_update ask_merge ask_upsert :
      Resource E → SdbFields E → Request E
  ask_patch : Resource E → PatchOp E → Request E
  ask_run : Text → List (SdbValue E) → Request E
  ask_set : Text → SdbValue E → Request E
  ask_authenticate ask_export ask_import ask_unset ask_use_db ask_use_ns : Text → Request E
  ask_signin ask_signup : Login E → Request E
  ask_health ask_invalidate ask_version : Request E

-- The database after the request, however it ends.
unfoldable pub perform : {E : SdbTypes} (G : Engine E) → Request E → G.Db → G.Db
perform G (ask_query q b) d = (G.query q b d).1
perform G (ask_delete r) d = (G.delete r d).1
perform G (ask_select r) d = (G.select r d).1
perform G (ask_select_live r) d = (G.select_live r d).1
perform G (ask_insert r o) d = (G.insert_content r o d).1
perform G (ask_insert_relation r o) d = (G.insert_relation r o d).1
perform G (ask_update r o) d = (G.update_content r o d).1
perform G (ask_merge r o) d = (G.update_merge r o d).1
perform G (ask_upsert r o) d = (G.upsert_content r o d).1
perform G (ask_patch r p) d = (G.update_patch r p d).1
perform G (ask_run f args) d = (G.run f args d).1
perform G (ask_set k v) d = (G.set k v d).1
perform G (ask_authenticate t) d = (G.authenticate t d).1
perform G (ask_export t) d = (G.export_to t d).1
perform G (ask_import t) d = (G.import_from t d).1
perform G (ask_unset t) d = (G.unset t d).1
perform G (ask_use_db t) d = (G.use_db t d).1
perform G (ask_use_ns t) d = (G.use_ns t d).1
perform G (ask_signin l) d = (G.signin l d).1
perform G (ask_signup l) d = (G.signup l d).1
perform G ask_health d = (G.health d).1
perform G ask_invalidate d = (G.invalidate d).1
perform G ask_version d = (G.version d).1

-- The request of a call, if it makes one: no request is made where a pointer that the call needs is
-- null, a text is not UTF-8, a value cannot be converted, or a name that the scope needs is empty.
abbrev pub request_of : (E : SdbTypes) → Call → Option (Request E)
request_of E (authenticate _ t) = text_at t >>? λ t. some (ask_authenticate t)
request_of E (begin _) = some (ask_query (text "BEGIN TRANSACTION") unbound)
request_of E (cancel _) = some (ask_query (text "CANCEL TRANSACTION") unbound)
request_of E (commit _) = some (ask_query (text "COMMIT TRANSACTION") unbound)
request_of E (create _ _ r o) = text_at r >>? λ r. fields_at E o >>? λ o.
    some (ask_query (text "CREATE " ++ r ++ text " CONTENT $content") (bind_one (text "content") o))
request_of E (delete _ p r) = needs p (text_at r >>? λ r. some (ask_delete (parse_resource E r)))
request_of E (export _ t) = text_at t >>? λ t. some (ask_export t)
request_of E (health _) = some ask_health
request_of E (import _ t) = text_at t >>? λ t. some (ask_import t)
request_of E (insert _ p r o) =
    needs p (text_at r >>? λ r. fields_at E o >>? λ o. some (ask_insert (parse_resource E r) o))
request_of E (insert_relation _ p t o) =
    needs p
      (text_at t >>? λ t. fields_at E o >>? λ o. some (ask_insert_relation (resource_from t) o))
request_of E (run _ p f a) =
    needs p (text_at f >>? λ f. arguments_at E a >>? λ a. some (ask_run f a))
request_of E (relate _ p a r b o) = needs p (
    text_at a >>? λ a. text_at r >>? λ r. text_at b >>? λ b. binding_at E o >>? λ c. some (
      ask_query
        (text "RELATE " ++ (a ++ (text "->" ++ (r ++ (text "->" ++ (b ++ content_clause o)))))) c))
request_of E (invalidate _) = some ask_invalidate
request_of E (kill _ t) =
    text_at t >>? λ t. some (ask_query (text "KILL u'" ++ t ++ text "'") unbound)
request_of E (select_live _ p r) =
    needs p (text_at r >>? λ r. some (ask_select_live (parse_resource E r)))
request_of E (merge _ p r o) =
    needs p (text_at r >>? λ r. fields_at E o >>? λ o. some (ask_merge (parse_resource E r) o))
request_of E (patch_add _ p r t v) = needs p (
    text_at r >>? λ r. text_at t >>? λ t.
    sdb_value_at E v >>? λ v. some (ask_patch (parse_resource E r) (patch_op_add t v)))
request_of E (patch_remove _ p r t) = needs p (
    text_at r >>? λ r. text_at t >>? λ t. some (ask_patch (parse_resource E r) (patch_op_remove t)))
request_of E (patch_replace _ p r t v) = needs p (
    text_at r >>? λ r. text_at t >>? λ t.
    sdb_value_at E v >>? λ v. some (ask_patch (parse_resource E r) (patch_op_replace t v)))
request_of E (query _ p t o) =
    needs p (text_at t >>? λ t. variables_at E o >>? λ c. some (ask_query t (bind_all c)))
request_of E (select _ p r) = needs p (text_at r >>? λ r. some (ask_select (parse_resource E r)))
request_of E (set _ t v) = text_at t >>? λ t. sdb_value_at E v >>? λ v. some (ask_set t v)
request_of E (signin _ _ scope c a params) = credentials_at c >>? λ up.
    access_at a up >>? λ n. signin_at E scope params n >>? λ l. some (ask_signin l)
request_of E (signup _ _ scope c a params) = credentials_at c >>? λ up.
    access_at a up >>? λ n. signup_at E scope params n >>? λ l. some (ask_signup l)
request_of E (unset _ t) = text_at t >>? λ t. some (ask_unset t)
request_of E (update _ p r o) =
    needs p (text_at r >>? λ r. fields_at E o >>? λ o. some (ask_update (parse_resource E r) o))
request_of E (upsert _ p r o) =
    needs p (text_at r >>? λ r. fields_at E o >>? λ o. some (ask_upsert (parse_resource E r) o))
request_of E (use_db _ t) = text_at t >>? λ t. some (ask_use_db t)
request_of E (use_ns _ t) = text_at t >>? λ t. some (ask_use_ns t)
request_of E (version _ p) = needs p (some ask_version)

-- The requests of the calls, in order.
abbrev pub requests : (E : SdbTypes) → List Call → List (Request E)
requests E [] = []
requests E (c ∷ cs) = elim (request_of E c) [ none ↦ requests E cs | some r ↦ r ∷ requests E cs ]

-- The database after the requests.
unfoldable pub perform_all : {E : SdbTypes} (G : Engine E) → List (Request E) → G.Db → G.Db
perform_all G [] d = d
perform_all G (r ∷ rs) d = perform_all G rs (perform G r d)
