-- ===== src/Client/Requests/Sent.antt =====
-- Each call makes the request that its arguments stand for.
pub mod Steps
pub mod Arguments
pub mod Logins
pub mod Shapes
pub mod Replies
use surrealdb_c.Prelude.{
  ◌≡◌, refl, ap, ◌∙◌, Bool, true, false, Option, none, some, List, [], ◌∷◌, ◌++◌, Text, text,
}
use surrealdb_c.Prelude.Int.{CInt}
use surrealdb_c.Sdb.{SdbTypes, SdbValue, SdbFields}
use surrealdb_c.Types.Strings.{StringT, is_null}
use surrealdb_c.Types.Values.{Value, Array, Object}
use surrealdb_c.Client.Engine.{
  Engine, Async, Reply, ◌>>=◌, pure, await, text_of, unbound, bind_one, bind_all, resource_from,
  patch_op_add, patch_op_remove, patch_op_replace,
}
use surrealdb_c.Client.Guard.{OutPtr, is_null_out, Surreal, CFn, check_null, with_surreal_async}
use surrealdb_c.Client.Resource.{parse_resource}
use surrealdb_c.Client.Rows.{rows, write_rows, object_at, value_at, take_first}
use surrealdb_c.Client.Create
use surrealdb_c.Client.Records
use surrealdb_c.Client.Patch
use surrealdb_c.Client.Graph
use surrealdb_c.Client.Session
use surrealdb_c.Client.Query
use surrealdb_c.Client.Auth
use surrealdb_c.Client.Calls.{
  Call, call, calls, erase, authenticate, begin, cancel, commit, create, delete, export, health,
  import, insert, insert_relation, run, relate, invalidate, kill, select_live, merge, patch_add,
  patch_remove, patch_replace, query, select, set, signin, signup, unset, update, upsert, use_db,
  use_ns, version,
}
use surrealdb_c.Client.Requests
use surrealdb_c.Client.Requests.{Request, ask_query, request_of, requests, perform, perform_all}
use surrealdb_c.Client.Requests.Reading.{
  ◌>>?◌, text_at, needs, fields_at, sdb_value_at, content_clause,
}
use surrealdb_c.Client.Requests.Sent.Steps.{
  Still, Sends, SendsOn, made, Sends-bind, Sends-await, SendsOn-with_surreal_async, SendsOn-erase,
  SendsOn-check_null, SendsOn-needs,
}
use surrealdb_c.Client.Requests.Sent.Shapes.{
  absent_text, absent_value, absent_object, absent_later, asking, asking_text, asking_object,
  asking_patch, session_plain, session_text, records_text, records_object, Still-pure, Still-rows,
}
use surrealdb_c.Client.Requests.Sent.Arguments.{
  Reads-text_of, Reads-object_at, Reads-value_at, Reads-args_of, Reads-vars_of,
  Reads-relate_binding, Reads-creds_texts, Reads-names_of,
}
use surrealdb_c.Client.Requests.Sent.Replies.{
  Still-bind, Still-first_rows, Still-created, Still-statement_results,
}
use surrealdb_c.Client.Requests.Sent.Logins.{Sends-signin_token, Sends-signup_token}

module _ {E : SdbTypes} (G : Engine E) where
  -- The text of the query of `sr_relate`.
  relate_query_lem :
      (a r b : Text) (o : Option Object)
      → Graph.relate_query G a r b o
        ≡ text "RELATE " ++ (a ++ (text "->" ++ (r ++ (text "->" ++ (b ++ content_clause o)))))
  unfolding Graph.relate_query
  relate_query_lem a r b none = refl
  relate_query_lem a r b (some o) = refl

  pub call-SendsOn : (c : Call) → SendsOn G (call G c) (request_of E c)
  unfolding call Session.authenticate Session.begin Session.cancel Session.commit Create.create
      Create.create_query Records.delete Session.export Session.health Session.import Records.insert
      Records.insert_relation Graph.run Graph.relate Session.invalidate Session.kill
      Session.kill_query Query.select_live Records.merge Patch.patch_add Patch.patch_remove
      Patch.patch_replace Query.query Records.select Session.set Auth.signin Auth.signup
      Session.unset Records.update Records.upsert Session.use_db Session.use_ns Session.version
      Session.write_version perform
  call-SendsOn (authenticate e t) = session_text G e _ t G.authenticate _ λ x d. refl
  call-SendsOn (begin e) =
      session_plain G e (G.query (text "BEGIN TRANSACTION") unbound) _ λ d. refl
  call-SendsOn (cancel e) =
      session_plain G e (G.query (text "CANCEL TRANSACTION") unbound) _ λ d. refl
  call-SendsOn (commit e) =
      session_plain G e (G.query (text "COMMIT TRANSACTION") unbound) _ λ d. refl
  call-SendsOn (create e p r o) = SendsOn-erase _ _ (
      SendsOn-check_null (is_null r) e _ _ _ (absent_text r _) (
        SendsOn-check_null (is_null o) e _ _ _
          (λ n. absent_later (text_at r) _ λ x. absent_object o _ n)
          (SendsOn-with_surreal_async e _ _ (
            Sends-bind _ _ _ _ (Reads-text_of G r) λ x.
              Sends-bind _ _ _ _ (Reads-object_at G o) λ c.
                Sends-await (G.query (Create.create_query G x) (bind_one (text "content") c)) _ _
                  (λ d. refl) (Still-created G p)))))
  call-SendsOn (delete e p r) =
      records_text G p e _ r (λ x. G.delete (parse_resource E x)) _ λ x d. refl
  call-SendsOn (export e t) = session_text G e _ t G.export_to _ λ x d. refl
  call-SendsOn (health e) = session_plain G e G.health _ λ d. refl
  call-SendsOn (import e t) = session_text G e _ t G.import_from _ λ x d. refl
  call-SendsOn (insert e p r o) =
      records_object G p e _ r o (λ x. G.insert_content (parse_resource E x)) _ λ x c d. refl
  call-SendsOn (insert_relation e p t o) =
      records_object G p e _ t o (λ x. G.insert_relation (resource_from x)) _ λ x c d. refl
  call-SendsOn (run e p f a) = SendsOn-erase _ _ (
      SendsOn-needs p e _ _ _ (
        SendsOn-check_null (is_null f) e _ _ _ (absent_text f _) (
          SendsOn-with_surreal_async e _ _ (
            Sends-bind _ _ _ _ (Reads-text_of G f) λ x.
              Sends-bind _ _ _ _ (Reads-args_of G a)
                λ c. Sends-await (G.run x c) _ _ (λ d. refl) (Still-rows G)))))
  call-SendsOn (relate e p a r b o) = SendsOn-erase _ _ (
      SendsOn-needs p e _ _ _ (
        SendsOn-check_null (is_null a) e _ _ _ (absent_text a _) (
          SendsOn-check_null (is_null r) e _ _ _
            (λ n. absent_later (text_at a) _ λ x. absent_text r _ n)
            (SendsOn-check_null (is_null b) e _ _ _
              (λ n.
                absent_later (text_at a) _ λ x. absent_later (text_at r) _ λ y. absent_text b _ n)
              (SendsOn-with_surreal_async e _ _ (
                Sends-bind _ _ _ _ (Reads-text_of G a) λ x.
                  Sends-bind _ _ _ _ (Reads-text_of G r) λ y.
                    Sends-bind _ _ _ _ (Reads-text_of G b) λ z.
                      Sends-bind _ _ _ _ (Reads-relate_binding G o) λ c.
                        Sends-await (G.query (Graph.relate_query G x y z o) c) _ (ask_query _ c)
                          (λ d. ap (λ q. (G.query q c d).1) (relate_query_lem x y z o))
                          (Still-first_rows G)))))))
  call-SendsOn (invalidate e) = session_plain G e G.invalidate _ λ d. refl
  call-SendsOn (kill e t) =
      session_text G e _ t (λ x. G.query (Session.kill_query G x) unbound) _ λ x d. refl
  call-SendsOn (select_live e p r) = SendsOn-erase _ _ (
      SendsOn-needs p e _ _ _ (
        asking_text G e _ r (λ x. G.select_live (parse_resource E x)) _ _ (λ x d. refl)
          λ a. Still-pure G _))
  call-SendsOn (merge e p r o) =
      records_object G p e _ r o (λ x. G.update_merge (parse_resource E x)) _ λ x c d. refl
  call-SendsOn (patch_add e p r t v) =
      SendsOn-erase _ _ (SendsOn-needs p e _ _ _ (asking_patch G e r t v patch_op_add))
  call-SendsOn (patch_remove e p r t) = SendsOn-erase _ _ (
      SendsOn-needs p e _ _ _ (
        SendsOn-check_null (is_null r) e _ _ _ (absent_text r _) (
          SendsOn-check_null (is_null t) e _ _ _
            (λ n. absent_later (text_at r) _ λ x. absent_text t _ n)
            (SendsOn-with_surreal_async e _ _ (
              Sends-bind _ _ _ _ (Reads-text_of G r) λ x.
                Sends-bind _ _ _ _ (Reads-text_of G t) λ y.
                  Sends-await (G.update_patch (parse_resource E x) (patch_op_remove y)) _ _
                    (λ d. refl) (Still-rows G))))))
  call-SendsOn (patch_replace e p r t v) =
      SendsOn-erase _ _ (SendsOn-needs p e _ _ _ (asking_patch G e r t v patch_op_replace))
  call-SendsOn (query e p t o) = SendsOn-erase _ _ (
      SendsOn-needs p e _ _ _ (
        SendsOn-check_null (is_null t) e _ _ _ (absent_text t _) (
          SendsOn-with_surreal_async e _ _ (
            Sends-bind _ _ _ _ (Reads-text_of G t) λ x. Sends-bind _ _ _ _ (Reads-vars_of G o) λ c.
              Sends-await (G.query x (bind_all c)) _ _ (λ d. refl)
                λ res.
                  Still-bind (Query.statement_results G (G.num_statements res) 0 res) _
                    (Still-statement_results G (G.num_statements res) 0 res)
                    λ acc. Still-pure G _))))
  call-SendsOn (select e p r) =
      records_text G p e _ r (λ x. G.select (parse_resource E x)) _ λ x d. refl
  call-SendsOn (set e t v) = SendsOn-erase _ _ (
      SendsOn-check_null (is_null t) e _ _ _ (absent_text t _) (
        SendsOn-check_null (is_null v) e _ _ _
          (λ n. absent_later (text_at t) _ λ x. absent_value v _ n)
          (SendsOn-with_surreal_async e _ _ (
            Sends-bind _ _ _ _ (Reads-text_of G t) λ x.
              Sends-bind _ _ _ _ (Reads-value_at G v)
                λ c. Sends-await (G.set x c) _ _ (λ d. refl) λ a. Still-pure G _))))
  call-SendsOn (signin e p scope c a params) = SendsOn-erase _ _ (
      SendsOn-with_surreal_async e _ _ (
        Sends-bind _ _ _ _ (Reads-creds_texts G c) λ up.
          Sends-bind _ _ _ _ (Reads-names_of G a up) λ n. Sends-signin_token G p scope params n))
  call-SendsOn (signup e p scope c a params) = SendsOn-erase _ _ (
      SendsOn-with_surreal_async e _ _ (
        Sends-bind _ _ _ _ (Reads-creds_texts G c) λ up.
          Sends-bind _ _ _ _ (Reads-names_of G a up) λ n. Sends-signup_token G p scope params n))
  call-SendsOn (unset e t) = session_text G e _ t G.unset _ λ x d. refl
  call-SendsOn (update e p r o) =
      records_object G p e _ r o (λ x. G.update_content (parse_resource E x)) _ λ x c d. refl
  call-SendsOn (upsert e p r o) =
      records_object G p e _ r o (λ x. G.upsert_content (parse_resource E x)) _ λ x c d. refl
  call-SendsOn (use_db e t) = session_text G e _ t G.use_db _ λ x d. refl
  call-SendsOn (use_ns e t) = session_text G e _ t G.use_ns _ λ x d. refl
  call-SendsOn (version e p) =
      SendsOn-erase _ _
        (SendsOn-needs p e _ _ _ (asking G e G.version _ _ (λ d. refl) λ a. Still-pure G _))
