-- ===== src/Client/Query.antt =====
-- `sr_query` and `sr_select_live` of src/lib.rs
pub mod Statements
use surrealdb_c.Prelude.{
  ℕ, zero, suc, ◌+◌, Bool, Option, none, some, List, [], ◌∷◌, Text, text, length,
}
use surrealdb_c.Prelude.Int.{CInt, pos, as_c_int}
use surrealdb_c.Sdb.{SdbTypes, SdbValue, SdbFields, no_fields}
use surrealdb_c.Types.Strings.{StringT, is_null}
use surrealdb_c.Types.Values.{Object}
use surrealdb_c.Types.Results.{ArrayResult, array_result_ok, array_result_err}
use surrealdb_c.Client.Engine.{
  Engine, Ended, replied, refused, panicked, Async, done, unwound, bind_all, continue, ◌>>=◌, pure,
  await, text_of,
}
use surrealdb_c.Client.Guard.{OutPtr, is_null_out, CFn, check_null, with_surreal_async}
use surrealdb_c.Client.Resource.{parse_resource}
use surrealdb_c.Client.Rows.{rows, object_at}

module _ {E : SdbTypes} (G : Engine E) where
  -- The entry for one statement, which fails on its own.
  unfoldable pub statement_result : Ended (SdbValue E) → Async G.Db ArrayResult
  statement_result (replied val) d = (done (array_result_ok (rows E val)), d)
  statement_result (refused e) d = (done (array_result_err e), d)
  statement_result (panicked p) d = (unwound p, d)

  -- `for index in 0..res_len`, with the rounds that are left.
  unfoldable pub statement_results : ℕ → ℕ → G.Response → Async G.Db (List ArrayResult)
  statement_results zero index res = pure []
  statement_results (suc left) index res = do
    let taken = G.take index res
    arr_res ← statement_result taken.0
    acc ← statement_results left (index + 1) taken.1
    pure (arr_res ∷ acc)

  -- `vars`: a null pointer is no variable.
  unfoldable pub vars_of : Option Object → Async G.Db (SdbFields E)
  unfolding object_at
  vars_of none = pure no_fields
  vars_of (some o) = object_at E (some o)

  unfoldable pub query : OutPtr → OutPtr → StringT → Option Object → CFn G.Db (List ArrayResult)
  query err_ptr res_ptr query_ptr vars =
      check_null (is_null_out res_ptr) err_ptr (text "res_ptr is null") (
        check_null (is_null query_ptr) err_ptr (text "query is null") (
          with_surreal_async err_ptr do
            query_text ← text_of G query_ptr
            bound ← vars_of vars
            res ← await (G.query query_text (bind_all bound))
            acc ← statement_results (G.num_statements res) 0 res
            pure (as_c_int (length acc), some acc)))

  -- The stream is boxed and written at `stream_ptr`.
  unfoldable pub select_live : OutPtr → OutPtr → StringT → CFn G.Db G.LiveStream
  select_live err_ptr stream_ptr resource =
      check_null (is_null_out stream_ptr) err_ptr (text "stream_ptr is null") (
        check_null (is_null resource) err_ptr (text "resource is null") (
          with_surreal_async err_ptr do
            name ← text_of G resource
            stream ← await (G.select_live (parse_resource E name))
            pure (pos 1, some stream)))
