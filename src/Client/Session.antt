-- ===== src/Client/Session.antt =====
-- The operations of src/lib.rs on the session, whose code on success is 0.
use surrealdb_c.Prelude.{length, Option, none, some, ◌++◌, Text, text}
use surrealdb_c.Prelude.Int.{CInt, pos, as_c_int}
use surrealdb_c.Sdb.{SdbTypes}
use surrealdb_c.Types.Strings.{StringT, is_null, to_string_t}
use surrealdb_c.Types.Values.{Value}
use surrealdb_c.Client.Engine.{Engine, Async, unbound, ◌>>=◌, ◌>>◌, pure, await, text_of}
use surrealdb_c.Client.Guard.{OutPtr, is_null_out, CFn, check_null, with_surreal_async}
use surrealdb_c.Client.Rows.{value_at}

module _ {E : SdbTypes} (G : Engine E) where
  -- `sr_authenticate`
  unfoldable pub authenticate : OutPtr → StringT → CFn G.Db (Unit {0})
  authenticate err_ptr token = check_null (is_null token) err_ptr (text "token is null") (
      with_surreal_async err_ptr
        do token_text ← text_of G token; await (G.authenticate token_text); pure (pos 0, none))

  -- `sr_begin`
  unfoldable pub begin : OutPtr → CFn G.Db (Unit {0})
  begin err_ptr =
      with_surreal_async err_ptr
        do await (G.query (text "BEGIN TRANSACTION") unbound); pure (pos 0, none)

  -- `sr_cancel`
  unfoldable pub cancel : OutPtr → CFn G.Db (Unit {0})
  cancel err_ptr =
      with_surreal_async err_ptr
        do await (G.query (text "CANCEL TRANSACTION") unbound); pure (pos 0, none)

  -- `sr_commit`
  unfoldable pub commit : OutPtr → CFn G.Db (Unit {0})
  commit err_ptr =
      with_surreal_async err_ptr
        do await (G.query (text "COMMIT TRANSACTION") unbound); pure (pos 0, none)

  -- `sr_export`
  unfoldable pub export : OutPtr → StringT → CFn G.Db (Unit {0})
  export err_ptr file_path = check_null (is_null file_path) err_ptr (text "file_path is null") (
      with_surreal_async err_ptr do
        file_path_text ← text_of G file_path
        await (G.export_to file_path_text)
        pure (pos 0, none))

  -- `sr_health`
  unfoldable pub health : OutPtr → CFn G.Db (Unit {0})
  health err_ptr = with_surreal_async err_ptr do await G.health; pure (pos 0, none)

  -- `sr_import`
  unfoldable pub import : OutPtr → StringT → CFn G.Db (Unit {0})
  import err_ptr file_path = check_null (is_null file_path) err_ptr (text "file_path is null") (
      with_surreal_async err_ptr do
        file_path_text ← text_of G file_path
        await (G.import_from file_path_text)
        pure (pos 0, none))

  -- `sr_invalidate`
  unfoldable pub invalidate : OutPtr → CFn G.Db (Unit {0})
  invalidate err_ptr = with_surreal_async err_ptr do await G.invalidate; pure (pos 0, none)

  unfoldable pub kill_query : Text → Text
  kill_query uuid_str = text "KILL u'" ++ (uuid_str ++ text "'")

  -- `sr_kill`
  unfoldable pub kill : OutPtr → StringT → CFn G.Db (Unit {0})
  kill err_ptr query_id = check_null (is_null query_id) err_ptr (text "query_id is null") (
      with_surreal_async err_ptr do
        uuid_str ← text_of G query_id
        await (G.query (kill_query uuid_str) unbound)
        pure (pos 0, none))

  -- `sr_set`
  unfoldable pub set : OutPtr → StringT → Option Value → CFn G.Db (Unit {0})
  set err_ptr key value = check_null (is_null key) err_ptr (text "key is null") (
      check_null (is_null value) err_ptr (text "value is null") (
        with_surreal_async err_ptr do
          key_text ← text_of G key
          new_value ← value_at E value
          await (G.set key_text new_value)
          pure (pos 0, none)))

  -- `sr_unset`
  unfoldable pub unset : OutPtr → StringT → CFn G.Db (Unit {0})
  unset err_ptr key = check_null (is_null key) err_ptr (text "key is null") (
      with_surreal_async err_ptr
        do key_text ← text_of G key; await (G.unset key_text); pure (pos 0, none))

  -- `sr_use_db`
  unfoldable pub use_db : OutPtr → StringT → CFn G.Db (Unit {0})
  use_db err_ptr db_name = check_null (is_null db_name) err_ptr (text "db_name is null") (
      with_surreal_async err_ptr
        do db_name_text ← text_of G db_name; await (G.use_db db_name_text); pure (pos 0, none))

  -- `sr_use_ns`
  unfoldable pub use_ns : OutPtr → StringT → CFn G.Db (Unit {0})
  use_ns err_ptr ns_name = check_null (is_null ns_name) err_ptr (text "ns_name is null") (
      with_surreal_async err_ptr
        do ns_name_text ← text_of G ns_name; await (G.use_ns ns_name_text); pure (pos 0, none))

  -- The length in bytes, and the string itself, at `res_ptr`.
  unfoldable pub write_version : Text → Async G.Db (CInt × Option StringT)
  write_version res_string = pure (as_c_int (length res_string), some (to_string_t res_string))

  -- `sr_version`
  unfoldable pub version : OutPtr → OutPtr → CFn G.Db StringT
  version err_ptr res_ptr =
      check_null (is_null_out res_ptr) err_ptr (text "res_ptr is null")
        (with_surreal_async err_ptr do res ← await G.version; write_version res)
