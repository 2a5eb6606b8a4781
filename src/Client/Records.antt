-- ===== src/Client/Records.antt =====
-- The operations of src/lib.rs that read and write records, and answer with an array.
pub mod Sends
use surrealdb_c.Prelude.{
  Bool, true, false, ◌||◌, Option, none, some, List, [], ◌∷◌, ◌++◌, Text, text, String,
  if◌then◌else◌,
}
use surrealdb_c.Prelude.Int.{CInt, pos, as_c_int}
use surrealdb_c.Rust.Run.{Run, ok}
use surrealdb_c.Sdb.{SdbTypes, SdbValue, SdbFields, items_of}
use surrealdb_c.Types.Strings.{StringT, is_null, to_string_t}
use surrealdb_c.Types.Values.{Value, Array, Object}
use surrealdb_c.Types.ToSdb.{array_to_sdb}
use surrealdb_c.Client.Engine.{
  Engine, Async, Step, Reply, Binding, unbound, bind_one, bind_all, resource_from, patch_op_add,
  patch_op_remove, patch_op_replace, continue, ◌>>=◌, ◌>>◌, pure, fail, lift, of_ended, await,
  text_of,
}
use surrealdb_c.Client.Guard.{OutPtr, is_null_out, CFn, check_null, with_surreal_async}
use surrealdb_c.Client.Resource.{parse_resource}
use surrealdb_c.Client.Rows.{rows, write_rows, object_at, value_at}

module _ {E : SdbTypes} (G : Engine E) where
  -- `sr_delete`
  unfoldable pub delete : OutPtr → OutPtr → StringT → CFn G.Db Array
  delete err_ptr res_ptr resource =
      check_null (is_null_out res_ptr) err_ptr (text "res_ptr is null") (
        check_null (is_null resource) err_ptr (text "resource is null") (
          with_surreal_async err_ptr do
            name ← text_of G resource
            val ← await (G.delete (parse_resource E name))
            write_rows (rows E val)))

  -- `sr_insert`
  unfoldable pub insert : OutPtr → OutPtr → StringT → Option Object → CFn G.Db Array
  insert err_ptr res_ptr resource content =
      check_null (is_null_out res_ptr) err_ptr (text "res_ptr is null") (
        check_null (is_null resource) err_ptr (text "resource is null") (
          check_null (is_null content) err_ptr (text "content is null") (
            with_surreal_async err_ptr do
              name ← text_of G resource
              object ← object_at E content
              val ← await (G.insert_content (parse_resource E name) object)
              write_rows (rows E val))))

  -- `sr_merge`
  unfoldable pub merge : OutPtr → OutPtr → StringT → Option Object → CFn G.Db Array
  merge err_ptr res_ptr resource content =
      check_null (is_null_out res_ptr) err_ptr (text "res_ptr is null") (
        check_null (is_null resource) err_ptr (text "resource is null") (
          check_null (is_null content) err_ptr (text "content is null") (
            with_surreal_async err_ptr do
              name ← text_of G resource
              object ← object_at E content
              val ← await (G.update_merge (parse_resource E name) object)
              write_rows (rows E val))))

  -- `sr_update`
  unfoldable pub update : OutPtr → OutPtr → StringT → Option Object → CFn G.Db Array
  update err_ptr res_ptr resource content =
      check_null (is_null_out res_ptr) err_ptr (text "res_ptr is null") (
        check_null (is_null resource) err_ptr (text "resource is null") (
          check_null (is_null content) err_ptr (text "content is null") (
            with_surreal_async err_ptr do
              name ← text_of G resource
              object ← object_at E content
              val ← await (G.update_content (parse_resource E name) object)
              write_rows (rows E val))))

  -- `sr_upsert`
  unfoldable pub upsert : OutPtr → OutPtr → StringT → Option Object → CFn G.Db Array
  upsert err_ptr res_ptr resource content =
      check_null (is_null_out res_ptr) err_ptr (text "res_ptr is null") (
        check_null (is_null resource) err_ptr (text "resource is null") (
          check_null (is_null content) err_ptr (text "content is null") (
            with_surreal_async err_ptr do
              name ← text_of G resource
              object ← object_at E content
              val ← await (G.upsert_content (parse_resource E name) object)
              write_rows (rows E val))))

  -- `sr_insert_relation`
  unfoldable pub insert_relation : OutPtr → OutPtr → StringT → Option Object → CFn G.Db Array
  insert_relation err_ptr res_ptr table content =
      check_null (is_null_out res_ptr) err_ptr (text "res_ptr is null") (
        check_null (is_null table) err_ptr (text "table is null") (
          check_null (is_null content) err_ptr (text "content is null") (
            with_surreal_async err_ptr do
              name ← text_of G table
              object ← object_at E content
              val ← await (G.insert_relation (resource_from name) object)
              write_rows (rows E val))))

  -- `sr_select`
  unfoldable pub select : OutPtr → OutPtr → StringT → CFn G.Db Array
  select err_ptr res_ptr resource =
      check_null (is_null_out res_ptr) err_ptr (text "res_ptr is null") (
        check_null (is_null resource) err_ptr (text "resource is null") (
          with_surreal_async err_ptr do
            name ← text_of G resource
            val ← await (G.select (parse_resource E name))
            write_rows (rows E val)))
