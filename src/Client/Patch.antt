-- ===== src/Client/Patch.antt =====
-- The JSON Patch operations of src/lib.rs.
use surrealdb_c.Prelude.{Option, text}
use surrealdb_c.Sdb.{SdbTypes}
use surrealdb_c.Types.Strings.{StringT, is_null}
use surrealdb_c.Types.Values.{Value, Array}
use surrealdb_c.Client.Engine.{
  Engine, patch_op_add, patch_op_remove, patch_op_replace, ◌>>=◌, await, text_of,
}
use surrealdb_c.Client.Guard.{OutPtr, is_null_out, CFn, check_null, with_surreal_async}
use surrealdb_c.Client.Resource.{parse_resource}
use surrealdb_c.Client.Rows.{rows, write_rows, value_at}

module _ {E : SdbTypes} (G : Engine E) where
  -- `sr_patch_add`
  unfoldable pub patch_add : OutPtr → OutPtr → StringT → StringT → Option Value → CFn G.Db Array
  patch_add err_ptr res_ptr resource path value =
      check_null (is_null_out res_ptr) err_ptr (text "res_ptr is null") (
        check_null (is_null resource) err_ptr (text "resource is null") (
          check_null (is_null path) err_ptr (text "path is null") (
            check_null (is_null value) err_ptr (text "value is null") (
              with_surreal_async err_ptr do
                name ← text_of G resource
                where_to ← text_of G path
                new_value ← value_at E value
                val ←
                    await (G.update_patch (parse_resource E name) (patch_op_add where_to new_value))
                write_rows (rows E val)))))

  -- `sr_patch_replace`
  unfoldable pub patch_replace : OutPtr → OutPtr → StringT → StringT → Option Value → CFn G.Db Array
  patch_replace err_ptr res_ptr resource path value =
      check_null (is_null_out res_ptr) err_ptr (text "res_ptr is null") (
        check_null (is_null resource) err_ptr (text "resource is null") (
          check_null (is_null path) err_ptr (text "path is null") (
            check_null (is_null value) err_ptr (text "value is null") (
              with_surreal_async err_ptr do
                name ← text_of G resource
                where_to ← text_of G path
                new_value ← value_at E value
                val ←
                    await
                      (G.update_patch (parse_resource E name) (patch_op_replace where_to new_value))
                write_rows (rows E val)))))

  -- `sr_patch_remove`
  unfoldable pub patch_remove : OutPtr → OutPtr → StringT → StringT → CFn G.Db Array
  patch_remove err_ptr res_ptr resource path =
      check_null (is_null_out res_ptr) err_ptr (text "res_ptr is null") (
        check_null (is_null resource) err_ptr (text "resource is null") (
          check_null (is_null path) err_ptr (text "path is null") (
            with_surreal_async err_ptr do
              name ← text_of G resource
              where_to ← text_of G path
              val ← await (G.update_patch (parse_resource E name) (patch_op_remove where_to))
              write_rows (rows E val))))
