-- ===== src/Client/Create.antt =====
-- `sr_create` of src/lib.rs
pub mod Created
use surrealdb_c.Prelude.{Option, none, some, ◌++◌, Text, text, if◌then◌else◌}
use surrealdb_c.Prelude.Int.{CInt, pos}
use surrealdb_c.Sdb.{SdbTypes, SdbValue, SdbFields, sdb_array, sdb_object, item}
use surrealdb_c.Types.Strings.{StringT, is_null}
use surrealdb_c.Types.Values.{Object}
use surrealdb_c.Types.FromSdb.{object_from_sdb}
use surrealdb_c.Client.Engine.{Engine, Async, bind_one, ◌>>=◌, pure, fail, await, text_of}
use surrealdb_c.Client.Guard.{OutPtr, is_null_out, CFn, check_null, with_surreal_async}
use surrealdb_c.Client.Rows.{object_at, take_first}

module _ {E : SdbTypes} (G : Engine E) where
  -- `Err(format!("Expected object as return type of create, but found: {other:?}"))`
  unfoldable pub not_an_object : SdbValue E → Async G.Db (SdbFields E)
  not_an_object other =
      fail (text "Expected object as return type of create, but found: " ++ G.value_debug other)

  unfoldable pub object_of_value : SdbValue E → Async G.Db (SdbFields E)
  unfolding not_an_object
  object_of_value (sdb_object o) = pure o
  object_of_value other = not_an_object other

  -- The object that `create` returns: the reply, or the first element of a reply that is an array.
  unfoldable pub created_object : SdbValue E → Async G.Db (SdbFields E)
  unfolding object_of_value
  created_object (sdb_array (item v _)) = object_of_value v
  created_object other = object_of_value other

  unfoldable pub write_object : OutPtr → SdbFields E → Async G.Db (CInt × Option Object)
  write_object res_ptr o =
      if is_null_out res_ptr then pure (pos 0, none) else pure (pos 1, some (object_from_sdb E o))

  unfoldable pub create_query : Text → Text
  create_query resource = text "CREATE " ++ (resource ++ text " CONTENT $content")

  unfoldable pub create : OutPtr → OutPtr → StringT → Option Object → CFn G.Db Object
  unfolding created_object write_object create_query
  create err_ptr res_ptr resource content =
      check_null (is_null resource) err_ptr (text "resource is null") (
        check_null (is_null content) err_ptr (text "content is null") (
          with_surreal_async err_ptr do
            name ← text_of G resource
            object ← object_at E content
            res ← await (G.query (create_query name) (bind_one (text "content") object))
            val ← take_first G res
            made ← created_object val
            write_object res_ptr made))
