-- ===== src/Client/Graph.antt =====
-- `sr_run` and `sr_relate` of src/lib.rs.
use surrealdb_c.Prelude.{Option, none, some, List, [], ◌++◌, Text, text}
use surrealdb_c.Sdb.{SdbTypes, SdbValue}
use surrealdb_c.Types.Strings.{StringT, is_null}
use surrealdb_c.Types.Values.{Array, Object}
use surrealdb_c.Types.ToSdb.{array_to_sdb}
use surrealdb_c.Client.Engine.{
  Engine, Async, Binding, unbound, bind_one, ◌>>=◌, pure, lift, await, text_of,
}
use surrealdb_c.Client.Guard.{OutPtr, is_null_out, CFn, check_null, with_surreal_async}
use surrealdb_c.Client.Rows.{rows, write_rows, object_at, take_first}

module _ {E : SdbTypes} (G : Engine E) where
  -- `args` as values: a null pointer is no argument.
  unfoldable pub args_of : Option Array → Async G.Db (List (SdbValue E))
  args_of none = pure []
  args_of (some a) = lift (array_to_sdb E a)

  -- `sr_run`
  unfoldable pub run : OutPtr → OutPtr → StringT → Option Array → CFn G.Db Array
  run err_ptr res_ptr function_name args =
      check_null (is_null_out res_ptr) err_ptr (text "res_ptr is null") (
        check_null (is_null function_name) err_ptr (text "function_name is null") (
          with_surreal_async err_ptr do
            name ← text_of G function_name
            args_vec ← args_of args
            val ← await (G.run name args_vec)
            write_rows (rows E val)))

  unfoldable pub relate_query : Text → Text → Text → Option Object → Text
  relate_query from relation to content =
      text "RELATE " ++ (from ++ (text "->" ++ (relation ++ (text "->" ++ (to ++ tail content)))))
    where
      tail : Option Object → Text
      tail none = []
      tail (some _) = text " CONTENT $content"

  unfoldable pub relate_binding : Option Object → Async G.Db (Binding E)
  relate_binding none = pure unbound
  relate_binding (some o) = do
    object ← object_at E (some o)
    pure (bind_one (text "content") object)

  -- `sr_relate`
  unfoldable pub relate :
      OutPtr → OutPtr → StringT → StringT → StringT → Option Object → CFn G.Db Array
  relate err_ptr res_ptr from relation to content =
      check_null (is_null_out res_ptr) err_ptr (text "res_ptr is null") (
        check_null (is_null from) err_ptr (text "from is null") (
          check_null (is_null relation) err_ptr (text "relation is null") (
            check_null (is_null to) err_ptr (text "to is null") (
              with_surreal_async err_ptr do
                source ← text_of G from
                edge ← text_of G relation
                target ← text_of G to
                binding ← relate_binding content
                res ← await (G.query (relate_query source edge target content) binding)
                val ← take_first G res
                write_rows (rows E val)))))
