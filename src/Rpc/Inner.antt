-- ===== src/Rpc/Inner.antt =====
-- `SurrealRpcInner` of src/rpc.rs: the state of an RPC context, and what it adds to the protocol of
-- the core.
use surrealdb_c.Prelude.{Bool, true, Option, none, List, [], ◌∷◌, Text}
use surrealdb_c.Sdb.{SdbTypes, SdbValue, sdb_string}

-- `DbResult`: a value, or a result that the C API does not pass on.
pub data DbResult (E : SdbTypes) : Type 0 where
  db_other : SdbValue E → DbResult E
  db_unimplemented : DbResult E

-- `struct SurrealRpcInner`: the datastore, and the sessions by their ids.
pub record SurrealRpcInner (Kvs Session Uuid : Type 0) : Type 0 where
  pub kvs : Kvs
  pub session_map : List (Option Uuid × Session)

-- `HashMap::default()`, and the default session under the key `None`
unfoldable pub default_sessions : {Session Uuid : Type 0} → Session → List (Option Uuid × Session)
default_sessions session = (none, session) ∷ []

-- `RpcProtocol::version_data`, of `surrealdb_core::env::VERSION`
unfoldable pub version_data : (E : SdbTypes) → Text → DbResult E
version_data E ver_str = db_other (sdb_string ver_str)

-- `RpcProtocol::LQ_SUPPORT`
abbrev pub lq_support : Bool
lq_support = true

-- The handlers of live queries, which do nothing.
module _ {Kvs Session Uuid : Type 0} where
  unfoldable pub handle_live :
      Uuid → Option Uuid → SurrealRpcInner Kvs Session Uuid → SurrealRpcInner Kvs Session Uuid
  handle_live lqid session_id inner = inner

  unfoldable pub handle_kill :
      Uuid → SurrealRpcInner Kvs Session Uuid → SurrealRpcInner Kvs Session Uuid
  handle_kill lqid inner = inner

  unfoldable pub cleanup_lqs :
      Option Uuid → SurrealRpcInner Kvs Session Uuid → SurrealRpcInner Kvs Session Uuid
  cleanup_lqs session_id inner = inner

  unfoldable pub cleanup_all_lqs :
      SurrealRpcInner Kvs Session Uuid → SurrealRpcInner Kvs Session Uuid
  cleanup_all_lqs inner = inner
