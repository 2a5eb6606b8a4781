-- ===== src/Rpc/Context.antt =====
-- `SurrealRpc` of src/rpc.rs, with src/opts.rs
pub mod Answers
pub mod Opened
pub mod Outcomes
use surrealdb_c.Prelude.{
  ℕ, Bool, true, false, Option, none, some, List, [], ◌∷◌, ◌++◌, Text, text, length, take, ltb,
  ◌==◌, if◌then◌else◌,
}
use surrealdb_c.Prelude.Int.{CInt, pos, as_c_int, as_usize}
use surrealdb_c.Rust.Utf8.{to_str}
use surrealdb_c.Sdb.{SdbTypes, SdbValue, SdbItems}
use surrealdb_c.Types.Strings.{StringT, is_null, to_string_t}
use surrealdb_c.Client.Engine.{
  Ended, replied, refused, panicked, Reply, Async, Step, done, failed, unwound, faulted, continue,
  ◌>>=◌, pure, fail, await,
}
use surrealdb_c.Client.Guard.{
  OutPtr, is_null_out, Exit, returned, aborted, check_null, settle, Surreal, CFn,
}
use surrealdb_c.Rpc.Inner.{DbResult, db_other, db_unimplemented, SurrealRpcInner, default_sessions}
use surrealdb_c.Rpc.Cbor.{Cbor, value_to_cbor}
use surrealdb_c.Rpc.Request.{Parsed, parsed, rejected, parse_cbor_request}

-- `struct Options`
pub record Options : Type 0 where
  pub strict : Bool
  pub query_timeout : ℕ
  pub transaction_timeout : ℕ

-- The `surrealdb_core` and `ciborium` crates, as a parameter.
pub record Core (E : SdbTypes) : Type 1 where
  pub Other : Type 0
  pub Kvs : Type 0
  pub Session : Type 0
  pub Method : Type 0
  pub Receiver : Type 0
  pub value_debug : SdbValue E → Text
  pub utf8_error : Text → Text
  pub runtime_new : Bool
  pub datastore_new : Text → Ended Kvs
  pub with_notifications : Kvs → Kvs
  pub with_query_timeout : ℕ → Kvs → Kvs
  pub with_transaction_timeout : ℕ → Kvs → Kvs
  -- `Session::default()` and `with_rt`
  pub session_default : Session
  pub with_rt : Bool → Session → Session
  -- `ciborium::from_reader` and `into_writer`
  pub from_reader : List ℕ → Ended (Cbor Other)
  pub into_writer : Cbor Other → Ended (List ℕ)
  pub parse_case_insensitive : Text → Method
  -- `RpcProtocol::execute`, without a transaction or a session
  pub execute_method :
      Method → SdbItems E → Reply (SurrealRpcInner Kvs Session E.SdbUuid) (DbResult E)
  -- `kvs.notifications()`
  pub notifications_of : Kvs → Option Receiver

-- The state of a context, and `struct SurrealRpc` without the runtime: it has the fields of a
-- connection.
abbrev pub Inner : {E : SdbTypes} → Core E → Type 0
Inner {E} K = SurrealRpcInner K.Kvs K.Session E.SdbUuid

abbrev pub SurrealRpc : {E : SdbTypes} → Core E → Type 0
SurrealRpc K = Surreal (Inner K)

-- `with_async`, which does what `with_surreal_async` does.
unfoldable pub with_async :
    {Inner R : Type 0} → OutPtr → Async Inner (CInt × Option R) → CFn Inner R
unfolding settle
with_async err_ptr fun ctx =
    if ctx.ps
    then (aborted, ctx)
    else let (r, inner) = fun ctx.db in (settle err_ptr r, record ctx { db = inner })

-- `&*slice_from_raw_parts(ptr, len as usize)`, of the memory at `ptr`: a length beyond it is
-- undefined behaviour.
unfoldable pub bytes_at : {Inner : Type 0} → Option (List ℕ) → CInt → Async Inner (List ℕ)
unfolding as_usize
bytes_at none len d = (faulted, d)
bytes_at (some memory) len d =
    if ltb (length memory) (as_usize len)
    then (faulted, d)
    else (done (take (as_usize len) memory), d)

-- `.map_err(|e| string_t::from(format!("{message}{e}")))?`
unfoldable pub coded : {Inner A : Type 0} → Text → Ended A → Async Inner A
coded message (replied a) d = (done a, d)
coded message (refused e) d = (failed (to_string_t (message ++ e)), d)
coded message (panicked p) d = (unwound p, d)

unfoldable pub request_of : {Inner A : Type 0} → Parsed A → Async Inner A
request_of (parsed a) d = (done a, d)
request_of (rejected e) d = (failed e, d)

module _ {E : SdbTypes} (K : Core E) where
  unfoldable pub timeout : (ℕ → K.Kvs → K.Kvs) → ℕ → K.Kvs → K.Kvs
  timeout set seconds kvs = if seconds == 0 then kvs else set seconds kvs

  -- What is done to a new datastore.
  unfoldable pub configured : Options → K.Kvs → K.Kvs
  unfolding timeout
  configured options kvs =
      timeout K.with_transaction_timeout options.transaction_timeout
        (timeout K.with_query_timeout options.query_timeout (K.with_notifications kvs))

  -- The inner state, with one session.
  unfoldable pub inner_of : K.Kvs → Inner K
  unfolding default_sessions
  inner_of kvs = record {
    kvs = kvs;
    session_map = default_sessions (K.with_rt true K.session_default);
  }

  unfoldable pub opened : Options → Ended K.Kvs → Step (CInt × Option (SurrealRpc K))
  unfolding inner_of configured
  opened options (replied kvs) =
      done (pos 1, some (record { db = inner_of (configured options kvs); ps = false }))
  opened options (refused e) = failed (to_string_t e)
  opened options (panicked p) = unwound p

  -- The body of `new`, under `catch_unwind`.
  unfoldable pub new_body : StringT → Options → Step (CInt × Option (SurrealRpc K))
  unfolding opened
  new_body none options = faulted
  new_body (some s) options = elim (to_str s) [
    | none ↦ failed (to_string_t (text "Invalid UTF-8"))
    | some endpoint ↦
        if K.runtime_new
        then opened options (K.datastore_new endpoint)
        else failed (to_string_t (text "error creating runtime"))
  ]

  -- `sr_surreal_rpc_new`, for a `surreal_ptr` that is valid.
  unfoldable pub new : OutPtr → StringT → Options → Exit (SurrealRpc K)
  unfolding new_body
  new err_ptr endpoint options = settle err_ptr (new_body endpoint options)

  unfoldable pub answer : DbResult E → Async (Inner K) (CInt × Option (List ℕ))
  answer (db_other v) = do
    out ← coded (text "CBOR encode error: ") (K.into_writer (value_to_cbor K.value_debug v))
    pure (as_c_int (length out), some out)
  answer db_unimplemented = fail (text "C SDK: RPC::execute had unimplemented response.")

  -- `sr_surreal_rpc_execute`
  unfoldable pub execute : OutPtr → OutPtr → Option (List ℕ) → CInt → CFn (Inner K) (List ℕ)
  execute err_ptr res_ptr ptr len =
      check_null (is_null_out res_ptr) err_ptr (text "res_ptr is null") (
        check_null (is_null ptr) err_ptr (text "ptr is null") (
          with_async err_ptr do
            in_bytes ← bytes_at ptr len
            in_value ← coded (text "CBOR decode error: ") (K.from_reader in_bytes)
            request ← request_of (parse_cbor_request E in_value)
            res ← await (K.execute_method (K.parse_case_insensitive request.0) request.1)
            answer res))

  unfoldable pub receiver_or : Option K.Receiver → Async (Inner K) (CInt × Option K.Receiver)
  receiver_or (some rx) d = (done (pos 1, some rx), d)
  receiver_or none d = (failed (to_string_t (text "Notifications not enabled")), d)

  -- `sr_surreal_rpc_notifications`
  unfoldable pub notifications : OutPtr → OutPtr → CFn (Inner K) K.Receiver
  unfolding receiver_or
  notifications err_ptr stream_ptr =
      check_null (is_null_out stream_ptr) err_ptr (text "stream_ptr is null")
        (with_async err_ptr λ inner. receiver_or (K.notifications_of inner.kvs) inner)
