-- ===== src/Handles.antt =====
-- The four kinds of handle that the C API gives out and takes back: connections (src/lib.rs), live
-- streams and RPC streams (src/types/stream.rs) and RPC contexts (src/rpc.rs), as boxes.
pub mod Changes
pub mod Balance
pub mod Freed
use surrealdb_c.Prelude.{
  ℕ, ◌+◌, Bool, true, false, Option, none, some, List, [], ◌∷◌, ◌==◌, ◌&&◌, if◌then◌else◌,
}
use surrealdb_c.Rust.Run.{Run, ok, panic, fault, ◌>>=◌}
use surrealdb_c.Client.Guard.{Surreal}
use surrealdb_c.Rpc.Notifications.Polled.{RpcStream, rpc_stream_new}

-- `struct Stream`: the client's stream, and the handle of the runtime that it runs on.
pub record Stream (Ls Rt : Type 0) : Type 0 where
  pub inner : Ls
  pub rt : Rt

-- `Stream::new`
unfoldable pub stream_new : {Ls Rt : Type 0} → Ls → Rt → Stream Ls Rt
stream_new inner rt = record { inner = inner; rt = rt }

-- A `*mut` that C holds: null, or the address of a box.
pub data Pointer : Type 0 where
  null_handle : Pointer
  handle : ℕ → Pointer

abbrev pub is_null_handle : Pointer → Bool
is_null_handle null_handle = true
is_null_handle (handle _) = false

pub data Kind : Type 0 where
  surreal_kind stream_kind rpc_kind rpc_stream_kind : Kind

abbrev pub same_kind : Kind → Kind → Bool
same_kind surreal_kind surreal_kind = true
same_kind stream_kind stream_kind = true
same_kind rpc_kind rpc_kind = true
same_kind rpc_stream_kind rpc_stream_kind = true
same_kind _ _ = false

-- The types of what the handles stand for: the connection, the stream of the client, the handle of a
-- runtime, the state of an RPC context, and the receiver of a channel.
pub record Contents : Type 1 where
  pub Db : Type 0
  pub Ls : Type 0
  pub Rt : Type 0
  pub Inner : Type 0
  pub Rx : Type 0

module _ (C : Contents) where
  -- What is in a box. An RPC context has the fields of a connection.
  pub data Boxed : Type 0 where
    surreal_box : Surreal C.Db → Boxed
    stream_box : Stream C.Ls C.Rt → Boxed
    rpc_box : Surreal C.Inner → Boxed
    rpc_stream_box : RpcStream C.Rx → Boxed

  -- The boxes that are out, each with its address, and an address above those given out so far.
  pub record Boxes : Type 0 where
    pub next : ℕ
    pub out : List (ℕ × Boxed)

module _ {C : Contents} where
  abbrev pub kind_of : Boxed C → Kind
  kind_of (surreal_box _) = surreal_kind
  kind_of (stream_box _) = stream_kind
  kind_of (rpc_box _) = rpc_kind
  kind_of (rpc_stream_box _) = rpc_stream_kind

  -- `Box::leak(Box::new(x))`
  unfoldable pub leak_box : Boxed C → Boxes C → Boxes C
  leak_box x h = record { next = h.next + 1; out = (h.next, x) ∷ h.out }

  abbrev pub keep_first :
      ℕ × Boxed C → Run (Boxed C × List (ℕ × Boxed C)) → Run (Boxed C × List (ℕ × Boxed C))
  keep_first b (ok (x, bs)) = ok (x, b ∷ bs)
  keep_first b (panic p) = panic p
  keep_first b fault = fault

  -- The box of that kind at an address, and the others; none is undefined behaviour.
  unfoldable pub take_out : Kind → ℕ → List (ℕ × Boxed C) → Run (Boxed C × List (ℕ × Boxed C))
  take_out k a [] = fault
  take_out k a ((i, x) ∷ bs) =
      let rest = take_out k a bs in
      if i == a && same_kind (kind_of x) k then ok (x, bs) else keep_first (i, x) rest

  -- `Box::from_raw`
  unfoldable pub from_raw_box : Kind → Pointer → Boxes C → Run (Boxed C × Boxes C)
  unfolding take_out
  from_raw_box k null_handle h = fault
  from_raw_box k (handle a) h = do
    (x, bs) ← take_out k a h.out
    ok (x, record { next = h.next; out = bs })

  -- `sr_surreal_disconnect`, with no check
  unfoldable pub disconnect : Pointer → Boxes C → Run (Boxes C)
  unfolding from_raw_box
  disconnect db h = do (_, h') ← from_raw_box surreal_kind db h; ok h'

  -- `sr_stream_kill`, with no check
  unfoldable pub kill_stream : Pointer → Boxes C → Run (Boxes C)
  unfolding from_raw_box
  kill_stream stream h = do (_, h') ← from_raw_box stream_kind stream h; ok h'

  -- `sr_surreal_rpc_free`
  unfoldable pub rpc_free : Pointer → Boxes C → Run (Boxes C)
  unfolding from_raw_box
  rpc_free ctx h =
      if is_null_handle ctx then ok h else do (_, h') ← from_raw_box rpc_kind ctx h; ok h'

  -- `sr_rpc_stream_free`
  unfoldable pub rpc_stream_free : Pointer → Boxes C → Run (Boxes C)
  unfolding from_raw_box
  rpc_stream_free stream h =
      if is_null_handle stream
      then ok h
      else do (_, h') ← from_raw_box rpc_stream_kind stream h; ok h'

  -- What a function on a handle reads through it.
  unfoldable pub deref : Kind → Pointer → Boxes C → Run (Boxed C)
  unfolding from_raw_box
  deref k p h = do (x, _) ← from_raw_box k p h; ok x

-- The functions on handles, with what those that open one put in it: `sr_connect`, `sr_select_live`,
-- `sr_surreal_rpc_new` and `sr_surreal_rpc_notifications` where they succeed, the four that free, and
-- any other function on a handle.
pub data HandleOp (C : Contents) : Type 0 where
  connects : Surreal C.Db → HandleOp C
  selects_live : Pointer → C.Ls → C.Rt → HandleOp C
  opens_rpc : Surreal C.Inner → HandleOp C
  opens_notifications : Pointer → C.Rx → HandleOp C
  disconnects kills_stream frees_rpc frees_rpc_stream : Pointer → HandleOp C
  uses : Kind → Pointer → HandleOp C

module _ {C : Contents} where
  unfoldable pub step : HandleOp C → Boxes C → Run (Boxes C)
  unfolding leak_box deref stream_new rpc_stream_new disconnect kill_stream rpc_free rpc_stream_free
  step (connects s) h = ok (leak_box (surreal_box s) h)
  step (selects_live db inner rt) h = do
    _ ← deref surreal_kind db h
    ok (leak_box (stream_box (stream_new inner rt)) h)
  step (opens_rpc s) h = ok (leak_box (rpc_box s) h)
  step (opens_notifications ctx rx) h = do
    _ ← deref rpc_kind ctx h
    ok (leak_box (rpc_stream_box (rpc_stream_new rx)) h)
  step (disconnects p) h = disconnect p h
  step (kills_stream p) h = kill_stream p h
  step (frees_rpc p) h = rpc_free p h
  step (frees_rpc_stream p) h = rpc_stream_free p h
  step (uses k p) h = do _ ← deref k p h; ok h

  unfoldable pub steps : List (HandleOp C) → Boxes C → Run (Boxes C)
  unfolding step
  steps [] h = ok h
  steps (c ∷ cs) h = do h' ← step c h; steps cs h'

-- Before the first function is called.
abbrev pub no_boxes : {C : Contents} → Boxes C
no_boxes = record { next = 0; out = [] }
