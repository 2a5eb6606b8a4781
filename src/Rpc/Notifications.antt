-- ===== src/Rpc/Notifications.antt =====
-- src/types/stream.rs and notification.rs: the two kinds of notification stream.
pub mod Shape
pub mod Polled
pub mod Watched
use surrealdb_c.Prelude.{ℕ, ◌≡◌, refl, Bool, Option, none, some, List, [], ◌∷◌, Text, text, length}
use surrealdb_c.Prelude.Int.{CInt, pos, as_c_int}
use surrealdb_c.Rust.BTree
use surrealdb_c.Sdb.{SdbTypes, SdbValue, sdb_uuid, sdb_string, sdb_object, fields_of}
use surrealdb_c.Types.Strings.{StringT}
use surrealdb_c.Types.Numbers.{Uuid, uuid_from_sdb}
use surrealdb_c.Types.Values.{Value}
use surrealdb_c.Types.FromSdb.{value_from_sdb}
use surrealdb_c.Client.Engine.{Ended, replied, refused, panicked}
use surrealdb_c.Client.Guard.{
  OutPtr, null, valid, Exit, returned, aborted, crashed, sr_none, sr_closed, sr_error,
}
use surrealdb_c.Rpc.Cbor.{Cbor, value_to_cbor}

-- `surrealdb::types::Action`, with what the code does not name.
pub data SdbAction : Type 0 where
  sdb_create sdb_update sdb_delete sdb_killed sdb_other_action : SdbAction

pub data Action : Type 0 where
  sr_action_create sr_action_update sr_action_delete sr_action_killed : Action

-- `Action::from`: an unknown action is a kill.
unfoldable pub action_from_sdb : SdbAction → Action
action_from_sdb sdb_create = sr_action_create
action_from_sdb sdb_update = sr_action_update
action_from_sdb sdb_delete = sr_action_delete
action_from_sdb sdb_killed = sr_action_killed
action_from_sdb sdb_other_action = sr_action_killed

-- A notification of the client or of the core.
pub record SdbNotification (E : SdbTypes) : Type 0 where
  pub id : E.SdbUuid
  pub action : SdbAction
  pub result : SdbValue E

pub record Notification : Type 0 where
  pub query_id : Uuid
  pub action : Action
  pub content : Value

-- `Notification::from`
unfoldable pub notification_from_sdb : (E : SdbTypes) → SdbNotification E → Notification
unfolding action_from_sdb
notification_from_sdb E n = record {
  query_id = uuid_from_sdb E n.id;
  action = action_from_sdb n.action;
  content = value_from_sdb E n.result;
}

-- What waiting on a stream gives: the next item, an error, or its end.
pub data Next (A : Type 0) : Type 0 where
  arrived : A → Next A
  broken ended : Next A

-- The result pointer of a stream has no check.
abbrev pub write_at : {R : Type 0} → OutPtr → CInt → R → Exit R
write_at null code r = crashed
write_at valid code r = returned code none (some r)

-- `sr_stream_next`
unfoldable pub stream_next : (E : SdbTypes) → OutPtr → Next (SdbNotification E) → Exit Notification
unfolding notification_from_sdb
stream_next E out (arrived n) = write_at out (pos 1) (notification_from_sdb E n)
stream_next E out broken = returned sr_error none none
stream_next E out ended = returned sr_none none none

-- The object that `sr_rpc_stream_next` encodes; `display` is `format!("{}", action)`.
unfoldable pub notification_object :
    {E : SdbTypes} → (SdbAction → Text) → SdbNotification E → SdbValue E
notification_object display n = sdb_object (
    fields_of (
      BTree.insert (text "result") n.result (
        BTree.insert (text "action") (sdb_string (display n.action))
          (BTree.insert (text "id") (sdb_uuid n.id) []))))

-- `into_writer`, whose error is `SR_ERROR`. A panic does not leave an `extern "C"` function.
unfoldable pub encoded : OutPtr → Ended (List ℕ) → Exit (List ℕ)
encoded out (replied bytes) = write_at out (as_c_int (length bytes)) bytes
encoded out (refused _) = returned sr_error none none
encoded out (panicked _) = aborted

-- `sr_rpc_stream_next`: the channel is closed, or gives a notification.
unfoldable pub rpc_stream_next :
    {Other : Type 0} {E : SdbTypes}
    → (SdbAction → Text)
    → (SdbValue E → Text)
    → (Cbor Other → Ended (List ℕ))
    → OutPtr
    → Option (SdbNotification E)
    → Exit (List ℕ)
unfolding encoded notification_object
rpc_stream_next display debug into_writer out none = returned sr_closed none none
rpc_stream_next display debug into_writer out (some n) =
    encoded out (into_writer (value_to_cbor debug (notification_object display n)))
