-- ===== src/Tests/Handles.antt =====
-- Handles that are opened and freed.
use surrealdb_c.Prelude.{◌≡◌, refl, ◌+◌, false, List, [], ◌∷◌, length}
use surrealdb_c.Rust.Run.{ok, fault}
use surrealdb_c.Client.Guard.{Surreal}
use surrealdb_c.Handles.{
  Contents, Boxes, HandleOp, null_handle, handle, surreal_kind, connects, selects_live,
  kills_stream, disconnects, frees_rpc, uses, surreal_box, step, steps, no_boxes, take_out,
  from_raw_box, disconnect, kill_stream, rpc_free, deref, leak_box, stream_new,
}
use surrealdb_c.Handles.Balance.{steps-out, all_opens, all_closes}
use surrealdb_c.Handles.Freed.{freed_for_good}

abbrev contents : Contents
contents = record { Db = Unit; Ls = Unit; Rt = Unit; Inner = Unit; Rx = Unit }

abbrev plain : Surreal (Unit {0})
plain = record { db = tt; ps = false }

-- A connection, a live stream on it that is killed, and an RPC context; `sr_surreal_rpc_free` of null.
abbrev opening : List (HandleOp contents)
opening =
    connects plain
    ∷ selects_live (handle 0) tt tt
    ∷ kills_stream (handle 1)
    ∷ frees_rpc null_handle
    ∷ []

abbrev one_out : Boxes contents
one_out = record { next = 2; out = (0, surreal_box plain) ∷ [] }

abbrev none_out : Boxes contents
none_out = record { next = 2; out = [] }

opening_lem : steps opening no_boxes ≡ ok one_out
unfolding steps step leak_box deref from_raw_box take_out kill_stream rpc_free stream_new
opening_lem = refl

disconnect_lem : step (disconnects (handle 0)) one_out ≡ ok none_out
unfolding step disconnect from_raw_box take_out
disconnect_lem = refl

reconnect_lem :
    steps (connects plain ∷ []) none_out ≡ ok record { next = 3; out = (2, surreal_box plain) ∷ [] }
unfolding steps step leak_box
reconnect_lem = refl

-- Null is not for these two.
null_disconnect : step {C = contents} (disconnects null_handle) no_boxes ≡ fault
unfolding step disconnect from_raw_box
null_disconnect = refl

null_kill : step {C = contents} (kills_stream null_handle) no_boxes ≡ fault
unfolding step kill_stream from_raw_box
null_kill = refl

steps-out_example :
    length one_out.out + all_closes opening
    ≡ length (no_boxes {C = contents}).out + all_opens opening
steps-out_example = steps-out opening no_boxes one_out opening_lem

freed_for_good_example :
    step {C = contents}
      (uses surreal_kind (handle 0))
      record { next = 3; out = (2, surreal_box plain) ∷ [] }
    ≡ fault
freed_for_good_example =
    freed_for_good {C = contents} surreal_kind 0 opening (connects plain ∷ [])
      (uses surreal_kind (handle 0)) one_out none_out
      (record { next = 3; out = (2, surreal_box plain) ∷ [] }) opening_lem disconnect_lem
      reconnect_lem refl
