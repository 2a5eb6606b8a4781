-- ===== src/Rpc/Notifications/Shape.antt =====
-- What the client of a notification stream is given.
use surrealdb_c.Prelude.{ℕ, ◌≡◌, none, some, List, Text, text, length}
use surrealdb_c.Prelude.Int.{as_c_int}
use surrealdb_c.Rust.BTree
use surrealdb_c.Sdb.{SdbTypes, SdbValue, sdb_uuid, fields_of}
use surrealdb_c.Client.Engine.{Ended, replied}
use surrealdb_c.Client.Guard.{valid, returned}
use surrealdb_c.Rpc.Cbor.{Cbor, cbor_map, cbor_text, pair, no_pair, value_to_cbor}
use surrealdb_c.Rpc.Notifications.{SdbAction, SdbNotification, rpc_stream_next}

module _ {Other : Type 0} {E : SdbTypes} (display : SdbAction → Text)
    (debug : SdbValue E → Text) where
  -- A map with the keys "action", "id" and "result", in this order.
  abbrev pub cbor_of : SdbNotification E → Cbor Other
  cbor_of n = cbor_map (
      pair (cbor_text (text "action")) (cbor_text (display n.action)) (
        pair (cbor_text (text "id")) (cbor_text (debug (sdb_uuid n.id)))
          (pair (cbor_text (text "result")) (value_to_cbor debug n.result) no_pair)))

  -- A notification that arrives is sent as the CBOR map with the keys "action", "id" and "result",
  -- in this order: the display of the action, the debug text of the UUID, and the result's own
  -- CBOR. If that map is encoded as some bytes, `sr_rpc_stream_next` with a valid pointer writes
  -- them and returns their number, as a `c_int`.
  pub rpc_stream_next-cbor_of :
      (into_writer : Cbor Other → Ended (List ℕ)) (n : SdbNotification E) (bytes : List ℕ)
      → into_writer (cbor_of n) ≡ replied bytes
      → rpc_stream_next display debug into_writer valid (some n)
        ≡ returned (as_c_int (length bytes)) none (some bytes)
  unfolding rpc_stream_next value_to_cbor fields_of BTree.insert BTree.compare_text
  rpc_stream_next-cbor_of into_writer n bytes h = rw h
