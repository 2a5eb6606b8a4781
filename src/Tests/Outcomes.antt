-- ===== src/Tests/Outcomes.antt =====
-- The theorems on how the operations end.
use surrealdb_c.Prelude.{
  ℕ, zero, suc, Option, ◌≡◌, refl, true, false, none, some, [], ◌∷◌, text, arith,
}
use surrealdb_c.Prelude.Int.{pos, as_c_int}
use surrealdb_c.Rust.Utf8.{valid_from, start, next, to_str}
use surrealdb_c.Types.Values.{sr_value_bool}
use surrealdb_c.Client.Guard.{
  settle, valid, returned, sr_fatal, sr_closed, sr_error, sr_none, panic_message,
}
use surrealdb_c.Client.Outcomes.Session.{checking, session_function, session_function-Ends}
use surrealdb_c.Client.Outcomes.Tables.{
  patching_add, row_function, row_outcome, row_call, row_function_lem,
}
use surrealdb_c.Rpc.Context.{
  execute, Options, SurrealRpc, new, opened, inner_of, configured, timeout, notifications,
}
use surrealdb_c.Rpc.Inner.{default_sessions}
use surrealdb_c.Rpc.Context.Opened.{NotificationLaws, notifications-new}
use surrealdb_c.Rpc.Context.Outcomes.{decoded_end, execute-decoded_end}
use surrealdb_c.Rpc.Cbor.{
  Cbor, cbor_map, cbor_text, cbor_integer, cbor_null, pair, no_pair, cbor_to_value,
}
use surrealdb_c.Rpc.Cbor.Typed.{IsReadable, cbor_to_value-IsReadable}
use surrealdb_c.Rpc.Notifications.{
  SdbNotification, sdb_create, Next, arrived, broken, ended, notification_from_sdb,
}
use surrealdb_c.Rpc.Notifications.Watched.{watches, watches-Streams}
use surrealdb_c.Rpc.Notifications.Polled.{polls, rpc_stream_new, polls-Delivers}
use surrealdb_c.Sdb.{sdb_null}
use surrealdb_c.Client.Engine.{replied}
use surrealdb_c.Tests.World.{types, engine, core, fresh, context}

session_function-Ends_example :
    session_function engine checking fresh
    ≡ (returned sr_fatal (some (panic_message (some (text "down")))) none, fresh)
session_function-Ends_example = session_function-Ends engine checking fresh refl

valid_person : valid_from start (text "person:tom") ≡ true
unfolding valid_from next
valid_person = refl

valid_path : valid_from start (text "/done") ≡ true
unfolding valid_from next
valid_path = refl

row_function_lem_example :
    row_function engine (patching_add (text "person:tom") (text "/done") (sr_value_bool true)) fresh
    ≡ row_outcome engine
        (row_call engine (patching_add (text "person:tom") (text "/done") (sr_value_bool true)))
        fresh
row_function_lem_example =
    row_function_lem engine fresh refl
      (patching_add (text "person:tom") (text "/done") (sr_value_bool true))
      (valid_person, valid_path)

execute-decoded_end_example :
    let (x, inner) = decoded_end core (core.from_reader (1 ∷ [])) context.db in
    execute core valid valid (some (1 ∷ 2 ∷ [])) (pos 1) context
    ≡ (x, record { db = inner; ps = false })
execute-decoded_end_example = execute-decoded_end core (1 ∷ 2 ∷ []) 1 context refl (omega arith)

-- A map with a key twice, and an integer beyond 64 bits
abbrev twice : Cbor (Unit {0})
twice = cbor_map (
    pair (cbor_text (text "k")) (cbor_integer (pos 9223372036854775808))
      (pair (cbor_text (text "k")) cbor_null no_pair))

cbor_to_value-IsReadable_example : IsReadable (cbor_to_value types twice)
cbor_to_value-IsReadable_example = cbor_to_value-IsReadable types twice

-- A channel that holds as many notifications as its number says.
abbrev receive : ℕ → Option (SdbNotification types) × ℕ
receive zero = (none, zero)
receive (suc n) = (some (record { id = 1 ∷ []; action = sdb_create; result = sdb_null }), n)

polls-Delivers_example :
    polls {Other = Unit}
      (λ _. text "CREATE")
      (λ _. text "id")
      (λ _. replied (0xa3 ∷ []))
      receive
      3
      (rpc_stream_new 1)
    ≡ returned (pos 1) none (some (0xa3 ∷ []))
      ∷ returned sr_closed none none
      ∷ returned sr_closed none none
      ∷ []
unfolding as_c_int
polls-Delivers_example =
    polls-Delivers (λ _. text "CREATE") (λ _. text "id") (λ _. replied (0xa3 ∷ [])) receive
      (record { id = 1 ∷ []; action = sdb_create; result = sdb_null } ∷ []) ((0xa3 ∷ []) ∷ []) 1 2
      (refl, refl) (refl, tt)

channels : NotificationLaws core
channels = record {
  has_channel = λ k. (tt, refl);
  query_keeps = λ n k. refl;
  transaction_keeps = λ n k. refl;
}

-- A query timeout of 5 seconds, and none for transactions
abbrev limited : Options
limited = record { strict = false; query_timeout = 5; transaction_timeout = 0 }

abbrev limited_context : SurrealRpc core
limited_context = record { db = record { kvs = 5; session_map = (none, true) ∷ [] }; ps = false }

limited_lem :
    new core valid (some (text "memory")) limited ≡ returned (pos 1) none (some limited_context)
unfolding new opened inner_of configured timeout default_sessions valid_from next to_str settle
limited_lem = refl

notifications-new_example :
    (limited_context.ps ≡ false)
    × (limited_context.db.session_map ≡ (none, true) ∷ [])
    × ((rx : Unit) × (notifications core valid valid limited_context
          ≡ (returned (pos 1) none (some rx), limited_context)))
notifications-new_example =
    notifications-new core channels valid valid (some (text "memory")) limited (pos 1) none
      limited_context limited_lem

-- A stream that gives one notification, then an error, and ends.
abbrev items_of : ℕ → Next (SdbNotification types) × ℕ
items_of zero = (ended, zero)
items_of (suc zero) = (broken, zero)
items_of (suc (suc n)) =
    (arrived (record { id = 1 ∷ []; action = sdb_create; result = sdb_null }), suc n)

watches-Streams_example :
    watches types items_of 4 2
    ≡ returned (pos 1) none (
        some (
          notification_from_sdb types
            (record { id = 1 ∷ []; action = sdb_create; result = sdb_null })))
      ∷ returned sr_error none none
      ∷ returned sr_none none none
      ∷ returned sr_none none none
      ∷ []
watches-Streams_example =
    watches-Streams types items_of
      (arrived (record { id = 1 ∷ []; action = sdb_create; result = sdb_null }) ∷ broken ∷ []) 2 2
      (refl, (refl, refl))
