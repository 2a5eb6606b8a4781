-- ===== src/Tests/Witnesses.antt =====
-- The theorems at inputs of the small crates.
use surrealdb_c.Prelude.{
  ◌↔◌, ◌≡◌, ◌<◌, ◌≢◌, refl, true, false, none, some, [], ◌∷◌, map, All, text, length, arith,
}
use surrealdb_c.Prelude.Int.{pos, as_c_int}
use surrealdb_c.Rust.Run.{ok}
use surrealdb_c.Rust.BTree.{compare_text, text_eq}
use surrealdb_c.Rust.Utf8.{valid_from, start, next, to_str}
use surrealdb_c.Sdb.{key_string, sdb_null, sdb_object, no_items, items_of, sdb_none, list_of_items}
use surrealdb_c.Types.FromSdb.{object_from_sdb}
use surrealdb_c.Types.ToSdb.{array_to_sdb}
use surrealdb_c.Client.Engine.{resource_record_id, resource_from}
use surrealdb_c.Client.Guard.{null, valid, returned, aborted}
use surrealdb_c.Client.Resource.{parse_resource, parse_resource-cases}
use surrealdb_c.Client.Rows.{rows, rows_code}
use surrealdb_c.Client.Rows.RoundTrip.{elements, rows_code-length, array_to_sdb-rows}
use surrealdb_c.Client.Records.Sends.{merging, c_function, content_is_sent}
use surrealdb_c.Client.Query.{query}
use surrealdb_c.Client.Query.Statements.{takes, entry_of, query_entries}
use surrealdb_c.Client.Auth.{Names}
use surrealdb_c.Client.Calls.{call, calls, health, select, delete}
use surrealdb_c.Client.Calls.Errors.{NullErr, with_err, call_err_ptr}
use surrealdb_c.Client.Calls.Null.{refusal, call_null_argument}
use surrealdb_c.Client.Calls.Poison.{calls_never_abort}
use surrealdb_c.Rpc.Cbor.RoundTrip.{IsPlain}
use surrealdb_c.Rpc.Request.{parse_cbor_request, parsed, text_or_empty}
use surrealdb_c.Rpc.Request.Entries.{
  values_at, last_text, all_items, reading, parse_cbor_request-reading,
}
use surrealdb_c.Rpc.Notifications.{sdb_create, SdbNotification}
use surrealdb_c.Rpc.Cbor.Normal.{sent, sent_iff_IsPlain}
use surrealdb_c.Rpc.Cbor.RoundTrip.{IsPlain}
use surrealdb_c.Client.Create.{create}
use surrealdb_c.Client.Create.Created.{Created, create-Created}
use surrealdb_c.Client.Connect.{connect}
use surrealdb_c.Client.Calls.Connected.{calls-connect}
use surrealdb_c.Tests.World.{
  maker, person, person-IsClean, person-IsSorted, one_row-IsClean, types, laws, one_row, engine,
  fresh, ping,
}

two_elements : length (elements one_row) < 2147483648
unfolding list_of_items
two_elements = omega arith

valid_tom : valid_from start (text "person:tom") ≡ true
unfolding valid_from next
valid_tom = refl

valid_query : valid_from start (text "a; b") ≡ true
unfolding valid_from next
valid_query = refl

ping-reading : reading types ping ≡ parsed (text "ping", no_items)
unfolding values_at last_text all_items text_eq compare_text items_of text_or_empty
ping-reading = refl

call_err_ptr_example :
    NullErr false
      (call engine (with_err valid (health null)) fresh).0
      (call engine (with_err null (health null)) fresh).0
    × ((call engine (with_err valid (health null)) fresh).1
        ≡ (call engine (with_err null (health null)) fresh).1)
call_err_ptr_example = call_err_ptr engine (health null) fresh

-- A health check that panics, and a selection after it.
calls_never_abort_example :
    All
      (λ x. x ≢ aborted)
      (calls engine (health valid ∷ select valid valid (some (text "person")) ∷ []) fresh).0
    × ((calls engine (health valid ∷ select valid valid (some (text "person")) ∷ []) fresh).1.ps
        ≡ false)
calls_never_abort_example =
    calls_never_abort engine (health valid ∷ select valid valid (some (text "person")) ∷ []) fresh
      refl

call_null_argument_example :
    call engine (delete valid valid none) fresh ≡ (refusal valid "resource", fresh)
call_null_argument_example =
    call_null_argument engine (delete valid valid none) fresh "resource" refl

parse_resource-cases_example :
    (parse_resource types (text "a:b") ≡ resource_record_id (text "a") (key_string (text "b")))
    × (parse_resource types (text "a:") ≡ resource_from (text "a:"))
    × (parse_resource types (text ":") ≡ resource_from (text ":"))
    × (parse_resource types (text "a") ≡ resource_from (text "a"))
    × (parse_resource types [] ≡ resource_from [])
parse_resource-cases_example = parse_resource-cases types [] [] b'a' b'b' (ground arith)

content_is_sent_example :
    c_function engine merging valid valid
      (some (text "person:tom"))
      (some (object_from_sdb types person))
      fresh
    ≡ (
      returned (rows_code (rows types one_row)) none (some (rows types one_row)),
      record { db = 1; ps = false },
    )
content_is_sent_example =
    content_is_sent engine laws merging (text "person:tom") person fresh 1 one_row refl valid_tom
      person-IsClean person-IsSorted refl

rows_code-length_example : rows_code (rows types one_row) ≡ pos 2
unfolding list_of_items
rows_code-length_example = rows_code-length types one_row two_elements

array_to_sdb-rows_example : array_to_sdb types (rows types one_row) ≡ ok (elements one_row)
array_to_sdb-rows_example = array_to_sdb-rows types laws one_row one_row-IsClean

query_entries_example : query engine valid valid (some (text "a; b")) none fresh ≡ (
  returned
      (as_c_int 2)
      none
      (some (map (entry_of engine) (takes engine 2 0 (one_row ∷ sdb_none ∷ [])))),
  record { db = 1; ps = false },
)
query_entries_example =
    query_entries engine (text "a; b") fresh (one_row ∷ sdb_none ∷ []) 1 refl valid_query refl
      (tt, (tt, tt))

-- A user without a database.
abbrev names : Names
names = record { user = text "u"; pass = text "p"; ns = text "ns"; db_name = []; ac = [] }

parse_cbor_request-reading_example : parse_cbor_request types ping ≡ reading types ping
parse_cbor_request-reading_example = parse_cbor_request-reading types ping

abbrev created : SdbNotification types
created = record { id = 1 ∷ []; action = sdb_create; result = sdb_null }

sent_iff_IsPlain_example : sent Unit types (λ _. text "") one_row ≡ one_row ↔ IsPlain one_row
sent_iff_IsPlain_example = sent_iff_IsPlain Unit types (λ _. text "") one_row

memory_connects :
    connect engine valid valid (some (text "memory")) ≡ returned (pos 1) none (some fresh)
unfolding connect valid_from next to_str
memory_connects = refl

calls-connect_example :
    All (λ x. x ≢ aborted) (calls engine (health null ∷ health valid ∷ []) fresh).0
    × ((calls engine (health null ∷ health valid ∷ []) fresh).1.ps ≡ false)
calls-connect_example =
    calls-connect engine valid valid (some (text "memory")) (pos 1) none fresh
      (health null ∷ health valid ∷ []) memory_connects

create-Created_example :
    Created valid
      (some person)
      (create maker valid valid
        (some (text "person:tom"))
        (some (object_from_sdb types person))
        fresh).0
    × ((create maker valid valid
          (some (text "person:tom"))
          (some (object_from_sdb types person))
          fresh).1
        ≡ record { db = 1; ps = false })
create-Created_example =
    create-Created maker laws valid (text "person:tom") person fresh (sdb_object person ∷ []) 1
      (sdb_object person) refl valid_tom person-IsClean person-IsSorted refl refl
