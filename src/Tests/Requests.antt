-- ===== src/Tests/Requests.antt =====
-- Calls and the requests that they stand for.
use surrealdb_c.Prelude.{◌≡◌, refl, false, none, some, List, [], ◌∷◌, text}
use surrealdb_c.Rust.Utf8.{to_str, valid_from, next}
use surrealdb_c.Client.Guard.{null, valid, returned}
use surrealdb_c.Client.Calls.{Call, calls, use_ns, select, authenticate, signup, unset, version}
use surrealdb_c.Client.Auth.{held_token, root, namespace, Credentials, signin}
use surrealdb_c.Client.Outcomes.Others.{signing_in, other_function-Ends}
use surrealdb_c.Prelude.Int.{pos}
use surrealdb_c.Types.Strings.{to_string_t}
use surrealdb_c.Client.Requests.{perform, perform_all}
use surrealdb_c.Client.Requests.Reading.{
  ◌>>?◌, text_at, needs, credentials_at, access_at, signup_at, signin_at, text_or,
}
use surrealdb_c.Client.Requests.Refines.{calls-perform_all}
use surrealdb_c.Tests.World.{engine, fresh}

-- A selection without a place for its rows, a token that is null or not UTF-8, and a sign-up as root
-- ask nothing.
abbrev session : List Call
session =
    use_ns valid (some (text "app"))
    ∷ select valid null (some (text "person"))
    ∷ authenticate null none
    ∷ authenticate valid (some (0xff ∷ []))
    ∷ signup valid held_token root none none none
    ∷ unset null (some (text "x"))
    ∷ version valid valid
    ∷ []

calls-perform_all_example : (calls engine session fresh).1 ≡ record { db = 3; ps = false }
unfolding perform perform_all ◌>>?◌ text_at needs credentials_at access_at signup_at to_str
    valid_from next
calls-perform_all_example = calls-perform_all engine session fresh refl

abbrev tom : Credentials
tom = record { username = some (text "tom"); password = some (text "secret") }

other_function-Ends_example :
    signin engine valid held_token root (some tom) none none fresh
    ≡ (returned (pos 0) none (some (to_string_t (text "token"))), record { db = 1; ps = false })
unfolding ◌>>?◌ credentials_at text_or access_at signin_at to_str valid_from next
other_function-Ends_example =
    other_function-Ends engine (signing_in held_token root (some tom) none none) fresh refl

-- Without a namespace there is no call.
unnamed : (signin engine valid held_token namespace (some tom) none none fresh).1 ≡ fresh
unfolding ◌>>?◌ credentials_at text_or access_at signin_at to_str valid_from next
unnamed =
    (other_function-Ends engine (signing_in held_token namespace (some tom) none none) fresh refl).1
