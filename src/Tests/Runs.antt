-- ===== src/Tests/Runs.antt =====
-- Runs of the C functions on the small crates.
use surrealdb_c.Prelude.{◌≡◌, refl, none, some, [], ◌∷◌, text}
use surrealdb_c.Prelude.Int.{pos, as_c_int}
use surrealdb_c.Rust.Utf8.{valid_from, next, to_str}
use surrealdb_c.Client.Engine.{text_of}
use surrealdb_c.Types.Strings.{to_string_t}
use surrealdb_c.Client.Guard.{
  null, valid, returned, crashed, check_null, with_surreal_async, sr_error, sr_fatal,
}
use surrealdb_c.Client.Connect.{connect}
use surrealdb_c.Client.Session.{write_version, health, version, use_db}
use surrealdb_c.Client.Graph.{relate_query}
use surrealdb_c.Tests.World.{engine, fresh}

connect_run : connect engine valid valid (some (text "memory")) ≡ returned (pos 1) none (some fresh)
unfolding connect valid_from next to_str
connect_run = refl

-- Bytes that are not UTF-8.
connect_invalid_run :
    connect engine valid valid (some (0xff ∷ []))
    ≡ returned sr_error (some (to_string_t (text "invalid utf8"))) none
unfolding connect valid_from next to_str
connect_invalid_run = refl

-- A panic is reported, and lost where there is no pointer for it.
health_run :
    (health engine valid fresh).0
    ≡ returned sr_fatal (some (to_string_t (text "Panicked with: down"))) none
unfolding health with_surreal_async to_string_t
health_run = refl

health_null_run : (health engine null fresh).0 ≡ crashed
unfolding health with_surreal_async to_string_t
health_null_run = refl

-- The connection still works after the panic.
use_db_run :
    (use_db engine valid (some (text "db")) (health engine valid fresh).1).0
    ≡ returned (pos 0) none none
unfolding use_db health valid_from next check_null with_surreal_async text_of to_str
use_db_run = refl

version_run :
    (version engine valid valid fresh).0 ≡ returned (pos 5) none (some (some (text "3.0.0")))
unfolding version to_string_t check_null with_surreal_async write_version as_c_int
version_run = refl

relate_run :
    relate_query engine (text "a:1") (text "knows") (text "b:2") none
    ≡ text "RELATE a:1->knows->b:2"
unfolding relate_query
relate_run = refl
