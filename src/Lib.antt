-- ===== src/Lib.antt =====
-- The C API of SurrealDB (surrealdb.c): a Rust crate that exports the SurrealDB client, and an RPC
-- context on its core, as functions for C.
--
-- The parts, and the files that model them.
-- - Types: the C data. src/utils.rs and src/types/string.rs are Types/Strings; number.rs, duration.rs
--   and uuid.rs are Types/Numbers; geometry.rs is Types/Geometries; the data of value.rs, thing.rs,
--   array.rs and object.rs is Types/Values. What is read of a slice after `make_array` of array.rs is
--   Types/Slices. `From<sdbValue> for Value` and its kin are Types/FromSdb,
--   `From<Value> for sdbValue` and its kin Types/ToSdb. result.rs is Types/Results.
--   The functions that C has for building and reading: `sr_value_*` are Types/Constructors,
--   `sr_object_*` Types/Objects and `sr_array_*` Types/Arrays. Types/Memory has `ArrayGen` of array.rs
--   and `Bytes` of bytes.rs on a heap, where it matters who owns a block, and Types/Owned has the blocks
--   that whole values own, the `Drop` of strings and arrays, `sr_value_free` and its kin, and clones.
--   Types/Equal has `sr_value_eq`, with every `PartialEq` under it. Types/Whole has the values that a C
--   program can come by (Built).
-- - Client: src/lib.rs. Client/Guard has what every function is wrapped in (`write_error`,
--   `check_null!`, `with_surreal_async`); Connect, Session, Create, Records, Patch, Graph, Query and
--   Auth have the functions `sr_*` on a connection, one definition each, named as the method of
--   `Surreal` is; Resource has `parse_resource` and Rows what is written at `res_ptr`. Client/Calls
--   gathers 31 functions on a connection in one type, and runs sequences of them. Client/Outcomes
--   relates the functions to the calls of the client that they make, and Client/Requests has an
--   abstract view of a connection: the requests of the client that calls stand for.
-- - Rpc: src/rpc.rs, with src/opts.rs, src/types/notification.rs and src/types/stream.rs. Rpc/Cbor has
--   `cbor_to_value` and `value_to_cbor`, Rpc/Request `parse_cbor_request`, Rpc/Inner the state of a
--   context, Rpc/Context the functions `sr_surreal_rpc_*`, and Rpc/Notifications the two streams.
-- - Handles: the connections, streams and contexts that C holds, as boxes that functions of src/lib.rs,
--   src/rpc.rs and src/types/stream.rs give out, read through, and take back.
-- - Rust: what the code uses of Rust's library: results that panic or fault (Run), UTF-8 and its lossy
--   reading (Utf8), `BTreeMap<String, V>` (BTree), `std::time::Duration` (Time).
-- - Tests: small crates and runs of the code on them.
--
-- The model.
-- - The crates `surrealdb`, `surrealdb_core`, `ciborium`, `rust_decimal`, `chrono`, `uuid` and
--   `geo_types` are not in the repository. Their types and functions are the records SdbTypes (Sdb),
--   Engine (Client/Engine) and Core (Rpc/Context), parameters of the definitions. What the theorems
--   rely on of them is SdbLaws: printers undone by their parsers, and the range of a duration; and
--   NotificationLaws (Rpc/Context/Opened): a datastore with notifications has a channel for them. A
--   call of the client takes the state of the database to a value, an error or a panic, and a new
--   state.
-- - A C string is null or its bytes before the NUL. A pointer for a result is null or valid, and a C
--   function ends with a code and what it wrote at its pointers (Exit), by `abort`, or by an access
--   through null. Texts are lists of bytes, floats are bit patterns, and integers keep their width
--   where the code casts (`as c_int`, `as i64`, `as usize`).
-- - Apart from Types/Memory, Types/Owned and Handles, values stand for themselves: a copy is the value.
--   An array is the sequence that is read of its slice, and an object the entries of its map in the
--   order of the keys. All recursion is structural: there is no fuel.
-- - `make_array` keeps the length as a `c_int`. Where it wraps, to 0 or to another positive length, so
--   many elements are read (`make_slice`). A length of 2^31 and more may wrap to a negative one, at
--   which the code reads past the block: that read has no value in the model, which there gives the
--   elements of the block. In Types/Memory it is a fault.
-- - Where a function assigns through a pointer, what was there is dropped: `token_ptr` of `sr_signin`
--   and `sr_signup` is null, holds a string of the library, or holds none, and is then a fault.
-- - `with_surreal_async` runs one call at a time: the model orders the calls on a connection.
-- - In Types/Owned a heap is the set of the live blocks. `place_value` lays a value out at consecutive
--   addresses: the blocks of its strings, of the slices of its arrays, bytes and geometries, and of its
--   boxes, where a `BTreeMap` and its keys count as one block with the box. A conversion that takes a
--   value over gives back its blocks and adds the slices of geometries that it copies and leaks, at new
--   addresses; what Rust's side allocates for its own values is not counted. Giving a block back that is
--   not live is a fault.
-- - `==` on floats is that of IEEE 754, on the bit patterns of 64-bit floats.
--
-- - In Handles a box that is not out, or is of another kind, cannot be read or freed: that is a fault.
--   Addresses are not given out twice. What the crates do when a box is dropped is theirs.
--
-- Not modelled: printing and `Debug`, and the runtime.
pub mod Client
pub mod Handles
pub mod Prelude
pub mod Rpc
pub mod Rust
pub mod Sdb
pub mod Tests
pub mod Types
