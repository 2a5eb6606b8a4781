-- ===== src/Rpc/Context/Answers.antt =====
-- What `sr_surreal_rpc_execute` answers.
use surrealdb_c.Prelude.{
  ℕ, ◌≡◌, ◌∙◌, false, Option, none, some, List, Text, length, take-length, arith,
}
use surrealdb_c.Prelude.Int.{CInt, pos, as_c_int}
use surrealdb_c.Sdb.{SdbTypes, SdbValue, SdbItems}
use surrealdb_c.Client.Engine.{replied, Async, done}
use surrealdb_c.Client.Guard.{OutPtr, valid, returned, Surreal, check_null, settle}
use surrealdb_c.Rpc.Cbor.{Cbor, value_to_cbor}
use surrealdb_c.Rpc.Request.{parsed}
use surrealdb_c.Rpc.Request.Entries.{reading, parse_cbor_request-reading}
use surrealdb_c.Rpc.Inner.{db_other}
use surrealdb_c.Rpc.Context.{
  Inner, SurrealRpc, Core, with_async, bytes_at, coded, request_of, answer, execute,
}

pub with_async-clear :
    {Inner R : Type 0} (err_ptr : OutPtr) (fun : Async Inner (CInt × Option R)) (s : Surreal Inner)
    → s.ps ≡ false
    → with_async err_ptr fun s
      ≡ (settle err_ptr (fun s.db).0, record { db = (fun s.db).1; ps = s.ps })
unfolding with_async
with_async-clear err_ptr fun s h = ground arith

bytes_at-whole :
    {Inner : Type 0} (bytes : List ℕ) (d : Inner)
    → bytes_at (some bytes) (pos (length bytes)) d ≡ (done bytes, d)
unfolding bytes_at
bytes_at-whole bytes d = ground (arith, take-length bytes)

module _ {E : SdbTypes} (K : Core E) where
  -- On a clear context and with valid pointers, a request whose bytes decode to CBOR that reads as
  -- a method and parameters, which the core executes to a value whose CBOR is encoded as some
  -- bytes, returns the number of those bytes, as a `c_int`, and writes them; the core executes
  -- once, with that method and those parameters.
  pub execute_answers :
      (bytes out : List ℕ) (c : Cbor K.Other) (method : Text) (params : SdbItems E) (v : SdbValue E)
      (ctx : SurrealRpc K) (inner : Inner K)
      → ctx.ps ≡ false
      → K.from_reader bytes ≡ replied c
      → reading E c ≡ parsed (method, params)
      → K.execute_method (K.parse_case_insensitive method) params ctx.db
        ≡ (replied (db_other v), inner)
      → K.into_writer (value_to_cbor K.value_debug v) ≡ replied out
      → execute K valid valid (some bytes) (pos (length bytes)) ctx
        ≡ (returned (as_c_int (length out)) none (some out), record { db = inner; ps = ctx.ps })
  unfolding execute check_null settle coded request_of answer
  execute_answers bytes out c method params v ctx inner hp hr hq hx hw =
      with_async-clear valid _ ctx hp
      ∙ rw (bytes_at-whole bytes ctx.db, hr, parse_cbor_request-reading E c, hq, hx, hw)
