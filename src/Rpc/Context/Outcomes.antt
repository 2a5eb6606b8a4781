-- ===== src/Rpc/Context/Outcomes.antt =====
-- How `sr_surreal_rpc_execute` ends, on every branch.
use surrealdb_c.Prelude.{
  ℕ, ◌≡◌, refl, ap, ◌∙◌, ◌≤◌, false, Option, none, some, List, Text, text, ◌++◌, length, take,
  arith,
}
use surrealdb_c.Prelude.Int.{CInt, pos, as_c_int}
use surrealdb_c.Sdb.{SdbTypes, SdbItems}
use surrealdb_c.Types.Strings.{StringT, to_string_t}
use surrealdb_c.Client.Engine.{
  Ended, replied, refused, panicked, Async, Step, done, continue, ◌>>=◌, of_ended, await,
}
use surrealdb_c.Client.Guard.{
  valid, Exit, returned, sr_error, sr_fatal, panic_message, check_null, settle,
}
use surrealdb_c.Rpc.Cbor.{Cbor, value_to_cbor}
use surrealdb_c.Rpc.Request.{Parsed, parsed, rejected, parse_cbor_request}
use surrealdb_c.Rpc.Request.Entries.{reading, parse_cbor_request-reading}
use surrealdb_c.Rpc.Inner.{DbResult, db_other, db_unimplemented}
use surrealdb_c.Rpc.Context.{Inner, SurrealRpc, Core, bytes_at, coded, request_of, answer, execute}
use surrealdb_c.Rpc.Context.Answers.{with_async-clear}

-- An error and a panic, `err_ptr` being valid.
abbrev error_with : {R : Type 0} → StringT → Exit R
error_with e = returned sr_error (some e) none

abbrev fatal_with : {R : Type 0} → Option Text → Exit R
fatal_with p = returned sr_fatal (some (panic_message p)) none

module _ {E : SdbTypes} (K : Core E) where
  -- The end, from what each stage gives: the encoding of the answer, the core, the reading of the
  -- request, and the decoding of the bytes.
  abbrev encoded_end : Ended (List ℕ) → Exit (List ℕ)
  encoded_end (replied out) = returned (as_c_int (length out)) none (some out)
  encoded_end (refused e) = error_with (to_string_t (text "CBOR encode error: " ++ e))
  encoded_end (panicked p) = fatal_with p

  abbrev executed_end : Ended (DbResult E) → Exit (List ℕ)
  executed_end (replied (db_other v)) = encoded_end (K.into_writer (value_to_cbor K.value_debug v))
  executed_end (replied db_unimplemented) =
      error_with (to_string_t (text "C SDK: RPC::execute had unimplemented response."))
  executed_end (refused e) = error_with (to_string_t e)
  executed_end (panicked p) = fatal_with p

  abbrev requested_end : Parsed (Text × SdbItems E) → Inner K → Exit (List ℕ) × Inner K
  requested_end (parsed (method, params)) d =
      let (r, d') = K.execute_method (K.parse_case_insensitive method) params d in
      (executed_end r, d')
  requested_end (rejected e) d = (error_with e, d)

  abbrev pub decoded_end : Ended (Cbor K.Other) → Inner K → Exit (List ℕ) × Inner K
  decoded_end (replied c) d = requested_end (reading E c) d
  decoded_end (refused e) d = (error_with (to_string_t (text "CBOR decode error: " ++ e)), d)
  decoded_end (panicked p) d = (fatal_with p, d)

  -- The end of a body.
  abbrev ending : Step (CInt × Option (List ℕ)) × Inner K → Exit (List ℕ) × Inner K
  ending (r, d) = (settle valid r, d)

  encoded_lem :
      (r : Ended (List ℕ)) (d : Inner K)
      → ending (
          (coded (text "CBOR encode error: ") r >>= λ out e.
          (done (as_c_int (length out), some out), e))
            d)
        ≡ (encoded_end r, d)
  unfolding settle coded
  encoded_lem (replied out) d = refl
  encoded_lem (refused e) d = refl
  encoded_lem (panicked p) d = refl

  executed_lem :
      (r : Ended (DbResult E)) (d : Inner K)
      → ending (continue (of_ended r) (answer K) d) ≡ (executed_end r, d)
  unfolding settle answer
  executed_lem (replied (db_other v)) d =
      encoded_lem (K.into_writer (value_to_cbor K.value_debug v)) d
  executed_lem (replied db_unimplemented) d = refl
  executed_lem (refused e) d = refl
  executed_lem (panicked p) d = refl

  -- The body, from the parsed request on, and from the decoded one on.
  abbrev requested : Parsed (Text × SdbItems E) → Async (Inner K) (CInt × Option (List ℕ))
  requested q = request_of q >>= λ request.
      (await (K.execute_method (K.parse_case_insensitive request.0) request.1) >>= λ res.
      answer K res)

  requested_lem :
      (q : Parsed (Text × SdbItems E)) (d : Inner K) → ending (requested q d) ≡ requested_end q d
  unfolding settle request_of
  requested_lem (parsed (m, ps)) d =
      let (r, d') = K.execute_method (K.parse_case_insensitive m) ps d in executed_lem r d'
  requested_lem (rejected e) d = refl

  abbrev decoded : List ℕ → Async (Inner K) (CInt × Option (List ℕ))
  decoded in_bytes = coded (text "CBOR decode error: ") (K.from_reader in_bytes) >>= λ v.
      requested (parse_cbor_request E v)

  decoded_lem :
      (c : Ended (Cbor K.Other)) (d : Inner K)
      → ending
          ((coded (text "CBOR decode error: ") c >>= λ v. requested (parse_cbor_request E v)) d)
        ≡ decoded_end c d
  unfolding settle coded
  decoded_lem (replied c) d =
      ap (λ q. ending (requested q d)) (parse_cbor_request-reading E c)
      ∙ requested_lem (reading E c) d
  decoded_lem (refused e) d = refl
  decoded_lem (panicked p) d = refl

  bytes_at-take :
      (memory : List ℕ) (n : ℕ) (d : Inner K)
      → n ≤ length memory
      → bytes_at (some memory) (pos n) d ≡ (done (take n memory), d)
  unfolding bytes_at
  bytes_at-take memory n d h = ground arith

  -- On a clear context, with valid pointers and a length within the memory, `sr_surreal_rpc_execute`
  -- ends as its four stages decide, and in no other way: bytes that are not CBOR, a value that does
  -- not encode, and a response of another kind are `SR_ERROR` with their own message; a request that
  -- is not a map and an error of the core are `SR_ERROR` with theirs; a panic of any stage is
  -- `SR_FATAL`; otherwise the encoded answer is written. The core executes only if the bytes decode to
  -- a map, and then once.
  pub execute-decoded_end :
      (memory : List ℕ) (n : ℕ) (ctx : SurrealRpc K)
      → ctx.ps ≡ false
      → n ≤ length memory
      → let (x, inner) = decoded_end (K.from_reader (take n memory)) ctx.db in
        execute K valid valid (some memory) (pos n) ctx ≡ (x, record { db = inner; ps = ctx.ps })
  unfolding execute check_null
  execute-decoded_end memory n ctx hp h =
      with_async-clear valid _ ctx hp
      ∙ ap (λ (x : Exit (List ℕ) × Inner K). (x.0, record { db = x.1; ps = ctx.ps }))
          (ap (λ (b : Step (List ℕ) × Inner K). ending (continue b.0 decoded b.1))
              (bytes_at-take memory n ctx.db h)
            ∙ decoded_lem (K.from_reader (take n memory)) ctx.db)
