-- ===== src/Client/Query/Statements.antt =====
-- `sr_query` has an entry for each statement, in order, and one that fails stops none.
use surrealdb_c.Prelude.{
  ℕ, zero, suc, ◌+◌, ◌≡◌, refl, ap, ◌∙◌, true, false, none, some, List, [], ◌∷◌, map, length,
  length-map, All, Text,
}
use surrealdb_c.Prelude.Int.{pos, negsuc, as_c_int}
use surrealdb_c.Rust.Utf8.{valid_from, start}
use surrealdb_c.Sdb.{SdbTypes, SdbValue, no_fields}
use surrealdb_c.Types.Strings.{to_string_t}
use surrealdb_c.Types.Values.{empty}
use surrealdb_c.Types.Results.{ArrayResult, array_result_ok, array_result_err}
use surrealdb_c.Client.Engine.{Engine, Ended, replied, refused, panicked, done, bind_all}
use surrealdb_c.Client.Guard.{
  valid, returned, Surreal, check_null, with_surreal_async-clear, settle,
}
use surrealdb_c.Client.Rows.{rows}
use surrealdb_c.Client.Records.Sends.{text_of-valid}
use surrealdb_c.Client.Query.{statement_result, statement_results, vars_of, query}

abbrev pub Answers : {A : Type 0} → Ended A → Type 0
Answers (replied _) = Unit
Answers (refused _) = Unit
Answers (panicked _) = ⊥

module _ {E : SdbTypes} (G : Engine E) where
  -- What `res.take` gives for so many statements from an index on.
  abbrev pub takes : ℕ → ℕ → G.Response → List (Ended (SdbValue E))
  takes zero index res = []
  takes (suc left) index res = (G.take index res).0 ∷ takes left (index + 1) (G.take index res).1

  -- The entry of a statement: its rows and code 0, or no rows, `SR_ERROR` and its message.
  abbrev pub entry_of : Ended (SdbValue E) → ArrayResult
  entry_of (replied v) = record { ok = rows E v; err = record { code = pos 0; msg = none } }
  entry_of (refused e) = record {
    ok = empty;
    err = record { code = negsuc 1; msg = to_string_t e };
  }
  entry_of (panicked p) = record { ok = empty; err = record { code = pos 0; msg = none } }

  length-takes : (n i : ℕ) (res : G.Response) → length (takes n i res) ≡ n
  length-takes zero i res = refl
  length-takes (suc n) i res = ap suc (length-takes n (i + 1) (G.take i res).1)

  statement_result_lem :
      (x : Ended (SdbValue E)) (d : G.Db)
      → Answers x
      → statement_result G x d ≡ (done (entry_of x), d)
  unfolding statement_result array_result_ok array_result_err
  statement_result_lem (replied v) d h = refl
  statement_result_lem (refused e) d h = refl
  statement_result_lem (panicked p) d h = absurd h

  statement_results_lem :
      (n i : ℕ) (res : G.Response) (d : G.Db)
      → All Answers (takes n i res)
      → statement_results G n i res d ≡ (done (map entry_of (takes n i res)), d)
  unfolding statement_results
  statement_results_lem zero i res d h = refl
  statement_results_lem (suc n) i res d h = rw (
    statement_result_lem (G.take i res).0 d h.0,
    statement_results_lem n (i + 1) (G.take i res).1 d h.1,
  )

  -- On a clear connection and with valid pointers, a UTF-8 query without variables that the client
  -- answers, no statement panicking, returns the number of statements, as a `c_int`, and writes an
  -- entry for each, in order: the rows of its value, or its error. Nothing is at `err_ptr`,
  -- whatever statements failed.
  pub query_entries :
      (t : Text) (s : Surreal G.Db) (res : G.Response) (d : G.Db)
      → s.ps ≡ false
      → valid_from start t ≡ true
      → G.query t (bind_all no_fields) s.db ≡ (replied res, d)
      → All Answers (takes (G.num_statements res) 0 res)
      → query G valid valid (some t) none s ≡ (
        returned
            (as_c_int (G.num_statements res))
            none
            (some (map entry_of (takes (G.num_statements res) 0 res))),
        record { db = d; ps = s.ps },
      )
  unfolding query check_null vars_of settle
  query_entries t s res d hp ht hq ha =
      with_surreal_async-clear valid _ s hp
      ∙ rw (
        text_of-valid G t s.db ht,
        hq,
        statement_results_lem (G.num_statements res) 0 res d ha,
        length-map (takes (G.num_statements res) 0 res) entry_of,
        length-takes (G.num_statements res) 0 res,
      )
