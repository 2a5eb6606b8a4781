-- ===== src/Client/Requests/Sent/Replies.antt =====
-- What a function does with a reply asks nothing more.
use surrealdb_c.Prelude.{ℕ, zero, suc, ◌+◌, ◌≡◌, refl, ◌∙◌}
use surrealdb_c.Sdb.{SdbTypes, SdbValue, SdbFields, sdb_array, sdb_object, item, no_items}
use surrealdb_c.Client.Engine.{
  Engine, Ended, replied, refused, panicked, Async, Step, done, failed, unwound, faulted, ◌>>=◌,
  continue,
}
use surrealdb_c.Client.Guard.{OutPtr, null, valid}
use surrealdb_c.Client.Rows.{rows, write_rows, take_first}
use surrealdb_c.Client.Create.{created_object, object_of_value, not_an_object, write_object}
use surrealdb_c.Client.Query.{statement_result, statement_results}
use surrealdb_c.Client.Requests.Sent.Steps.{Still}
use surrealdb_c.Client.Requests.Sent.Shapes.{Still-rows}

pub Still-bind :
    {Db A B : Type 0} (m : Async Db A) (k : A → Async Db B)
    → Still m
    → ((a : A) → Still (k a))
    → Still (m >>= k)
Still-bind {Db = Db} {A = A} m k h n = record { kept = λ d. go (m d).0 (m d).1 ∙ h.kept d }
  where
    go : (x : Step A) (d : Db) → (continue x k d).1 ≡ d
    go (done a) d = (n a).kept d
    go (failed e) d = refl
    go (unwound p) d = refl
    go faulted d = refl

module _ {E : SdbTypes} (G : Engine E) where
  Still-take_first : (res : G.Response) → Still (take_first G res)
  unfolding take_first
  Still-take_first res = record { kept = λ d. refl }

  -- The rows of the first answer.
  pub Still-first_rows :
      (res : G.Response) → Still {Db = G.Db} (take_first G res >>= λ v. write_rows (rows E v))
  Still-first_rows res =
      Still-bind (take_first G res) (λ v. write_rows (rows E v)) (Still-take_first res)
        (Still-rows G)

  Still-object_of_value : (v : SdbValue E) → Still (object_of_value G v)
  unfolding object_of_value not_an_object
  Still-object_of_value (sdb_object o) = record { kept = λ d. refl }
  Still-object_of_value _ = record { kept = λ d. refl }

  Still-created_object : (v : SdbValue E) → Still (created_object G v)
  unfolding created_object
  Still-created_object (sdb_array (item v vs)) = Still-object_of_value v
  Still-created_object (sdb_array no_items) = Still-object_of_value (sdb_array no_items)
  Still-created_object v = Still-object_of_value v

  Still-write_object : (p : OutPtr) (o : SdbFields E) → Still (write_object G p o)
  unfolding write_object
  Still-write_object null o = record { kept = λ d. refl }
  Still-write_object valid o = record { kept = λ d. refl }

  -- The object of the first answer.
  pub Still-created :
      (p : OutPtr) (res : G.Response)
      → Still (take_first G res >>= λ v. created_object G v >>= λ o. write_object G p o)
  Still-created p res =
      Still-bind (take_first G res) (λ v. created_object G v >>= λ o. write_object G p o)
        (Still-take_first res)
        λ v.
          Still-bind (created_object G v) (write_object G p) (Still-created_object v)
            (Still-write_object p)

  Still-statement_result : (r : Ended (SdbValue E)) → Still (statement_result G r)
  unfolding statement_result
  Still-statement_result (replied v) = record { kept = λ d. refl }
  Still-statement_result (refused e) = record { kept = λ d. refl }
  Still-statement_result (panicked p) = record { kept = λ d. refl }

  -- The answers to all statements.
  pub Still-statement_results : (n i : ℕ) (res : G.Response) → Still (statement_results G n i res)
  unfolding statement_results
  Still-statement_results zero i res = record { kept = λ d. refl }
  Still-statement_results (suc n) i res =
      Still-bind (statement_result G (G.take i res).0) _ (Still-statement_result (G.take i res).0)
        λ r.
          Still-bind (statement_results G n (i + 1) (G.take i res).1) _
            (Still-statement_results n (i + 1) (G.take i res).1) λ acc. record { kept = λ d. refl }
