-- ===== src/Client/Outcomes/Tables.antt =====
-- The operations that answer with rows: their arguments are read, one call of the client is made, and
-- what it replies is written.
use surrealdb_c.Prelude.{◌≡◌, refl, ◌∙◌, true, false, Option, none, some, List, [], Text, text}
use surrealdb_c.Prelude.Int.{CInt}
use surrealdb_c.Rust.Run.{Run, ok, panic, fault}
use surrealdb_c.Rust.Utf8.{valid_from, start}
use surrealdb_c.Sdb.{SdbTypes, SdbValue, SdbFields}
use surrealdb_c.Types.Values.{Value, Array, Object}
use surrealdb_c.Types.ToSdb.{value_to_sdb, array_to_sdb, sdb_object_from}
use surrealdb_c.Client.Engine.{
  Engine, Ended, replied, refused, panicked, Reply, Binding, unbound, bind_one, Async, done, await,
  lift, pure, text_of, ◌>>=◌, continue, of_ended, resource_from, patch_op_add, patch_op_remove,
  patch_op_replace,
}
use surrealdb_c.Client.Guard.{
  valid, Exit, returned, crashed, sr_fatal, panic_message, settle, with_surreal_async-clear,
  Surreal, CFn, check_null, with_surreal_async,
}
use surrealdb_c.Client.Resource.{parse_resource}
use surrealdb_c.Client.Rows.{rows, rows_code, write_rows, object_at, value_at, take_first}
use surrealdb_c.Client.Records.{delete, select, insert, merge, update, upsert, insert_relation}
use surrealdb_c.Client.Records.Sends.{
  ContentOp, inserting, merging, updating, upserting, c_function, client_method, text_of-valid,
}
use surrealdb_c.Client.Patch.{patch_add, patch_replace, patch_remove}
use surrealdb_c.Client.Graph.{run, relate, relate_query, relate_binding, args_of}
use surrealdb_c.Client.Outcomes.{outcome, after, asked, asked-Decides, with_surreal_async-at}

-- The operations with their arguments.
pub data RowOp : Type 0 where
  selecting deleting : Text → RowOp
  sending : ContentOp → Text → Object → RowOp
  inserting_relation : Text → Object → RowOp
  running : Text → Option Array → RowOp
  patching_add patching_replace : Text → Text → Value → RowOp
  patching_remove : Text → Text → RowOp
  relating : Text → Text → Text → Option Object → RowOp

-- Whether a text is UTF-8, and the texts of the operation.
abbrev pub IsUtf8 : Text → Type 0
IsUtf8 t = valid_from start t ≡ true

abbrev pub AreUtf8 : RowOp → Type 0
AreUtf8 (selecting t) = IsUtf8 t
AreUtf8 (deleting t) = IsUtf8 t
AreUtf8 (sending _ t _) = IsUtf8 t
AreUtf8 (inserting_relation t _) = IsUtf8 t
AreUtf8 (running t _) = IsUtf8 t
AreUtf8 (patching_add t p _) = IsUtf8 t × IsUtf8 p
AreUtf8 (patching_replace t p _) = IsUtf8 t × IsUtf8 p
AreUtf8 (patching_remove t p) = IsUtf8 t × IsUtf8 p
AreUtf8 (relating a r b _) = IsUtf8 a × (IsUtf8 r × IsUtf8 b)

-- A call whose argument is the value that the conversion gives.
abbrev with_it : {A B : Type 0} → Run A → (A → B) → Run B
with_it (ok a) k = ok (k a)
with_it (panic p) k = panic p
with_it fault k = fault

module _ {E : SdbTypes} (G : Engine E) where
  abbrev pub row_function : RowOp → CFn G.Db Array
  row_function (selecting t) = select G valid valid (some t)
  row_function (deleting t) = delete G valid valid (some t)
  row_function (sending op t o) = c_function G op valid valid (some t) (some o)
  row_function (inserting_relation t o) = insert_relation G valid valid (some t) (some o)
  row_function (running t a) = run G valid valid (some t) a
  row_function (patching_add t p v) = patch_add G valid valid (some t) (some p) (some v)
  row_function (patching_replace t p v) = patch_replace G valid valid (some t) (some p) (some v)
  row_function (patching_remove t p) = patch_remove G valid valid (some t) (some p)
  row_function (relating a r b o) = relate G valid valid (some a) (some r) (some b) o

  -- The arguments and the binding, converted.
  abbrev arguments : Option Array → Run (List (SdbValue E))
  arguments none = ok []
  arguments (some a) = array_to_sdb E a

  abbrev binding : Option Object → Run (Binding E)
  binding none = ok unbound
  binding (some o) = with_it (sdb_object_from E o) (bind_one (text "content"))

  -- The first answer of a query.
  abbrev first_of : Ended G.Response → Ended (SdbValue E)
  first_of (replied res) = (G.take 0 res).0
  first_of (refused e) = refused e
  first_of (panicked p) = panicked p

  abbrev first_answer : Text → Binding E → Reply G.Db (SdbValue E)
  first_answer q b d = let (r, d') = G.query q b d in (first_of r, d')

  -- The call of the client, once the arguments are converted.
  abbrev pub row_call : RowOp → Run (Reply G.Db (SdbValue E))
  row_call (selecting t) = ok (G.select (parse_resource E t))
  row_call (deleting t) = ok (G.delete (parse_resource E t))
  row_call (sending op t o) =
      with_it (sdb_object_from E o) (client_method G op (parse_resource E t))
  row_call (inserting_relation t o) =
      with_it (sdb_object_from E o) (G.insert_relation (resource_from t))
  row_call (running t a) = with_it (arguments a) (G.run t)
  row_call (patching_add t p v) =
      with_it (value_to_sdb E v) (λ c. G.update_patch (parse_resource E t) (patch_op_add p c))
  row_call (patching_replace t p v) =
      with_it (value_to_sdb E v) (λ c. G.update_patch (parse_resource E t) (patch_op_replace p c))
  row_call (patching_remove t p) = ok (G.update_patch (parse_resource E t) (patch_op_remove p))
  row_call (relating a r b o) = with_it (binding o) (first_answer (relate_query G a r b o))

  abbrev written : SdbValue E → CInt × Option Array
  written v = (rows_code (rows E v), some (rows E v))

  -- The end that the call decides; where the conversion of an argument does not end with a value,
  -- no call is made.
  abbrev pub row_outcome : Run (Reply G.Db (SdbValue E)) → Surreal G.Db → Exit Array × Surreal G.Db
  row_outcome (ok m) s = (outcome written (m s.db).0, after (m s.db).1 s)
  row_outcome (panic p) s = (returned sr_fatal (some (panic_message p)) none, after s.db s)
  row_outcome fault s = (crashed, after s.db s)

  module _ (s : Surreal G.Db) (h : s.ps ≡ false) where
    with_it_lem :
        {C : Type 0} (r : Run C) (k : C → Reply G.Db (SdbValue E))
        → with_surreal_async valid (lift r >>= λ c. asked written (k c)) s
          ≡ row_outcome (with_it r k) s
    unfolding settle
    with_it_lem (ok c) k = asked-Decides written (k c) s h
    with_it_lem (panic p) k =
        with_surreal_async-clear valid (lift (panic p) >>= λ c. asked written (k c)) s h
    with_it_lem fault k =
        with_surreal_async-clear valid (lift fault >>= λ c. asked written (k c)) s h

    -- A UTF-8 text is read, and then the rest is.
    read :
        {A : Type 0} (t : Text) (k : Text → Async G.Db A)
        → IsUtf8 t
        → (text_of G (some t) >>= k) s.db ≡ k t s.db
    read t k u = rw (text_of-valid G t s.db u)

    -- The three shapes of a body: read a text and go on, two texts, three texts.
    read_one :
        {C : Type 0} (t : Text) (r : Run C) (k : Text → C → Reply G.Db (SdbValue E))
        → IsUtf8 t
        → with_surreal_async valid
            (text_of G (some t) >>= λ x. lift r >>= λ c. asked written (k x c))
            s
          ≡ row_outcome (with_it r (k t)) s
    read_one t r k u =
        with_surreal_async-at _ _ s (read t (λ x. lift r >>= λ c. asked written (k x c)) u)
        ∙ with_it_lem r (k t)

    read_two :
        {C : Type 0} (t p : Text) (r : Run C) (k : Text → Text → C → Reply G.Db (SdbValue E))
        → IsUtf8 t × IsUtf8 p
        → with_surreal_async valid
            (text_of G (some t) >>= λ x.
              text_of G (some p) >>= λ y. lift r >>= λ c. asked written (k x y c))
            s
          ≡ row_outcome (with_it r (k t p)) s
    read_two t p r k u =
        with_surreal_async-at _ _ s
          (read t (λ x. text_of G (some p) >>= λ y. lift r >>= λ c. asked written (k x y c)) u.0)
        ∙ read_one p r (k t) u.1

    query_answer :
        (q : Text) (b : Binding E) (d : G.Db)
        → (await (G.query q b) >>= λ res. take_first G res >>= λ val. write_rows (rows E val)) d
          ≡ asked written (first_answer q b) d
    unfolding take_first write_rows
    query_answer q b d = go (G.query q b d).0 (G.query q b d).1
      where
        go :
            (r : Ended G.Response) (d' : G.Db)
            → continue (of_ended r) (λ res. take_first G res >>= λ val. write_rows (rows E val)) d'
              ≡ continue (of_ended (first_of r)) (λ a d. (done (written a), d)) d'
        go (replied res) d' = refl
        go (refused e) d' = refl
        go (panicked p) d' = refl

    -- The end of `sr_relate`, its texts being read.
    abbrev answered : Text → Option Object → Async G.Db (CInt × Option Array)
    answered q o = relate_binding G o >>= λ c.
        (await (G.query q c) >>= λ res. take_first G res >>= λ val. write_rows (rows E val))

    related :
        (q : Text) (o : Option Object)
        → answered q o s.db ≡ (lift (binding o) >>= λ c. asked written (first_answer q c)) s.db
    unfolding relate_binding object_at
    related q none = query_answer q unbound s.db
    related q (some o) = go (sdb_object_from E o)
      where
        go :
            (r : Run (SdbFields E))
            → ((lift r >>= λ c. pure (bind_one (text "content") c)) >>= λ c.
                  (await (G.query q c) >>= λ res.
                  take_first G res >>= λ val. write_rows (rows E val)))
                s.db
              ≡ (lift (with_it r (bind_one (text "content"))) >>= λ c.
                    asked written (first_answer q c))
                  s.db
        go (ok c) = query_answer q (bind_one (text "content") c) s.db
        go (panic p) = refl
        go fault = refl

    -- On a clear connection and with valid pointers and UTF-8 texts, each of `sr_select`, `sr_delete`,
    -- `sr_insert`, `sr_merge`, `sr_update`, `sr_upsert`, `sr_insert_relation`, `sr_run`, the three
    -- `sr_patch_*` and `sr_relate` converts its arguments, makes one call of the client with them, and
    -- ends as that call decides: a reply gives the number of rows and the rows, an error `SR_ERROR`
    -- with its text, a panic `SR_FATAL` with its message. If the conversion of an argument panics, the
    -- end is `SR_FATAL`, and if it reads a null string, that fault; in both cases no call is made.
    pub row_function_lem :
        (op : RowOp) → AreUtf8 op → row_function op s ≡ row_outcome (row_call op) s
    unfolding select delete insert merge update upsert insert_relation run patch_add patch_replace
        patch_remove check_null write_rows object_at value_at args_of relate
    row_function_lem (selecting t) u =
        read_one t (ok tt) (λ x (_ : Unit {0}). G.select (parse_resource E x)) u
    row_function_lem (deleting t) u =
        read_one t (ok tt) (λ x (_ : Unit {0}). G.delete (parse_resource E x)) u
    row_function_lem (sending inserting t o) u =
        read_one t (sdb_object_from E o) (λ x. G.insert_content (parse_resource E x)) u
    row_function_lem (sending merging t o) u =
        read_one t (sdb_object_from E o) (λ x. G.update_merge (parse_resource E x)) u
    row_function_lem (sending updating t o) u =
        read_one t (sdb_object_from E o) (λ x. G.update_content (parse_resource E x)) u
    row_function_lem (sending upserting t o) u =
        read_one t (sdb_object_from E o) (λ x. G.upsert_content (parse_resource E x)) u
    row_function_lem (inserting_relation t o) u =
        read_one t (sdb_object_from E o) (λ x. G.insert_relation (resource_from x)) u
    row_function_lem (running t none) u = read_one t (ok []) G.run u
    row_function_lem (running t (some a)) u = read_one t (array_to_sdb E a) G.run u
    row_function_lem (patching_add t p v) u =
        read_two t p (value_to_sdb E v)
          (λ x y c. G.update_patch (parse_resource E x) (patch_op_add y c)) u
    row_function_lem (patching_replace t p v) u =
        read_two t p (value_to_sdb E v)
          (λ x y c. G.update_patch (parse_resource E x) (patch_op_replace y c)) u
    row_function_lem (patching_remove t p) u =
        read_two t p (ok tt)
          (λ x y (_ : Unit {0}). G.update_patch (parse_resource E x) (patch_op_remove y)) u
    row_function_lem (relating a r b o) u =
        with_surreal_async-at _ _ s (
          read a
            (λ x. text_of G (some r) >>= λ y.
              text_of G (some b) >>= λ z. answered (relate_query G x y z o) o)
            u.0
          ∙ read r (λ y. text_of G (some b) >>= λ z. answered (relate_query G a y z o) o) u.1.0
          ∙ read b (λ z. answered (relate_query G a r z o) o) u.1.1
          ∙ related (relate_query G a r b o) o)
        ∙ with_it_lem (binding o) (first_answer (relate_query G a r b o))
