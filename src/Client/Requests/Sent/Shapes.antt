-- ===== src/Client/Requests/Sent/Shapes.antt =====
-- The shapes of the functions of a connection, and the request that each makes.
use surrealdb_c.Prelude.{◌≡◌, refl, true, Option, none, some, Text, text}
use surrealdb_c.Prelude.Int.{CInt, pos}
use surrealdb_c.Sdb.{SdbTypes, SdbValue, SdbFields}
use surrealdb_c.Types.Strings.{StringT, is_null}
use surrealdb_c.Types.Values.{Value, Object}
use surrealdb_c.Client.Engine.{Engine, Async, Reply, PatchOp, ◌>>=◌, pure, await, text_of}
use surrealdb_c.Client.Guard.{is_null_out, OutPtr, check_null, with_surreal_async}
use surrealdb_c.Client.Resource.{parse_resource}
use surrealdb_c.Client.Rows.{rows, write_rows, object_at, value_at}
use surrealdb_c.Client.Calls.{erase}
use surrealdb_c.Client.Requests.{Request, perform, ask_patch}
use surrealdb_c.Client.Requests.Reading.{◌>>?◌, needs, text_at, fields_at, sdb_value_at}
use surrealdb_c.Client.Requests.Sent.Steps.{
  Still, SendsOn, Sends-bind, Sends-await, SendsOn-with_surreal_async, SendsOn-check_null,
  SendsOn-erase, SendsOn-needs,
}
use surrealdb_c.Client.Requests.Sent.Arguments.{Reads-text_of, Reads-object_at, Reads-value_at}

-- A text that is null, and a value, cannot be read, wherever among the arguments they stand.
pub absent_text :
    {B : Type 0} (t : StringT) (f : Text → Option B) → is_null t ≡ true → text_at t >>? f ≡ none
unfolding text_at ◌>>?◌
absent_text none f h = refl
absent_text (some t) f h = cc

module _ {E : SdbTypes} {B : Type 0} where
  pub absent_object :
      (o : Option Object) (f : SdbFields E → Option B)
      → is_null o ≡ true
      → fields_at E o >>? f ≡ none
  unfolding fields_at ◌>>?◌
  absent_object none f h = refl
  absent_object (some o) f h = cc

  pub absent_value :
      (v : Option Value) (f : SdbValue E → Option B)
      → is_null v ≡ true
      → sdb_value_at E v >>? f ≡ none
  unfolding sdb_value_at ◌>>?◌
  absent_value none f h = refl
  absent_value (some v) f h = cc

pub absent_later :
    {A B : Type 0} (o : Option A) (f : A → Option B) → ((a : A) → f a ≡ none) → o >>? f ≡ none
unfolding ◌>>?◌
absent_later none f h = refl
absent_later (some a) f h = h a

module _ {E : SdbTypes} (G : Engine E) where
  -- Nothing is asked once a reply is turned into a result.
  pub Still-pure : {A : Type 0} (a : A) → Still {Db = G.Db} (pure a)
  Still-pure a = record { kept = λ d. refl }

  pub Still-rows : (v : SdbValue E) → Still {Db = G.Db} (write_rows (rows E v))
  unfolding write_rows
  Still-rows v = record { kept = λ d. refl }

  -- The shapes of a function: no argument; one text; a text and an object.
  pub asking :
      {A R : Type 0} (e : OutPtr) (m : Reply G.Db A) (k : A → Async G.Db (CInt × Option R))
      (q : Request E)
      → ((d : G.Db) → (m d).1 ≡ perform G q d)
      → ((a : A) → Still (k a))
      → SendsOn G (with_surreal_async e (await m >>= k)) (some q)
  asking e m k q h s = SendsOn-with_surreal_async e (await m >>= k) (some q) (Sends-await m k q h s)

  pub asking_text :
      {A R : Type 0} (e : OutPtr) (msg : Text) (t : StringT) (m : Text → Reply G.Db A)
      (k : A → Async G.Db (CInt × Option R)) (q : Text → Request E)
      → ((x : Text) (d : G.Db) → (m x d).1 ≡ perform G (q x) d)
      → ((a : A) → Still (k a))
      → SendsOn G
          (check_null
            (is_null t)
            e
            msg
            (with_surreal_async e (text_of G t >>= λ x. await (m x) >>= k)))
          (text_at t >>? λ x. some (q x))
  asking_text e msg t m k q h s = SendsOn-check_null (is_null t) e msg _ _ (absent_text t _) (
      SendsOn-with_surreal_async e _ _
        (Sends-bind _ _ _ _ (Reads-text_of G t) λ x. Sends-await (m x) k (q x) (h x) s))

  pub asking_object :
      (e : OutPtr) (msg : Text) (t : StringT) (o : Option Object)
      (m : Text → SdbFields E → Reply G.Db (SdbValue E)) (q : Text → SdbFields E → Request E)
      → ((x : Text) (c : SdbFields E) (d : G.Db) → (m x c d).1 ≡ perform G (q x c) d)
      → SendsOn G
          (check_null (is_null t) e msg (
            check_null (is_null o) e (text "content is null") (
              with_surreal_async e (
                text_of G t >>= λ x.
                object_at E o >>= λ c. await (m x c) >>= λ v. write_rows (rows E v)))))
          (text_at t >>? λ x. fields_at E o >>? λ c. some (q x c))
  asking_object e msg t o m q h = SendsOn-check_null (is_null t) e msg _ _ (absent_text t _) (
      SendsOn-check_null (is_null o) e (text "content is null") _ _
        (λ n. absent_later (text_at t) _ λ x. absent_object o _ n)
        (SendsOn-with_surreal_async e _ _ (
          Sends-bind _ _ _ _ (Reads-text_of G t) λ x.
            Sends-bind _ _ _ _ (Reads-object_at G o)
              λ c. Sends-await (m x c) _ (q x c) (h x c) Still-rows)))

  -- The functions on the session: nothing is looked at in a reply, and the code is 0.
  pub session_plain :
      {A : Type 0} (e : OutPtr) (m : Reply G.Db A) (q : Request E)
      → ((d : G.Db) → (m d).1 ≡ perform G q d)
      → SendsOn G
          (erase (with_surreal_async {R = Unit {0}} e (await m >>= λ _. pure (pos 0, none))))
          (some q)
  session_plain e m q h = SendsOn-erase _ _ (asking e m _ q h λ a. Still-pure _)

  pub session_text :
      {A : Type 0} (e : OutPtr) (msg : Text) (t : StringT) (m : Text → Reply G.Db A)
      (q : Text → Request E)
      → ((x : Text) (d : G.Db) → (m x d).1 ≡ perform G (q x) d)
      → SendsOn G
          (erase (
            check_null (is_null t) e msg (
              with_surreal_async {R = Unit {0}} e
                (text_of G t >>= λ x. await (m x) >>= λ _. pure (pos 0, none)))))
          (text_at t >>? λ x. some (q x))
  session_text e msg t m q h = SendsOn-erase _ _ (asking_text e msg t m _ q h λ a. Still-pure _)

  -- The functions with a place for rows.
  pub records_text :
      (p e : OutPtr) (msg : Text) (t : StringT) (m : Text → Reply G.Db (SdbValue E))
      (q : Text → Request E)
      → ((x : Text) (d : G.Db) → (m x d).1 ≡ perform G (q x) d)
      → SendsOn G
          (erase (
            check_null (is_null_out p) e (text "res_ptr is null") (
              check_null (is_null t) e msg (
                with_surreal_async e
                  (text_of G t >>= λ x. await (m x) >>= λ v. write_rows (rows E v))))))
          (needs p (text_at t >>? λ x. some (q x)))
  records_text p e msg t m q h =
      SendsOn-erase _ _ (SendsOn-needs p e _ _ _ (asking_text e msg t m _ q h Still-rows))

  pub records_object :
      (p e : OutPtr) (msg : Text) (t : StringT) (o : Option Object)
      (m : Text → SdbFields E → Reply G.Db (SdbValue E)) (q : Text → SdbFields E → Request E)
      → ((x : Text) (c : SdbFields E) (d : G.Db) → (m x c d).1 ≡ perform G (q x c) d)
      → SendsOn G
          (erase (
            check_null (is_null_out p) e (text "res_ptr is null") (
              check_null (is_null t) e msg (
                check_null (is_null o) e (text "content is null") (
                  with_surreal_async e (
                    text_of G t >>= λ x.
                    object_at E o >>= λ c. await (m x c) >>= λ v. write_rows (rows E v)))))))
          (needs p (text_at t >>? λ x. fields_at E o >>? λ c. some (q x c)))
  records_object p e msg t o m q h =
      SendsOn-erase _ _ (SendsOn-needs p e _ _ _ (asking_object e msg t o m q h))

  -- A resource, a path, and a value at the path.
  pub asking_patch :
      (e : OutPtr) (r t : StringT) (v : Option Value) (p : Text → SdbValue E → PatchOp E)
      → SendsOn G
          (check_null (is_null r) e (text "resource is null") (
            check_null (is_null t) e (text "path is null") (
              check_null (is_null v) e (text "value is null") (
                with_surreal_async e (
                  text_of G r >>= λ x. text_of G t >>= λ y. value_at E v >>= λ c.
                  await (G.update_patch (parse_resource E x) (p y c)) >>= λ val.
                  write_rows (rows E val))))))
          (text_at r >>? λ x. text_at t >>? λ y.
            sdb_value_at E v >>? λ c. some (ask_patch (parse_resource E x) (p y c)))
  unfolding perform
  asking_patch e r t v p = SendsOn-check_null (is_null r) e _ _ _ (absent_text r _) (
      SendsOn-check_null (is_null t) e _ _ _
        (λ n. absent_later (text_at r) _ λ x. absent_text t _ n)
        (SendsOn-check_null (is_null v) e _ _ _
          (λ n. absent_later (text_at r) _ λ x. absent_later (text_at t) _ λ y. absent_value v _ n)
          (SendsOn-with_surreal_async e _ _ (
            Sends-bind _ _ _ _ (Reads-text_of G r) λ x. Sends-bind _ _ _ _ (Reads-text_of G t) λ y.
              Sends-bind _ _ _ _ (Reads-value_at G v) λ c.
                Sends-await (G.update_patch (parse_resource E x) (p y c)) _ _ (λ d. refl)
                  Still-rows))))
