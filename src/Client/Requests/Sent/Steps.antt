-- ===== src/Client/Requests/Sent/Steps.antt =====
-- What the steps of a body read, and the request that a body makes.
use surrealdb_c.Prelude.{◌≡◌, refl, ◌∙◌, Bool, true, false, Option, none, some, Text}
use surrealdb_c.Prelude.Int.{CInt}
use surrealdb_c.Rust.Run.{Run, ok, panic, fault}
use surrealdb_c.Sdb.{SdbTypes}
use surrealdb_c.Types.Strings.{StringT}
use surrealdb_c.Client.Engine.{
  Engine, Ended, replied, refused, panicked, Reply, Async, Step, done, failed, unwound, faulted,
  ◌>>=◌, continue, pure, await, lift, of_ended,
}
use surrealdb_c.Client.Guard.{
  OutPtr, null, valid, is_null_out, Surreal, CFn, check_null, with_surreal_async,
}
use surrealdb_c.Client.Calls.{erase}
use surrealdb_c.Client.Requests.{Request, perform}
use surrealdb_c.Client.Requests.Reading.{◌>>?◌, needs, converted}

-- A step that goes on with a value, and one that does not.
pub data Gives {A : Type 0} : Step A → Option A → Type 0 where
  given_value : (a : A) → Gives (done a) (some a)
  given_error : (e : StringT) → Gives (failed e) none
  given_panic : (p : Option Text) → Gives (unwound p) none
  given_fault : Gives faulted none

-- The action leaves the database alone and gives that value, if it gives any.
pub record Reads {Db A : Type 0} (m : Async Db A) (o : Option A) : Type 0 where
  pub still : (d : Db) → (m d).1 ≡ d
  pub gives : (d : Db) → Gives (m d).0 o

-- The action leaves the database alone.
pub record Still {Db A : Type 0} (m : Async Db A) : Type 0 where
  pub kept : (d : Db) → (m d).1 ≡ d

module _ {Db : Type 0} where
  pub Reads-pure : {A : Type 0} (a : A) → Reads {Db = Db} (pure a) (some a)
  Reads-pure a = record { still = λ d. refl; gives = λ d. given_value a }

  pub Reads-lift : {A : Type 0} (r : Run A) → Reads {Db = Db} (lift r) (converted r)
  Reads-lift (ok a) = record { still = λ d. refl; gives = λ d. given_value a }
  Reads-lift (panic p) = record { still = λ d. refl; gives = λ d. given_panic p }
  Reads-lift fault = record { still = λ d. refl; gives = λ d. given_fault }

  module _ {A B : Type 0} (m : Async Db A) (o : Option A) (k : A → Async Db B) where
    -- One step of the proofs below, for what holds of the rest.
    pub after_reading :
        (P : Step B × Db → Option A → Type 0) (d : Db)
        → Reads m o
        → ((a : A) → P (k a d) (some a))
        → ((e : StringT) → P (failed e, d) none)
        → ((p : Option Text) → P (unwound p, d) none)
        → P (faulted, d) none
        → P ((m >>= k) d) o
    after_reading P d r h he hp hf = rw (r.still d) (go (m d).0 o (r.gives d))
      where
        go : (x : Step A) (o : Option A) → Gives x o → P (continue x k d) o
        go x o (given_value a) = h a
        go x o (given_error e) = he e
        go x o (given_panic p) = hp p
        go x o given_fault = hf

    pub Reads-bind :
        (f : A → Option B) → Reads m o → ((a : A) → Reads (k a) (f a)) → Reads (m >>= k) (o >>? f)
    unfolding ◌>>?◌
    Reads-bind f r h = record {
      still =
          λ d. after_reading (λ x _. x.1 ≡ d) d r (λ a. (h a).still d) (λ e. refl) (λ p. refl) refl;
      gives = λ d.
          after_reading (λ x o. Gives x.0 (o >>? f)) d r (λ a. (h a).gives d) given_error
            given_panic given_fault;
    }

module _ {E : SdbTypes} (G : Engine E) where
  -- The database after a request, if there is one.
  abbrev pub made : Option (Request E) → G.Db → G.Db
  made none d = d
  made (some q) d = perform G q d

  -- The body makes that request, if it makes any.
  pub record Sends {A : Type 0} (m : Async G.Db A) (o : Option (Request E)) : Type 0 where
    pub sent : (d : G.Db) → (m d).1 ≡ made o d

  -- The function does, on a connection whose flag is clear.
  pub record SendsOn {R : Type 0} (f : CFn G.Db R) (o : Option (Request E)) : Type 0 where
    pub sent_on :
        (s : Surreal G.Db) → s.ps ≡ false → (f s).1 ≡ record { db = made o s.db; ps = s.ps }

module _ {E : SdbTypes} {G : Engine E} where
  -- An argument is read, and then the rest follows.
  pub Sends-bind :
      {A B : Type 0} (m : Async G.Db A) (o : Option A) (k : A → Async G.Db B)
      (f : A → Option (Request E))
      → Reads m o
      → ((a : A) → Sends G (k a) (f a))
      → Sends G (m >>= k) (o >>? f)
  unfolding ◌>>?◌
  Sends-bind m o k f r h = record {
    sent = λ d.
        after_reading m o k (λ x o. x.1 ≡ made G (o >>? f) d) d r (λ a. (h a).sent d) (λ e. refl)
          (λ p. refl) refl;
  }

  -- A request is made, and the rest leaves the database alone.
  pub Sends-await :
      {A B : Type 0} (m : Reply G.Db A) (k : A → Async G.Db B) (q : Request E)
      → ((d : G.Db) → (m d).1 ≡ perform G q d)
      → ((a : A) → Still (k a))
      → Sends G (await m >>= k) (some q)
  Sends-await {A = A} m k q e h = record { sent = λ d. go d (m d).0 ∙ e d }
    where
      go : (d : G.Db) (x : Ended A) → (continue (of_ended x) k (m d).1).1 ≡ (m d).1
      go d (replied a) = (h a).kept (m d).1
      go d (refused x) = refl
      go d (panicked p) = refl

  -- The body is bracketed to the left, as a helper leaves it.
  pub Sends-assoc :
      {A B C : Type 0} (m : Async G.Db A) (f : A → Async G.Db B) (k : B → Async G.Db C)
      (o : Option (Request E))
      → Sends G (m >>= λ a. f a >>= k) o
      → Sends G (m >>= f >>= k) o
  Sends-assoc {A = A} m f k o h = record { sent = λ d. go (m d).0 (m d).1 ∙ h.sent d }
    where
      go :
          (x : Step A) (d : G.Db)
          → (let (r, d') = continue x f d in continue r k d').1 ≡ (continue x (λ a. f a >>= k) d).1
      go (done a) d = refl
      go (failed e) d = refl
      go (unwound p) d = refl
      go faulted d = refl

  pub SendsOn-with_surreal_async :
      {R : Type 0} (e : OutPtr) (m : Async G.Db (CInt × Option R)) (o : Option (Request E))
      → Sends G m o
      → SendsOn G (with_surreal_async e m) o
  unfolding with_surreal_async
  SendsOn-with_surreal_async e m o h = record { sent_on = λ s k. rw (k, h.sent s.db) refl }

  pub SendsOn-erase :
      {R : Type 0} (f : CFn G.Db R) (o : Option (Request E)) → SendsOn G f o → SendsOn G (erase f) o
  SendsOn-erase f o h = record { sent_on = h.sent_on }

  -- A pointer that is null and an argument that cannot be read.
  pub SendsOn-check_null :
      {R : Type 0} (b : Bool) (e : OutPtr) (t : Text) (f : CFn G.Db R) (o : Option (Request E))
      → (b ≡ true → o ≡ none)
      → SendsOn G f o
      → SendsOn G (check_null b e t f) o
  unfolding check_null
  SendsOn-check_null false e t f o n h = record { sent_on = h.sent_on }
  SendsOn-check_null true e t f o n h = record { sent_on = λ s k. rw (n refl) refl }

  pub SendsOn-needs :
      {R : Type 0} (p e : OutPtr) (t : Text) (f : CFn G.Db R) (o : Option (Request E))
      → SendsOn G f o
      → SendsOn G (check_null (is_null_out p) e t f) (needs p o)
  unfolding check_null needs
  SendsOn-needs null e t f o h = record { sent_on = λ s k. refl }
  SendsOn-needs valid e t f o h = record { sent_on = h.sent_on }
