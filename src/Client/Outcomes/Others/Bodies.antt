-- ===== src/Client/Outcomes/Others/Bodies.antt =====
-- Bodies that read their arguments and then make one call of the client.
use surrealdb_c.Prelude.{
  ◌≡◌, refl, sym, ap, ap₂, subst, ◌∙◌, false, Option, none, some, [], ◌∷◌, Text, ◌⊎◌, inl, inr,
}
use surrealdb_c.Prelude.Int.{CInt, pos}
use surrealdb_c.Sdb.{SdbTypes}
use surrealdb_c.Types.Strings.{StringT, to_string_t}
use surrealdb_c.Types.Values.{Object}
use surrealdb_c.Client.Engine.{
  Engine, Ended, replied, refused, panicked, of_ended, Async, Reply, Login, Step, done, failed,
  unwound, faulted, continue, ◌>>=◌, ◌>>◌, await,
}
use surrealdb_c.Client.Guard.{
  valid, Exit, returned, crashed, sr_error, sr_fatal, panic_message, Surreal, settle,
  with_surreal_async, with_surreal_async-clear,
}
use surrealdb_c.Client.Auth.{
  TokenPtr, null_token, held_token, wild_token, Scope, root, namespace, database, record_scope,
  Names, provided, need_namespace, need_database, record_login, signin_token, signup_token,
  write_token,
}
use surrealdb_c.Client.Outcomes.{after, with_surreal_async-at}
use surrealdb_c.Client.Requests.Reading.{◌>>?◌, given, signin_at, signup_at, record_login_at}
use surrealdb_c.Client.Requests.Sent.Steps.{Reads, after_reading}
use surrealdb_c.Client.Requests.Sent.Arguments.{Reads-record_login}

-- The body does not end with a value.
abbrev pub Stops : {A : Type 0} → Step A → Type 0
Stops (done _) = ⊥
Stops (failed _) = Unit
Stops (unwound _) = Unit
Stops faulted = Unit

-- An error, a panic, or a read through null.
abbrev pub IsRefusal : {R : Type 0} → Exit R → Type 0
IsRefusal x =
    ((e : StringT) × (x ≡ returned sr_error (some e) none))
    ⊎ (((e : StringT) × (x ≡ returned sr_fatal (some e) none)) ⊎ (x ≡ crashed))

stopped : {R : Type 0} (r : Step (CInt × Option R)) → Stops r → IsRefusal (settle valid r)
unfolding settle
stopped (done _) h = elim h [ ]
stopped (failed e) h = inl (e, refl)
stopped (unwound p) h = inr (inl (panic_message p, refl))
stopped faulted h = inr (inr refl)

-- What the C function does with a reply: it writes and returns, or faults.
abbrev step_of : {X : Type 0} → Option X → Step X
step_of (some x) = done x
step_of none = faulted

abbrev exit_of : {R : Type 0} → Option (CInt × Option R) → Exit R
exit_of (some (code, r)) = returned code none r
exit_of none = crashed

-- The end of the C function, `err_ptr` being valid.
abbrev pub ended_as : {A R : Type 0} → (A → Option (CInt × Option R)) → Ended A → Exit R
ended_as f (replied a) = exit_of (f a)
ended_as f (refused e) = returned sr_error (some (to_string_t e)) none
ended_as f (panicked p) = returned sr_fatal (some (panic_message p)) none

-- A body that awaits one call and then does so.
abbrev asked_then :
    {Db A R : Type 0} → (A → Option (CInt × Option R)) → Reply Db A → Async Db (CInt × Option R)
asked_then f m = await m >>= λ a d. (step_of (f a), d)

settle-step_of : {R : Type 0} (x : Option (CInt × Option R)) → settle valid (step_of x) ≡ exit_of x
unfolding settle
settle-step_of (some (code, r)) = refl
settle-step_of none = refl

module _ {Db A R : Type 0} (f : A → Option (CInt × Option R)) (m : Reply Db A) where
  settle-asked_then :
      (d : Db)
      → (settle valid (asked_then f m d).0 ≡ ended_as f (m d).0) × ((asked_then f m d).1 ≡ (m d).1)
  unfolding settle
  settle-asked_then d = go (m d).0 (m d).1
    where
      go :
          (r : Ended A) (d' : Db)
          → (settle {R = R} valid (continue (of_ended r) (λ a d. (step_of (f a), d)) d').0
              ≡ ended_as f r)
            × ((continue {B = CInt × Option R} (of_ended r) (λ a d. (step_of (f a), d)) d').1 ≡ d')
      go (replied a) d' = (settle-step_of (f a), refl)
      go (refused e) d' = (refl, refl)
      go (panicked p) d' = (refl, refl)

  asked_then-ended_as :
      (s : Surreal Db)
      → s.ps ≡ false
      → with_surreal_async valid (asked_then f m) s ≡ (ended_as f (m s.db).0, after (m s.db).1 s)
  asked_then-ended_as s h =
      let (e, d) = settle-asked_then s.db in
      with_surreal_async-clear valid (asked_then f m) s h
      ∙ ap₂ (λ (x : Exit R) (d : Db). (x, after d s)) e d

module _ {Db A R : Type 0} (f : A → Option (CInt × Option R)) where
  -- The body's run is that of the call, if there is one, and otherwise stops and changes nothing.
  abbrev pub AskedAt : Step (CInt × Option R) × Db → Option (Reply Db A) → Db → Type 0
  AskedAt x (some m) d = x ≡ asked_then f m d
  AskedAt x none d = Stops x.0 × (x.1 ≡ d)

  pub record Asks (body : Async Db (CInt × Option R)) (o : Option (Reply Db A)) : Type 0 where
    pub asks : (d : Db) → AskedAt (body d) o d

  pub Asks-bind :
      {B : Type 0} (m : Async Db B) (o : Option B) (k : B → Async Db (CInt × Option R))
      (g : B → Option (Reply Db A))
      → Reads m o
      → ((b : B) → Asks (k b) (g b))
      → Asks (m >>= k) (o >>? g)
  unfolding ◌>>?◌
  Asks-bind m o k g r h = record {
    asks = λ d.
        after_reading m o k (λ x o. AskedAt x (o >>? g) d) d r (λ b. (h b).asks d) (λ e. (tt, refl))
          (λ p. (tt, refl)) (tt, refl);
  }

  -- How the function ends.
  abbrev pub Ends : Option (Reply Db A) → Exit R × Surreal Db → Surreal Db → Type 0
  Ends (some m) x s = x ≡ (ended_as f (m s.db).0, after (m s.db).1 s)
  Ends none x s = IsRefusal x.0 × (x.1 ≡ s)

  pub Asks-Ends :
      (body : Async Db (CInt × Option R)) (o : Option (Reply Db A)) (s : Surreal Db)
      → s.ps ≡ false
      → Asks body o
      → Ends o (with_surreal_async valid body s) s
  Asks-Ends body (some m) s h a =
      with_surreal_async-at body (asked_then f m) s (a.asks s.db) ∙ asked_then-ended_as f m s h
  Asks-Ends body none s h a =
      subst (λ x. IsRefusal x.0 × (x.1 ≡ s)) (sym (with_surreal_async-clear valid body s h))
        (
          stopped (body s.db).0 (a.asks s.db).0,
          ap (λ d. record { db = d; ps = s.ps }) (a.asks s.db).1,
        )

  Asks-assoc :
      {B C : Type 0} (m : Async Db B) (g : B → Async Db C) (k : C → Async Db (CInt × Option R))
      (o : Option (Reply Db A))
      → Asks (m >>= λ b. g b >>= k) o
      → Asks (m >>= g >>= k) o
  Asks-assoc {B = B} m g k o h = record {
    asks = λ d. subst (λ x. AskedAt x o d) (go (m d).0 (m d).1) (h.asks d);
  }
    where
      go :
          (x : Step B) (d : Db)
          → continue x (λ b. g b >>= k) d ≡ (let (r, d') = continue x g d in continue r k d')
      go (done b) d = refl
      go (failed e) d = refl
      go (unwound p) d = refl
      go faulted d = refl

-- What is reported for a token: the assignment drops the string that was at its place.
abbrev pub with_token : TokenPtr → Text → Option (CInt × Option StringT)
with_token null_token token = some (pos 0, none)
with_token held_token token = some (pos 0, some (to_string_t token))
with_token wild_token token = none

Asks-call :
    {E : SdbTypes} (G : Engine E) (p : TokenPtr) (m : Reply G.Db Text)
    → Asks (with_token p) (await m >>= write_token G p) (some m)
unfolding write_token
Asks-call G null_token m = record { asks = λ d. refl }
Asks-call G held_token m = record { asks = λ d. refl }
Asks-call G wild_token m = record { asks = λ d. refl }

module _ {E : SdbTypes} (G : Engine E) (token_ptr : TokenPtr) where
  Asks-given :
      {A : Type 0} (s message : Text) (m : Async G.Db A)
      (k : A → Async G.Db (CInt × Option StringT)) (l : Option (Login E))
      (f : Login E → Option (Reply G.Db Text))
      → Asks (with_token token_ptr) (m >>= k) (l >>? f)
      → Asks (with_token token_ptr) (provided G s message >> m >>= k) (given s l >>? f)
  unfolding provided ◌>>?◌
  Asks-given [] message m k l f h = record { asks = λ d. (tt, refl) }
  Asks-given (_ ∷ _) message m k l f h = record { asks = h.asks }

  pub Asks-signin_token :
      (scope : Scope) (params : Option Object) (n : Names)
      → Asks
          (with_token token_ptr)
          (signin_token G scope params n >>= write_token G token_ptr)
          (signin_at E scope params n >>? λ l. some (G.signin l))
  unfolding signin_token signin_at need_namespace need_database ◌>>?◌
  Asks-signin_token root params n = Asks-call G token_ptr _
  Asks-signin_token namespace params n = Asks-given n.ns _ _ _ (some _) _ (Asks-call G token_ptr _)
  Asks-signin_token database params n =
      Asks-given n.ns _ _ _ (given n.db_name (some _)) _
        (Asks-given n.db_name _ _ _ (some _) _ (Asks-call G token_ptr _))
  Asks-signin_token record_scope params n =
      Asks-assoc (with_token token_ptr) (record_login G params n) (λ l. await (G.signin l))
        (write_token G token_ptr) _
        (Asks-bind (with_token token_ptr) _ (record_login_at E params n) _ _
          (Reads-record_login G params n) λ l. Asks-call G token_ptr (G.signin l))

  pub Asks-signup_token :
      (scope : Scope) (params : Option Object) (n : Names)
      → Asks
          (with_token token_ptr)
          (signup_token G scope params n >>= write_token G token_ptr)
          (signup_at E scope params n >>? λ l. some (G.signup l))
  unfolding signup_token signup_at ◌>>?◌
  Asks-signup_token root params n = record { asks = λ d. (tt, refl) }
  Asks-signup_token namespace params n = record { asks = λ d. (tt, refl) }
  Asks-signup_token database params n = record { asks = λ d. (tt, refl) }
  Asks-signup_token record_scope params n =
      Asks-assoc (with_token token_ptr) (record_login G params n) (λ l. await (G.signup l))
        (write_token G token_ptr) _
        (Asks-bind (with_token token_ptr) _ (record_login_at E params n) _ _
          (Reads-record_login G params n) λ l. Asks-call G token_ptr (G.signup l))
