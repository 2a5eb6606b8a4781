-- ===== src/Client/Outcomes.antt =====
-- How a call of the client decides the end of the C function that makes it, on every branch.
pub mod Session
pub mod Tables
pub mod Others
use surrealdb_c.Prelude.{
  ◌≡◌, refl, ap, ap₂, ◌∙◌, Bool, true, false, Bool-cases, inl, inr, Option, none, some, Text,
  if◌then◌else◌,
}
use surrealdb_c.Prelude.Int.{CInt}
use surrealdb_c.Rust.Utf8.{valid_from, start, to_str}
use surrealdb_c.Sdb.{SdbTypes}
use surrealdb_c.Types.Strings.{to_string_t}
use surrealdb_c.Client.Engine.{
  Engine, Ended, replied, refused, panicked, Reply, Async, Step, done, failed, of_ended, text_of,
  ◌>>=◌, continue, await,
}
use surrealdb_c.Client.Records.Sends.{text_of-valid}
use surrealdb_c.Client.Guard.{
  valid, Exit, returned, aborted, sr_error, sr_fatal, panic_message, Surreal, CFn, settle,
  with_surreal_async, with_surreal_async-clear,
}

-- The end of the C function, `err_ptr` being valid: a reply gives the code and the result; an error
-- gives `SR_ERROR` and its text, a panic `SR_FATAL` and its message.
abbrev pub outcome : {A R : Type 0} → (A → CInt × Option R) → Ended A → Exit R
outcome f (replied a) = returned (f a).0 none (f a).1
outcome f (refused e) = returned sr_error (some (to_string_t e)) none
outcome f (panicked p) = returned sr_fatal (some (panic_message p)) none

-- The connection with the database that a call of the client leaves.
abbrev pub after : {Db : Type 0} → Db → Surreal Db → Surreal Db
after d s = record { db = d; ps = s.ps }

-- The C function ends as one call of the client decides.
abbrev pub Decides :
    {Db A R : Type 0} → (A → CInt × Option R) → Reply Db A → CFn Db R → Surreal Db → Type 0
Decides f m g s = g s ≡ (outcome f (m s.db).0, after (m s.db).1 s)

-- A body that awaits one call and returns at once.
abbrev pub asked :
    {Db A R : Type 0} → (A → CInt × Option R) → Reply Db A → Async Db (CInt × Option R)
asked f m = await m >>= λ a d. (done (f a), d)

module _ {Db A R : Type 0} (f : A → CInt × Option R) (m : Reply Db A) where
  settle-asked : (d : Db) → settle valid (asked f m d).0 ≡ outcome f (m d).0
  unfolding settle
  settle-asked d = go (m d).0 (m d).1
    where
      go :
          (r : Ended A) (d' : Db)
          → settle {R = R} valid (continue (of_ended r) (λ a d. (done (f a), d)) d').0 ≡ outcome f r
      go (replied a) d' = refl
      go (refused e) d' = refl
      go (panicked p) d' = refl

  asked-after : (d : Db) → (asked f m d).1 ≡ (m d).1
  asked-after d = go (m d).0 (m d).1
    where
      go :
          (r : Ended A) (d' : Db)
          → (continue {B = CInt × Option R} (of_ended r) (λ a d. (done (f a), d)) d').1 ≡ d'
      go (replied a) d' = refl
      go (refused e) d' = refl
      go (panicked p) d' = refl

  pub asked-Decides :
      (s : Surreal Db) → s.ps ≡ false → Decides f m (with_surreal_async valid (asked f m)) s
  asked-Decides s h =
      with_surreal_async-clear valid (asked f m) s h
      ∙ ap₂ (λ (x : Exit R) (d : Db). (x, after d s)) (settle-asked s.db) (asked-after s.db)

-- Only what the body does at the connection's database matters.
pub with_surreal_async-at :
    {Db R : Type 0} (m n : Async Db (CInt × Option R)) (s : Surreal Db)
    → m s.db ≡ n s.db
    → with_surreal_async valid m s ≡ with_surreal_async valid n s
unfolding with_surreal_async
with_surreal_async-at m n s e =
    ap (λ p. if s.ps then (aborted, s) else (settle valid p.0, record s { db = p.1 })) e

module _ {E : SdbTypes} (G : Engine E) {R : Type 0} (t : Text) where
  -- A text that is UTF-8 is handed on.
  pub text_of-first :
      (body : Text → Async G.Db (CInt × Option R)) (s : Surreal G.Db)
      → valid_from start t ≡ true
      → with_surreal_async valid (text_of G (some t) >>= body) s
        ≡ with_surreal_async valid (body t) s
  text_of-first body s h =
      with_surreal_async-at (text_of G (some t) >>= body) (body t) s (rw (text_of-valid G t s.db h))

  -- Any other is an error, before anything else happens.
  pub text_of-refused :
      (body : Text → Async G.Db (CInt × Option R)) (s : Surreal G.Db)
      → valid_from start t ≡ false
      → s.ps ≡ false
      → with_surreal_async valid (text_of G (some t) >>= body) s
        ≡ (returned sr_error (some (to_string_t (G.utf8_error t))) none, after s.db s)
  unfolding text_of to_str settle
  text_of-refused body s h k =
      with_surreal_async-clear valid (text_of G (some t) >>= body) s k ∙ rw (h, text_of)
