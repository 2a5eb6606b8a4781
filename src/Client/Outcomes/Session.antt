-- ===== src/Client/Outcomes/Session.antt =====
-- The operations on the session: one call of the client each, and 0 if it replies.
use surrealdb_c.Prelude.{◌≡◌, refl, ap, ◌∙◌, Bool, true, false, none, some, [], Text, text}
use surrealdb_c.Prelude.Int.{pos}
use surrealdb_c.Rust.Utf8.{valid_from, start}
use surrealdb_c.Sdb.{SdbTypes}
use surrealdb_c.Types.Strings.{to_string_t}
use surrealdb_c.Client.Engine.{
  Engine, Ended, replied, refused, panicked, Reply, unbound, ◌>>=◌, text_of,
}
use surrealdb_c.Client.Guard.{
  valid, Exit, returned, sr_error, Surreal, CFn, check_null, with_surreal_async,
}
use surrealdb_c.Client.Outcomes.{
  outcome, after, asked, asked-Decides, text_of-first, text_of-refused,
}
use surrealdb_c.Client.Session.{
  authenticate, begin, cancel, commit, export, health, import, invalidate, kill, kill_query, unset,
  use_db, use_ns,
}

-- The operations without a text, and those with one.
pub data SessionOp : Type 0 where
  beginning cancelling committing checking invalidating : SessionOp
  authenticating exporting importing killing unsetting using_db using_ns : Text → SessionOp

-- Whether the text of the operation, if it has one, is UTF-8, and that text.
abbrev pub is_readable : SessionOp → Bool
is_readable (authenticating t) = valid_from start t
is_readable (exporting t) = valid_from start t
is_readable (importing t) = valid_from start t
is_readable (killing t) = valid_from start t
is_readable (unsetting t) = valid_from start t
is_readable (using_db t) = valid_from start t
is_readable (using_ns t) = valid_from start t
is_readable _ = true

abbrev pub text_in : SessionOp → Text
text_in (authenticating t) = t
text_in (exporting t) = t
text_in (importing t) = t
text_in (killing t) = t
text_in (unsetting t) = t
text_in (using_db t) = t
text_in (using_ns t) = t
text_in _ = []

-- The answer to a query, which is not looked at.
abbrev ignore : {A : Type 0} → Ended A → Ended (Unit {0})
ignore (replied _) = replied tt
ignore (refused e) = refused e
ignore (panicked p) = panicked p

module _ {E : SdbTypes} (G : Engine E) where
  abbrev asks_query : Text → Reply G.Db (Unit {0})
  asks_query q d = let (r, d') = G.query q unbound d in (ignore r, d')

  -- The C function with a valid `err_ptr`, and the call of the client that it stands for.
  abbrev pub session_function : SessionOp → CFn G.Db (Unit {0})
  session_function beginning = begin G valid
  session_function cancelling = cancel G valid
  session_function committing = commit G valid
  session_function checking = health G valid
  session_function invalidating = invalidate G valid
  session_function (authenticating t) = authenticate G valid (some t)
  session_function (exporting t) = export G valid (some t)
  session_function (importing t) = import G valid (some t)
  session_function (killing t) = kill G valid (some t)
  session_function (unsetting t) = unset G valid (some t)
  session_function (using_db t) = use_db G valid (some t)
  session_function (using_ns t) = use_ns G valid (some t)

  abbrev pub session_call : SessionOp → Reply G.Db (Unit {0})
  session_call beginning = asks_query (text "BEGIN TRANSACTION")
  session_call cancelling = asks_query (text "CANCEL TRANSACTION")
  session_call committing = asks_query (text "COMMIT TRANSACTION")
  session_call checking = G.health
  session_call invalidating = G.invalidate
  session_call (authenticating t) = G.authenticate t
  session_call (exporting t) = G.export_to t
  session_call (importing t) = G.import_from t
  session_call (killing t) = asks_query (kill_query G t)
  session_call (unsetting t) = G.unset t
  session_call (using_db t) = G.use_db t
  session_call (using_ns t) = G.use_ns t

  -- The end where the text is readable, and where it is not.
  abbrev pub Ends :
      Bool → Text → Reply G.Db (Unit {0}) → Exit (Unit {0}) × Surreal G.Db → Surreal G.Db → Type 0
  Ends true t m x s = x ≡ (outcome (λ _. (pos 0, none)) (m s.db).0, after (m s.db).1 s)
  Ends false t m x s =
      x ≡ (returned sr_error (some (to_string_t (G.utf8_error t))) none, after s.db s)

  queried_ends :
      (q : Text) (s : Surreal G.Db)
      → s.ps ≡ false
      → with_surreal_async {R = Unit {0}} valid (asked (λ _. (pos 0, none)) (G.query q unbound)) s
        ≡ (outcome (λ _. (pos 0, none)) (asks_query q s.db).0, after (asks_query q s.db).1 s)
  queried_ends q s h =
      asked-Decides (λ _. (pos 0, none)) (G.query q unbound) s h
      ∙ ap (λ (x : Exit (Unit {0})). (x, after (G.query q unbound s.db).1 s))
          (ignored (G.query q unbound s.db).0)
    where
      ignored :
          (r : Ended G.Response)
          → outcome {R = Unit {0}} (λ _. (pos 0, none)) r ≡ outcome (λ _. (pos 0, none)) (ignore r)
      ignored (replied a) = refl
      ignored (refused e) = refl
      ignored (panicked p) = refl

  module _ (t : Text) (s : Surreal G.Db) (h : s.ps ≡ false) where
    text-Ends :
        (m : Text → Reply G.Db (Unit {0})) (b : Bool)
        → valid_from start t ≡ b
        → Ends b t
            (m t)
            (with_surreal_async {R = Unit {0}} valid
              (text_of G (some t) >>= λ x. asked (λ _. (pos 0, none)) (m x))
              s)
            s
    text-Ends m true e =
        text_of-first G t (λ x. asked (λ _. (pos 0, none)) (m x)) s e
        ∙ asked-Decides (λ _. (pos 0, none)) (m t) s h
    text-Ends m false e = text_of-refused G t (λ x. asked (λ _. (pos 0, none)) (m x)) s e h

    killed-Ends :
        (b : Bool)
        → valid_from start t ≡ b
        → Ends b t
            (asks_query (kill_query G t))
            (with_surreal_async {R = Unit {0}} valid
              (text_of G (some t) >>= λ x.
                asked (λ _. (pos 0, none)) (G.query (kill_query G x) unbound))
              s)
            s
    killed-Ends true e =
        text_of-first G t (λ x. asked (λ _. (pos 0, none)) (G.query (kill_query G x) unbound)) s e
        ∙ queried_ends (kill_query G t) s h
    killed-Ends false e =
        text_of-refused G t (λ x. asked (λ _. (pos 0, none)) (G.query (kill_query G x) unbound)) s e
          h

  -- On a clear connection with a valid `err_ptr`, each operation on the session makes one call of the
  -- client, with its text as it is, and ends as that call decides: 0 for a reply, `SR_ERROR` with its
  -- text for an error, `SR_FATAL` with its message for a panic. A text that is not UTF-8 is
  -- `SR_ERROR`, and no call is made.
  pub session_function-Ends :
      (op : SessionOp) (s : Surreal G.Db)
      → s.ps ≡ false
      → Ends (is_readable op) (text_in op) (session_call op) (session_function op s) s
  unfolding authenticate begin cancel commit export health import invalidate kill unset use_db
      use_ns check_null
  session_function-Ends beginning s h = queried_ends (text "BEGIN TRANSACTION") s h
  session_function-Ends cancelling s h = queried_ends (text "CANCEL TRANSACTION") s h
  session_function-Ends committing s h = queried_ends (text "COMMIT TRANSACTION") s h
  session_function-Ends checking s h = asked-Decides (λ _. (pos 0, none)) G.health s h
  session_function-Ends invalidating s h = asked-Decides (λ _. (pos 0, none)) G.invalidate s h
  session_function-Ends (authenticating t) s h =
      text-Ends t s h G.authenticate (valid_from start t) refl
  session_function-Ends (exporting t) s h = text-Ends t s h G.export_to (valid_from start t) refl
  session_function-Ends (importing t) s h = text-Ends t s h G.import_from (valid_from start t) refl
  session_function-Ends (killing t) s h = killed-Ends t s h (valid_from start t) refl
  session_function-Ends (unsetting t) s h = text-Ends t s h G.unset (valid_from start t) refl
  session_function-Ends (using_db t) s h = text-Ends t s h G.use_db (valid_from start t) refl
  session_function-Ends (using_ns t) s h = text-Ends t s h G.use_ns (valid_from start t) refl
