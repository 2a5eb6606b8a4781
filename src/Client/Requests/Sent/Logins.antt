-- ===== src/Client/Requests/Sent/Logins.antt =====
-- The requests of `sr_signin` and `sr_signup`.
use surrealdb_c.Prelude.{refl, Option, some, [], ◌∷◌, Text}
use surrealdb_c.Sdb.{SdbTypes}
use surrealdb_c.Types.Values.{Object}
use surrealdb_c.Client.Engine.{Engine, Login, Async, ◌>>=◌, ◌>>◌, await}
use surrealdb_c.Client.Auth.{
  TokenPtr, null_token, held_token, wild_token, Scope, root, namespace, database, record_scope,
  Names, provided, need_namespace, need_database, record_login, signin_token, signup_token,
  write_token,
}
use surrealdb_c.Client.Requests.{Request, ask_signin, ask_signup, perform}
use surrealdb_c.Client.Requests.Reading.{◌>>?◌, given, signin_at, signup_at}
use surrealdb_c.Client.Requests.Sent.Steps.{Sends, Still, Sends-bind, Sends-await, Sends-assoc}
use surrealdb_c.Client.Requests.Sent.Arguments.{Reads-record_login}

Still-write_token :
    {E : SdbTypes} (G : Engine E) (p : TokenPtr) (t : Text) → Still (write_token G p t)
unfolding write_token
Still-write_token G null_token t = record { kept = λ d. refl }
Still-write_token G held_token t = record { kept = λ d. refl }
Still-write_token G wild_token t = record { kept = λ d. refl }

module _ {E : SdbTypes} (G : Engine E) (token_ptr : TokenPtr) where
  Sends-signin_request :
      (l : Login E) → Sends G (await (G.signin l) >>= write_token G token_ptr) (some (ask_signin l))
  unfolding perform
  Sends-signin_request l = Sends-await (G.signin l) _ _ (λ d. refl) (Still-write_token G token_ptr)

  Sends-signup_request :
      (l : Login E) → Sends G (await (G.signup l) >>= write_token G token_ptr) (some (ask_signup l))
  unfolding perform
  Sends-signup_request l = Sends-await (G.signup l) _ _ (λ d. refl) (Still-write_token G token_ptr)

  Sends-given :
      {A B : Type 0} (s message : Text) (m : Async G.Db A) (k : A → Async G.Db B)
      (l : Option (Login E)) (f : Login E → Option (Request E))
      → Sends G (m >>= k) (l >>? f)
      → Sends G (provided G s message >> m >>= k) (given s l >>? f)
  unfolding provided ◌>>?◌
  Sends-given [] message m k l f h = record { sent = λ d. refl }
  Sends-given (_ ∷ _) message m k l f h = record { sent = h.sent }

  pub Sends-signin_token :
      (scope : Scope) (params : Option Object) (n : Names)
      → Sends G
          (signin_token G scope params n >>= write_token G token_ptr)
          (signin_at E scope params n >>? λ l. some (ask_signin l))
  unfolding signin_token signin_at need_namespace need_database ◌>>?◌
  Sends-signin_token root params n = Sends-signin_request _
  Sends-signin_token namespace params n = Sends-given n.ns _ _ _ (some _) _ (Sends-signin_request _)
  Sends-signin_token database params n =
      Sends-given n.ns _ _ _ (given n.db_name (some _)) _
        (Sends-given n.db_name _ _ _ (some _) _ (Sends-signin_request _))
  Sends-signin_token record_scope params n =
      Sends-assoc (record_login G params n) (λ l. await (G.signin l)) (write_token G token_ptr) _
        (Sends-bind _ _ _ _ (Reads-record_login G params n) Sends-signin_request)

  pub Sends-signup_token :
      (scope : Scope) (params : Option Object) (n : Names)
      → Sends G
          (signup_token G scope params n >>= write_token G token_ptr)
          (signup_at E scope params n >>? λ l. some (ask_signup l))
  unfolding signup_token signup_at ◌>>?◌
  Sends-signup_token root params n = record { sent = λ d. refl }
  Sends-signup_token namespace params n = record { sent = λ d. refl }
  Sends-signup_token database params n = record { sent = λ d. refl }
  Sends-signup_token record_scope params n =
      Sends-assoc (record_login G params n) (λ l. await (G.signup l)) (write_token G token_ptr) _
        (Sends-bind _ _ _ _ (Reads-record_login G params n) Sends-signup_request)
