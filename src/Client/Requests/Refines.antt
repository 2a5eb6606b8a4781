-- ===== src/Client/Requests/Refines.antt =====
-- A sequence of calls and the requests that it stands for.
use surrealdb_c.Prelude.{◌≡◌, refl, ap, ◌∙◌, false, Option, none, some, List, [], ◌∷◌}
use surrealdb_c.Sdb.{SdbTypes}
use surrealdb_c.Client.Engine.{Engine}
use surrealdb_c.Client.Guard.{Surreal}
use surrealdb_c.Client.Calls.{Call, calls}
use surrealdb_c.Client.Requests.{Request, request_of, requests, perform_all}
use surrealdb_c.Client.Requests.Sent.Steps.{made}
use surrealdb_c.Client.Requests.Sent.{call-SendsOn}

module _ {E : SdbTypes} (G : Engine E) where
  first_request :
      (o : Option (Request E)) (rs : List (Request E)) (d : G.Db)
      → perform_all G rs (made G o d) ≡ perform_all G (elim o [ none ↦ rs | some r ↦ r ∷ rs ]) d
  unfolding perform_all
  first_request none rs d = refl
  first_request (some r) rs d = refl

  -- Any calls on a connection whose flag is clear leave the database as the requests that they stand
  -- for leave it, performed in their order: each call makes one request or none, which its arguments
  -- alone decide, and nothing else that it does changes the database. The flag stays clear.
  pub calls-perform_all :
      (cs : List Call) (s : Surreal G.Db)
      → s.ps ≡ false
      → (calls G cs s).1 ≡ record { db = perform_all G (requests E cs) s.db; ps = false }
  unfolding calls perform_all
  calls-perform_all [] s h = ap (λ b. record { db = s.db; ps = b }) h
  calls-perform_all (c ∷ cs) s h =
      ap (λ s'. (calls G cs s').1) ((call-SendsOn G c).sent_on s h)
      ∙ calls-perform_all cs (record { db = made G (request_of E c) s.db; ps = s.ps }) h
      ∙ ap (λ d. record { db = d; ps = false })
          (first_request (request_of E c) (requests E cs) s.db)
