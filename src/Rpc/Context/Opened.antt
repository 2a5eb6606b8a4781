-- ===== src/Rpc/Context/Opened.antt =====
-- A context that `sr_surreal_rpc_new` gives out, and its stream of notifications.
use surrealdb_c.Prelude.{
  ℕ, ◌≡◌, refl, ap, subst, ◌∙◌, Bool, true, false, Option, none, some, [], ◌∷◌, text, ◌==◌,
  if◌then◌else◌,
}
use surrealdb_c.Prelude.Int.{CInt, pos}
use surrealdb_c.Rust.Utf8.{to_str}
use surrealdb_c.Sdb.{SdbTypes}
use surrealdb_c.Types.Strings.{StringT, to_string_t}
use surrealdb_c.Client.Engine.{
  Ended, replied, refused, panicked, Step, done, failed, unwound, faulted,
}
use surrealdb_c.Client.Guard.{OutPtr, null, valid, Exit, returned, check_null, settle}
use surrealdb_c.Rpc.Inner.{default_sessions}
use surrealdb_c.Rpc.Context.{
  Core, SurrealRpc, Options, timeout, configured, inner_of, opened, new_body, new, receiver_or,
  notifications,
}
use surrealdb_c.Rpc.Context.Answers.{with_async-clear}

-- What the code relies on: a datastore with notifications has a channel for them, and setting a
-- timeout keeps it.
pub record NotificationLaws {E : SdbTypes} (K : Core E) : Type 0 where
  pub has_channel :
      (k : K.Kvs) → (rx : K.Receiver) × (K.notifications_of (K.with_notifications k) ≡ some rx)
  pub query_keeps :
      (n : ℕ) (k : K.Kvs) → K.notifications_of (K.with_query_timeout n k) ≡ K.notifications_of k
  pub transaction_keeps :
      (n : ℕ) (k : K.Kvs)
      → K.notifications_of (K.with_transaction_timeout n k) ≡ K.notifications_of k

module _ {E : SdbTypes} (K : Core E) (laws : NotificationLaws K) where
  timeout-keeps :
      (set : ℕ → K.Kvs → K.Kvs) (n : ℕ) (k : K.Kvs)
      → ((k : K.Kvs) → K.notifications_of (set n k) ≡ K.notifications_of k)
      → K.notifications_of (timeout K set n k) ≡ K.notifications_of k
  unfolding timeout
  timeout-keeps set n k h = go (n == 0)
    where
      go : (b : Bool) → K.notifications_of (if b then k else set n k) ≡ K.notifications_of k
      go true = refl
      go false = h k

  configured-keeps :
      (o : Options) (k : K.Kvs)
      → K.notifications_of (configured K o k) ≡ K.notifications_of (K.with_notifications k)
  unfolding configured
  configured-keeps o k =
      timeout-keeps K.with_transaction_timeout o.transaction_timeout _
        (laws.transaction_keeps o.transaction_timeout)
      ∙ timeout-keeps K.with_query_timeout o.query_timeout _ (laws.query_keeps o.query_timeout)

  -- Clear, with one session that has live queries, and with a channel for notifications.
  abbrev pub IsFresh : SurrealRpc K → Type 0
  IsFresh ctx =
      (ctx.ps ≡ false)
      × (ctx.db.session_map ≡ (none, K.with_rt true K.session_default) ∷ [])
      × ((rx : K.Receiver) × (K.notifications_of ctx.db.kvs ≡ some rx))

  abbrev MayBeFresh : Step (CInt × Option (SurrealRpc K)) → Type 0
  MayBeFresh (done (_, some ctx)) = IsFresh ctx
  MayBeFresh _ = Unit

  opened-MayBeFresh : (o : Options) (r : Ended K.Kvs) → MayBeFresh (opened K o r)
  unfolding opened inner_of default_sessions
  opened-MayBeFresh o (replied k) =
      let (rx, e) = laws.has_channel k in (refl, refl, (rx, configured-keeps o k ∙ e))
  opened-MayBeFresh o (refused e) = tt
  opened-MayBeFresh o (panicked p) = tt

  new_body-MayBeFresh : (t : StringT) (o : Options) → MayBeFresh (new_body K t o)
  unfolding new_body
  new_body-MayBeFresh none o = tt
  new_body-MayBeFresh (some s) o = go (to_str s)
    where
      started :
          (b : Bool) (r : Ended K.Kvs) (m : StringT)
          → MayBeFresh (if b then opened K o r else failed m)
      started true r m = opened-MayBeFresh o r
      started false r m = tt

      go :
          (t : Option _)
          → MayBeFresh (elim t [
            | none ↦ failed (to_string_t (text "Invalid UTF-8"))
            | some endpoint ↦
                if K.runtime_new
                then opened K o (K.datastore_new endpoint)
                else failed (to_string_t (text "error creating runtime"))
          ])
      go none = tt
      go (some endpoint) = started K.runtime_new (K.datastore_new endpoint) _

  -- What a function wrote at its result pointer.
  abbrev written_by : Exit (SurrealRpc K) → Option (SurrealRpc K)
  written_by (returned _ _ r) = r
  written_by _ = none

  abbrev IsFreshIfAny : Option (SurrealRpc K) → Type 0
  IsFreshIfAny (some ctx) = IsFresh ctx
  IsFreshIfAny none = Unit

  settled-IsFreshIfAny :
      (e : OutPtr) (r : Step (CInt × Option (SurrealRpc K)))
      → MayBeFresh r
      → IsFreshIfAny (written_by (settle e r))
  unfolding settle
  settled-IsFreshIfAny e (done (code, some ctx)) h = h
  settled-IsFreshIfAny e (done (code, none)) h = tt
  settled-IsFreshIfAny null (failed x) h = tt
  settled-IsFreshIfAny valid (failed x) h = tt
  settled-IsFreshIfAny null (unwound p) h = tt
  settled-IsFreshIfAny valid (unwound p) h = tt
  settled-IsFreshIfAny e faulted h = tt

  -- The stream that `sr_surreal_rpc_notifications` gives.
  notifications-some :
      (e : OutPtr) (ctx : SurrealRpc K) (rx : K.Receiver)
      → ctx.ps ≡ false
      → K.notifications_of ctx.db.kvs ≡ some rx
      → notifications K e valid ctx ≡ (returned (pos 1) none (some rx), ctx)
  unfolding notifications check_null receiver_or settle
  notifications-some e ctx rx h k =
      with_async-clear e (λ inner. receiver_or K (K.notifications_of inner.kvs) inner) ctx h
      ∙ rw (k) refl

  -- A context that `sr_surreal_rpc_new` writes, whatever the endpoint and the timeouts, has a clear
  -- flag and exactly one session, which is the default one with live queries, under the key `None`;
  -- and `sr_surreal_rpc_notifications` with a valid pointer gives a stream on it, returns 1 and leaves
  -- the context as it was. A datastore with notifications has a channel for them, which setting a
  -- timeout keeps.
  pub notifications-new :
      (err_ptr e : OutPtr) (endpoint : StringT) (options : Options) (code : CInt)
      (m : Option StringT) (ctx : SurrealRpc K)
      → new K err_ptr endpoint options ≡ returned code m (some ctx)
      → (ctx.ps ≡ false)
        × (ctx.db.session_map ≡ (none, K.with_rt true K.session_default) ∷ [])
        × ((rx : K.Receiver) × (notifications K e valid ctx
              ≡ (returned (pos 1) none (some rx), ctx)))
  unfolding new
  notifications-new err_ptr e endpoint options code m ctx h =
      let fresh = subst IsFreshIfAny (ap written_by h) (
        settled-IsFreshIfAny err_ptr (new_body K endpoint options)
          (new_body-MayBeFresh endpoint options)) in
      let (rx, k) = fresh.2 in (fresh.0, fresh.1, (rx, notifications-some e ctx rx fresh.0 k))
