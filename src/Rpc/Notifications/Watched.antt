-- ===== src/Rpc/Notifications/Watched.antt =====
-- A stream of src/types/stream.rs that is read with `sr_stream_next` again and again.
use surrealdb_c.Prelude.{
  ℕ, zero, suc, ◌+◌, ◌≡◌, refl, ap, ap₂, ◌∙◌, arith, none, some, List, [], ◌∷◌, ◌++◌, map, length,
}
use surrealdb_c.Prelude.Int.{pos}
use surrealdb_c.Sdb.{SdbTypes}
use surrealdb_c.Client.Guard.{OutPtr, valid, Exit, returned, sr_error, sr_none}
use surrealdb_c.Rpc.Notifications.{
  SdbNotification, Notification, Next, arrived, broken, ended, notification_from_sdb, stream_next,
}

module _ (E : SdbTypes) {Ls : Type 0} (next : Ls → Next (SdbNotification E) × Ls) where
  -- One call, on the client's stream; `next` is what waiting for its next item gives.
  unfoldable pub watch : OutPtr → Ls → Exit Notification × Ls
  watch out inner = let (received, inner') = next inner in (stream_next E out received, inner')

  -- What so many calls return.
  abbrev pub watches : ℕ → Ls → List (Exit Notification)
  watches zero s = []
  watches (suc n) s = let (x, t) = watch valid s in x ∷ watches n t

  -- The stream gives these items, and has then ended for good.
  abbrev pub Streams : List (Next (SdbNotification E)) → Ls → Type 0
  Streams [] s = next s ≡ (ended, s)
  Streams (i ∷ is) s = ((next s).0 ≡ i) × Streams is (next s).1

  -- The end of a call for an item: the notification, an error, or the end of the stream.
  abbrev pub given_for : Next (SdbNotification E) → Exit Notification
  given_for (arrived n) = returned (pos 1) none (some (notification_from_sdb E n))
  given_for broken = returned sr_error none none
  given_for ended = returned sr_none none none

  abbrev pub over : ℕ → List (Exit Notification)
  over zero = []
  over (suc n) = returned sr_none none none ∷ over n

  stream_next-given_for : (i : Next (SdbNotification E)) → stream_next E valid i ≡ given_for i
  unfolding stream_next
  stream_next-given_for (arrived n) = refl
  stream_next-given_for broken = refl
  stream_next-given_for ended = refl

  watch-given_for :
      (s : Ls) (i : Next (SdbNotification E)) → (next s).0 ≡ i → (watch valid s).0 ≡ given_for i
  unfolding watch
  watch-given_for s i h = ap (λ x. stream_next E valid x) h ∙ stream_next-given_for i

  watches-over : (k : ℕ) (s : Ls) → next s ≡ (ended, s) → watches k s ≡ over k
  unfolding watch stream_next
  watches-over zero s h = refl
  watches-over (suc k) s h = rw h (ap (λ l. returned sr_none none none ∷ l) (watches-over k s h))

  zero_plus : (k : ℕ) → 0 + k ≡ k
  zero_plus k = omega arith

  suc_plus : (n k : ℕ) → suc n + k ≡ suc (n + k)
  suc_plus n k = omega arith

  -- A live stream that gives some items, notifications and errors in any order, and has then ended
  -- for good: reading it with `sr_stream_next` and a valid pointer writes the notifications, converted,
  -- each with code 1, and returns `SR_ERROR` at each error, none missing and in order, and from then on
  -- `SR_NONE` at every call.
  pub watches-Streams :
      (is : List (Next (SdbNotification E))) (k : ℕ) (s : Ls)
      → Streams is s
      → watches (length is + k) s ≡ map given_for is ++ over k
  unfolding watch
  watches-Streams [] k s h = ap (λ n. watches n s) (zero_plus k) ∙ watches-over k s h
  watches-Streams (i ∷ is) k s h =
      ap (λ n. watches n s) (suc_plus (length is) k)
      ∙ ap₂ (λ x l. x ∷ l) (watch-given_for s i h.0) (watches-Streams is k (next s).1 h.1)
