-- ===== src/Handles/Freed.antt =====
-- A handle that is freed is not used again.
use mathlib.Core.Option.{some-injective}
use surrealdb_c.Prelude.{
  ℕ, ◌<◌, ◌≡◌, ◌≢◌, refl, sym, ap, subst, ◌∙◌, Option, none, some, List, [], ◌∷◌, All, arith,
}
use surrealdb_c.Rust.Run.{ok, fault}
use surrealdb_c.Handles.{
  Contents, Boxed, Boxes, Pointer, null_handle, handle, Kind, surreal_kind, stream_kind, rpc_kind,
  rpc_stream_kind, leak_box, take_out, from_raw_box, deref, disconnect, kill_stream, rpc_free,
  rpc_stream_free, HandleOp, connects, selects_live, opens_rpc, opens_notifications, disconnects,
  kills_stream, frees_rpc, frees_rpc_stream, uses, step, steps, no_boxes,
}
use surrealdb_c.Handles.Changes.{
  OnOk, OnOk-bind, Removed, here, there, Change, kept, opened, closed, opens, closes, step-Change,
  take_out-Removed,
}

null-ne-handle : (a : ℕ) → some null_handle ≢ some (handle a)
null-ne-handle a e = cc e

module _ {C : Contents} where
  -- The pointer that a function is called with.
  abbrev pub pointer_of : HandleOp C → Option Pointer
  pointer_of (connects _) = none
  pointer_of (opens_rpc _) = none
  pointer_of (selects_live p _ _) = some p
  pointer_of (opens_notifications p _) = some p
  pointer_of (disconnects p) = some p
  pointer_of (kills_stream p) = some p
  pointer_of (frees_rpc p) = some p
  pointer_of (frees_rpc_stream p) = some p
  pointer_of (uses _ p) = some p

  -- The function that frees a handle.
  abbrev pub frees : Kind → Pointer → HandleOp C
  frees surreal_kind = disconnects
  frees stream_kind = kills_stream
  frees rpc_kind = frees_rpc
  frees rpc_stream_kind = frees_rpc_stream

  -- No box is at the address.
  abbrev Absent : ℕ → List (ℕ × Boxed C) → Type 0
  Absent a = All (λ b. b.0 ≢ a)

  -- The addresses of the boxes are below the next one, and no two are the same.
  abbrev AreApart : List (ℕ × Boxed C) → Type 0
  AreApart [] = Unit
  AreApart (b ∷ bs) = Absent b.0 bs × AreApart bs

  abbrev IsSound : Boxes C → Type 0
  IsSound h = All (λ b. b.0 < h.next) h.out × AreApart h.out

  -- The address was given out, and no box is there any more.
  abbrev IsGone : ℕ → Boxes C → Type 0
  IsGone a h = (a < h.next) × Absent a h.out

  All-Removed :
      (P : ℕ × Boxed C → Type 0) {a : ℕ} {bs cs : List (ℕ × Boxed C)}
      → Removed a bs cs
      → All P bs
      → All P cs
  All-Removed P (here x bs) h = h.1
  All-Removed P (there b r) h = (h.0, All-Removed P r h.1)

  AreApart-Removed :
      {a : ℕ} {bs cs : List (ℕ × Boxed C)} → Removed a bs cs → AreApart bs → AreApart cs
  AreApart-Removed (here x bs) h = h.1
  AreApart-Removed (there b r) h = (All-Removed _ r h.0, AreApart-Removed r h.1)

  All-map :
      (P Q : ℕ × Boxed C → Type 0) (bs : List (ℕ × Boxed C))
      → ((b : ℕ × Boxed C) → P b → Q b)
      → All P bs
      → All Q bs
  All-map P Q [] k h = tt
  All-map P Q (b ∷ bs) k h = (k b h.0, All-map P Q bs k h.1)

  Removed-ne : {a i : ℕ} {bs cs : List (ℕ × Boxed C)} → Removed a bs cs → Absent i bs → i ≢ a
  Removed-ne (here x bs) h e = h.0 (sym e)
  Removed-ne (there b r) h e = Removed-ne r h.1 e

  Removed-at :
      (P : ℕ → Type 0) {a : ℕ} {bs cs : List (ℕ × Boxed C)}
      → Removed a bs cs
      → All (λ b. P b.0) bs
      → P a
  Removed-at P (here x bs) h = h.0
  Removed-at P (there b r) h = Removed-at P r h.1

  -- What is taken out was there once.
  Absent-Removed :
      {a : ℕ} {bs cs : List (ℕ × Boxed C)} → Removed a bs cs → AreApart bs → Absent a cs
  Absent-Removed (here x bs) h = h.0
  Absent-Removed (there b r) h = (Removed-ne r h.0, Absent-Removed r h.1)

  Change-IsSound : {n m : ℕ} {h h' : Boxes C} → Change n m h h' → IsSound h → IsSound h'
  unfolding leak_box
  Change-IsSound (kept h) s = s
  Change-IsSound (opened x h) s = (
    (omega arith, All-map _ _ h.out (λ b e. omega arith) s.0),
    (All-map _ _ h.out (λ b e f. omega arith) s.0, s.1),
  )
  Change-IsSound (closed a n bs cs r) s = (All-Removed _ r s.0, AreApart-Removed r s.1)

  Change-IsGone : (a : ℕ) {n m : ℕ} {h h' : Boxes C} → Change n m h h' → IsGone a h → IsGone a h'
  unfolding leak_box
  Change-IsGone a (kept h) g = g
  Change-IsGone a (opened x h) g = (omega arith, ((λ e. omega arith), g.1))
  Change-IsGone a (closed b n bs cs r) g = (g.0, All-Removed _ r g.1)

  -- Nothing can be done at an address that is gone.
  take_out-Absent :
      (k : Kind) (a : ℕ) (bs : List (ℕ × Boxed C)) → Absent a bs → take_out k a bs ≡ fault
  unfolding take_out
  take_out-Absent k a [] h = refl
  take_out-Absent k a ((i, x) ∷ bs) h = rw (take_out-Absent k a bs h.1) (ground (arith, h.0))

  from_raw_box-Absent :
      (k : Kind) (a : ℕ) (h : Boxes C) → Absent a h.out → from_raw_box k (handle a) h ≡ fault
  unfolding from_raw_box
  from_raw_box-Absent k a h n = rw (take_out-Absent k a h.out n) refl

  from_raw_box-gone :
      (k : Kind) (p : Pointer) (a : ℕ) (h : Boxes C)
      → some p ≡ some (handle a)
      → Absent a h.out
      → from_raw_box k p h ≡ fault
  from_raw_box-gone k p a h e n =
      ap (λ q. from_raw_box k q h) (some-injective p (handle a) e) ∙ from_raw_box-Absent k a h n

  step-gone :
      (c : HandleOp C) (a : ℕ) (h : Boxes C)
      → pointer_of c ≡ some (handle a)
      → Absent a h.out
      → step c h ≡ fault
  unfolding step disconnect kill_stream rpc_free rpc_stream_free deref
  step-gone (connects s) a h e n = cc e
  step-gone (opens_rpc s) a h e n = cc e
  step-gone (selects_live p inner rt) a h e n = rw (from_raw_box-gone surreal_kind p a h e n) refl
  step-gone (opens_notifications p rx) a h e n = rw (from_raw_box-gone rpc_kind p a h e n) refl
  step-gone (disconnects p) a h e n = rw (from_raw_box-gone surreal_kind p a h e n) refl
  step-gone (kills_stream p) a h e n = rw (from_raw_box-gone stream_kind p a h e n) refl
  step-gone (frees_rpc null_handle) a h e n = absurd (null-ne-handle a e)
  step-gone (frees_rpc (handle b)) a h e n = rw (from_raw_box-gone rpc_kind (handle b) a h e n) refl
  step-gone (frees_rpc_stream null_handle) a h e n = absurd (null-ne-handle a e)
  step-gone (frees_rpc_stream (handle b)) a h e n =
      rw (from_raw_box-gone rpc_stream_kind (handle b) a h e n) refl
  step-gone (uses k p) a h e n = rw (from_raw_box-gone k p a h e n) refl

  steps-keep :
      (P : Boxes C → Type 0)
      → ((n m : ℕ) (h h' : Boxes C) → Change n m h h' → P h → P h')
      → (cs : List (HandleOp C)) (h : Boxes C) → P h
      → OnOk P (steps cs h)
  unfolding steps
  steps-keep P k [] h p = p
  steps-keep P k (c ∷ cs) h p =
      OnOk-bind (Change (opens c) (closes c) h) P (step c h) (steps cs) (step-Change c h)
        λ h' m. steps-keep P k cs h' (k _ _ h h' m p)

  taken-IsGone :
      (k : Kind) (a : ℕ) (h : Boxes C)
      → IsSound h
      → OnOk (λ r. IsGone a r.1) (from_raw_box k (handle a) h)
  unfolding from_raw_box
  taken-IsGone k a h s =
      OnOk-bind (λ r. Removed a h.out r.1) _ (take_out k a h.out) _ (take_out-Removed k a h.out)
        λ r m. (Removed-at (λ i. i < h.next) m s.0, Absent-Removed m s.1)

  freed-IsGone :
      (k : Kind) (a : ℕ) (h : Boxes C) → IsSound h → OnOk (IsGone a) (step (frees k (handle a)) h)
  unfolding step disconnect kill_stream rpc_free rpc_stream_free
  freed-IsGone surreal_kind a h s =
      OnOk-bind _ (IsGone a) (from_raw_box surreal_kind (handle a) h) _
        (taken-IsGone surreal_kind a h s) λ r g. g
  freed-IsGone stream_kind a h s =
      OnOk-bind _ (IsGone a) (from_raw_box stream_kind (handle a) h) _
        (taken-IsGone stream_kind a h s) λ r g. g
  freed-IsGone rpc_kind a h s =
      OnOk-bind _ (IsGone a) (from_raw_box rpc_kind (handle a) h) _ (taken-IsGone rpc_kind a h s)
        λ r g. g
  freed-IsGone rpc_stream_kind a h s =
      OnOk-bind _ (IsGone a) (from_raw_box rpc_stream_kind (handle a) h) _
        (taken-IsGone rpc_stream_kind a h s) λ r g. g

  -- From the start, if functions on handles go through, and then a handle is freed, and then more of
  -- them go through, any function that is then called with the handle, to use it or to free it again,
  -- accesses memory that is not there, whatever the functions between were.
  pub freed_for_good :
      (k : Kind) (a : ℕ) (cs ds : List (HandleOp C)) (c : HandleOp C) (h h' h'' : Boxes C)
      → steps cs no_boxes ≡ ok h
      → step (frees k (handle a)) h ≡ ok h'
      → steps ds h' ≡ ok h''
      → pointer_of c ≡ some (handle a)
      → step c h'' ≡ fault
  freed_for_good k a cs ds c h h' h'' e f g p =
      let sound =
        subst (OnOk IsSound) e
          (steps-keep IsSound (λ n m h h' ch. Change-IsSound ch) cs no_boxes (tt, tt)) in
      let gone = subst (OnOk (IsGone a)) f (freed-IsGone k a h sound) in
      let still =
        subst (OnOk (IsGone a)) g
          (steps-keep (IsGone a) (λ n m h h' ch. Change-IsGone a ch) ds h' gone) in
      step-gone c a h'' p still.1
