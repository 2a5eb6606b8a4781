-- ===== src/Handles/Changes.antt =====
-- How a function on handles changes the boxes, if it goes through.
use surrealdb_c.Prelude.{
  ℕ, ◌≡◌, refl, sym, subst, Bool, true, false, List, [], ◌∷◌, ◌==◌, ◌&&◌, arith, if◌then◌else◌,
}
use surrealdb_c.Rust.Run.{Run, ok, panic, fault, ◌>>=◌}
use surrealdb_c.Handles.{
  Contents, Boxed, Boxes, Pointer, null_handle, handle, Kind, surreal_kind, stream_kind, rpc_kind,
  rpc_stream_kind, same_kind, kind_of, leak_box, keep_first, take_out, from_raw_box, disconnect,
  kill_stream, rpc_free, rpc_stream_free, deref, HandleOp, connects, selects_live, opens_rpc,
  opens_notifications, disconnects, kills_stream, frees_rpc, frees_rpc_stream, uses, step,
}

-- It holds of the result, if there is one.
abbrev pub OnOk : {A : Type 0} → (A → Type 0) → Run A → Type 0
OnOk P (ok a) = P a
OnOk P (panic p) = Unit
OnOk P fault = Unit

pub OnOk-bind :
    {A B : Type 0} (P : A → Type 0) (Q : B → Type 0) (m : Run A) (f : A → Run B)
    → OnOk P m
    → ((a : A) → P a → OnOk Q (f a))
    → OnOk Q (m >>= f)
OnOk-bind P Q (ok a) f h k = k a h
OnOk-bind P Q (panic p) f h k = tt
OnOk-bind P Q fault f h k = tt

abbrev unless_null : Pointer → ℕ
unless_null null_handle = 0
unless_null (handle _) = 1

pub OnOk-map :
    {A : Type 0} (P Q : A → Type 0) (r : Run A) → OnOk P r → ((a : A) → P a → Q a) → OnOk Q r
OnOk-map P Q (ok a) h k = k a h
OnOk-map P Q (panic p) h k = tt
OnOk-map P Q fault h k = tt

pub OnOk-any : {A : Type 0} (r : Run A) → OnOk (λ _. Unit {0}) r
OnOk-any (ok a) = tt
OnOk-any (panic p) = tt
OnOk-any fault = tt

module _ {C : Contents} where
  -- One box at that address is taken out of the first list, and the second is left.
  pub data Removed (a : ℕ) : List (ℕ × Boxed C) → List (ℕ × Boxed C) → Type 0 where
    here : (x : Boxed C) (bs : List (ℕ × Boxed C)) → Removed a ((a, x) ∷ bs) bs
    there :
        (b : ℕ × Boxed C) {bs cs : List (ℕ × Boxed C)}
        → Removed a bs cs
        → Removed a (b ∷ bs) (b ∷ cs)

  -- How many boxes a function gives out and takes back, where it goes through.
  abbrev pub opens : HandleOp C → ℕ
  opens (connects _) = 1
  opens (selects_live _ _ _) = 1
  opens (opens_rpc _) = 1
  opens (opens_notifications _ _) = 1
  opens _ = 0

  abbrev pub closes : HandleOp C → ℕ
  closes (disconnects _) = 1
  closes (kills_stream _) = 1
  closes (frees_rpc p) = unless_null p
  closes (frees_rpc_stream p) = unless_null p
  closes _ = 0

  -- What becomes of the boxes: nothing, one more, or one less.
  pub data Change : ℕ → ℕ → Boxes C → Boxes C → Type 0 where
    kept : (h : Boxes C) → Change 0 0 h h
    opened : (x : Boxed C) (h : Boxes C) → Change 1 0 h (leak_box x h)
    closed :
        (a n : ℕ) (bs cs : List (ℕ × Boxed C))
        → Removed a bs cs
        → Change 0 1 (record { next = n; out = bs }) (record { next = n; out = cs })

  pub take_out-Removed :
      (k : Kind) (a : ℕ) (bs : List (ℕ × Boxed C)) → OnOk (λ r. Removed a bs r.1) (take_out k a bs)
  unfolding take_out
  take_out-Removed k a [] = tt
  take_out-Removed k a ((i, x) ∷ bs) =
      go (i == a && same_kind (kind_of x) k) (λ h. ground (arith, h)) (take_out k a bs)
        (take_out-Removed k a bs)
    where
      go :
          (b : Bool)
          → (b ≡ true → i ≡ a)
          → (r : Run (Boxed C × List (ℕ × Boxed C))) → OnOk (λ r. Removed a bs r.1) r
          → OnOk (λ r. Removed a ((i, x) ∷ bs) r.1) (if b then ok (x, bs) else keep_first (i, x) r)
      go true e r h = subst (λ j. Removed a ((j, x) ∷ bs) bs) (sym (e refl)) (here x bs)
      go false e (ok r) h = there (i, x) h
      go false e (panic p) h = tt
      go false e fault h = tt

  freed-Change :
      (k : Kind) (p : Pointer) (h : Boxes C) → OnOk (λ r. Change 0 1 h r.1) (from_raw_box k p h)
  unfolding from_raw_box
  freed-Change k null_handle h = tt
  freed-Change k (handle a) h =
      OnOk-bind (λ r. Removed a h.out r.1) (λ r. Change 0 1 h r.1) (take_out k a h.out) _
        (take_out-Removed k a h.out) λ r m. closed a h.next h.out r.1 m

  -- A function on a handle gives out and takes back the boxes that it is for, if it goes through.
  pub step-Change : (c : HandleOp C) (h : Boxes C) → OnOk (Change (opens c) (closes c) h) (step c h)
  unfolding step disconnect kill_stream rpc_free rpc_stream_free
  step-Change (connects s) h = opened _ h
  step-Change (opens_rpc s) h = opened _ h
  step-Change (selects_live p inner rt) h =
      OnOk-bind (λ _. Unit) _ (deref surreal_kind p h) _ (OnOk-any (deref surreal_kind p h))
        λ _ _. opened _ h
  step-Change (opens_notifications p rx) h =
      OnOk-bind (λ _. Unit) _ (deref rpc_kind p h) _ (OnOk-any (deref rpc_kind p h))
        λ _ _. opened _ h
  step-Change (uses k p) h =
      OnOk-bind (λ _. Unit) _ (deref k p h) _ (OnOk-any (deref k p h)) λ _ _. kept h
  step-Change (disconnects p) h =
      OnOk-bind (λ r. Change 0 1 h r.1) _ (from_raw_box surreal_kind p h) _
        (freed-Change surreal_kind p h) λ r m. m
  step-Change (kills_stream p) h =
      OnOk-bind (λ r. Change 0 1 h r.1) _ (from_raw_box stream_kind p h) _
        (freed-Change stream_kind p h) λ r m. m
  step-Change (frees_rpc null_handle) h = kept h
  step-Change (frees_rpc (handle a)) h =
      OnOk-bind (λ r. Change 0 1 h r.1) _ (from_raw_box rpc_kind (handle a) h) _
        (freed-Change rpc_kind (handle a) h) λ r m. m
  step-Change (frees_rpc_stream null_handle) h = kept h
  step-Change (frees_rpc_stream (handle a)) h =
      OnOk-bind (λ r. Change 0 1 h r.1) _ (from_raw_box rpc_stream_kind (handle a) h) _
        (freed-Change rpc_stream_kind (handle a) h) λ r m. m
