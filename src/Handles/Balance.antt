-- ===== src/Handles/Balance.antt =====
-- How many handles are out after a run of functions.
use surrealdb_c.Prelude.{ℕ, suc, ◌+◌, ◌≡◌, refl, ap, subst, List, [], ◌∷◌, length, arith}
use surrealdb_c.Rust.Run.{ok}
use surrealdb_c.Handles.{Contents, Boxed, Boxes, HandleOp, leak_box, step, steps}
use surrealdb_c.Handles.Changes.{
  OnOk, OnOk-bind, OnOk-map, Removed, here, there, Change, kept, opened, closed, opens, closes,
  step-Change,
}

module _ {C : Contents} where
  abbrev pub all_opens : List (HandleOp C) → ℕ
  all_opens [] = 0
  all_opens (c ∷ cs) = opens c + all_opens cs

  abbrev pub all_closes : List (HandleOp C) → ℕ
  all_closes [] = 0
  all_closes (c ∷ cs) = closes c + all_closes cs

  Removed-length :
      {a : ℕ} {bs cs : List (ℕ × Boxed C)} → Removed a bs cs → length bs ≡ suc (length cs)
  Removed-length (here x bs) = refl
  Removed-length (there b r) = ap suc (Removed-length r)

  Change-length :
      {n m : ℕ} {h h' : Boxes C} → Change n m h h' → length h'.out + m ≡ length h.out + n
  unfolding leak_box
  Change-length (kept h) = refl
  Change-length (opened x h) = omega arith
  Change-length (closed a n bs cs r) = omega (arith, Removed-length r)

  steps-balance :
      (cs : List (HandleOp C)) (h : Boxes C)
      → OnOk (λ h'. length h'.out + all_closes cs ≡ length h.out + all_opens cs) (steps cs h)
  unfolding steps
  steps-balance [] h = refl
  steps-balance (c ∷ cs) h =
      OnOk-bind (Change (opens c) (closes c) h) _ (step c h) (steps cs) (step-Change c h) λ h' m.
        OnOk-map _ _ (steps cs h') (steps-balance cs h') λ h'' e. omega (arith, Change-length m)

  -- After any run of functions on handles that goes through, the number of handles that are out is the
  -- number out before, and those that `sr_connect`, `sr_select_live`, `sr_surreal_rpc_new` and
  -- `sr_surreal_rpc_notifications` gave out, less the calls of the four functions that free one, those
  -- not counted that free nothing because their pointer is null.
  pub steps-out :
      (cs : List (HandleOp C)) (h h' : Boxes C)
      → steps cs h ≡ ok h'
      → length h'.out + all_closes cs ≡ length h.out + all_opens cs
  steps-out cs h h' e =
      subst (OnOk (λ h'. length h'.out + all_closes cs ≡ length h.out + all_opens cs)) e
        (steps-balance cs h)
