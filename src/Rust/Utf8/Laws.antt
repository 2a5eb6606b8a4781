-- ===== src/Rust/Utf8/Laws.antt =====
-- What decoding promises: valid text is kept, what `to_string_lossy` returns is valid, and it
-- brings in no NUL.
use surrealdb_c.Prelude.{
  ℕ, ◌≡◌, refl, ◌≢◌, ◌⊎◌, inl, inr, true, Option, none, some, [], ◌∷◌, ◌++◌, ◌∙◌, Text, All,
  append_assoc, arith, List, Option-cases,
}
use surrealdb_c.Rust.Utf8.{
  State, start, expect, Pending, begin, next, valid_from, to_str, replacement, lossy_step,
  lossy_from, to_string_lossy,
}

-- The three ends of a step.
next-cases :
    (s : State) (b : ℕ)
    → (next s b ≡ none)
      ⊎ (next s b ≡ some start)
      ⊎ ((lo hi more : ℕ) × (next s b ≡ some (expect lo hi more)))
next-cases s b = go (next s b) refl
  where
    go :
        (o : Option State)
        → next s b ≡ o
        → (next s b ≡ none)
          ⊎ (next s b ≡ some start)
          ⊎ ((lo hi more : ℕ) × (next s b ≡ some (expect lo hi more)))
    go none e = inl e
    go (some start) e = inr (inl e)
    go (some (expect lo hi more)) e = inr (inr (lo, hi, more, e))

-- A pending text is empty between characters.
abbrev IsPending : Pending → Type 0
IsPending (start, p) = p ≡ []
IsPending (expect _ _ _, p) = Unit

-- Bytes read from a state, and the state that they lead to.
abbrev run : State → Text → Option State
run s [] = some s
run s (b ∷ bs) = elim (next s b) [ none ↦ none | some s' ↦ run s' bs ]

lossy_step-start :
    (s : State) (p : Text) (b : ℕ)
    → IsPending (s, p)
    → next s b ≡ some start
    → lossy_step (s, p) b ≡ (p ++ b ∷ [], (start, []))
unfolding lossy_step
lossy_step-start start p b h e = ground arith
lossy_step-start (expect lo hi more) p b h e = ground arith

lossy_step-expect :
    (s : State) (p : Text) (b lo hi more : ℕ)
    → IsPending (s, p)
    → next s b ≡ some (expect lo hi more)
    → lossy_step (s, p) b ≡ ([], (expect lo hi more, p ++ b ∷ []))
unfolding lossy_step
lossy_step-expect start p b lo hi more h e = ground arith
lossy_step-expect (expect lo' hi' more') p b lo hi more h e = ground arith

lossy_from-valid :
    (s : State) (p t : Text)
    → IsPending (s, p)
    → valid_from s t ≡ true
    → lossy_from (s, p) t ≡ p ++ t
unfolding valid_from lossy_from
lossy_from-valid start p [] h v = rw h
lossy_from-valid (expect lo hi more) p [] h v = cc
lossy_from-valid s p (b ∷ bs) h v = elim (next-cases s b) [
  | inl e ↦ ground (arith, e)
  | inr (inl e) ↦
      rw (lossy_step-start s p b h e)
        (rw (lossy_from-valid start [] bs refl (ground (arith, e))) (append_assoc p (b ∷ []) bs))
  | inr (inr (lo, hi, more, e)) ↦ rw (lossy_step-expect s p b lo hi more h e) (
      lossy_from-valid (expect lo hi more) (p ++ b ∷ []) bs tt (ground (arith, e))
      ∙ append_assoc p (b ∷ []) bs)
]

-- On valid UTF-8 `to_string_lossy` and `to_str` return the text itself.
pub to_string_lossy-valid :
    (t : Text) → valid_from start t ≡ true → (to_string_lossy t ≡ t) × (to_str t ≡ some t)
unfolding to_string_lossy to_str
to_string_lossy-valid t h = (lossy_from-valid start [] t refl h, rw h)

-- Bytes that lead on from a state are read on from the state that they lead to.
valid_from-append :
    (s s' : State) (p t : Text) → run s p ≡ some s' → valid_from s (p ++ t) ≡ valid_from s' t
unfolding valid_from
valid_from-append s s' [] t h = cc
valid_from-append s s' (b ∷ bs) t h = elim (next-cases s b) [
  | inl e ↦ ground (arith, e)
  | inr (inl e) ↦ ground (arith, e, valid_from-append start s' bs t)
  | inr (inr (lo, hi, more, e)) ↦ ground (arith, e, valid_from-append (expect lo hi more) s' bs t)
]

run-append : (s s' : State) (p q : Text) → run s p ≡ some s' → run s (p ++ q) ≡ run s' q
run-append s s' [] q h = cc
run-append s s' (b ∷ bs) q h = elim (next-cases s b) [
  | inl e ↦ ground (arith, e)
  | inr (inl e) ↦ ground (arith, e, run-append start s' bs q)
  | inr (inr (lo, hi, more, e)) ↦ ground (arith, e, run-append (expect lo hi more) s' bs q)
]

-- The pending bytes lead to the state beside them.
abbrev Leads : Pending → Type 0
Leads (s, p) = IsPending (s, p) × (run start p ≡ some s)

run_one :
    (s s' : State) (p : Text) (b : ℕ)
    → run start p ≡ some s
    → next s b ≡ some s'
    → run start (p ++ b ∷ []) ≡ some s'
run_one s s' p b h e = run-append start s p (b ∷ []) h ∙ ground (arith, e)

-- A step that writes whole characters and leaves what leads to its state.
abbrev Writes : Text × Pending → Type 0
Writes (out, pending) = (run start out ≡ some start) × Leads pending

lossy_step-replaced :
    (p : Text) (b : ℕ) → next start b ≡ none → lossy_step (start, p) b ≡ (replacement, (start, []))
unfolding lossy_step begin
lossy_step-replaced p b e = ground (arith, e)

lossy_step-restarted :
    (lo hi more : ℕ) (p : Text) (b : ℕ)
    → next (expect lo hi more) b ≡ none
    → lossy_step (expect lo hi more, p) b
      ≡ (replacement ++ (lossy_step (start, []) b).0, (lossy_step (start, []) b).1)
unfolding lossy_step begin
lossy_step-restarted lo hi more p b e = ground (arith, e)

replacement_whole : run start replacement ≡ some start
unfolding next
replacement_whole = refl

kept-Writes :
    (s : State) (p : Text) (b : ℕ) → Leads (s, p) → next s b ≢ none → Writes (lossy_step (s, p) b)
kept-Writes s p b h k = elim (next-cases s b) [
  | inl e ↦ absurd (k e)
  | inr (inl e) ↦ rw (lossy_step-start s p b h.0 e) (run_one s start p b h.1 e, (refl, refl))
  | inr (inr (lo, hi, more, e)) ↦
      rw (lossy_step-expect s p b lo hi more h.0 e)
        (refl, (tt, run_one s (expect lo hi more) p b h.1 e))
]

fresh-Writes : (b : ℕ) → Writes (lossy_step (start, []) b)
fresh-Writes b = elim (Option-cases (next start b)) [
  | inl e ↦ rw (lossy_step-replaced [] b e) (replacement_whole, (refl, refl))
  | inr (s', e) ↦ kept-Writes start [] b (refl, refl) (λ n. ground (arith, e, n))
]

lossy_step-Writes : (s : State) (p : Text) (b : ℕ) → Leads (s, p) → Writes (lossy_step (s, p) b)
lossy_step-Writes start p b h = rw h.0 (fresh-Writes b)
lossy_step-Writes (expect lo hi more) p b h = elim (Option-cases (next (expect lo hi more) b)) [
  | inl e ↦ rw (lossy_step-restarted lo hi more p b e) (
    run-append start start replacement (lossy_step (start, []) b).0 replacement_whole
        ∙ (fresh-Writes b).0,
    (fresh-Writes b).1,
  )
  | inr (s', e) ↦ kept-Writes (expect lo hi more) p b h (λ n. ground (arith, e, n))
]

lossy_from-is_valid :
    (s : State) (p t : Text) → Leads (s, p) → valid_from start (lossy_from (s, p) t) ≡ true
unfolding lossy_from
lossy_from-is_valid start p [] h = unfold valid_from in refl
lossy_from-is_valid (expect lo hi more) p [] h = unfold valid_from next in refl
lossy_from-is_valid s p (b ∷ bs) h =
    let w = lossy_step-Writes s p b h in
    valid_from-append start start (lossy_step (s, p) b).0 (lossy_from (lossy_step (s, p) b).1 bs)
      w.0
    ∙ lossy_from-is_valid (lossy_step (s, p) b).1.0 (lossy_step (s, p) b).1.1 bs w.1

-- What `to_string_lossy` returns is UTF-8, whatever the bytes.
pub to_string_lossy-is_valid : (t : Text) → valid_from start (to_string_lossy t) ≡ true
unfolding to_string_lossy
to_string_lossy-is_valid t = lossy_from-is_valid start [] t (refl, refl)

-- The bytes of a C string: none is NUL.
abbrev pub IsNulFree : Text → Type 0
IsNulFree = All (λ b. b ≢ 0)

pub All-append {ℓ κ} :
    {A : Type ℓ} (P : A → Type κ) (xs ys : List A) → All P xs → All P ys → All P (xs ++ ys)
All-append P [] ys h k = k
All-append P (x ∷ xs) ys h k = (h.0, All-append P xs ys h.1 k)

-- Neither what a step writes nor what it leaves holds a NUL.
abbrev StepIsNulFree : Text × Pending → Type 0
StepIsNulFree (out, pending) = IsNulFree out × IsNulFree pending.1

one_more : (p : Text) (b : ℕ) → b ≢ 0 → IsNulFree p → IsNulFree (p ++ b ∷ [])
one_more p b h k = All-append (λ b. b ≢ 0) p (b ∷ []) k (h, tt)

lossy_step-start-IsNulFree : (p : Text) (b : ℕ) → b ≢ 0 → StepIsNulFree (lossy_step (start, p) b)
unfolding lossy_step begin
lossy_step-start-IsNulFree p b h = ground arith

lossy_step-IsNulFree :
    (s : State) (p : Text) (b : ℕ)
    → b ≢ 0
    → IsPending (s, p)
    → IsNulFree p
    → StepIsNulFree (lossy_step (s, p) b)
lossy_step-IsNulFree start p b h i k = lossy_step-start-IsNulFree p b h
lossy_step-IsNulFree (expect lo hi m) p b h i k = elim (next-cases (expect lo hi m) b) [
  | inl e ↦ rw (lossy_step-restarted lo hi m p b e) (
    All-append (λ b. b ≢ 0) replacement (lossy_step (start, []) b).0 (ground arith)
        (lossy_step-start-IsNulFree [] b h).0,
    (lossy_step-start-IsNulFree [] b h).1,
  )
  | inr (inl e) ↦ rw (lossy_step-start (expect lo hi m) p b i e) (one_more p b h k, tt)
  | inr (inr (lo', hi', m', e)) ↦
      rw (lossy_step-expect (expect lo hi m) p b lo' hi' m' i e) (tt, one_more p b h k)
]

lossy_from-IsNulFree :
    (s : State) (p t : Text)
    → Leads (s, p)
    → IsNulFree p
    → IsNulFree t
    → IsNulFree (lossy_from (s, p) t)
unfolding lossy_from
lossy_from-IsNulFree start p [] h k n = tt
lossy_from-IsNulFree (expect lo hi more) p [] h k n = ground arith
lossy_from-IsNulFree s p (b ∷ bs) h k n =
    let w = lossy_step-Writes s p b h in
    let f = lossy_step-IsNulFree s p b n.0 h.0 k in
    All-append (λ b. b ≢ 0) (lossy_step (s, p) b).0 (lossy_from (lossy_step (s, p) b).1 bs) f.0
      (lossy_from-IsNulFree (lossy_step (s, p) b).1.0 (lossy_step (s, p) b).1.1 bs w.1 f.1 n.1)

-- Decoding a C string lossily brings in no NUL.
pub to_string_lossy-IsNulFree : (t : Text) → IsNulFree t → IsNulFree (to_string_lossy t)
unfolding to_string_lossy
to_string_lossy-IsNulFree t h = lossy_from-IsNulFree start [] t (refl, refl) tt h

-- UTF-8 without NUL: what passes through a C string whole.
abbrev pub IsCText : Text → Type 0
IsCText t = IsNulFree t × (valid_from start t ≡ true)
