-- ===== src/Rust/BTree/Laws.antt =====
-- The laws of a map kept in the order of its keys.
use surrealdb_c.Prelude.{
  true, false, ◌≡◌, refl, ◌≢◌, sym, ◌∙◌, none, some, [], ◌∷◌, Text, arith, Ordering, ◌⊎◌, inl, inr,
}
use surrealdb_c.Rust.BTree.{text_eq, compare_text, BTreeMap, get, insert, Above, IsSorted}

pub compare_text_refl : (s : Text) → compare_text s s ≡ Ordering.eq
unfolding compare_text
compare_text_refl [] = refl
compare_text_refl (a ∷ s) = ground (arith, compare_text_refl s)

pub compare_text→eq : (s t : Text) → compare_text s t ≡ Ordering.eq → s ≡ t
unfolding compare_text
compare_text→eq [] [] h = refl
compare_text→eq [] (b ∷ t) h = cc
compare_text→eq (a ∷ s) [] h = cc
compare_text→eq (a ∷ s) (b ∷ t) h = ground (arith, compare_text→eq s t)

pub text_eq→eq : (s t : Text) → text_eq s t ≡ true → s ≡ t
unfolding text_eq
text_eq→eq s t h = compare_text→eq s t (ground (arith, h))

pub text_eq_refl : (s : Text) → text_eq s s ≡ true
unfolding text_eq
text_eq_refl s = rw (compare_text_refl s, text_eq)

pub text_eq-ne : (s t : Text) → text_eq s t ≡ false → s ≢ t
text_eq-ne s t h p = cc (text_eq_refl s)

pub compare_text-gt : (s t : Text) → compare_text s t ≡ Ordering.gt → compare_text t s ≡ Ordering.lt
unfolding compare_text
compare_text-gt [] [] h = cc
compare_text-gt [] (b ∷ t) h = cc
compare_text-gt (a ∷ s) [] h = refl
compare_text-gt (a ∷ s) (b ∷ t) h = ground (arith, compare_text-gt s t)

pub compare_text-lt : (s t : Text) → compare_text s t ≡ Ordering.lt → compare_text t s ≡ Ordering.gt
unfolding compare_text
compare_text-lt [] [] h = cc
compare_text-lt [] (b ∷ t) h = refl
compare_text-lt (a ∷ s) [] h = cc
compare_text-lt (a ∷ s) (b ∷ t) h = ground (arith, compare_text-lt s t)

pub compare_text_trans :
    (s t u : Text)
    → compare_text s t ≡ Ordering.lt
    → compare_text t u ≡ Ordering.lt
    → compare_text s u ≡ Ordering.lt
unfolding compare_text
compare_text_trans [] [] u h k = cc
compare_text_trans [] (b ∷ t) [] h k = cc
compare_text_trans [] (b ∷ t) (c ∷ u) h k = refl
compare_text_trans (a ∷ s) [] u h k = cc
compare_text_trans (a ∷ s) (b ∷ t) [] h k = cc
compare_text_trans (a ∷ s) (b ∷ t) (c ∷ u) h k = ground (arith, compare_text_trans s t u)

pub Ordering-cases : (o : Ordering) → (o ≡ Ordering.lt) ⊎ (o ≡ Ordering.eq) ⊎ (o ≡ Ordering.gt)
Ordering-cases Ordering.lt = inl refl
Ordering-cases Ordering.eq = inr (inl refl)
Ordering-cases Ordering.gt = inr (inr refl)

module _ {ℓ} {V : Type ℓ} (k j : Text) (v w : V) (m : BTreeMap V) where
  pub insert-lt : compare_text k j ≡ Ordering.lt → insert k v ((j, w) ∷ m) ≡ (k, v) ∷ (j, w) ∷ m
  unfolding insert
  insert-lt e = rw (e, insert)

  pub insert-eq : compare_text k j ≡ Ordering.eq → insert k v ((j, w) ∷ m) ≡ (j, v) ∷ m
  unfolding insert
  insert-eq e = rw (e, insert)

  pub insert-gt : compare_text k j ≡ Ordering.gt → insert k v ((j, w) ∷ m) ≡ (j, w) ∷ insert k v m
  unfolding insert
  insert-gt e = rw (e, insert)

module _ {ℓ} {V : Type ℓ} (k j : Text) (w : V) (m : BTreeMap V) where
  pub get-lt : compare_text k j ≡ Ordering.lt → get k ((j, w) ∷ m) ≡ none
  unfolding get
  get-lt e = rw (e, get)

  pub get-eq : compare_text k j ≡ Ordering.eq → get k ((j, w) ∷ m) ≡ some w
  unfolding get
  get-eq e = rw (e, get)

  pub get-gt : compare_text k j ≡ Ordering.gt → get k ((j, w) ∷ m) ≡ get k m
  unfolding get
  get-gt e = rw (e, get)

module _ {ℓ} {V : Type ℓ} where
  -- What is above a key is above any smaller one.
  Above-trans :
      (j k : Text) (m : BTreeMap V) → compare_text j k ≡ Ordering.lt → Above k m → Above j m
  Above-trans j k [] h a = tt
  Above-trans j k ((i, v) ∷ m) h a = (compare_text_trans j k i h a.0, Above-trans j k m h a.1)

  Above-insert :
      (j k : Text) (v : V) (m : BTreeMap V)
      → compare_text j k ≡ Ordering.lt
      → Above j m
      → Above j (insert k v m)
  Above-insert j k v [] h a = unfold insert in (h, tt)
  Above-insert j k v ((i, w) ∷ m) h a = elim (Ordering-cases (compare_text k i)) [
    | inl e ↦ rw (insert-lt k i v w m e) (h, a)
    | inr (inl e) ↦ rw (insert-eq k i v w m e) a
    | inr (inr e) ↦ rw (insert-gt k i v w m e) (a.0, Above-insert j k v m h a.1)
  ]

  -- An insertion keeps the keys in order.
  pub insert-IsSorted : (k : Text) (v : V) (m : BTreeMap V) → IsSorted m → IsSorted (insert k v m)
  insert-IsSorted k v [] h = unfold insert in (tt, tt)
  insert-IsSorted k v ((j, w) ∷ m) h = elim (Ordering-cases (compare_text k j)) [
    | inl e ↦ rw (insert-lt k j v w m e) ((e, Above-trans k j m e h.0), h)
    | inr (inl e) ↦ rw (insert-eq k j v w m e) h
    | inr (inr e) ↦
        rw (insert-gt k j v w m e)
          (Above-insert j k v m (compare_text-gt k j e) h.0, insert-IsSorted k v m h.1)
  ]

  -- A key that was inserted is found with its value.
  pub get-insert_self : (k : Text) (v : V) (m : BTreeMap V) → get k (insert k v m) ≡ some v
  get-insert_self k v [] = unfold insert in get-eq k k v [] (compare_text_refl k)
  get-insert_self k v ((j, w) ∷ m) = elim (Ordering-cases (compare_text k j)) [
    | inl e ↦ rw (insert-lt k j v w m e) (get-eq k k v ((j, w) ∷ m) (compare_text_refl k))
    | inr (inl e) ↦ rw (insert-eq k j v w m e) (get-eq k j v m e)
    | inr (inr e) ↦
        rw (insert-gt k j v w m e) (get-gt k j w (insert k v m) e ∙ get-insert_self k v m)
  ]

  -- In a sorted map no key at or below the bound of what follows is found there.
  get-Above : (k : Text) (m : BTreeMap V) → Above k m → get k m ≡ none
  get-Above k [] a = unfold get in refl
  get-Above k ((j, w) ∷ m) a = get-lt k j w m a.0

  -- Every other key is found as before.
  pub get-insert_ne : (k i : Text) (v : V) (m : BTreeMap V) → i ≢ k → get i (insert k v m) ≡ get i m
  get-insert_ne k i v [] h = elim (Ordering-cases (compare_text i k)) [
    | inl e ↦ unfold insert in (get-lt i k v [] e ∙ (unfold get in refl))
    | inr (inl e) ↦ absurd (h (compare_text→eq i k e))
    | inr (inr e) ↦ unfold insert in get-gt i k v [] e
  ]
  get-insert_ne k i v ((j, w) ∷ m) h = elim (Ordering-cases (compare_text k j)) [
    | inl e ↦ rw (insert-lt k j v w m e) (elim (Ordering-cases (compare_text i k)) [
      | inl d ↦ get-lt i k v ((j, w) ∷ m) d ∙ sym (get-lt i j w m (compare_text_trans i k j d e))
      | inr (inl d) ↦ absurd (h (compare_text→eq i k d))
      | inr (inr d) ↦ get-gt i k v ((j, w) ∷ m) d
    ])
    | inr (inl e) ↦ rw (insert-eq k j v w m e) (elim (Ordering-cases (compare_text i j)) [
      | inl d ↦ get-lt i j v m d ∙ sym (get-lt i j w m d)
      | inr (inl d) ↦ absurd (h (compare_text→eq i j d ∙ sym (compare_text→eq k j e)))
      | inr (inr d) ↦ get-gt i j v m d ∙ sym (get-gt i j w m d)
    ])
    | inr (inr e) ↦ rw (insert-gt k j v w m e) (elim (Ordering-cases (compare_text i j)) [
      | inl d ↦ get-lt i j w (insert k v m) d ∙ sym (get-lt i j w m d)
      | inr (inl d) ↦ get-eq i j w (insert k v m) d ∙ sym (get-eq i j w m d)
      | inr (inr d) ↦
          get-gt i j w (insert k v m) d ∙ get-insert_ne k i v m h ∙ sym (get-gt i j w m d)
    ])
  ]
