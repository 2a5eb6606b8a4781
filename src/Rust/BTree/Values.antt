-- ===== src/Rust/BTree/Values.antt =====
-- A property of the values of a map, which insertions keep.
use surrealdb_c.Prelude.{inl, inr, [], ◌∷◌, All, Text, ◌≡◌, sym, ◌∙◌, subst, some}
use mathlib.Core.Option.{some-injective}
use surrealdb_c.Rust.BTree.{BTreeMap, get, insert, insert_all, collect, compare_text}
use surrealdb_c.Rust.BTree.Laws.{
  Ordering-cases, insert-lt, insert-eq, insert-gt, get-lt, get-eq, get-gt,
}

module _ {V : Type 0} (P : V → Type 0) where
  -- Every value of the map has the property.
  abbrev pub AllValues : BTreeMap V → Type 0
  AllValues = All (λ e. P e.1)

  pub AllValues-insert :
      (k : Text) (v : V) (m : BTreeMap V) → P v → AllValues m → AllValues (insert k v m)
  AllValues-insert k v [] p h = unfold insert in (p, tt)
  AllValues-insert k v ((j, w) ∷ m) p h = elim (Ordering-cases (compare_text k j)) [
    | inl e ↦ rw (insert-lt k j v w m e) (p, h)
    | inr (inl e) ↦ rw (insert-eq k j v w m e) (p, h.1)
    | inr (inr e) ↦ rw (insert-gt k j v w m e) (h.0, AllValues-insert k v m p h.1)
  ]

  AllValues-insert_all :
      (m es : BTreeMap V) → AllValues m → AllValues es → AllValues (insert_all m es)
  unfolding insert_all
  AllValues-insert_all m [] h k = h
  AllValues-insert_all m ((j, v) ∷ es) h k =
      AllValues-insert_all (insert j v m) es (AllValues-insert j v m k.0 h) k.1

  pub AllValues-collect : (es : BTreeMap V) → AllValues es → AllValues (collect es)
  unfolding collect
  AllValues-collect es h = AllValues-insert_all [] es tt h

  -- What a lookup finds has it.
  pub AllValues-get : (k : Text) (m : BTreeMap V) (v : V) → AllValues m → get k m ≡ some v → P v
  unfolding get
  AllValues-get k [] v h e = cc
  AllValues-get k ((j, w) ∷ m) v h e = elim (Ordering-cases (compare_text k j)) [
    | inl p ↦ cc (sym (get-lt k j w m p) ∙ e)
    | inr (inl p) ↦ subst P (some-injective _ _ (sym (get-eq k j w m p) ∙ e)) h.0
    | inr (inr p) ↦ AllValues-get k m v h.1 (sym (get-gt k j w m p) ∙ e)
  ]
