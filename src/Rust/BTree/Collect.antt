-- ===== src/Rust/BTree/Collect.antt =====
-- `collect()` into a map: the result is sorted, and a sorted list is kept.
use surrealdb_c.Prelude.{
  ◌≡◌, refl, sym, ap, ◌∙◌, List, [], ◌∷◌, ◌++◌, append-nil, append_assoc, Text, Ordering,
}
use surrealdb_c.Rust.BTree.{compare_text, BTreeMap, insert, insert_all, collect, Above, IsSorted}
use surrealdb_c.Rust.BTree.Laws.{compare_text-lt, insert-gt, insert-IsSorted}

module _ {ℓ} {V : Type ℓ} where
  -- Whatever the pairs and their order, collecting them gives a sorted map.
  insert_all-IsSorted :
      (m : BTreeMap V) (es : List (Text × V)) → IsSorted m → IsSorted (insert_all m es)
  unfolding insert_all
  insert_all-IsSorted m [] h = h
  insert_all-IsSorted m ((k, v) ∷ es) h =
      insert_all-IsSorted (insert k v m) es (insert-IsSorted k v m h)

  pub collect-IsSorted : (es : List (Text × V)) → IsSorted (collect es)
  unfolding collect
  collect-IsSorted es = insert_all-IsSorted [] es tt

  -- Every key of the map is below `k`.
  abbrev Below : Text → BTreeMap V → Type 0
  Below k [] = Unit
  Below k ((j, _) ∷ m) = (compare_text j k ≡ Ordering.lt) × Below k m

  insert-Below : (k : Text) (v : V) (m : BTreeMap V) → Below k m → insert k v m ≡ m ++ (k, v) ∷ []
  insert-Below k v [] h = unfold insert in refl
  insert-Below k v ((j, w) ∷ m) h =
      insert-gt k j v w m (compare_text-lt j k h.0) ∙ ap (◌∷◌ (j, w)) (insert-Below k v m h.1)

  -- Every key of the first map is below every key of the second.
  abbrev AllBelow : BTreeMap V → BTreeMap V → Type 0
  AllBelow m [] = Unit
  AllBelow m ((k, _) ∷ es) = Below k m × AllBelow m es

  Below-append :
      (k j : Text) (v : V) (m : BTreeMap V)
      → Below j m
      → compare_text k j ≡ Ordering.lt
      → Below j (m ++ (k, v) ∷ [])
  Below-append k j v [] h e = (e, tt)
  Below-append k j v ((i, w) ∷ m) h e = (h.0, Below-append k j v m h.1 e)

  AllBelow-append :
      (m : BTreeMap V) (k : Text) (v : V) (es : BTreeMap V)
      → AllBelow m es
      → Above k es
      → AllBelow (m ++ (k, v) ∷ []) es
  AllBelow-append m k v [] h a = tt
  AllBelow-append m k v ((j, w) ∷ es) h a =
      (Below-append k j v m h.0 a.0, AllBelow-append m k v es h.1 a.1)

  insert_all-sorted : (m es : BTreeMap V) → AllBelow m es → IsSorted es → insert_all m es ≡ m ++ es
  unfolding insert_all
  insert_all-sorted m [] h s = sym (append-nil m)
  insert_all-sorted m ((k, v) ∷ es) h s = rw (insert-Below k v m h.0) (
      insert_all-sorted (m ++ (k, v) ∷ []) es (AllBelow-append m k v es h.1 s.0) s.1
      ∙ append_assoc m ((k, v) ∷ []) es)

  AllBelow-nil : (es : BTreeMap V) → AllBelow [] es
  AllBelow-nil [] = tt
  AllBelow-nil (e ∷ es) = (tt, AllBelow-nil es)

  -- Collecting the entries of a sorted map gives that map.
  pub collect-sorted : (es : BTreeMap V) → IsSorted es → collect es ≡ es
  unfolding collect
  collect-sorted es s = insert_all-sorted [] es (AllBelow-nil es) s
