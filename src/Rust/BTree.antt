-- ===== src/Rust/BTree.antt =====
-- `BTreeMap<String, V>`: its entries in the order of their keys, which is that of their bytes.
pub mod Collect
pub mod Find
pub mod Laws
pub mod Values
use surrealdb_c.Prelude.{
  Bool, true, false, ℕ, ◌≡◌, refl, Option, none, some, List, [], ◌∷◌, ◌++◌, map, Text, arith,
  compare, Ordering,
}

-- The order of `String`: lexicographic, on bytes.
unfoldable pub compare_text : Text → Text → Ordering
compare_text [] [] = Ordering.eq
compare_text [] (_ ∷ _) = Ordering.lt
compare_text (_ ∷ _) [] = Ordering.gt
compare_text (a ∷ s) (b ∷ t) = elim (compare a b) [
  | Ordering.lt ↦ Ordering.lt
  | Ordering.eq ↦ compare_text s t
  | Ordering.gt ↦ Ordering.gt
]

-- The equality of `String`.
unfoldable pub text_eq : Text → Text → Bool
unfolding compare_text
text_eq s t = elim (compare_text s t) [ Ordering.eq ↦ true | _ ↦ false ]

abbrev pub BTreeMap {ℓ} : Type ℓ → Type ℓ
BTreeMap V = List (Text × V)

module _ {ℓ} {V : Type ℓ} where
  unfoldable pub get : Text → BTreeMap V → Option V
  get k [] = none
  get k ((j, v) ∷ m) = elim (compare_text k j) [
    | Ordering.lt ↦ none
    | Ordering.eq ↦ some v
    | Ordering.gt ↦ get k m
  ]

  unfoldable pub insert : Text → V → BTreeMap V → BTreeMap V
  insert k v [] = (k, v) ∷ []
  insert k v ((j, w) ∷ m) = elim (compare_text k j) [
    | Ordering.lt ↦ (k, v) ∷ (j, w) ∷ m
    | Ordering.eq ↦ (j, v) ∷ m
    | Ordering.gt ↦ (j, w) ∷ insert k v m
  ]

  unfoldable pub insert_all : BTreeMap V → List (Text × V) → BTreeMap V
  insert_all m [] = m
  insert_all m ((k, v) ∷ es) = insert_all (insert k v m) es

  -- `collect()` of pairs into a map: each is inserted in turn.
  unfoldable pub collect : List (Text × V) → BTreeMap V
  collect es = insert_all [] es

  -- Every key is above `k`.
  abbrev pub Above : Text → BTreeMap V → Type 0
  Above k [] = Unit
  Above k ((j, _) ∷ m) = (compare_text k j ≡ Ordering.lt) × Above k m

  -- Keys rise strictly: what a `BTreeMap` keeps.
  abbrev pub IsSorted : BTreeMap V → Type 0
  IsSorted [] = Unit
  IsSorted ((k, _) ∷ m) = Above k m × IsSorted m
