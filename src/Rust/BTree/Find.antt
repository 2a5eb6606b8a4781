-- ===== src/Rust/BTree/Find.antt =====
-- Every entry of a sorted map is found under its key.
use surrealdb_c.Prelude.{◌≡◌, ◌∙◌, some, List, [], ◌∷◌, Text, All}
use surrealdb_c.Rust.BTree.{BTreeMap, get, Above, IsSorted}
use surrealdb_c.Rust.BTree.Laws.{compare_text_refl, compare_text-lt, get-eq, get-gt}

module _ {V : Type 0} where
  -- The entries of the list are found in the map.
  abbrev pub AreFound : BTreeMap V → List (Text × V) → Type 0
  AreFound m = All (λ e. get e.0 m ≡ some e.1)

  AreFound-cons :
      (j : Text) (w : V) (m es : BTreeMap V) → Above j es → AreFound m es → AreFound ((j, w) ∷ m) es
  AreFound-cons j w m [] a h = tt
  AreFound-cons j w m ((k, v) ∷ es) a h =
      (get-gt k j w m (compare_text-lt j k a.0) ∙ h.0, AreFound-cons j w m es a.1 h.1)

  pub IsSorted-AreFound : (m : BTreeMap V) → IsSorted m → AreFound m m
  IsSorted-AreFound [] h = tt
  IsSorted-AreFound ((k, v) ∷ m) h =
      (get-eq k k v m (compare_text_refl k), AreFound-cons k v m m h.0 (IsSorted-AreFound m h.1))
