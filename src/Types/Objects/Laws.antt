-- ===== src/Types/Objects/Laws.antt =====
-- An object is a map from the decoded keys.
use surrealdb_c.Prelude.{◌≡◌, refl, Bool-cases, inl, inr, Option, none, some, Text, if◌then◌else◌}
use surrealdb_c.Rust.BTree
use surrealdb_c.Rust.BTree.{text_eq, IsSorted, BTreeMap}
use surrealdb_c.Rust.BTree.Laws.{
  text_eq→eq, text_eq-ne, insert-IsSorted, get-insert_self, get-insert_ne,
}
use surrealdb_c.Rust.Utf8.{to_string_lossy}
use surrealdb_c.Types.Values.{Value, Object, entries, object_of, entries-object_of}
use surrealdb_c.Types.Objects.{get, insert}

-- The object after an insertion.
abbrev pub inserted : Object → Text → Value → Object
inserted o k v = object_of (BTree.insert (to_string_lossy k) v (entries o))

-- The keys of an object are in order.
abbrev pub HasOrder : Option Object → Type 0
HasOrder none = Unit
HasOrder (some o) = IsSorted (entries o)

get-inserted :
    (o : Object) (k j : Text) (v : Value)
    → get (inserted o k v) (some j)
      ≡ (if text_eq (to_string_lossy j) (to_string_lossy k) then some v else get o (some j))
unfolding get
get-inserted o k j v =
    rw (entries-object_of (BTree.insert (to_string_lossy k) v (entries o)))
      (elim (Bool-cases (text_eq (to_string_lossy j) (to_string_lossy k))) [
        | inl e ↦
            rw (e, text_eq→eq (to_string_lossy j) (to_string_lossy k) e)
              (get-insert_self (to_string_lossy k) v (entries o))
        | inr e ↦ rw e (
            get-insert_ne (to_string_lossy k) (to_string_lossy j) v (entries o)
              (text_eq-ne (to_string_lossy j) (to_string_lossy k) e))
      ])

-- `sr_object_insert` of a key and a value into an object whose keys are in order keeps them in
-- order. After it, `sr_object_get` finds the value under every string that decodes to the same
-- key, and under any other string what it found before.
pub get-insert :
    (o : Object) (k j : Text) (v : Value)
    → IsSorted (entries o)
    → (insert (some o) (some k) v ≡ some (inserted o k v))
      × IsSorted (entries (inserted o k v))
      × (get (inserted o k v) (some j)
          ≡ (if text_eq (to_string_lossy j) (to_string_lossy k) then some v else get o (some j)))
unfolding insert
get-insert o k j v h = (
  refl,
  rw (entries-object_of (BTree.insert (to_string_lossy k) v (entries o)))
      (insert-IsSorted (to_string_lossy k) v (entries o) h),
  get-inserted o k j v,
)
