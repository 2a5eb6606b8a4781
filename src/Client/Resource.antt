-- ===== src/Client/Resource.antt =====
-- `parse_resource` of src/lib.rs
use surrealdb_c.Prelude.{
  ℕ, ◌≡◌, ◌≢◌, refl, Bool, true, false, ◌&&◌, not, Option, none, some, [], ◌∷◌, ◌++◌, Text, All,
  arith, ◌==◌, if◌then◌else◌,
}
use surrealdb_c.Sdb.{SdbTypes, key_string}
use surrealdb_c.Client.Engine.{Resource, resource_record_id, resource_from}

-- `s.split_once(':')`
unfoldable pub split_once : ℕ → Text → Option (Text × Text)
split_once c [] = none
split_once c (b ∷ bs) =
    if b == c
    then some ([], bs)
    else elim (split_once c bs) [ none ↦ none | some (s, t) ↦ some (b ∷ s, t) ]

abbrev pub is_empty : Text → Bool
is_empty [] = true
is_empty (_ ∷ _) = false

unfoldable pub parse_resource : (E : SdbTypes) → Text → Resource E
parse_resource E s = elim (split_once b':' s) [
  | some (table, id) ↦
      if not (is_empty table) && not (is_empty id)
      then resource_record_id (E.table_from_string table) (key_string id)
      else resource_from s
  | none ↦ resource_from s
]

-- Not a colon.
abbrev pub IsColonFree : Text → Type 0
IsColonFree = All (λ b. b ≢ b':')

split_once-colon :
    (table id : Text) → IsColonFree table → split_once b':' (table ++ b':' ∷ id) ≡ some (table, id)
unfolding split_once
split_once-colon [] id h = refl
split_once-colon (b ∷ table) id h = ground (arith, h.0, split_once-colon table id h.1)

split_once-none : (s : Text) → IsColonFree s → split_once b':' s ≡ none
unfolding split_once
split_once-none [] h = refl
split_once-none (b ∷ s) h = ground (arith, h.0, split_once-none s h.1)

-- A string whose part before its first colon and the rest after it are both not empty names the
-- record with that table and that string key. With an empty part, or with no colon, the string
-- is handed to the client whole, the empty string too.
pub parse_resource-cases :
    (E : SdbTypes) (table id : Text) (b c : ℕ)
    → IsColonFree (b ∷ table)
    → (parse_resource E ((b ∷ table) ++ b':' ∷ c ∷ id)
        ≡ resource_record_id (E.table_from_string (b ∷ table)) (key_string (c ∷ id)))
      × (parse_resource E ((b ∷ table) ++ b':' ∷ []) ≡ resource_from ((b ∷ table) ++ b':' ∷ []))
      × (parse_resource E (b':' ∷ id) ≡ resource_from (b':' ∷ id))
      × (parse_resource E (b ∷ table) ≡ resource_from (b ∷ table))
      × (parse_resource E [] ≡ resource_from [])
unfolding parse_resource
parse_resource-cases E table id b c h = (
  rw (split_once-colon (b ∷ table) (c ∷ id) h, parse_resource),
  rw (split_once-colon (b ∷ table) [] h, parse_resource),
  rw (split_once-colon [] id tt, parse_resource),
  rw (split_once-none (b ∷ table) h, parse_resource),
  rw (split_once-none [] tt, parse_resource),
)
