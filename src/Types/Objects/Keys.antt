-- ===== src/Types/Objects/Keys.antt =====
-- What `sr_object_len` and `sr_object_keys` tell of an object.
use surrealdb_c.Prelude.{◌≡◌, ◌<◌, refl, ap, ap₂, some, List, [], ◌∷◌, map, length, All, Text}
use surrealdb_c.Prelude.Int.{CInt, pos, as_c_int-pos}
use surrealdb_c.Rust.BTree
use surrealdb_c.Rust.BTree.{IsSorted, BTreeMap}
use surrealdb_c.Rust.BTree.Find.{AreFound, IsSorted-AreFound}
use surrealdb_c.Rust.Utf8.Laws.{IsCText, to_string_lossy-valid}
use surrealdb_c.Types.Values.{Value, Object, entries}
use surrealdb_c.Types.Strings.{StringT, to_raw_char_ptr, contains_nul-IsNulFree}
use surrealdb_c.Types.Objects.{get, object_len, object_keys, key_of}

-- Every key is UTF-8 without NUL.
abbrev pub HasCKeys : BTreeMap Value → Type 0
HasCKeys = All (λ e. IsCText e.0)

-- The keys that are listed.
abbrev pub listed : BTreeMap Value → List StringT
listed es = map (λ e. some (key_of e)) es

raw_key : (k : Text) → IsCText k → to_raw_char_ptr k ≡ k
unfolding to_raw_char_ptr
raw_key k c = rw (contains_nul-IsNulFree k c.0)

lookup_key :
    (o : Object) (k : Text) (v : Value)
    → IsCText k
    → BTree.get k (entries o) ≡ some v
    → get o (some (to_raw_char_ptr k)) ≡ some v
unfolding get
lookup_key o k v c h = rw (raw_key k c, (to_string_lossy-valid k c.1).0) h

lookups :
    (o : Object) (es : BTreeMap Value)
    → HasCKeys es
    → AreFound (entries o) es
    → map (get o) (listed es) ≡ map (λ e. some e.1) es
lookups o [] c f = refl
lookups o ((k, v) ∷ es) c f = ap₂ ◌∷◌ (lookup_key o k v c.0 f.0) (lookups o es c.1 f.1)

-- For an object of fewer than 2^31 entries whose keys are in order and are UTF-8 without NUL:
-- `sr_object_len` and `sr_object_keys` count the entries, and `sr_object_get` of each listed key
-- gives the values of the object, in order.
pub get-object_keys :
    (o : Object)
    → length (entries o) < 2147483648
    → IsSorted (entries o)
    → HasCKeys (entries o)
    → (object_len (some o) ≡ pos (length (entries o)))
      × (object_keys (some o) (some tt) ≡ (pos (length (entries o)), some (listed (entries o))))
      × (map (get o) (listed (entries o)) ≡ map (λ e. some e.1) (entries o))
unfolding object_len object_keys
get-object_keys o h s c = (
  as_c_int-pos (length (entries o)) h,
  ap (λ (n : CInt). (n, some (listed (entries o)))) (as_c_int-pos (length (entries o)) h),
  lookups o (entries o) c (IsSorted-AreFound (entries o) s),
)
