-- ===== src/Types/Objects/Refinement.antt =====
-- The functions that build objects, against a function from the decoded keys.
use surrealdb_c.Prelude.{◌≡◌, refl, ap, ◌∙◌, Option, none, some, List, [], ◌∷◌, Text, if◌then◌else◌}
use surrealdb_c.Prelude.Int.{CInt}
use surrealdb_c.Rust.BTree
use surrealdb_c.Rust.BTree.{text_eq, IsSorted}
use surrealdb_c.Rust.Utf8.{to_string_lossy}
use surrealdb_c.Sdb.{Float}
use surrealdb_c.Types.Strings.{StringT}
use surrealdb_c.Types.Numbers.{
  sr_number_int, sr_number_float, number_from_c_int, number_from_c_float, number_from_c_double,
}
use surrealdb_c.Types.Values.{Value, Object, entries, sr_value_number, sr_value_strand}
use surrealdb_c.Types.Objects.{
  get, new, insert, insert_str, insert_int, insert_float, insert_double,
}
use surrealdb_c.Types.Objects.Laws.{inserted, get-insert}

-- A call of one of the five functions, on an object that is not null.
pub data Change : Type 0 where
  changing : StringT → Value → Change
  changing_str : StringT → StringT → Change
  changing_int : StringT → CInt → Change
  changing_float changing_double : StringT → Float → Change

-- A map as what it holds under each key.
abbrev pub Lookup : Type 0
Lookup = Text → Option Value

-- The key and the value that a call writes: nothing if one of its pointers is null.
abbrev pub write_of : (Float → Float) → Change → Option (Text × Value)
write_of widen (changing (some k) v) = some (to_string_lossy k, v)
write_of widen (changing_str (some k) (some s)) = some (to_string_lossy k, sr_value_strand (some s))
write_of widen (changing_int (some k) i) =
    some (to_string_lossy k, sr_value_number (sr_number_int i))
write_of widen (changing_float (some k) f) =
    some (to_string_lossy k, sr_value_number (sr_number_float (widen f)))
write_of widen (changing_double (some k) f) =
    some (to_string_lossy k, sr_value_number (sr_number_float f))
write_of widen _ = none

abbrev pub update : Option (Text × Value) → Lookup → Lookup
update none m j = m j
update (some (k, v)) m j = if text_eq j k then some v else m j

abbrev pub update_all : (Float → Float) → List Change → Lookup → Lookup
update_all widen [] m = m
update_all widen (c ∷ cs) m = update_all widen cs (update (write_of widen c) m)

-- The calls on an object.
abbrev pub change : (Float → Float) → Change → Option Object → Option Object
change widen (changing k v) o = insert o k v
change widen (changing_str k s) o = insert_str o k s
change widen (changing_int k i) o = insert_int o k i
change widen (changing_float k f) o = insert_float widen o k f
change widen (changing_double k f) o = insert_double o k f

abbrev pub change_all : (Float → Float) → List Change → Option Object → Option Object
change_all widen [] o = o
change_all widen (c ∷ cs) o = change_all widen cs (change widen c o)

-- The object is a map in order that holds under the decoded keys what the lookup says.
pub record Refines (o : Option Object) (m : Lookup) : Type 0 where
  pub object : Object
  pub is_there : o ≡ some object
  pub is_sorted : IsSorted (entries object)
  pub finds : (k : Text) → get object (some k) ≡ m (to_string_lossy k)

module _ (widen : Float → Float) where
  insert-Refines :
      (o : Option Object) (m : Lookup) (k : Text) (v : Value)
      → Refines o m
      → Refines (insert o (some k) v) (update (some (to_string_lossy k, v)) m)
  insert-Refines o m k v r =
      let laws = λ (j : Text). get-insert r.object k j v r.is_sorted in
      record {
        object = inserted r.object k v;
        is_there = ap (λ p. insert p (some k) v) r.is_there ∙ (laws k).0;
        is_sorted = (laws k).1;
        finds = λ j.
            (laws j).2
            ∙ ap (λ p. if text_eq (to_string_lossy j) (to_string_lossy k) then some v else p)
                (r.finds j);
      }

  null-Refines :
      (o : Option Object) (m : Lookup) (v : Value) → Refines o m → Refines (insert o none v) m
  null-Refines o m v r = record {
    object = r.object;
    is_there = ap (λ p. insert p none v) r.is_there ∙ (unfold insert in refl);
    is_sorted = r.is_sorted;
    finds = r.finds;
  }

  change-Refines :
      (c : Change) (o : Option Object) (m : Lookup)
      → Refines o m
      → Refines (change widen c o) (update (write_of widen c) m)
  unfolding insert_str insert_int insert_float insert_double number_from_c_int number_from_c_float
      number_from_c_double
  change-Refines (changing none v) o m r = null-Refines o m v r
  change-Refines (changing (some k) v) o m r = insert-Refines o m k v r
  change-Refines (changing_str none none) o m r = r
  change-Refines (changing_str (some k) none) o m r = r
  change-Refines (changing_str none (some s)) o m r = null-Refines o m _ r
  change-Refines (changing_str (some k) (some s)) o m r = insert-Refines o m k _ r
  change-Refines (changing_int none i) o m r = null-Refines o m _ r
  change-Refines (changing_int (some k) i) o m r = insert-Refines o m k _ r
  change-Refines (changing_float none f) o m r = null-Refines o m _ r
  change-Refines (changing_float (some k) f) o m r = insert-Refines o m k _ r
  change-Refines (changing_double none f) o m r = null-Refines o m _ r
  change-Refines (changing_double (some k) f) o m r = insert-Refines o m k _ r

  change_all-Refines :
      (cs : List Change) (o : Option Object) (m : Lookup)
      → Refines o m
      → Refines (change_all widen cs o) (update_all widen cs m)
  change_all-Refines [] o m r = r
  change_all-Refines (c ∷ cs) o m r =
      change_all-Refines cs (change widen c o) (update (write_of widen c) m)
        (change-Refines c o m r)

  -- Any sequence of calls of `sr_object_insert`, `sr_object_insert_str`, `sr_object_insert_int`,
  -- `sr_object_insert_float` and `sr_object_insert_double` on a new object leaves an object whose keys
  -- are in order, and in which `sr_object_get` finds, under each string, what the last call with a key
  -- that decodes to the same text wrote, and nothing if there is none. A call with a null key, or with
  -- a null string as the value, writes nothing.
  pub new-Refines :
      (cs : List Change)
      → Refines (change_all widen cs (some new)) (update_all widen cs (λ _. none))
  new-Refines cs =
      change_all-Refines cs (some new) (λ _. none)
        record {
          object = new;
          is_there = refl;
          is_sorted = unfold new entries in tt;
          finds = λ k. unfold new entries get BTree.get in refl;
        }
