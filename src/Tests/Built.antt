-- ===== src/Tests/Built.antt =====
-- The theorems on the values and objects that a C program builds.
use surrealdb_c.Prelude.{◌≢◌, refl, none, some, [], ◌∷◌, text}
use surrealdb_c.Prelude.Int.{pos}
use surrealdb_c.Rust.BTree
use surrealdb_c.Rust.Utf8.{to_string_lossy, next}
use surrealdb_c.Rust.Run.{fault}
use surrealdb_c.Types.Values.{sr_value_strand, sr_value_object, entry, end, entries, object_of}
use surrealdb_c.Types.ToSdb.{value_to_sdb}
use surrealdb_c.Types.Constructors.{value_object}
use surrealdb_c.Types.Objects
use surrealdb_c.Types.Objects.Refinement.{
  changing_int, changing_str, change_all, update_all, Refines, new-Refines,
}
use surrealdb_c.Types.Whole.{IsWhole}
use surrealdb_c.Types.Whole.Built.{Built, built_object, built_new, built_insert_str}
use surrealdb_c.Types.Whole.Invariant.{Built-IsWhole, value_to_sdb-Built}
use surrealdb_c.Tests.World.{types}

new-Refines_example :
    Refines
      (change_all
        (λ f. f)
        (changing_int (some (text "b")) (pos 1) ∷ changing_str (some (text "a")) none ∷ [])
        (some Objects.new))
      (update_all
        (λ f. f)
        (changing_int (some (text "b")) (pos 1) ∷ changing_str (some (text "a")) none ∷ [])
        (λ _. none))
new-Refines_example =
    new-Refines (λ f. f)
      (changing_int (some (text "b")) (pos 1) ∷ changing_str (some (text "a")) none ∷ [])

-- { a: "x" }
x_under_a :
    Built types
      (λ f. f)
      (sr_value_object (entry (text "a") (sr_value_strand (some (text "x"))) end))
unfolding Objects.insert_str Objects.new entries object_of BTree.insert to_string_lossy next
    value_object
x_under_a =
    built_object (entry (text "a") (sr_value_strand (some (text "x"))) end) _
      (built_insert_str Objects.new _ (some (text "a")) (some (text "x")) built_new refl) refl

Built-IsWhole_example :
    IsWhole (sr_value_object (entry (text "a") (sr_value_strand (some (text "x"))) end))
Built-IsWhole_example = Built-IsWhole types (λ f. f) _ x_under_a

value_to_sdb-Built_example :
    value_to_sdb types (sr_value_object (entry (text "a") (sr_value_strand (some (text "x"))) end))
    ≢ fault
value_to_sdb-Built_example = value_to_sdb-Built types (λ f. f) _ x_under_a
