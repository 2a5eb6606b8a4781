-- ===== src/Tests/Data.antt =====
-- The theorems on the data of C.
use surrealdb_c.Prelude.{◌≡◌, ◌<◌, refl, true, none, some, [], ◌∷◌, map, text, length, arith}
use surrealdb_c.Prelude.Int.{pos}
use surrealdb_c.Rust.Run.{ok}
use surrealdb_c.Rust.BTree.{compare_text, IsSorted}
use surrealdb_c.Rust.Utf8.{valid_from, next}
use surrealdb_c.Sdb.{list_of_items, key_string, sdb_number, sdb_string, sdb_object, sdb_record_id}
use surrealdb_c.Types.FromSdb.{value_from_sdb}
use surrealdb_c.Types.ToSdb.{value_to_sdb}
use surrealdb_c.Types.ToSdb.RoundTrip.{value_to_sdb-value_from_sdb}
use surrealdb_c.Types.Memory
use surrealdb_c.Types.Memory.{Heap}
use surrealdb_c.Types.Memory.Shared.{send, send_once}
use surrealdb_c.Types.Memory.Arrays.{clone_apart}
use surrealdb_c.Types.Objects
use surrealdb_c.Types.Objects.Keys.{listed, HasCKeys, get-object_keys}
use surrealdb_c.Types.Arrays
use surrealdb_c.Types.Arrays.Laws.{array_get-array_push}
use surrealdb_c.Types.Constructors.{
  value_string, value_thing, value_datetime, value_decimal, value_multilinestring, value_linestring,
}
use surrealdb_c.Types.Constructors.Converted.{value_to_sdb-value_string}
use surrealdb_c.Types.Constructors.Lines.{pointer, len_of, value_to_sdb-value_multilinestring}
use surrealdb_c.Types.Geometries.{SrGLinestring, linestring_to_geo}
use surrealdb_c.Types.Values.{Object, entry, end, entries, sr_value_null, sr_value_bool}
use surrealdb_c.Rust.Run.{◌>>=◌, fault}
use surrealdb_c.Rust.Utf8.Laws.{IsCText}
use surrealdb_c.Prelude.{ℕ, if◌then◌else◌, ◌==◌}
use surrealdb_c.Prelude.Int.{negsuc}
use surrealdb_c.Sdb.{sdb_decimal, sdb_datetime, sdb_geometry, geo_multi_line, geo_line}
use surrealdb_c.Types.ToSdb.Total.{Converts, value_from_sdb-Converts}
use surrealdb_c.Tests.World.{one_row, person, person-IsClean, person-IsSorted, types, laws}

value_to_sdb-value_from_sdb_example :
    value_to_sdb types (value_from_sdb types (sdb_object person)) ≡ ok (sdb_object person)
value_to_sdb-value_from_sdb_example =
    value_to_sdb-value_from_sdb types laws (sdb_object person) (person-IsClean, person-IsSorted)

abbrev no_blocks : Heap ℕ
no_blocks = record { next = 0; at = λ _. none }

abbrev some_bytes : Memory.Bytes × Heap ℕ
some_bytes = Memory.bytes_from_sdb (1 ∷ 2 ∷ []) no_blocks

send_once_example :
    ((send some_bytes.0 some_bytes.1 >>= λ r. ok r.0) ≡ ok (1 ∷ 2 ∷ []))
    × ((send some_bytes.0 some_bytes.1 >>= λ r. Memory.as_slice some_bytes.0 r.1) ≡ fault)
    × ((send some_bytes.0 some_bytes.1 >>= λ r. Memory.free_bytes some_bytes.0 r.1) ≡ fault)
    × ((send some_bytes.0 some_bytes.1 >>= λ r. send some_bytes.0 r.1) ≡ fault)
send_once_example = send_once 1 (2 ∷ []) no_blocks (omega arith)

abbrev two : Memory.ArrayGen × Heap ℕ
two = Memory.make_array (1 ∷ 2 ∷ []) no_blocks

clone_apart_example :
    (Memory.as_slice two.0 two.1 ≡ ok (1 ∷ 2 ∷ []))
    × ((Memory.clone two.0 two.1 >>= λ c. Memory.free c.0 c.1 >>= λ h. Memory.as_slice two.0 h)
        ≡ ok (1 ∷ 2 ∷ []))
    × ((Memory.clone two.0 two.1 >>= λ c.
          Memory.free two.0 c.1 >>= λ h. Memory.into_vec c.0 h >>= λ r. ok r.0)
        ≡ ok (1 ∷ 2 ∷ []))
clone_apart_example = clone_apart 1 (2 ∷ []) no_blocks (omega arith)

abbrev flags : Object
flags = entry (text "a") sr_value_null (entry (text "b") (sr_value_bool true) end)

flags-IsSorted : IsSorted (entries flags)
unfolding entries compare_text
flags-IsSorted = ((refl, tt), (tt, tt))

flags-HasCKeys : HasCKeys (entries flags)
unfolding entries valid_from next
flags-HasCKeys = ground arith

few_flags : length (entries flags) < 2147483648
unfolding entries
few_flags = omega arith

get-object_keys_example :
    (Objects.object_len (some flags) ≡ pos (length (entries flags)))
    × (Objects.object_keys (some flags) (some tt)
        ≡ (pos (length (entries flags)), some (listed (entries flags))))
    × (map (Objects.get flags) (listed (entries flags)) ≡ map (λ e. some e.1) (entries flags))
get-object_keys_example = get-object_keys flags few_flags flags-IsSorted flags-HasCKeys

array_get-array_push_example :
    (Arrays.array_len (some (Arrays.array_push none (some sr_value_null))) ≡ pos 1)
    × (Arrays.array_get (some (Arrays.array_push none (some sr_value_null))) (pos 0)
        ≡ (if 0 == 0 then some sr_value_null else Arrays.array_get none (pos 0)))
    × (Arrays.array_get (some (Arrays.array_push none (some sr_value_null))) (negsuc 0) ≡ none)
array_get-array_push_example = array_get-array_push none sr_value_null 0 (omega arith)

tom-IsCText : IsCText (text "tom")
unfolding valid_from next
tom-IsCText = ground arith

value_to_sdb-value_string_example :
    ((value_string (some (text "tom")) >>= value_to_sdb types) ≡ ok (sdb_string (text "tom")))
    × ((value_thing (some (text "tom")) (some (text "tom")) >>= value_to_sdb types)
        ≡ ok (sdb_record_id (text "tom") (key_string (text "tom"))))
    × ((value_datetime (some (types.datetime_to_string tt)) >>= value_to_sdb types)
        ≡ ok (sdb_datetime tt))
    × ((value_decimal (some (types.decimal_to_string tt)) >>= value_to_sdb types)
        ≡ ok (sdb_number (sdb_decimal tt)))
value_to_sdb-value_string_example =
    value_to_sdb-value_string types laws (text "tom") (text "tom") tt tt tom-IsCText tom-IsCText

abbrev line : SrGLinestring
line = record { x = 1; y = 2 } ∷ []

value_to_sdb-value_multilinestring_example :
    ((value_multilinestring (some (map pointer (line ∷ []))) (some (map len_of (line ∷ []))) (pos 1)
        >>= value_to_sdb types)
      ≡ ok (sdb_geometry (geo_multi_line (map linestring_to_geo (line ∷ [])))))
    × ((value_linestring (some line) (pos 1) >>= value_to_sdb types)
        ≡ ok (sdb_geometry (geo_line (linestring_to_geo line))))
    × ((value_multilinestring none none (pos 5) >>= value_to_sdb types)
        ≡ ok (sdb_geometry (geo_multi_line [])))
    × ((value_linestring none (pos 5) >>= value_to_sdb types) ≡ ok (sdb_geometry (geo_line [])))
value_to_sdb-value_multilinestring_example =
    value_to_sdb-value_multilinestring types line (line ∷ []) (pos 5)

value_from_sdb-Converts_example : Converts types laws (value_from_sdb types one_row)
unfolding list_of_items
value_from_sdb-Converts_example = value_from_sdb-Converts types laws one_row (ground arith)
