-- ===== src/Rpc/Cbor/Typed.antt =====
-- What a value that is read from CBOR can be.
use surrealdb_c.Prelude.{List, [], ◌∷◌, All}
use surrealdb_c.Prelude.Int.{as_i64-IsI64, IsI64}
use surrealdb_c.Rust.BTree.{BTreeMap, collect, IsSorted}
use surrealdb_c.Rust.BTree.Values.{AllValues, AllValues-collect}
use surrealdb_c.Rust.BTree.Collect.{collect-IsSorted}
use surrealdb_c.Sdb.{
  SdbTypes, SdbValue, SdbItems, SdbFields, sdb_none, sdb_null, sdb_bool, sdb_number, sdb_int,
  sdb_float, sdb_decimal, sdb_string, sdb_bytes, sdb_array, sdb_object, no_items, item, no_fields,
  field, items_of, fields_of, entries_of,
}
use surrealdb_c.Rpc.Cbor.{
  Cbor, CborItems, CborPairs, cbor_null, cbor_bool, cbor_integer, cbor_float, cbor_text, cbor_bytes,
  cbor_array, cbor_map, cbor_other, no_cbor, cons_cbor, no_pair, pair, cbor_to_value,
  cbor_to_values, cbor_to_entries,
}
use surrealdb_c.Rpc.Cbor.Normal.{entries_of-fields_of}

-- Integers of 64 bits, floats, strings, bytes, Booleans, none and null, and arrays and objects of these,
-- with the keys of objects in order.
abbrev mutual
  pub IsReadable : {E : SdbTypes} → SdbValue E → Type 0
  IsReadable sdb_none = Unit
  IsReadable sdb_null = Unit
  IsReadable (sdb_bool _) = Unit
  IsReadable (sdb_number (sdb_int i)) = IsI64 i
  IsReadable (sdb_number (sdb_float _)) = Unit
  IsReadable (sdb_number (sdb_decimal _)) = ⊥
  IsReadable (sdb_string _) = Unit
  IsReadable (sdb_bytes _) = Unit
  IsReadable (sdb_array a) = AreReadable a
  IsReadable (sdb_object o) = AreReadableFields o × IsSorted (entries_of o)
  IsReadable _ = ⊥

  AreReadable : {E : SdbTypes} → SdbItems E → Type 0
  AreReadable no_items = Unit
  AreReadable (item v vs) = IsReadable v × AreReadable vs

  AreReadableFields : {E : SdbTypes} → SdbFields E → Type 0
  AreReadableFields no_fields = Unit
  AreReadableFields (field _ v fs) = IsReadable v × AreReadableFields fs

module _ {E : SdbTypes} where
  items_of-AreReadable : (vs : List (SdbValue E)) → All IsReadable vs → AreReadable (items_of vs)
  unfolding items_of
  items_of-AreReadable [] h = tt
  items_of-AreReadable (v ∷ vs) h = (h.0, items_of-AreReadable vs h.1)

  fields_of-AreReadableFields :
      (m : BTreeMap (SdbValue E)) → AllValues IsReadable m → AreReadableFields (fields_of m)
  unfolding fields_of
  fields_of-AreReadableFields [] h = tt
  fields_of-AreReadableFields ((k, v) ∷ m) h = (h.0, fields_of-AreReadableFields m h.1)

module _ {Other : Type 0} (E : SdbTypes) where
  mutual
    unfolding cbor_to_value

    read_value : (c : Cbor Other) → IsReadable (cbor_to_value E c)
    read_value (cbor_integer i) = as_i64-IsI64 i
    read_value (cbor_array a) = items_of-AreReadable (cbor_to_values E a) (read_values a)
    read_value (cbor_map m) =
        let es = cbor_to_entries E m in
        (
          fields_of-AreReadableFields (collect es)
              (AllValues-collect IsReadable es (read_entries m)),
          rw (entries_of-fields_of (collect es)) (collect-IsSorted es),
        )
    read_value cbor_null = tt
    read_value (cbor_bool b) = tt
    read_value (cbor_float f) = tt
    read_value (cbor_text s) = tt
    read_value (cbor_bytes b) = tt
    read_value (cbor_other o) = tt

    read_values : (a : CborItems Other) → All IsReadable (cbor_to_values E a)
    read_values no_cbor = tt
    read_values (cons_cbor c cs) = (read_value c, read_values cs)

    read_entries : (m : CborPairs Other) → AllValues IsReadable (cbor_to_entries E m)
    read_entries no_pair = tt
    read_entries (pair (cbor_text k) v ps) = (read_value v, read_entries ps)
    read_entries (pair _ v ps) = read_entries ps

  -- Whatever CBOR a client sends, what is read of it is none, null, a Boolean, an integer within 64 bits, a
  -- float, a string, bytes, or an array or an object of these, and the keys of every object, at any depth,
  -- are in order and without duplicates.
  pub cbor_to_value-IsReadable : (c : Cbor Other) → IsReadable (cbor_to_value E c)
  cbor_to_value-IsReadable c = read_value c
