-- ===== src/Rpc/Cbor.antt =====
-- `cbor_to_value` and `value_to_cbor` of src/rpc.rs
pub mod Normal
pub mod RoundTrip
pub mod Typed
use surrealdb_c.Prelude.{ℕ, Bool, List, [], ◌∷◌, Text}
use surrealdb_c.Prelude.Int.{ℤ, as_i64}
use surrealdb_c.Rust.BTree.{collect}
use surrealdb_c.Sdb.{
  Float, SdbTypes, SdbNumber, sdb_int, sdb_float, sdb_decimal, SdbValue, SdbItems, SdbFields,
  sdb_none, sdb_null, sdb_bool, sdb_number, sdb_string, sdb_duration, sdb_datetime, sdb_uuid,
  sdb_array, sdb_object, sdb_geometry, sdb_bytes, sdb_record_id, sdb_other, no_items, item,
  no_fields, field, items_of, fields_of,
}

-- `ciborium::Value`; `Other` holds what the code does not name, such as tags.
mutual
  pub data Cbor (Other : Type 0) : Type 0 where
    cbor_null : Cbor Other
    cbor_bool : Bool → Cbor Other
    cbor_integer : ℤ → Cbor Other
    cbor_float : Float → Cbor Other
    cbor_text : Text → Cbor Other
    cbor_bytes : List ℕ → Cbor Other
    cbor_array : CborItems Other → Cbor Other
    cbor_map : CborPairs Other → Cbor Other
    cbor_other : Other → Cbor Other

  pub data CborItems (Other : Type 0) : Type 0 where
    no_cbor : CborItems Other
    cons_cbor : Cbor Other → CborItems Other → CborItems Other

  pub data CborPairs (Other : Type 0) : Type 0 where
    no_pair : CborPairs Other
    pair : Cbor Other → Cbor Other → CborPairs Other → CborPairs Other

-- The entry of an object that a pair of a map makes, in front of the others: only a text is a key.
abbrev pub text_entry : {Other V : Type 0} → Cbor Other → V → List (Text × V) → List (Text × V)
text_entry (cbor_text k) v es = (k, v) ∷ es
text_entry cbor_null v es = es
text_entry (cbor_bool _) v es = es
text_entry (cbor_integer _) v es = es
text_entry (cbor_float _) v es = es
text_entry (cbor_bytes _) v es = es
text_entry (cbor_array _) v es = es
text_entry (cbor_map _) v es = es
text_entry (cbor_other _) v es = es

unfoldable mutual
  unfolding as_i64

  pub cbor_to_value : {Other : Type 0} (E : SdbTypes) → Cbor Other → SdbValue E
  cbor_to_value E cbor_null = sdb_null
  cbor_to_value E (cbor_bool b) = sdb_bool b
  cbor_to_value E (cbor_integer i) = sdb_number (sdb_int (as_i64 i))
  cbor_to_value E (cbor_float f) = sdb_number (sdb_float f)
  cbor_to_value E (cbor_text s) = sdb_string s
  cbor_to_value E (cbor_bytes b) = sdb_bytes b
  cbor_to_value E (cbor_array a) = sdb_array (items_of (cbor_to_values E a))
  cbor_to_value E (cbor_map m) = sdb_object (fields_of (collect (cbor_to_entries E m)))
  cbor_to_value E (cbor_other _) = sdb_none

  pub cbor_to_values : {Other : Type 0} (E : SdbTypes) → CborItems Other → List (SdbValue E)
  cbor_to_values E no_cbor = []
  cbor_to_values E (cons_cbor c cs) = cbor_to_value E c ∷ cbor_to_values E cs

  -- The entries that are inserted into the object, in turn.
  pub cbor_to_entries : {Other : Type 0} (E : SdbTypes) → CborPairs Other → List (Text × SdbValue E)
  cbor_to_entries E no_pair = []
  cbor_to_entries E (pair k v ps) = text_entry k (cbor_to_value E v) (cbor_to_entries E ps)

-- `debug` is `format!("{v:?}")`.
unfoldable mutual
  pub value_to_cbor :
      {Other : Type 0} {E : SdbTypes} (debug : SdbValue E → Text) → SdbValue E → Cbor Other
  value_to_cbor debug sdb_none = cbor_null
  value_to_cbor debug sdb_null = cbor_null
  value_to_cbor debug (sdb_bool b) = cbor_bool b
  value_to_cbor debug (sdb_number (sdb_int i)) = cbor_integer i
  value_to_cbor debug (sdb_number (sdb_float f)) = cbor_float f
  value_to_cbor {E = E} debug (sdb_number (sdb_decimal d)) = cbor_text (E.decimal_to_string d)
  value_to_cbor debug (sdb_string s) = cbor_text s
  value_to_cbor debug (sdb_array a) = cbor_array (items_to_cbor debug a)
  value_to_cbor debug (sdb_object o) = cbor_map (fields_to_cbor debug o)
  value_to_cbor debug v = cbor_text (debug v)

  pub items_to_cbor :
      {Other : Type 0} {E : SdbTypes} (debug : SdbValue E → Text) → SdbItems E → CborItems Other
  items_to_cbor debug no_items = no_cbor
  items_to_cbor debug (item v vs) = cons_cbor (value_to_cbor debug v) (items_to_cbor debug vs)

  pub fields_to_cbor :
      {Other : Type 0} {E : SdbTypes} (debug : SdbValue E → Text) → SdbFields E → CborPairs Other
  fields_to_cbor debug no_fields = no_pair
  fields_to_cbor debug (field k v fs) =
      pair (cbor_text k) (value_to_cbor debug v) (fields_to_cbor debug fs)
