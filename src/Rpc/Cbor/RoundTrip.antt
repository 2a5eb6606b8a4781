-- ===== src/Rpc/Cbor/RoundTrip.antt =====
-- The values of the database that pass through CBOR.
use surrealdb_c.Prelude.{◌≡◌, refl, ap, ap₂, List, ◌∷◌, Text}
use surrealdb_c.Prelude.Int.{ℤ, IsI64, as_i64_self}
use surrealdb_c.Rust.BTree.{IsSorted}
use surrealdb_c.Rust.BTree.Collect.{collect-sorted}
use surrealdb_c.Sdb.{
  SdbTypes, sdb_int, sdb_float, sdb_decimal, SdbValue, SdbItems, SdbFields, sdb_null, sdb_bool,
  sdb_number, sdb_string, sdb_array, sdb_object, no_items, item, no_fields, field, list_of_items,
  entries_of,
}
use surrealdb_c.Types.ToSdb.RoundTrip.{items_round, fields_round}
use surrealdb_c.Rpc.Cbor.{
  cbor_to_value, cbor_to_values, cbor_to_entries, value_to_cbor, items_to_cbor, fields_to_cbor,
}

-- The values that CBOR keeps: null, Booleans, 64-bit integers, floats and strings, and arrays and
-- objects of these, with the keys of objects in order.
abbrev mutual
  pub IsPlain : {E : SdbTypes} → SdbValue E → Type 0
  IsPlain sdb_null = Unit
  IsPlain (sdb_bool _) = Unit
  IsPlain (sdb_number (sdb_int i)) = IsI64 i
  IsPlain (sdb_number (sdb_float _)) = Unit
  IsPlain (sdb_number (sdb_decimal _)) = ⊥
  IsPlain (sdb_string _) = Unit
  IsPlain (sdb_array a) = ArePlain a
  IsPlain (sdb_object o) = ArePlainFields o × IsSorted (entries_of o)
  IsPlain _ = ⊥

  pub ArePlain : {E : SdbTypes} → SdbItems E → Type 0
  ArePlain no_items = Unit
  ArePlain (item v vs) = IsPlain v × ArePlain vs

  pub ArePlainFields : {E : SdbTypes} → SdbFields E → Type 0
  ArePlainFields no_fields = Unit
  ArePlainFields (field _ v fs) = IsPlain v × ArePlainFields fs

module _ (Other : Type 0) (E : SdbTypes) (debug : SdbValue E → Text) where
  mutual
    unfolding cbor_to_value value_to_cbor list_of_items entries_of

    value-round :
        (v : SdbValue E) → IsPlain v → cbor_to_value E (value_to_cbor {Other = Other} debug v) ≡ v
    value-round sdb_null h = refl
    value-round (sdb_bool b) h = refl
    value-round (sdb_number (sdb_int i)) h =
        ap (λ (j : ℤ). sdb_number (sdb_int j)) (as_i64_self i h)
    value-round (sdb_number (sdb_float f)) h = refl
    value-round (sdb_number (sdb_decimal d)) h = absurd h
    value-round (sdb_string s) h = refl
    value-round (sdb_array a) h = rw (items-round a h) (ap sdb_array (items_round a))
    value-round (sdb_object o) h =
        rw (fields-round o h.0, collect-sorted (entries_of o) h.1) (ap sdb_object (fields_round o))
    value-round _ h = absurd h

    items-round :
        (a : SdbItems E)
        → ArePlain a
        → cbor_to_values E (items_to_cbor {Other = Other} debug a) ≡ list_of_items a
    items-round no_items h = refl
    items-round (item v vs) h = ap₂ ◌∷◌ (value-round v h.0) (items-round vs h.1)

    fields-round :
        (o : SdbFields E)
        → ArePlainFields o
        → cbor_to_entries E (fields_to_cbor {Other = Other} debug o) ≡ entries_of o
    fields-round no_fields h = refl
    fields-round (field k v fs) h =
        ap₂ (λ (w : SdbValue E) (es : List (Text × SdbValue E)). (k, w) ∷ es) (value-round v h.0)
          (fields-round fs h.1)

  -- A plain value that is sent as CBOR is read back as it was.
  pub cbor_to_value-value_to_cbor :
      (v : SdbValue E) → IsPlain v → cbor_to_value E (value_to_cbor {Other = Other} debug v) ≡ v
  cbor_to_value-value_to_cbor v h = value-round v h
