-- ===== src/Rpc/Cbor/Normal.antt =====
-- Which values come back from CBOR as they were, and what a second trip does.
use surrealdb_c.Prelude.{◌↔◌, subst, ◌≡◌, refl, ap, List, [], ◌∷◌, All, Text}
use surrealdb_c.Prelude.Int.{as_i64-IsI64}
use surrealdb_c.Rust.BTree.{BTreeMap, collect}
use surrealdb_c.Rust.BTree.Values.{AllValues, AllValues-collect}
use surrealdb_c.Rust.BTree.Collect.{collect-IsSorted}
use surrealdb_c.Sdb.{
  SdbTypes, SdbValue, SdbItems, SdbFields, sdb_none, sdb_null, sdb_bool, sdb_number, sdb_int,
  sdb_float, sdb_decimal, sdb_string, sdb_array, sdb_object, no_items, item, no_fields, field,
  items_of, fields_of, entries_of,
}
use surrealdb_c.Rpc.Cbor.{
  cbor_to_value, cbor_to_values, cbor_to_entries, value_to_cbor, items_to_cbor, fields_to_cbor,
}
use surrealdb_c.Rpc.Cbor.RoundTrip.{IsPlain, ArePlain, ArePlainFields, cbor_to_value-value_to_cbor}

module _ {E : SdbTypes} where
  ArePlain-items_of : (vs : List (SdbValue E)) → All IsPlain vs → ArePlain (items_of vs)
  unfolding items_of
  ArePlain-items_of [] h = tt
  ArePlain-items_of (v ∷ vs) h = (h.0, ArePlain-items_of vs h.1)

  ArePlainFields-fields_of :
      (m : BTreeMap (SdbValue E)) → AllValues IsPlain m → ArePlainFields (fields_of m)
  unfolding fields_of
  ArePlainFields-fields_of [] h = tt
  ArePlainFields-fields_of ((k, v) ∷ m) h = (h.0, ArePlainFields-fields_of m h.1)

  pub entries_of-fields_of : (m : BTreeMap (SdbValue E)) → entries_of (fields_of m) ≡ m
  unfolding entries_of fields_of
  entries_of-fields_of [] = refl
  entries_of-fields_of ((k, v) ∷ m) = ap (◌∷◌ (k, v)) (entries_of-fields_of m)

module _ (Other : Type 0) (E : SdbTypes) (debug : SdbValue E → Text) where
  -- What a client reads of a value that is sent to it.
  abbrev pub sent : SdbValue E → SdbValue E
  sent v = cbor_to_value E (value_to_cbor {Other = Other} debug v)

  mutual
    unfolding cbor_to_value value_to_cbor

    value-IsPlain : (v : SdbValue E) → IsPlain (sent v)
    value-IsPlain sdb_none = tt
    value-IsPlain sdb_null = tt
    value-IsPlain (sdb_bool b) = tt
    value-IsPlain (sdb_number (sdb_int i)) = as_i64-IsI64 i
    value-IsPlain (sdb_number (sdb_float f)) = tt
    value-IsPlain (sdb_number (sdb_decimal d)) = tt
    value-IsPlain (sdb_string s) = tt
    value-IsPlain (sdb_array a) =
        ArePlain-items_of (cbor_to_values E (items_to_cbor {Other = Other} debug a))
          (items-ArePlain a)
    value-IsPlain (sdb_object o) =
        let es = cbor_to_entries E (fields_to_cbor {Other = Other} debug o) in
        (
          ArePlainFields-fields_of (collect es) (AllValues-collect IsPlain es (fields-ArePlain o)),
          rw (entries_of-fields_of (collect es)) (collect-IsSorted es),
        )
    value-IsPlain _ = tt

    items-ArePlain :
        (a : SdbItems E) → All IsPlain (cbor_to_values E (items_to_cbor {Other = Other} debug a))
    items-ArePlain no_items = tt
    items-ArePlain (item v vs) = (value-IsPlain v, items-ArePlain vs)

    fields-ArePlain :
        (o : SdbFields E)
        → AllValues IsPlain (cbor_to_entries E (fields_to_cbor {Other = Other} debug o))
    fields-ArePlain no_fields = tt
    fields-ArePlain (field k v fs) = (value-IsPlain v, fields-ArePlain fs)

  -- Whatever value is sent as CBOR, what is read of it is null, a Boolean, a 64-bit integer, a float,
  -- a string, or arrays and objects of these, and is read unchanged when it is sent again.
  pub sent_twice : (v : SdbValue E) → IsPlain (sent v) × (sent (sent v) ≡ sent v)
  sent_twice v =
      (value-IsPlain v, cbor_to_value-value_to_cbor Other E debug (sent v) (value-IsPlain v))

  -- A value that is sent as CBOR is read back as it was exactly if it is null, a Boolean, a 64-bit
  -- integer, a float, a string, or an array or an object, with its keys in order, of these. Bytes,
  -- durations, datetimes, UUIDs, decimals, geometries and record ids never come back.
  pub sent_iff_IsPlain : (v : SdbValue E) → sent v ≡ v ↔ IsPlain v
  sent_iff_IsPlain v =
      (λ e. subst IsPlain e (value-IsPlain v), λ h. cbor_to_value-value_to_cbor Other E debug v h)
