-- ===== src/Rpc/Request.antt =====
-- `parse_cbor_request` of src/rpc.rs
pub mod Entries
use surrealdb_c.Prelude.{
  Bool, true, false, [], ◌∷◌, ◌++◌, List, Text, text, Ordering, if◌then◌else◌,
}
use surrealdb_c.Rust.BTree.{text_eq}
use surrealdb_c.Sdb.{SdbTypes, SdbValue, SdbItems, items_of}
use surrealdb_c.Types.Strings.{StringT, to_string_t}
use surrealdb_c.Rpc.Cbor.{
  Cbor, CborPairs, cbor_null, cbor_bool, cbor_integer, cbor_float, cbor_text, cbor_bytes,
  cbor_array, cbor_map, cbor_other, no_pair, pair, cbor_to_values,
}

pub data Parsed (A : Type 0) : Type 0 where
  parsed : A → Parsed A
  rejected : StringT → Parsed A

-- The method and the parameters found so far.
abbrev pub Request : SdbTypes → Type 0
Request E = Text × List (SdbValue E)

-- `v.as_text().unwrap_or("")`
unfoldable pub text_or_empty : {Other : Type 0} → Cbor Other → Text
text_or_empty (cbor_text s) = s
text_or_empty _ = []

-- `if let Some(arr) = v.as_array()`, with a `push` for each item
unfoldable pub push_params :
    {Other : Type 0} (E : SdbTypes) → Cbor Other → List (SdbValue E) → List (SdbValue E)
push_params E (cbor_array a) params = params ++ cbor_to_values E a
push_params E _ params = params

-- The match on the key of a pair.
unfoldable pub read_key :
    {Other : Type 0} (E : SdbTypes) → Text → Cbor Other → Request E → Request E
read_key E key v (method, params) =
    if text_eq key (text "method")
    then (text_or_empty v, params)
    else if text_eq key (text "params")
    then (method, push_params E v params)
    else (method, params)

-- Pairs whose key is not a text are passed over.
unfoldable pub read_pair :
    {Other : Type 0} (E : SdbTypes) → Cbor Other → Cbor Other → Request E → Request E
read_pair E (cbor_text key) v r = read_key E key v r
read_pair E _ v r = r

unfoldable pub read_pairs :
    {Other : Type 0} (E : SdbTypes) → CborPairs Other → Request E → Request E
read_pairs E no_pair r = r
read_pairs E (pair k v ps) r = read_pairs E ps (read_pair E k v r)

abbrev pub expected_map : StringT
expected_map = to_string_t (text "Expected CBOR map for RPC request")

unfoldable pub parse_cbor_request :
    {Other : Type 0} (E : SdbTypes) → Cbor Other → Parsed (Text × SdbItems E)
parse_cbor_request E (cbor_map m) =
    let (method, params) = read_pairs E m ([], []) in parsed (method, items_of params)
parse_cbor_request E _ = rejected expected_map
