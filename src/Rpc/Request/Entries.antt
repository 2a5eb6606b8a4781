-- ===== src/Rpc/Request/Entries.antt =====
-- What a request says: its last method, and the items of all its parameter lists.
use surrealdb_c.Prelude.{
  ◌≡◌, refl, sym, subst, ap, ◌∙◌, inl, inr, Bool, true, false, Bool-cases, [], ◌∷◌, ◌++◌,
  append_assoc, append-nil, List, Text, text, if◌then◌else◌,
}
use surrealdb_c.Rust.BTree.Laws.{text_eq→eq}
use surrealdb_c.Rust.BTree.{text_eq}
use surrealdb_c.Sdb.{SdbTypes, SdbValue, SdbItems, items_of}
use surrealdb_c.Rpc.Cbor.{
  Cbor, CborPairs, cbor_text, cbor_array, cbor_map, no_pair, pair, cbor_to_values,
}
use surrealdb_c.Rpc.Request.{
  Parsed, parsed, rejected, text_or_empty, push_params, read_key, read_pair, read_pairs,
  expected_map, parse_cbor_request,
}

-- Whether a key is this text.
abbrev is_key : {Other : Type 0} → Text → Cbor Other → Bool
is_key name (cbor_text k) = text_eq k name
is_key name _ = false

-- The values under a key, in the order of the map.
unfoldable pub values_at : {Other : Type 0} → Text → CborPairs Other → List (Cbor Other)
values_at name no_pair = []
values_at name (pair k v ps) = if is_key name k then v ∷ values_at name ps else values_at name ps

-- The text of the last value, or the empty one.
unfoldable pub last_text : {Other : Type 0} → Text → List (Cbor Other) → Text
last_text m [] = m
last_text m (v ∷ vs) = last_text (text_or_empty v) vs

abbrev array_items : {Other : Type 0} (E : SdbTypes) → Cbor Other → List (SdbValue E)
array_items E (cbor_array a) = cbor_to_values E a
array_items E _ = []

unfoldable pub all_items : {Other : Type 0} (E : SdbTypes) → List (Cbor Other) → List (SdbValue E)
all_items E [] = []
all_items E (v ∷ vs) = array_items E v ++ all_items E vs

not_params : (key : Text) → text_eq key (text "method") ≡ true → text_eq key (text "params") ≡ false
not_params key e =
    subst (λ k. text_eq k (text "params") ≡ false) (sym (text_eq→eq key (text "method") e))
      (unfold text_eq in refl)

module _ {Other : Type 0} (E : SdbTypes) where
  push_params_lem :
      (v : Cbor Other) (ps : List (SdbValue E)) → push_params E v ps ≡ ps ++ array_items E v
  unfolding push_params
  push_params_lem (cbor_array a) ps = refl
  push_params_lem _ ps = sym (append-nil ps)

  read_pairs_lem :
      (m : CborPairs Other) (method : Text) (params : List (SdbValue E))
      → read_pairs E m (method, params) ≡ (
        last_text method (values_at (text "method") m),
        params ++ all_items E (values_at (text "params") m),
      )
  unfolding read_pairs read_pair read_key values_at last_text all_items
  read_pairs_lem no_pair method params =
      ap (λ (ps : List (SdbValue E)). (method, ps)) (sym (append-nil params))
  read_pairs_lem (pair (cbor_text key) v ps) method params =
      elim (Bool-cases (text_eq key (text "method"))) [
        | inl e ↦ rw (e, not_params key e) (read_pairs_lem ps (text_or_empty v) params)
        | inr e ↦ elim (Bool-cases (text_eq key (text "params"))) [
          | inl f ↦
              rw (e, f, push_params_lem v params)
                (read_pairs_lem ps method (params ++ array_items E v)
                  ∙ ap
                      (λ (qs : List (SdbValue E)).
                        (last_text method (values_at (text "method") ps), qs))
                      (append_assoc params (array_items E v)
                        (all_items E (values_at (text "params") ps))))
          | inr f ↦ rw (e, f) (read_pairs_lem ps method params)
        ]
      ]
  read_pairs_lem (pair _ v ps) method params = read_pairs_lem ps method params

  -- The reading of a request: of a map, the text of the last value under "method", empty if there is
  -- none or it is no text, and the items of the arrays under "params", joined in order.
  abbrev pub reading : Cbor Other → Parsed (Text × SdbItems E)
  reading (cbor_map m) = parsed (
    last_text [] (values_at (text "method") m),
    items_of (all_items E (values_at (text "params") m)),
  )
  reading _ = rejected expected_map

  -- A request that is a map parses, whatever other pairs it holds and in whatever order they come:
  -- the method is that of the last pair with key "method", and the parameters are those of all pairs
  -- with key "params". Any other request is rejected with the one message.
  pub parse_cbor_request-reading : (c : Cbor Other) → parse_cbor_request E c ≡ reading c
  unfolding parse_cbor_request
  parse_cbor_request-reading (cbor_map m) = rw (read_pairs_lem m [] [])
  parse_cbor_request-reading _ = refl
