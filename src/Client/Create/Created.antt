-- ===== src/Client/Create/Created.antt =====
-- What `sr_create` writes and returns.
use surrealdb_c.Prelude.{
  ◌≡◌, refl, sym, subst, ap, ◌∙◌, false, true, Option, none, some, List, [], ◌∷◌, Text, text,
}
use surrealdb_c.Prelude.Int.{CInt, pos}
use surrealdb_c.Rust.Utf8.{valid_from, start}
use surrealdb_c.Rust.BTree.{IsSorted}
use surrealdb_c.Sdb.{
  SdbTypes, SdbLaws, SdbValue, SdbFields, sdb_array, sdb_object, item, no_items, entries_of,
  list_of_items,
}
use surrealdb_c.Types.Strings.{StringT}
use surrealdb_c.Types.Values.{Object}
use surrealdb_c.Types.FromSdb.{object_from_sdb}
use surrealdb_c.Types.ToSdb.Clean.{AreCleanFields}
use surrealdb_c.Types.ToSdb.RoundTrip.{sdb_object_from-object_from_sdb}
use surrealdb_c.Client.Engine.{Engine, replied, Async, bind_one, ◌>>=◌}
use surrealdb_c.Client.Guard.{
  OutPtr, null, valid, Exit, returned, Surreal, check_null, sr_error, with_surreal_async-clear,
  settle,
}
use surrealdb_c.Client.Rows.{object_at, take_first}
use surrealdb_c.Client.Rows.RoundTrip.{elements}
use surrealdb_c.Client.Records.Sends.{text_of-valid}
use surrealdb_c.Client.Create.{
  create, create_query, created_object, object_of_value, not_an_object, write_object,
}

-- The first of the values, if it is an object.
abbrev pub first_object : {E : SdbTypes} → List (SdbValue E) → Option (SdbFields E)
first_object [] = none
first_object (sdb_object o ∷ _) = some o
first_object (_ ∷ _) = none

-- With an object: it is written and 1 returned, or 0 where there is no pointer for it. Without one:
-- an error.
abbrev pub Created : {E : SdbTypes} → OutPtr → Option (SdbFields E) → Exit Object → Type 0
Created {E} valid (some o) x = x ≡ returned (pos 1) none (some (object_from_sdb E o))
Created null (some o) x = x ≡ returned (pos 0) none none
Created _ none x = (m : StringT) × (x ≡ returned sr_error (some m) none)

module _ {E : SdbTypes} (G : Engine E) where
  -- The end of the call after the value of the statement.
  abbrev finish : OutPtr → SdbValue E → Async G.Db (CInt × Option Object)
  finish res_ptr v = created_object G v >>= λ made. write_object G res_ptr made

  finish-Created :
      (res_ptr : OutPtr) (v : SdbValue E) (d : G.Db)
      → Created res_ptr (first_object (elements v)) (settle valid (finish res_ptr v d).0)
        × ((finish res_ptr v d).1 ≡ d)
  unfolding created_object object_of_value not_an_object write_object settle list_of_items
  finish-Created valid (sdb_object o) d = (refl, refl)
  finish-Created null (sdb_object o) d = (refl, refl)
  finish-Created valid (sdb_array no_items) d = ((_, refl), refl)
  finish-Created null (sdb_array no_items) d = ((_, refl), refl)
  finish-Created valid (sdb_array (item (sdb_object o) vs)) d = (refl, refl)
  finish-Created null (sdb_array (item (sdb_object o) vs)) d = (refl, refl)
  finish-Created valid (sdb_array (item _ vs)) d = ((_, refl), refl)
  finish-Created null (sdb_array (item _ vs)) d = ((_, refl), refl)
  finish-Created valid _ d = ((_, refl), refl)
  finish-Created null _ d = ((_, refl), refl)

  module _ (laws : SdbLaws E) (res_ptr : OutPtr) (t : Text) (o : SdbFields E) (s : Surreal G.Db)
      (res : G.Response) (d : G.Db) (v : SdbValue E) where
    create_lem :
        s.ps ≡ false
        → valid_from start t ≡ true
        → AreCleanFields o
        → IsSorted (entries_of o)
        → G.query (create_query G t) (bind_one (text "content") o) s.db ≡ (replied res, d)
        → (G.take 0 res).0 ≡ replied v
        → create G valid res_ptr (some t) (some (object_from_sdb E o)) s
          ≡ (settle valid (finish res_ptr v d).0, record { db = (finish res_ptr v d).1; ps = s.ps })
    unfolding create check_null object_at take_first
    create_lem hp ht ho hs hq hv =
        with_surreal_async-clear valid _ s hp
        ∙ rw (text_of-valid G t s.db ht, sdb_object_from-object_from_sdb E laws o ho hs, hq, hv)

  -- On a clear connection and with a valid `err_ptr`, `sr_create` with a UTF-8 resource and a
  -- clean object from the database, its keys in order and its arrays, bytes and geometries of fewer
  -- than 2^31 elements, sends one query, `CREATE <resource> CONTENT $content`, with that same object
  -- bound. If the client answers and the first statement has a value, the first object of that
  -- value, it or its first element, is written and 1 returned, or 0 where `res_ptr` is null; with no
  -- object there, it is an error. The crates keep their laws.
  pub create-Created :
      (laws : SdbLaws E) (res_ptr : OutPtr) (t : Text) (o : SdbFields E) (s : Surreal G.Db)
      (res : G.Response) (d : G.Db) (v : SdbValue E)
      → s.ps ≡ false
      → valid_from start t ≡ true
      → AreCleanFields o
      → IsSorted (entries_of o)
      → G.query (create_query G t) (bind_one (text "content") o) s.db ≡ (replied res, d)
      → (G.take 0 res).0 ≡ replied v
      → Created res_ptr
          (first_object (elements v))
          (create G valid res_ptr (some t) (some (object_from_sdb E o)) s).0
        × ((create G valid res_ptr (some t) (some (object_from_sdb E o)) s).1
            ≡ record { db = d; ps = s.ps })
  create-Created laws res_ptr t o s res d v hp ht ho hs hq hv =
      let e = create_lem laws res_ptr t o s res d v hp ht ho hs hq hv in
      let f = finish-Created res_ptr v d in
      (
        subst (λ p. Created res_ptr (first_object (elements v)) p.0) (sym e) f.0,
        ap (λ p. p.1) e ∙ ap (λ x. record { db = x; ps = s.ps }) f.1,
      )
