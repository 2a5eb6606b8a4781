-- ===== src/Client/Records/Sends.antt =====
-- What the operations with a content hand to the client, and what they write.
use surrealdb_c.Prelude.{◌≡◌, refl, ap, ◌∙◌, true, false, Option, none, some, Text}
use surrealdb_c.Prelude.Int.{CInt}
use surrealdb_c.Rust.Utf8.{valid_from, start}
use surrealdb_c.Rust.Utf8.Laws.{to_string_lossy-valid}
use surrealdb_c.Rust.BTree.{IsSorted}
use surrealdb_c.Sdb.{SdbTypes, SdbLaws, SdbValue, SdbFields, entries_of}
use surrealdb_c.Types.Values.{Array, Object}
use surrealdb_c.Types.Strings.{StringT}
use surrealdb_c.Types.FromSdb.{object_from_sdb}
use surrealdb_c.Types.ToSdb.Clean.{AreCleanFields}
use surrealdb_c.Types.ToSdb.RoundTrip.{sdb_object_from-object_from_sdb}
use surrealdb_c.Client.Engine.{
  Engine, Resource, Reply, replied, Async, Step, done, await, text_of, ◌>>=◌,
}
use surrealdb_c.Client.Guard.{
  OutPtr, valid, returned, Surreal, CFn, check_null, with_surreal_async, with_surreal_async-clear,
  settle,
}
use surrealdb_c.Client.Resource.{parse_resource}
use surrealdb_c.Client.Rows.{rows, rows_code, write_rows, object_at}
use surrealdb_c.Client.Records.{insert, merge, update, upsert}

-- The four operations with a content.
pub data ContentOp : Type 0 where
  inserting merging updating upserting : ContentOp

module _ {E : SdbTypes} (G : Engine E) where
  -- The C function, and the method of the client that it stands for.
  abbrev pub c_function : ContentOp → OutPtr → OutPtr → StringT → Option Object → CFn G.Db Array
  c_function inserting = insert G
  c_function merging = merge G
  c_function updating = update G
  c_function upserting = upsert G

  abbrev pub client_method : ContentOp → Resource E → SdbFields E → Reply G.Db (SdbValue E)
  client_method inserting = G.insert_content
  client_method merging = G.update_merge
  client_method updating = G.update_content
  client_method upserting = G.upsert_content

  pub text_of-valid :
      (t : Text) (d : G.Db) → valid_from start t ≡ true → text_of G (some t) d ≡ (done t, d)
  unfolding text_of
  text_of-valid t d h = rw ((to_string_lossy-valid t h).1, text_of)

  -- The common body of the four operations.
  with_content :
      (Text → SdbFields E → Reply G.Db (SdbValue E))
      → Text
      → SdbFields E
      → Async G.Db (CInt × Option Array)
  with_content m t o = do
    name ← text_of G (some t)
    object ← object_at E (some (object_from_sdb E o))
    val ← await (m name object)
    write_rows (rows E val)

  with_content_lem :
      (laws : SdbLaws E) (m : Text → SdbFields E → Reply G.Db (SdbValue E)) (t : Text)
      (o : SdbFields E) (d d' : G.Db) (v : SdbValue E)
      → valid_from start t ≡ true
      → AreCleanFields o
      → IsSorted (entries_of o)
      → m t o d ≡ (replied v, d')
      → with_content m t o d ≡ (done (rows_code (rows E v), some (rows E v)), d')
  unfolding with_content object_at write_rows
  with_content_lem laws m t o d d' v ht ho hs hm =
      rw (text_of-valid t d ht, sdb_object_from-object_from_sdb E laws o ho hs, hm)

  c_function-eq-with_content :
      (op : ContentOp) (t : Text) (o : SdbFields E) (s : Surreal G.Db)
      → c_function op valid valid (some t) (some (object_from_sdb E o)) s
        ≡ with_surreal_async valid
            (with_content (λ name. client_method op (parse_resource E name)) t o)
            s
  unfolding insert merge update upsert check_null with_content
  c_function-eq-with_content inserting t o s = refl
  c_function-eq-with_content _ t o s = refl

  -- On a clear connection and with valid pointers, `sr_insert`, `sr_merge`, `sr_update` and
  -- `sr_upsert` with a UTF-8 resource and a clean object from the database, its keys in order and
  -- its arrays, bytes and geometries of fewer than 2^31 elements, call their method of the client
  -- once, with the parsed resource and that same object, and, if it replies, return the number of
  -- rows and write them. The crates keep their laws.
  pub content_is_sent :
      (laws : SdbLaws E) (op : ContentOp) (t : Text) (o : SdbFields E) (s : Surreal G.Db) (d : G.Db)
      (v : SdbValue E)
      → s.ps ≡ false
      → valid_from start t ≡ true
      → AreCleanFields o
      → IsSorted (entries_of o)
      → client_method op (parse_resource E t) o s.db ≡ (replied v, d)
      → c_function op valid valid (some t) (some (object_from_sdb E o)) s
        ≡ (returned (rows_code (rows E v)) none (some (rows E v)), record { db = d; ps = s.ps })
  content_is_sent laws op t o s d v hp ht ho hs hm =
      c_function-eq-with_content op t o s
      ∙ with_surreal_async-clear valid
          (with_content (λ name. client_method op (parse_resource E name)) t o) s hp
      ∙ ap
          (λ (r : Step (CInt × Option Array) × G.Db).
            (settle valid r.0, record { db = r.1; ps = s.ps }))
          (with_content_lem laws (λ name. client_method op (parse_resource E name)) t o s.db d v ht
            ho hs hm)
      ∙ (unfold settle in refl)
