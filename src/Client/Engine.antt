-- ===== src/Client/Engine.antt =====
-- The `surrealdb` client that src/lib.rs calls, as a parameter, and the futures that await it.
use surrealdb_c.Prelude.{ℕ, Bool, none, some, List, Text}
use surrealdb_c.Rust.Run.{Payload, Run, ok, panic, fault}
use surrealdb_c.Rust.Utf8.{to_str}
use surrealdb_c.Sdb.{SdbTypes, SdbValue, SdbFields, RecordIdKey}
use surrealdb_c.Types.Strings.{StringT, to_string_t}

-- How an awaited call of the client ends: with a reply, with an error of this display, or by a panic.
pub data Ended (A : Type 0) : Type 0 where
  replied : A → Ended A
  refused : Text → Ended A
  panicked : Payload → Ended A

-- `surrealdb::opt::Resource`: a record id, or what `Resource::from` reads in a string.
pub data Resource (E : SdbTypes) : Type 0 where
  resource_record_id : E.TableName → RecordIdKey E → Resource E
  resource_from : Text → Resource E

-- `PatchOp`, with its path
pub data PatchOp (E : SdbTypes) : Type 0 where
  patch_op_add : Text → SdbValue E → PatchOp E
  patch_op_remove : Text → PatchOp E
  patch_op_replace : Text → SdbValue E → PatchOp E

-- What is bound to a query: nothing, one named object, or the fields of an object.
pub data Binding (E : SdbTypes) : Type 0 where
  unbound : Binding E
  bind_one : Text → SdbFields E → Binding E
  bind_all : SdbFields E → Binding E

-- `surrealdb::opt::auth`
pub data Login (E : SdbTypes) : Type 0 where
  login_root : (username password : Text) → Login E
  login_namespace : (namespace username password : Text) → Login E
  login_database : (namespace database username password : Text) → Login E
  login_record : (namespace database access : Text) (params : SdbFields E) → Login E

-- A call of the client: it may change the database however it ends.
abbrev pub Reply : Type 0 → Type 0 → Type 0
Reply Db A = Db → Ended A × Db

pub record Engine (E : SdbTypes) : Type 1 where
  pub Db : Type 0
  -- The answer to a query, and `res.take(i)`, which moves a statement's result out of it.
  pub Response : Type 0
  pub num_statements : Response → ℕ
  pub take : ℕ → Response → Ended (SdbValue E) × Response
  -- The stream of a live query.
  pub LiveStream : Type 0
  -- `Utf8Error`'s display, for the bytes that it was found in
  pub utf8_error : Text → Text
  -- `format!("{:?}", value)`
  pub value_debug : SdbValue E → Text
  -- `Runtime::new()` and `any::connect(endpoint)`
  pub runtime_new : Bool
  pub connect : Text → Ended Db
  pub authenticate : Text → Reply Db (Unit {0})
  pub query : Text → Binding E → Reply Db Response
  pub delete : Resource E → Reply Db (SdbValue E)
  pub export_to : Text → Reply Db (Unit {0})
  pub import_from : Text → Reply Db (Unit {0})
  pub health : Reply Db (Unit {0})
  pub insert_content : Resource E → SdbFields E → Reply Db (SdbValue E)
  pub insert_relation : Resource E → SdbFields E → Reply Db (SdbValue E)
  pub run : Text → List (SdbValue E) → Reply Db (SdbValue E)
  pub invalidate : Reply Db (Unit {0})
  pub select : Resource E → Reply Db (SdbValue E)
  pub select_live : Resource E → Reply Db LiveStream
  pub update_content : Resource E → SdbFields E → Reply Db (SdbValue E)
  pub update_merge : Resource E → SdbFields E → Reply Db (SdbValue E)
  pub update_patch : Resource E → PatchOp E → Reply Db (SdbValue E)
  pub upsert_content : Resource E → SdbFields E → Reply Db (SdbValue E)
  pub set : Text → SdbValue E → Reply Db (Unit {0})
  pub unset : Text → Reply Db (Unit {0})
  -- `signin` and `signup`, with `jwt.access.into_insecure_token()`
  pub signin : Login E → Reply Db Text
  pub signup : Login E → Reply Db Text
  pub use_db : Text → Reply Db (Unit {0})
  pub use_ns : Text → Reply Db (Unit {0})
  pub version : Reply Db Text

-- How the body of an operation ends: with its `Result<_, string_t>`, by a panic, or by undefined
-- behaviour.
pub data Step (A : Type 0) : Type 0 where
  done : A → Step A
  failed : StringT → Step A
  unwound : Payload → Step A
  faulted : Step A

abbrev pub Async : Type 0 → Type 0 → Type 0
Async Db A = Db → Step A × Db

abbrev pub continue : {Db A B : Type 0} → Step A → (A → Async Db B) → Async Db B
continue (done a) f d = f a d
continue (failed e) f d = (failed e, d)
continue (unwound p) f d = (unwound p, d)
continue faulted f d = (faulted, d)

infixl 5 ◌>>=◌ ◌>>◌
abbrev pub ◌>>=◌ : {Db A B : Type 0} → Async Db A → (A → Async Db B) → Async Db B
◌>>=◌ m f d = let (r, d') = m d in continue r f d'

abbrev pub ◌>>◌ : {Db A B : Type 0} → Async Db A → Async Db B → Async Db B
m >> n = m >>= λ _. n

abbrev pub pure : {Db A : Type 0} → A → Async Db A
pure a d = (done a, d)

-- `return Err(message.into())`
abbrev pub fail : {Db A : Type 0} → Text → Async Db A
fail e d = (failed (to_string_t e), d)

abbrev pub of_run : {A : Type 0} → Run A → Step A
of_run (ok a) = done a
of_run (panic p) = unwound p
of_run fault = faulted

-- Plain code in the body of an operation.
abbrev pub lift : {Db A : Type 0} → Run A → Async Db A
lift r d = (of_run r, d)

-- `.map_err(|e| string_t::from(e.to_string()))?`
abbrev pub of_ended : {A : Type 0} → Ended A → Step A
of_ended (replied a) = done a
of_ended (refused e) = failed (to_string_t e)
of_ended (panicked p) = unwound p

abbrev pub await : {Db A : Type 0} → Reply Db A → Async Db A
await m d = let (r, d') = m d in (of_ended r, d')

-- `CStr::from_ptr(p).to_str()?`
unfoldable pub text_of : {E : SdbTypes} (G : Engine E) → StringT → Async G.Db Text
text_of G none d = (faulted, d)
text_of G (some s) d = elim (to_str s) [
  | some t ↦ (done t, d)
  | none ↦ (failed (to_string_t (G.utf8_error s)), d)
]
