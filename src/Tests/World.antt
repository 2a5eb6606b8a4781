-- ===== src/Tests/World.antt =====
-- Small crates to run the code with.
use surrealdb_c.Prelude.{
  ℕ, ◌+◌, ◌≡◌, refl, Bool, true, false, Option, none, some, List, [], ◌∷◌, Text, text, length,
  get_elem?, arith, ◌==◌,
}
use surrealdb_c.Rust.Utf8.{valid_from, next}
use surrealdb_c.Prelude.Int.{pos}
use surrealdb_c.Rust.BTree.{compare_text, IsSorted}
use surrealdb_c.Sdb.{
  list_of_items, sdb_object, SdbFields, sdb_int, key_string, sdb_number, sdb_record_id, no_fields,
  field, entries_of,
}
use surrealdb_c.Types.ToSdb.Clean.{AreCleanFields, IsClean}
use surrealdb_c.Rust.Time.{StdDuration}
use surrealdb_c.Sdb.{
  SdbTypes, SdbLaws, LineString, SdbValue, sdb_none, sdb_bool, sdb_string, sdb_array, no_items,
  item,
}
use surrealdb_c.Client.Engine.{Engine, replied, panicked, Reply}
use surrealdb_c.Client.Guard.{Surreal}
use surrealdb_c.Rpc.Cbor.{Cbor, cbor_text, cbor_map, pair, no_pair}
use surrealdb_c.Rpc.Inner.{db_other}
use surrealdb_c.Rpc.Context.{Core, SurrealRpc}

abbrev std_of : Bool → StdDuration
std_of true = record { secs = 1; nanos = 500 }
std_of false = record { secs = 0; nanos = 0 }

-- One decimal, one instant, two durations; UUIDs are their bytes and tables their names.
abbrev pub types : SdbTypes
types = record {
  Decimal = Unit;
  Datetime = Unit;
  SdbDuration = Bool;
  SdbUuid = List ℕ;
  TableName = Text;
  Polygon = LineString × List LineString;
  OtherValue = Unit;
  OtherKey = Unit;
  OtherGeometry = Unit;
  decimal_to_string = λ _. text "1.5";
  decimal_parse = λ _. some tt;
  f64_parse = λ _. none;
  datetime_to_string = λ _. text "1970-01-01T00:00:00Z";
  parse_from_rfc3339 = λ _. some tt;
  datetime_default = tt;
  duration_to_std = std_of;
  duration_from_std = λ d. d.secs == 1;
  uuid_into_bytes = λ u. u;
  uuid_from_bytes = λ u. u;
  table_to_string = λ t. t;
  table_from_string = λ t. t;
  polygon_new = λ e i. (e, i);
  polygon_into_inner = λ p. p;
  other_key_debug = λ _. text "key";
}

duration_lem : (d : Bool) → ((std_of d).secs == 1) ≡ d
duration_lem true = refl
duration_lem false = refl

pub laws : SdbLaws types
unfolding valid_from next
laws = record {
  decimal_round = λ d. refl;
  decimal_text = λ d. (ground arith, refl);
  datetime_round = λ d. refl;
  datetime_text = λ d. (ground arith, refl);
  duration_round = duration_lem;
  duration_range = λ d. ground arith;
  uuid_round = λ u. refl;
  table_round = λ t. refl;
  polygon_round = λ p. refl;
}

-- A reply that counts the calls.
abbrev counted : {A : Type 0} → A → Reply ℕ A
counted a d = (replied a, d + 1)

abbrev pub one_row : SdbValue types
one_row = sdb_array (item (sdb_string (text "a")) (item (sdb_bool true) no_items))

abbrev or_none : Option (SdbValue types) → SdbValue types
or_none none = sdb_none
or_none (some v) = v

-- The database counts the calls that it answers; a health check panics.
abbrev pub engine : Engine types
engine = record {
  Db = ℕ;
  Response = List (SdbValue types);
  num_statements = λ r. length r;
  take = λ i r. (replied (or_none (get_elem? r i)), r);
  LiveStream = Unit;
  utf8_error = λ _. text "invalid utf-8";
  value_debug = λ _. text "value";
  runtime_new = true;
  connect = λ _. replied 0;
  authenticate = λ _. counted tt;
  query = λ _ _. counted (one_row ∷ sdb_none ∷ []);
  delete = λ _. counted one_row;
  export_to = λ _. counted tt;
  import_from = λ _. counted tt;
  health = λ d. (panicked (some (text "down")), d);
  insert_content = λ _ _. counted one_row;
  insert_relation = λ _ _. counted one_row;
  run = λ _ _. counted sdb_none;
  invalidate = counted tt;
  select = λ _. counted one_row;
  select_live = λ _. counted tt;
  update_content = λ _ _. counted one_row;
  update_merge = λ _ _. counted one_row;
  update_patch = λ _ _. counted one_row;
  upsert_content = λ _ _. counted one_row;
  set = λ _ _. counted tt;
  unset = λ _. counted tt;
  signin = λ _. counted (text "token");
  signup = λ _. counted (text "token");
  use_db = λ _. counted tt;
  use_ns = λ _. counted tt;
  version = counted (text "3.0.0");
}

abbrev pub fresh : Surreal ℕ
fresh = record { db = 0; ps = false }

abbrev pub ping : Cbor (Unit {0})
ping = cbor_map (pair (cbor_text (text "method")) (cbor_text (text "ping")) no_pair)

-- A core that decodes one request and answers every method with a Boolean.
abbrev pub core : Core types
core = record {
  Other = Unit;
  Kvs = ℕ;
  Session = Bool;
  Method = Text;
  Receiver = Unit;
  value_debug = λ _. text "value";
  utf8_error = λ _. text "invalid utf-8";
  runtime_new = true;
  datastore_new = λ _. replied 0;
  with_notifications = λ k. k;
  with_query_timeout = λ n k. k + n;
  with_transaction_timeout = λ n k. k + n;
  session_default = false;
  with_rt = λ b _. b;
  from_reader = λ _. replied ping;
  into_writer = λ _. replied (0xf5 ∷ []);
  parse_case_insensitive = λ m. m;
  execute_method = λ _ _ d. (replied (db_other (sdb_bool true)), record d { kvs = d.kvs + 1 });
  notifications_of = λ _. some tt;
}

-- A context on it.
abbrev pub context : SurrealRpc core
context = record { db = record { kvs = 0; session_map = (none, true) ∷ [] }; ps = false }

-- { age: 7, of: person:tom }
abbrev pub person : SdbFields types
person =
    field (text "age") (sdb_number (sdb_int (pos 7)))
      (field (text "of") (sdb_record_id (text "person") (key_string (text "tom"))) no_fields)

pub person-IsClean : AreCleanFields person
unfolding valid_from next
person-IsClean = ground arith

pub person-IsSorted : IsSorted (entries_of person)
unfolding entries_of compare_text
person-IsSorted = ((refl, tt), (tt, tt))

pub one_row-IsClean : IsClean one_row
unfolding valid_from next list_of_items
one_row-IsClean = ground arith

-- A database that answers every query with the person.
abbrev pub maker : Engine types
maker = record engine { query = λ _ _. counted (sdb_object person ∷ []) }
