-- ===== src/Sdb.antt =====
-- The types of the `surrealdb`, `geo_types`, `rust_decimal`, `chrono` and `uuid` crates that the code
-- converts to and from. Their code is not in the repository: what it does is a parameter.
use surrealdb_c.Prelude.{ℕ, ◌≡◌, Bool, Option, some, List, [], ◌∷◌, Text}
use surrealdb_c.Prelude.Int.{ℤ}
use surrealdb_c.Rust.Time.{StdDuration, IsDuration}
use surrealdb_c.Rust.Utf8.Laws.{IsCText}
use surrealdb_c.Rust.BTree.{BTreeMap}

-- An `f64` or `f32` as its bit pattern: the code copies floats and computes with none.
abbrev pub Float : Type 0
Float = ℕ

-- `geo_types::Coord<f64>`
pub record Coord : Type 0 where
  pub x : Float
  pub y : Float

-- `geo_types::LineString<f64>` is a vector of coordinates.
abbrev pub LineString : Type 0
LineString = List Coord

pub record SdbTypes : Type 1 where
  pub Decimal : Type 0
  pub Datetime : Type 0
  pub SdbDuration : Type 0
  pub SdbUuid : Type 0
  pub TableName : Type 0
  pub Polygon : Type 0
  -- What the enumerations hold beside the variants that the code names.
  pub OtherValue : Type 0
  pub OtherKey : Type 0
  pub OtherGeometry : Type 0
  -- `Decimal::to_string` and `str::parse::<Decimal>`
  pub decimal_to_string : Decimal → Text
  pub decimal_parse : Text → Option Decimal
  -- `str::parse::<f64>`
  pub f64_parse : Text → Option Float
  -- `Datetime::to_string`, and `DateTime::parse_from_rfc3339` carried to UTC
  pub datetime_to_string : Datetime → Text
  pub parse_from_rfc3339 : Text → Option Datetime
  pub datetime_default : Datetime
  -- `std::time::Duration::from(d)` and back
  pub duration_to_std : SdbDuration → StdDuration
  pub duration_from_std : StdDuration → SdbDuration
  -- `into_bytes` and `Uuid::from_bytes`
  pub uuid_into_bytes : SdbUuid → List ℕ
  pub uuid_from_bytes : List ℕ → SdbUuid
  -- `table.to_string()` and `String::into`
  pub table_to_string : TableName → Text
  pub table_from_string : Text → TableName
  -- `Polygon::new` and `into_inner`
  pub polygon_new : LineString → List LineString → Polygon
  pub polygon_into_inner : Polygon → LineString × List LineString
  -- `format!("{:?}", key)`
  pub other_key_debug : OtherKey → Text

-- What the code relies on of those crates: each printer is undone by its parser and prints UTF-8 without NUL,
-- a duration keeps its range, and a polygon is rebuilt from its rings.
pub record SdbLaws (E : SdbTypes) : Type 0 where
  pub decimal_round : (d : E.Decimal) → E.decimal_parse (E.decimal_to_string d) ≡ some d
  pub decimal_text : (d : E.Decimal) → IsCText (E.decimal_to_string d)
  pub datetime_round : (d : E.Datetime) → E.parse_from_rfc3339 (E.datetime_to_string d) ≡ some d
  pub datetime_text : (d : E.Datetime) → IsCText (E.datetime_to_string d)
  pub duration_round : (d : E.SdbDuration) → E.duration_from_std (E.duration_to_std d) ≡ d
  pub duration_range : (d : E.SdbDuration) → IsDuration (E.duration_to_std d)
  pub uuid_round : (u : E.SdbUuid) → E.uuid_from_bytes (E.uuid_into_bytes u) ≡ u
  pub table_round : (t : E.TableName) → E.table_from_string (E.table_to_string t) ≡ t
  pub polygon_round :
      (p : E.Polygon) → E.polygon_new (E.polygon_into_inner p).0 (E.polygon_into_inner p).1 ≡ p

-- `surrealdb::types::Number`
pub data SdbNumber (E : SdbTypes) : Type 0 where
  sdb_int : ℤ → SdbNumber E
  sdb_float : Float → SdbNumber E
  sdb_decimal : E.Decimal → SdbNumber E

-- `surrealdb::types::Geometry`
mutual
  pub data Geometry (E : SdbTypes) : Type 0 where
    geo_point : Coord → Geometry E
    geo_line : LineString → Geometry E
    geo_polygon : E.Polygon → Geometry E
    geo_multi_point : List Coord → Geometry E
    geo_multi_line : List LineString → Geometry E
    geo_multi_polygon : List E.Polygon → Geometry E
    geo_collection : Geometries E → Geometry E
    geo_other : E.OtherGeometry → Geometry E

  pub data Geometries (E : SdbTypes) : Type 0 where
    no_geo : Geometries E
    cons_geo : Geometry E → Geometries E → Geometries E

-- `surrealdb::types::Value`, with its arrays, its objects (a wrapped `BTreeMap`) and record ids.
mutual
  pub data SdbValue (E : SdbTypes) : Type 0 where
    sdb_none : SdbValue E
    sdb_null : SdbValue E
    sdb_bool : Bool → SdbValue E
    sdb_number : SdbNumber E → SdbValue E
    sdb_string : Text → SdbValue E
    sdb_duration : E.SdbDuration → SdbValue E
    sdb_datetime : E.Datetime → SdbValue E
    sdb_uuid : E.SdbUuid → SdbValue E
    sdb_array : SdbItems E → SdbValue E
    sdb_object : SdbFields E → SdbValue E
    sdb_geometry : Geometry E → SdbValue E
    sdb_bytes : List ℕ → SdbValue E
    sdb_record_id : E.TableName → RecordIdKey E → SdbValue E
    sdb_other : E.OtherValue → SdbValue E

  pub data RecordIdKey (E : SdbTypes) : Type 0 where
    key_number : ℤ → RecordIdKey E
    key_string : Text → RecordIdKey E
    key_array : SdbItems E → RecordIdKey E
    key_object : SdbFields E → RecordIdKey E
    key_other : E.OtherKey → RecordIdKey E

  pub data SdbItems (E : SdbTypes) : Type 0 where
    no_items : SdbItems E
    item : SdbValue E → SdbItems E → SdbItems E

  pub data SdbFields (E : SdbTypes) : Type 0 where
    no_fields : SdbFields E
    field : Text → SdbValue E → SdbFields E → SdbFields E

module _ {E : SdbTypes} where
  unfoldable pub items_of : List (SdbValue E) → SdbItems E
  items_of [] = no_items
  items_of (v ∷ vs) = item v (items_of vs)

  unfoldable pub list_of_items : SdbItems E → List (SdbValue E)
  list_of_items no_items = []
  list_of_items (item v vs) = v ∷ list_of_items vs

  unfoldable pub fields_of : BTreeMap (SdbValue E) → SdbFields E
  fields_of [] = no_fields
  fields_of ((k, v) ∷ m) = field k v (fields_of m)

  unfoldable pub entries_of : SdbFields E → BTreeMap (SdbValue E)
  entries_of no_fields = []
  entries_of (field k v fs) = (k, v) ∷ entries_of fs
