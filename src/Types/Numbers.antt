-- ===== src/Types/Numbers.antt =====
-- src/types/number.rs, duration.rs and uuid.rs
use surrealdb_c.Prelude.{ℕ, Option, none, some, List, Text}
use surrealdb_c.Prelude.Int.{ℤ, CInt}
use surrealdb_c.Rust.Run.{Run, ok, fault, ◌>>=◌}
use surrealdb_c.Rust.Utf8.{to_string_lossy}
use surrealdb_c.Rust.Time.{StdDuration, duration_new}
use surrealdb_c.Sdb.{Float, SdbTypes, SdbNumber, sdb_int, sdb_float, sdb_decimal}
use surrealdb_c.Types.Strings.{StringT, to_string_t}

pub data Number : Type 0 where
  sr_number_int : ℤ → Number
  sr_number_float : Float → Number
  sr_number_decimal : StringT → Number

pub record Duration : Type 0 where
  pub secs : ℕ
  pub nanos : ℕ

-- The sixteen bytes of a UUID.
pub record Uuid : Type 0 where
  pub bytes : List ℕ

-- `Number::from(c_int)`: `value as i64` keeps the integer.
unfoldable pub number_from_c_int : CInt → Number
number_from_c_int i = sr_number_int i

-- `Number::from(c_float)`; `widen` is `value as f64`.
unfoldable pub number_from_c_float : (Float → Float) → Float → Number
number_from_c_float widen f = sr_number_float (widen f)

-- `Number::from(c_double)`
unfoldable pub number_from_c_double : Float → Number
number_from_c_double f = sr_number_float f

-- `Duration::from(std::time::Duration)`
unfoldable pub duration_from_std : StdDuration → Duration
duration_from_std d = record { secs = d.secs; nanos = d.nanos }

-- `decimal_str.parse().unwrap_or(0.0)`
abbrev or_zero : Option Float → Float
or_zero none = 0
or_zero (some f) = f

module _ (E : SdbTypes) where
  -- `Number::from(Decimal)`
  unfoldable pub number_from_decimal : E.Decimal → Number
  number_from_decimal d = sr_number_decimal (to_string_t (E.decimal_to_string d))

  -- The match on `sdbNumber` in `Value::from`, whose last arm no number reaches.
  unfoldable pub number_from_sdb : SdbNumber E → Number
  unfolding number_from_decimal
  number_from_sdb (sdb_int i) = sr_number_int i
  number_from_sdb (sdb_float f) = sr_number_float f
  number_from_sdb (sdb_decimal d) = number_from_decimal d

  -- A decimal that does not parse falls back to a float.
  unfoldable pub decimal_or_float : Text → SdbNumber E
  decimal_or_float s = elim (E.decimal_parse s) [
    | some d ↦ sdb_decimal d
    | none ↦ sdb_float (or_zero (E.f64_parse s))
  ]

  -- `sdbNumber::from(Number)`
  unfoldable pub number_to_sdb : Number → Run (SdbNumber E)
  unfolding decimal_or_float
  number_to_sdb (sr_number_int i) = ok (sdb_int i)
  number_to_sdb (sr_number_float f) = ok (sdb_float f)
  number_to_sdb (sr_number_decimal none) = fault
  number_to_sdb (sr_number_decimal (some s)) = ok (decimal_or_float (to_string_lossy s))

  -- `Duration::from(sdbDuration)`
  unfoldable pub duration_from_sdb : E.SdbDuration → Duration
  unfolding duration_from_std
  duration_from_sdb d = duration_from_std (E.duration_to_std d)

  -- `sdbDuration::from(Duration)`
  unfoldable pub duration_to_sdb : Duration → Run E.SdbDuration
  unfolding duration_new
  duration_to_sdb d = do std ← duration_new d.secs d.nanos; ok (E.duration_from_std std)

  -- `Uuid::from(sdbUuid)` and back
  unfoldable pub uuid_from_sdb : E.SdbUuid → Uuid
  uuid_from_sdb u = record { bytes = E.uuid_into_bytes u }

  unfoldable pub uuid_to_sdb : Uuid → E.SdbUuid
  uuid_to_sdb u = E.uuid_from_bytes u.bytes
