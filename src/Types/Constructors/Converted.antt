-- ===== src/Types/Constructors/Converted.antt =====
-- What the constructors make reaches the database as what it says.
use surrealdb_c.Prelude.{◌≡◌, some, Text}
use surrealdb_c.Rust.Run.{ok, ◌>>=◌}
use surrealdb_c.Rust.Utf8.Laws.{IsCText, to_string_lossy-valid}
use surrealdb_c.Sdb.{
  SdbTypes, SdbLaws, sdb_string, sdb_number, sdb_decimal, sdb_datetime, sdb_record_id, key_string,
}
use surrealdb_c.Types.Strings.{string_from, to_string_t-IsNulFree}
use surrealdb_c.Types.Numbers.{decimal_or_float, number_to_sdb}
use surrealdb_c.Types.ToSdb.{value_to_sdb, datetime_to_sdb}
use surrealdb_c.Types.Constructors.{value_string, value_datetime, value_thing, value_decimal}

module _ (E : SdbTypes) (laws : SdbLaws E) where
  -- For UTF-8 strings without NUL, the values that `sr_value_string`, `sr_value_thing`,
  -- `sr_value_datetime` and `sr_value_decimal` make convert to the string, to the record with that
  -- table and string key, and, of the texts that the database's types print, to the datetime and
  -- the decimal that were printed, if the crates keep their laws.
  pub value_to_sdb-value_string :
      (s t : Text) (d : E.Datetime) (n : E.Decimal)
      → IsCText s
      → IsCText t
      → ((value_string (some s) >>= value_to_sdb E) ≡ ok (sdb_string s))
        × ((value_thing (some t) (some s) >>= value_to_sdb E)
            ≡ ok (sdb_record_id (E.table_from_string t) (key_string s)))
        × ((value_datetime (some (E.datetime_to_string d)) >>= value_to_sdb E)
            ≡ ok (sdb_datetime d))
        × ((value_decimal (some (E.decimal_to_string n)) >>= value_to_sdb E)
            ≡ ok (sdb_number (sdb_decimal n)))
  unfolding value_string value_thing value_datetime value_decimal value_to_sdb datetime_to_sdb
      number_to_sdb decimal_or_float string_from
  value_to_sdb-value_string s t d n hs ht =
      let se = (to_string_lossy-valid s hs.1).0 in
      let te = (to_string_lossy-valid t ht.1).0 in
      let de = (to_string_lossy-valid (E.datetime_to_string d) (laws.datetime_text d).1).0 in
      let ne = (to_string_lossy-valid (E.decimal_to_string n) (laws.decimal_text n).1).0 in
      (
        rw (se, to_string_t-IsNulFree s hs.0, se),
        rw (se, te, to_string_t-IsNulFree s hs.0, to_string_t-IsNulFree t ht.0, se, te),
        rw (
          de,
          to_string_t-IsNulFree (E.datetime_to_string d) (laws.datetime_text d).0,
          de,
          laws.datetime_round d,
        ),
        rw (
          ne,
          to_string_t-IsNulFree (E.decimal_to_string n) (laws.decimal_text n).0,
          ne,
          decimal_or_float,
          laws.decimal_round n,
        ),
      )
