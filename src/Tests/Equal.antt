-- ===== src/Tests/Equal.antt =====
-- The theorems on the equality of values.
use surrealdb_c.Prelude.{some, ◌↔◌, ◌≡◌, refl, Bool, true, false, text}
use surrealdb_c.Rust.Run.{ok}
use surrealdb_c.Types.Values.{
  Value, sr_value_array, sr_value_number, sr_value_strand, cons, empty, as_slice,
}
use surrealdb_c.Types.Numbers.{sr_number_float}
use surrealdb_c.Types.Equal.{value_eq}
use surrealdb_c.Types.Equal.Plain.{HasNoNan, plain_value}
use surrealdb_c.Types.Equal.Complete.{value_eq_iff}
use surrealdb_c.Types.Equal.Total.{value_eq-ends}

-- ["x", 0.0] and ["x", -0.0], and a NaN
abbrev plus : Value
plus =
    sr_value_array
      (cons (sr_value_strand (some (text "x"))) (cons (sr_value_number (sr_number_float 0)) empty))

abbrev minus : Value
minus = sr_value_array (
    cons (sr_value_strand (some (text "x")))
      (cons (sr_value_number (sr_number_float 9223372036854775808)) empty))

abbrev nan : Value
nan = sr_value_number (sr_number_float 9221120237041090560)

zeros_compare : value_eq plus minus ≡ ok true
unfolding value_eq as_slice
zeros_compare = refl

never_itself : value_eq nan nan ≡ ok false
unfolding value_eq as_slice
never_itself = refl

value_eq_iff_example :
    value_eq plus minus ≡ ok true ↔ HasNoNan plus × (plain_value plus ≡ plain_value minus)
value_eq_iff_example = value_eq_iff plus minus (tt, (tt, tt))

value_eq-ends_example : (b : Bool) × (value_eq plus minus ≡ ok b)
value_eq-ends_example = value_eq-ends plus minus (tt, (tt, tt)) (tt, (tt, tt))
