-- ===== src/Rust/Time.antt =====
-- `std::time::Duration`
use surrealdb_c.Prelude.{ℕ, ◌+◌, ◌/◌, ◌%◌, ◌<◌, ◌≡◌, some, Text, text, arith, ltb, if◌then◌else◌}
use surrealdb_c.Rust.Run.{Run, ok, panic}

pub record StdDuration : Type 0 where
  pub secs : ℕ
  pub nanos : ℕ

-- What the type keeps of its fields.
pub record IsDuration (d : StdDuration) : Type 0 where
  pub secs_fit : d.secs < 18446744073709551616
  pub nanos_fit : d.nanos < 1000000000

abbrev pub overflow_message : Text
overflow_message = text "overflow in Duration::new"

-- `Duration::new`: whole seconds among the nanoseconds are carried, and a carry that does not fit
-- panics.
unfoldable pub duration_new : ℕ → ℕ → Run StdDuration
duration_new s n =
    if ltb n 1000000000
    then ok (record { secs = s; nanos = n })
    else if ltb (s + n / 1000000000) 18446744073709551616
    then ok (record { secs = s + n / 1000000000; nanos = n % 1000000000 })
    else panic (some overflow_message)

pub duration_new-IsDuration : (d : StdDuration) → IsDuration d → duration_new d.secs d.nanos ≡ ok d
unfolding duration_new
duration_new-IsDuration d h = ground arith
