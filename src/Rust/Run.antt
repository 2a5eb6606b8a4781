-- ===== src/Rust/Run.antt =====
-- How a piece of Rust ends: with a value, by a panic, or by undefined behaviour.
use surrealdb_c.Prelude.{Option, Text}

-- What a panic carries: `some s` where the payload is a `&'static str`, which is what
-- `downcast_ref::<&str>()` finds, and `none` for any other payload.
abbrev pub Payload : Type 0
Payload = Option Text

-- `fault` is a read or a write through a null pointer.
pub data Run {ℓ} (A : Type ℓ) : Type ℓ where
  ok : A → Run A
  panic : Payload → Run A
  fault : Run A

infixl 5 ◌>>=◌
abbrev pub ◌>>=◌ {ℓ κ} : {A : Type ℓ} {B : Type κ} → Run A → (A → Run B) → Run B
ok a >>= f = f a
panic p >>= f = panic p
fault >>= f = fault
