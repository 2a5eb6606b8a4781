-- ===== src/Prelude/Int.antt =====
-- Signed integers over the native numbers, and the casts between the widths that the code uses.
use Prim.Native.Nat.{ℕ, ◌+◌, ◌-◌, ◌%◌, ◌<◌}
use mathlib.Core.Path.{◌≡◌}
use mathlib.Core.Bool.{Bool, true, false}
use native.Mathlib.Omega.{arith}
use surrealdb_c.Prelude.Tests.{ltb, ◌==◌, if◌then◌else◌}

-- `negsuc n` is -(n + 1).
pub data ℤ : Type 0 where
  pos : ℕ → ℤ
  negsuc : ℕ → ℤ

-- `c_int`, an `i64` and an `i128` are integers, with their range a hypothesis where it matters.
abbrev pub CInt : Type 0
CInt = ℤ

-- The signed integer with the low `w` bits of `n`, for `m = 2 ^ (w - 1)`.
abbrev pub signed : ℕ → ℕ → ℤ
signed m n = let r = n % (m + m) in if ltb r m then pos r else negsuc (m + m - 1 - r)

-- `n as c_int`, for a `usize`.
unfoldable pub as_c_int : ℕ → CInt
as_c_int n = signed 2147483648 n

-- `i as i64`, for an `i128`.
unfoldable pub as_i64 : ℤ → ℤ
as_i64 (pos n) = signed 9223372036854775808 n
as_i64 (negsuc n) =
    let r = n % 18446744073709551616 in signed 9223372036854775808 (18446744073709551615 - r)

-- `len as usize`, for a `c_int` of a 64-bit target.
unfoldable pub as_usize : CInt → ℕ
as_usize (pos n) = n
as_usize (negsuc n) = 18446744073709551616 - 1 - n

abbrev pub is_neg : ℤ → Bool
is_neg (pos _) = false
is_neg (negsuc _) = true

-- `len <= 0`
abbrev pub le_zero : ℤ → Bool
le_zero (pos n) = n == 0
le_zero (negsuc _) = true

-- `len == 0`
abbrev pub is_zero : ℤ → Bool
is_zero (pos n) = n == 0
is_zero (negsuc _) = false

abbrev pub IsI64 : ℤ → Type 0
IsI64 (pos n) = n < 9223372036854775808
IsI64 (negsuc n) = n < 9223372036854775808

pub as_c_int-pos : (n : ℕ) → n < 2147483648 → as_c_int n ≡ pos n
unfolding as_c_int
as_c_int-pos n h = ground arith

pub as_i64-IsI64 : (i : ℤ) → IsI64 (as_i64 i)
unfolding as_i64
as_i64-IsI64 (pos n) = ground arith
as_i64-IsI64 (negsuc n) = ground arith

pub as_i64_self : (i : ℤ) → IsI64 i → as_i64 i ≡ i
unfolding as_i64
as_i64_self (pos n) h = ground arith
as_i64_self (negsuc n) h = ground arith
