-- ===== src/Types/Results.antt =====
-- src/types/result.rs
use surrealdb_c.Prelude.{none, Text}
use surrealdb_c.Prelude.Int.{CInt, pos, negsuc}
use surrealdb_c.Types.Strings.{StringT, to_string_t}
use surrealdb_c.Types.Values.{Array, empty}

pub record SurrealError : Type 0 where
  pub code : CInt
  pub msg : StringT

pub record ArrayResult : Type 0 where
  pub ok : Array
  pub err : SurrealError

-- `SurrealError::empty` and `from_msg`
unfoldable pub error_empty : SurrealError
error_empty = record { code = pos 0; msg = none }

unfoldable pub error_from_msg : Text → SurrealError
error_from_msg msg = record { code = negsuc 1; msg = to_string_t msg }

-- `ArrayResult::ok` and `err`
unfoldable pub array_result_ok : Array → ArrayResult
unfolding error_empty
array_result_ok a = record { ok = a; err = error_empty }

unfoldable pub array_result_err : Text → ArrayResult
unfolding error_from_msg
array_result_err msg = record { ok = empty; err = error_from_msg msg }
