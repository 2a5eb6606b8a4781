-- ===== src/Types/Strings.antt =====
-- src/utils.rs and src/types/string.rs: strings that C owns.
use surrealdb_c.Prelude.{
  ◌≡◌, refl, Bool, true, false, ◌||◌, Option, none, some, [], ◌∷◌, Text, arith, Ordering, inl, inr,
  Bool-cases, ◌==◌, if◌then◌else◌,
}
use surrealdb_c.Rust.Run.{Run, ok, fault}
use surrealdb_c.Rust.Utf8.{to_string_lossy}
use surrealdb_c.Rust.Utf8.Laws.{IsNulFree}
use surrealdb_c.Rust.BTree.{compare_text}

-- `string_t`: a null pointer, or one to a NUL-terminated string with these bytes.
abbrev pub StringT : Type 0
StringT = Option Text

abbrev pub is_null {ℓ} : {A : Type ℓ} → Option A → Bool
is_null none = true
is_null (some _) = false

unfoldable pub contains_nul : Text → Bool
contains_nul [] = false
contains_nul (b ∷ bs) = b == 0 || contains_nul bs

-- `CString::new(s).unwrap_or_else(|_| CString::new("").unwrap())`
unfoldable pub to_raw_char_ptr : Text → Text
unfolding contains_nul
to_raw_char_ptr s = if contains_nul s then [] else s

unfoldable pub to_string_t : Text → StringT
unfolding to_raw_char_ptr
to_string_t s = some (to_raw_char_ptr s)

-- `CStr::from_ptr(self)` and a copy, for `*const c_char`
unfoldable pub c_str_to_string_t : StringT → Run StringT
c_str_to_string_t none = fault
c_str_to_string_t (some s) = ok (some s)

-- `String::from(string_t)`
unfoldable pub string_from : StringT → Run Text
string_from none = fault
string_from (some s) = ok (to_string_lossy s)

-- `string_t::clone`
unfoldable pub clone : StringT → StringT
clone none = none
clone (some s) = some s

-- `string_t::null`
unfoldable pub null_string : StringT
null_string = none

-- `string_t::from_error` and `string_t::from(D)`, of what `to_string` prints
unfoldable pub from_error : {D : Type 0} → (D → Text) → D → StringT
unfolding to_string_t
from_error to_string e = to_string_t (to_string e)

unfoldable pub from_display : {D : Type 0} → (D → Text) → D → StringT
unfolding to_string_t
from_display to_string value = to_string_t (to_string value)

unfoldable pub default : StringT
default = none

-- `string_t::eq`, which reads both strings
unfoldable pub string_t_eq : StringT → StringT → Run Bool
unfolding compare_text
string_t_eq none _ = fault
string_t_eq (some s) none = fault
string_t_eq (some s) (some t) = ok (elim (compare_text s t) [ Ordering.eq ↦ true | _ ↦ false ])

pub contains_nul-IsNulFree : (s : Text) → IsNulFree s → contains_nul s ≡ false
unfolding contains_nul
contains_nul-IsNulFree [] h = refl
contains_nul-IsNulFree (b ∷ bs) h = ground (arith, h.0, contains_nul-IsNulFree bs h.1)

IsNulFree-contains_nul : (s : Text) → contains_nul s ≡ false → IsNulFree s
unfolding contains_nul
IsNulFree-contains_nul [] h = tt
IsNulFree-contains_nul (b ∷ bs) h = (ground arith, IsNulFree-contains_nul bs (ground arith))

pub to_raw_char_ptr-IsNulFree : (s : Text) → IsNulFree (to_raw_char_ptr s)
unfolding to_raw_char_ptr
to_raw_char_ptr-IsNulFree s = elim (Bool-cases (contains_nul s)) [
  | inl e ↦ rw e tt
  | inr e ↦ rw e (IsNulFree-contains_nul s e)
]

-- A string without NUL reaches C unchanged.
pub to_string_t-IsNulFree : (s : Text) → IsNulFree s → to_string_t s ≡ some s
unfolding to_string_t to_raw_char_ptr
to_string_t-IsNulFree s h = rw (contains_nul-IsNulFree s h)
