-- ===== src/Types/Arrays/Laws.antt =====
-- `sr_array_push` appends one value.
use surrealdb_c.Prelude.{
  ℕ, zero, suc, ◌+◌, ◌≡◌, ◌<◌, refl, sym, ◌∙◌, true, Option, none, some, List, [], ◌∷◌, ◌++◌,
  length, length-append, Bool-cases, inl, inr, get_elem?, leb, ◌==◌, if◌then◌else◌, arith,
}
use surrealdb_c.Prelude.Int.{pos, negsuc, as_c_int-pos}
use surrealdb_c.Types.Values.{Value, Array, as_slice, as_slice-array_of}
use surrealdb_c.Types.Arrays.{len, array_len, array_get, array_push}

-- The values of an array that may be null.
abbrev pub values : Option Array → List Value
values none = []
values (some arr) = as_slice arr

as_slice-array_push :
    (arr : Option Array) (v : Value)
    → length (values arr) < 2147483647
    → as_slice (array_push arr (some v)) ≡ values arr ++ v ∷ []
unfolding array_push
as_slice-array_push none v h = as_slice-array_of (v ∷ []) (omega arith)
as_slice-array_push (some arr) v h =
    as_slice-array_of (as_slice arr ++ v ∷ [])
      (omega (arith, length-append (as_slice arr) (v ∷ [])))

get_elem?-append :
    {A : Type 0} (xs : List A) (x : A) (i : ℕ)
    → get_elem? (xs ++ x ∷ []) i ≡ (if i == length xs then some x else get_elem? xs i)
get_elem?-append [] x zero = refl
get_elem?-append [] x (suc i) = ground arith
get_elem?-append (y ∷ ys) x zero = ground arith
get_elem?-append (y ∷ ys) x (suc i) = ground (arith, get_elem?-append ys x i)

get_elem?-none :
    {A : Type 0} (xs : List A) (i : ℕ) → leb (length xs) i ≡ true → get_elem? xs i ≡ none
get_elem?-none [] i h = refl
get_elem?-none (x ∷ xs) zero h = ground arith
get_elem?-none (x ∷ xs) (suc i) h = get_elem?-none xs i (ground arith)

-- The Boolean test of `sr_array_get`.
array_get-at :
    (xs : List Value) (i : ℕ)
    → (if leb (length xs) i then none else get_elem? xs i) ≡ get_elem? xs i
array_get-at xs i = elim (Bool-cases (leb (length xs) i)) [
  | inl e ↦ rw e (sym (get_elem?-none xs i e))
  | inr e ↦ rw e
]

array_get-values :
    (arr : Option Array) (i : ℕ)
    → length (values arr) < 2147483648
    → array_get arr (pos i) ≡ get_elem? (values arr) i
unfolding array_get len
array_get-values none i h = refl
array_get-values (some arr) i h =
    rw (as_c_int-pos (length (as_slice arr)) h) (array_get-at (as_slice arr) i)

-- `sr_array_push` of a value on an array of fewer than 2^31 - 1 values, or on null, counts one
-- more value; `sr_array_get` finds the pushed one at the old length, at any other index from 0
-- what it found in the array before, and nothing at a negative index.
pub array_get-array_push :
    (arr : Option Array) (v : Value) (index : ℕ)
    → length (values arr) < 2147483647
    → (array_len (some (array_push arr (some v))) ≡ pos (length (values arr) + 1))
      × (array_get (some (array_push arr (some v))) (pos index)
          ≡ (if index == length (values arr) then some v else array_get arr (pos index)))
      × (array_get (some (array_push arr (some v))) (negsuc index) ≡ none)
unfolding array_len len
array_get-array_push arr v index h = (
  rw (as_slice-array_push arr v h, length-append (values arr) (v ∷ []))
      (as_c_int-pos (length (values arr) + 1) (omega arith)),
  array_get-values (some (array_push arr (some v))) index
        (rw (as_slice-array_push arr v h) (omega (arith, length-append (values arr) (v ∷ []))))
      ∙ rw (as_slice-array_push arr v h, array_get-values arr index (omega arith))
          (get_elem?-append (values arr) v index),
  unfold array_get in refl,
)
