-- ===== src/Types/Slices.antt =====
-- What is read of the slice that `make_array` of src/types/array.rs leaks, whose length is kept as a
-- `c_int`: `as_slice` and `into_vec` read so many elements, and none at length 0.
use surrealdb_c.Prelude.{
  ℕ, zero, suc, ◌≡◌, ◌<◌, ◌∙◌, refl, ap, List, [], ◌∷◌, map, length, take, take-length, length-map,
  All,
}
use surrealdb_c.Prelude.Int.{as_c_int, as_c_int-pos, as_usize}

-- A length that fits a `c_int`. Where one does not, it wraps: to nothing at 2^32 elements, and from
-- 2^31 to a negative one, at which the code reads past the block, which has no value here.
abbrev pub IsShort : {A : Type 0} → List A → Type 0
IsShort xs = length xs < 2147483648

unfoldable pub make_slice : {A : Type 0} → List A → List A
make_slice xs = take (as_usize (as_c_int (length xs))) xs

module _ {A : Type 0} where
  pub make_slice_self : (xs : List A) → IsShort xs → make_slice xs ≡ xs
  unfolding make_slice as_usize
  make_slice_self xs h = rw (as_c_int-pos (length xs) h) (take-length xs)

  All-take : (P : A → Type 0) (n : ℕ) (xs : List A) → All P xs → All P (take n xs)
  All-take P zero xs h = tt
  All-take P (suc n) [] h = tt
  All-take P (suc n) (x ∷ xs) h = (h.0, All-take P n xs h.1)

  pub All-make_slice : (P : A → Type 0) (xs : List A) → All P xs → All P (make_slice xs)
  unfolding make_slice
  All-make_slice P xs h = All-take P (as_usize (as_c_int (length xs))) xs h

-- What is converted, made an array, read and converted back.
module _ {A B : Type 0} (f : A → B) (g : B → A) where
  map_round :
      (P : A → Type 0)
      → ((a : A) → P a → g (f a) ≡ a)
      → (xs : List A) → All P xs
      → map g (map f xs) ≡ xs
  map_round P h [] p = refl
  map_round P h (x ∷ xs) p = cc (h x p.0, map_round P h xs p.1)

  pub slice_round_all :
      (P : A → Type 0)
      → ((a : A) → P a → g (f a) ≡ a)
      → (xs : List A) → IsShort xs
      → All P xs
      → map g (make_slice (map f xs)) ≡ xs
  slice_round_all P h xs s p =
      ap (map g) (make_slice_self (map f xs) (rw (length-map xs f) s)) ∙ map_round P h xs p

  All-Unit : (xs : List A) → All {0, 0} (λ _. Unit) xs
  All-Unit [] = tt
  All-Unit (x ∷ xs) = (tt, All-Unit xs)

  pub slice_round :
      ((a : A) → g (f a) ≡ a) → (xs : List A) → IsShort xs → map g (make_slice (map f xs)) ≡ xs
  slice_round h xs s = slice_round_all (λ _. Unit) (λ a _. h a) xs s (All-Unit xs)
