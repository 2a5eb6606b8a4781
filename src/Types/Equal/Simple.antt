-- ===== src/Types/Equal/Simple.antt =====
-- What the comparisons that read no pointer decide: equality, with 0.0 for -0.0, of what holds no NaN.
use surrealdb_c.Prelude.{
  ℕ, ◌≡◌, refl, ap, ap₂, Bool, true, false, ◌&&◌, List, [], ◌∷◌, map, All, ◌==◌, arith,
  if◌then◌else◌,
}
use surrealdb_c.Prelude.Int.{ℤ, pos, negsuc}
use surrealdb_c.Sdb.{Float}
use surrealdb_c.Types.Numbers.{Duration}
use surrealdb_c.Types.Equal.{
  magnitude, is_nan, f64_eq, bool_eq, i64_eq, slice_eq, duration_eq, bytes_eq,
}

-- The test decides whether the left side has the property and both sides have the same form.
pub record Decides {A : Type 0} (eq : A → A → Bool) (P : A → Type 0) (form : A → A) : Type 0 where
  pub has : (x y : A) → eq x y ≡ true → P x
  pub same : (x y : A) → eq x y ≡ true → form x ≡ form y
  pub full : (x y : A) → P x → form x ≡ form y → eq x y ≡ true

abbrev pub itself : {A : Type 0} → A → A
itself x = x

abbrev pub Always : {A : Type 0} → A → Type 0
Always _ = Unit

-- A float that is a number, and 0.0 for -0.0.
abbrev pub IsNumber : Float → Type 0
IsNumber x = is_nan x ≡ false

abbrev pub unsigned_zero : Float → Float
unsigned_zero x = if magnitude x == 0 then 0 else x

pub f64_eq-has : (x y : Float) → f64_eq x y ≡ true → is_nan x ≡ false
unfolding f64_eq
f64_eq-has x y h = ground arith

pub f64_eq-same : (x y : Float) → f64_eq x y ≡ true → unsigned_zero x ≡ unsigned_zero y
unfolding f64_eq
f64_eq-same x y h = ground arith

pub f64_eq-full :
    (x y : Float) → is_nan x ≡ false → unsigned_zero x ≡ unsigned_zero y → f64_eq x y ≡ true
unfolding f64_eq
f64_eq-full x y h e = ground arith

pub and-left : (b c : Bool) → (b && c) ≡ true → b ≡ true
and-left true c h = refl
and-left false c h = cc h

pub and-right : (b c : Bool) → (b && c) ≡ true → c ≡ true
and-right true c h = h
and-right false c h = cc h

pub and-both : (b c : Bool) → b ≡ true → c ≡ true → (b && c) ≡ true
and-both true c h k = k
and-both false c h k = cc h

pub i64_eq→eq : (i j : ℤ) → i64_eq i j ≡ true → i ≡ j
unfolding i64_eq
i64_eq→eq (pos m) (pos n) h = ap pos (ground arith)
i64_eq→eq (negsuc m) (negsuc n) h = ap negsuc (ground arith)
i64_eq→eq (pos m) (negsuc n) h = cc h
i64_eq→eq (negsuc m) (pos n) h = cc h

pub i64_eq_refl : (i : ℤ) → i64_eq i i ≡ true
unfolding i64_eq
i64_eq_refl (pos m) = ground arith
i64_eq_refl (negsuc m) = ground arith

module _ {A : Type 0} {eq : A → A → Bool} {P : A → Type 0} {form : A → A}
    (d : Decides eq P form) where
  slice_has : (xs ys : List A) → slice_eq eq xs ys ≡ true → All P xs
  unfolding slice_eq
  slice_has [] ys h = tt
  slice_has (x ∷ xs) [] h = cc h
  slice_has (x ∷ xs) (y ∷ ys) h =
      (d.has x y (and-left (eq x y) _ h), slice_has xs ys (and-right (eq x y) _ h))

  slice_same : (xs ys : List A) → slice_eq eq xs ys ≡ true → map form xs ≡ map form ys
  unfolding slice_eq
  slice_same [] [] h = refl
  slice_same [] (y ∷ ys) h = cc h
  slice_same (x ∷ xs) [] h = cc h
  slice_same (x ∷ xs) (y ∷ ys) h =
      ap₂ (λ a b. a ∷ b) (d.same x y (and-left (eq x y) _ h))
        (slice_same xs ys (and-right (eq x y) _ h))

  slice_full : (xs ys : List A) → All P xs → map form xs ≡ map form ys → slice_eq eq xs ys ≡ true
  unfolding slice_eq
  slice_full [] [] p e = refl
  slice_full [] (y ∷ ys) p e = cc e
  slice_full (x ∷ xs) [] p e = cc e
  slice_full (x ∷ xs) (y ∷ ys) p e =
      and-both (eq x y) _ (d.full x y p.0 (cc e)) (slice_full xs ys p.1 (cc e))

  pub slice_eq-Decides : Decides (slice_eq eq) (All P) (map form)
  slice_eq-Decides = record { has = slice_has; same = slice_same; full = slice_full }

pub bytes_eq→eq : (b c : List ℕ) → bytes_eq b c ≡ true → b ≡ c
unfolding bytes_eq slice_eq
bytes_eq→eq [] [] h = refl
bytes_eq→eq [] (y ∷ ys) h = cc h
bytes_eq→eq (x ∷ xs) [] h = cc h
bytes_eq→eq (x ∷ xs) (y ∷ ys) h = ground (arith, bytes_eq→eq xs ys)

pub bytes_eq_refl : (b : List ℕ) → bytes_eq b b ≡ true
unfolding bytes_eq slice_eq
bytes_eq_refl [] = refl
bytes_eq_refl (x ∷ xs) = ground (arith, bytes_eq_refl xs)

pub bool_eq→eq : (b c : Bool) → bool_eq b c ≡ true → b ≡ c
unfolding bool_eq
bool_eq→eq true true h = refl
bool_eq→eq true false h = cc h
bool_eq→eq false true h = cc h
bool_eq→eq false false h = refl

pub bool_eq_refl : (b : Bool) → bool_eq b b ≡ true
unfolding bool_eq
bool_eq_refl true = refl
bool_eq_refl false = refl

pub duration_eq→eq : (d e : Duration) → duration_eq d e ≡ true → d ≡ e
unfolding duration_eq
duration_eq→eq d e h =
    ap₂ (λ (s n : ℕ). record { secs = s; nanos = n }) (ground arith) (ground arith)

pub duration_eq_refl : (d : Duration) → duration_eq d d ≡ true
unfolding duration_eq
duration_eq_refl d = ground arith
