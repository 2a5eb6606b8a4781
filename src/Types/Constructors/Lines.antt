-- ===== src/Types/Constructors/Lines.antt =====
-- The geometries that are made of arrays of arrays.
use surrealdb_c.Prelude.{
  ℕ, suc, ◌≡◌, refl, sym, ap, ◌==◌, ◌∙◌, false, Option, none, some, List, [], ◌∷◌, map, length,
  take-length, length-map, arith,
}
use surrealdb_c.Prelude.Int.{CInt, pos}
use surrealdb_c.Rust.Run.{Run, ok, ◌>>=◌}
use surrealdb_c.Sdb.{SdbTypes, sdb_geometry, geo_line, geo_multi_line}
use surrealdb_c.Types.Geometries.{
  sr_g_linestring, sr_g_multiline, SrGCoord, SrGLinestring, linestring_to_geo, geometry_to_sdb,
}
use surrealdb_c.Types.ToSdb.{value_to_sdb}
use surrealdb_c.Types.Values.{sr_geometry_object}
use surrealdb_c.Types.Constructors.{
  slice_at, copied, lines_of, lines_at, value_linestring, value_multilinestring,
}

slice_at-whole : {A : Type 0} (xs : List A) → slice_at (some xs) (length xs) ≡ ok xs
unfolding slice_at
slice_at-whole xs = ground (arith, take-length xs)

copied-whole : {A : Type 0} (xs : List A) → copied (some xs) (pos (length xs)) ≡ ok xs
unfolding copied
copied-whole [] = refl
copied-whole (x ∷ xs) = ground (arith, take-length xs)

slice_at-map :
    {A B : Type 0} (f : A → B) (xs : List A)
    → slice_at (some (map f xs)) (length xs) ≡ ok (map f xs)
slice_at-map f xs =
    ap (slice_at (some (map f xs))) (sym (length-map xs f)) ∙ slice_at-whole (map f xs)

suc-eq-zero : (n : ℕ) → (suc n == 0) ≡ false
suc-eq-zero n = ground arith

-- The pointer of a line and its length.
abbrev pub pointer : SrGLinestring → Option (List SrGCoord)
pointer l = some l

abbrev pub len_of : SrGLinestring → CInt
len_of l = pos (length l)

lines_of-whole : (ls : List SrGLinestring) → lines_of (map pointer ls) (map len_of ls) ≡ ok ls
unfolding lines_of
lines_of-whole [] = refl
lines_of-whole (l ∷ ls) = rw (copied-whole l, lines_of-whole ls)

-- The lines of arrays that are at least as long as the count.
lines_at-whole :
    (ls : List SrGLinestring)
    → lines_at (some (map pointer ls)) (some (map len_of ls)) (pos (length ls)) ≡ ok ls
unfolding lines_at
lines_at-whole [] = refl
lines_at-whole (l ∷ ls) = rw (suc-eq-zero (length ls)) (
    ap
      (λ (r : Run (List (Option (List SrGCoord)))). r >>= λ ps.
        slice_at (some (map len_of (l ∷ ls))) (length (l ∷ ls)) >>= λ ns. lines_of ps ns)
      (slice_at-map pointer (l ∷ ls))
    ∙ ap (λ (r : Run (List CInt)). r >>= λ ns. lines_of (map pointer (l ∷ ls)) ns)
        (slice_at-map len_of (l ∷ ls))
    ∙ lines_of-whole (l ∷ ls))

-- `sr_value_multilinestring` of arrays of the lines and of their lengths, and of their number,
-- converts to the geometry of those lines, in order, and `sr_value_linestring` to that of one line:
-- also for a line without points, for no lines and for null arrays.
pub value_to_sdb-value_multilinestring :
    (E : SdbTypes) (l : SrGLinestring) (ls : List SrGLinestring) (len : CInt)
    → ((value_multilinestring (some (map pointer ls)) (some (map len_of ls)) (pos (length ls))
          >>= value_to_sdb E)
        ≡ ok (sdb_geometry (geo_multi_line (map linestring_to_geo ls))))
      × ((value_linestring (some l) (pos (length l)) >>= value_to_sdb E)
          ≡ ok (sdb_geometry (geo_line (linestring_to_geo l))))
      × ((value_multilinestring none none len >>= value_to_sdb E)
          ≡ ok (sdb_geometry (geo_multi_line [])))
      × ((value_linestring none len >>= value_to_sdb E) ≡ ok (sdb_geometry (geo_line [])))
unfolding value_to_sdb geometry_to_sdb value_multilinestring value_linestring linestring_to_geo
value_to_sdb-value_multilinestring E l ls len = (
  ap
      (λ (r : Run (List SrGLinestring)).
        (r >>= λ ls. ok (sr_geometry_object (sr_g_multiline ls))) >>= value_to_sdb E)
      (lines_at-whole ls),
  ap
      (λ (r : Run SrGLinestring).
        (r >>= λ l. ok (sr_geometry_object (sr_g_linestring l))) >>= value_to_sdb E)
      (copied-whole l),
  refl,
  refl,
)
