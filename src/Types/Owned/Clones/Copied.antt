-- ===== src/Types/Owned/Clones/Copied.antt =====
-- The copy of a value owns new blocks, all of which its drop and its conversion free; the conversion leaks none.
use surrealdb_c.Prelude.{ℕ, suc, ◌≡◌, ◌<◌, refl, ap, sym, subst, ◌∙◌, true, none, some, arith}
use surrealdb_c.Prelude.Int.{CInt, pos, as_c_int, as_usize, as_c_int-pos}
use surrealdb_c.Rust.Run.{Run, ok, ◌>>=◌}
use surrealdb_c.Types.Owned.{
  Live, Cell, Cells, mem_plain, mem_string, mem_array, mem_object, mem_bytes, mem_geometry,
  mem_thing, no_cells, cell, count, free_block, drop_string, drop_cell, drop_cells,
}
use surrealdb_c.Types.Owned.Clones.{
  clone_string, clone_cell, clone_cells, take_string, release_cell, release_cells, leaked_slices,
  leaked_all, empty_box,
}
use surrealdb_c.Types.Owned.Clones.Ranges.{
  Clears, Clears-none, Clears-block, Clears-up, Clears-down, Clears-eq,
}

-- Every block of the value is live, no string in it is null, the lengths of its arrays are those of
-- their slices and fit a `c_int`, and it has neither bytes nor geometries.
abbrev mutual
  pub IsIntact : Live → Cell → Type 0
  IsIntact k mem_plain = Unit
  IsIntact k (mem_string none) = ⊥
  IsIntact k (mem_string (some a)) = k a ≡ true
  IsIntact k (mem_array box none len cs) = k box ≡ true
  IsIntact k (mem_array box (some arr) len cs) =
      (k box ≡ true)
      × (k arr ≡ true)
      × (len ≡ pos (count cs))
      × (0 < count cs)
      × (count cs < 2147483648)
      × AreIntact k cs
  IsIntact k (mem_object box cs) = (k box ≡ true) × AreIntact k cs
  IsIntact k (mem_bytes arr) = ⊥
  IsIntact k (mem_geometry slices copies) = ⊥
  IsIntact k (mem_thing none id) = ⊥
  IsIntact k (mem_thing (some a) id) = (k a ≡ true) × IsIntact k id

  pub AreIntact : Live → Cells → Type 0
  AreIntact k no_cells = Unit
  AreIntact k (cell c cs) = IsIntact k c × AreIntact k cs

-- The clone succeeds, and both the drop of the copy and its conversion clear the new blocks.
pub record Copied (k : Live) (n : ℕ) (c : Cell) : Type 0 where
  pub copy : Cell
  pub next : ℕ
  pub cloned : clone_cell c n k ≡ ok (copy, next)
  pub dropped : Clears n next (λ j. drop_cell copy j)
  pub taken : Clears n next (λ j. release_cell copy j)
  pub unleaked : leaked_slices copy ≡ 0

pub record CopiedAll (k : Live) (n : ℕ) (cs : Cells) : Type 0 where
  pub copy : Cells
  pub next : ℕ
  pub cloned : clone_cells (count cs) cs n k ≡ ok (copy, next)
  pub counted : count copy ≡ count cs
  pub dropped : Clears n next (λ j. drop_cells copy j)
  pub taken : Clears n next (λ j. release_cells copy j)
  pub unleaked : leaked_all copy ≡ 0

string_Copied : (a n : ℕ) (k : Live) → k a ≡ true → Copied k n (mem_string (some a))
unfolding clone_cell clone_string drop_cell drop_string release_cell take_string leaked_slices
string_Copied a n k h = record {
  copy = mem_string (some n);
  next = suc n;
  cloned = rw h refl;
  dropped = Clears-block n;
  taken = Clears-block n;
  unleaked = refl;
}

empty_Copied :
    (box n : ℕ) (len : CInt) (cs : Cells) (k : Live)
    → k box ≡ true
    → Copied k n (mem_array box none len cs)
unfolding clone_cell drop_cell release_cell leaked_slices
empty_Copied box n len cs k h = record {
  copy = (empty_box n).0;
  next = suc n;
  cloned = rw h refl;
  dropped = Clears-block n;
  taken = Clears-block n;
  unleaked = refl;
}

-- An array of the right length, as its drop and its conversion read it.
drop_array :
    (box arr : ℕ) (ds : Cells) (k : Live)
    → 0 < count ds
    → drop_cell (mem_array box (some arr) (pos (count ds)) ds) k
      ≡ ((drop_cells ds k >>= λ l. free_block arr l) >>= λ l. free_block box l)
unfolding drop_cell as_usize
drop_array box arr ds k h = ground (arith, h)

release_array :
    (box arr : ℕ) (ds : Cells) (k : Live)
    → 0 < count ds
    → release_cell (mem_array box (some arr) (pos (count ds)) ds) k
      ≡ ((release_cells ds k >>= λ l. free_block arr l) >>= λ l. free_block box l)
unfolding release_cell as_usize
release_array box arr ds k h = ground (arith, h)

leaked_array :
    (m n : ℕ) (ds : Cells)
    → leaked_all ds ≡ 0
    → leaked_slices (mem_array n (some (suc n)) (pos m) ds) ≡ 0
unfolding leaked_slices
leaked_array m n ds h = ground (arith, h)

clone_array :
    (box arr n : ℕ) (cs : Cells) (k : Live)
    → k box ≡ true
    → k arr ≡ true
    → 0 < count cs
    → clone_cell (mem_array box (some arr) (pos (count cs)) cs) n k ≡ (
        clone_cells (count cs) cs (suc (suc n)) k >>= λ r.
        ok (mem_array n (some (suc n)) (as_c_int (count cs)) r.0, r.1))
unfolding clone_cell as_usize
clone_array box arr n cs k h g p = ground (arith, h, g, p)

-- The elements, then their slice, then the box.
boxed_slice :
    (f : Live → Run Live) (n hi : ℕ)
    → Clears (suc (suc n)) hi f
    → Clears n hi (λ k. (f k >>= λ l. free_block (suc n) l) >>= λ l. free_block n l)
boxed_slice f n hi c =
    Clears-down (λ k. f k >>= λ l. free_block (suc n) l) (λ l. free_block n l) n (suc n) hi
      (Clears-down f (λ l. free_block (suc n) l) (suc n) (suc (suc n)) hi c (Clears-block (suc n)))
      (Clears-block n)

array_Copied :
    (box arr n : ℕ) (cs : Cells) (k : Live)
    → k box ≡ true
    → k arr ≡ true
    → 0 < count cs
    → count cs < 2147483648
    → CopiedAll k (suc (suc n)) cs
    → Copied k n (mem_array box (some arr) (pos (count cs)) cs)
array_Copied box arr n cs k h g p q r = record {
  copy = mem_array n (some (suc n)) (pos (count r.copy)) r.copy;
  next = r.next;
  cloned =
      clone_array box arr n cs k h g p
      ∙ ap
          (λ (x : Run (Cells × ℕ)).
            x >>= λ s. ok (mem_array n (some (suc n)) (as_c_int (count cs)) s.0, s.1))
          r.cloned
      ∙ ap (λ (l : CInt). ok (mem_array n (some (suc n)) l r.copy, r.next))
          (as_c_int-pos (count cs) q ∙ ap pos (sym r.counted));
  dropped =
      Clears-eq _ _ (λ j. drop_array n (suc n) r.copy j (subst (λ m. 0 < m) (sym r.counted) p))
        (boxed_slice (λ j. drop_cells r.copy j) n r.next r.dropped);
  taken =
      Clears-eq _ _ (λ j. release_array n (suc n) r.copy j (subst (λ m. 0 < m) (sym r.counted) p))
        (boxed_slice (λ j. release_cells r.copy j) n r.next r.taken);
  unleaked = leaked_array (count r.copy) n r.copy r.unleaked;
}

object_Copied :
    (box n : ℕ) (cs : Cells) (k : Live)
    → k box ≡ true
    → CopiedAll k (suc n) cs
    → Copied k n (mem_object box cs)
unfolding clone_cell drop_cell release_cell leaked_slices
object_Copied box n cs k h r = record {
  copy = mem_object n r.copy;
  next = r.next;
  cloned = rw (h, r.cloned) refl;
  dropped =
      Clears-down (λ j. drop_cells r.copy j) (λ l. free_block n l) n (suc n) r.next r.dropped
        (Clears-block n);
  taken =
      Clears-down (λ j. release_cells r.copy j) (λ l. free_block n l) n (suc n) r.next r.taken
        (Clears-block n);
  unleaked = r.unleaked;
}

thing_Copied :
    (a n : ℕ) (id : Cell) (k : Live)
    → k a ≡ true
    → Copied k (suc n) id
    → Copied k n (mem_thing (some a) id)
unfolding clone_cell clone_string drop_cell drop_string release_cell take_string leaked_slices
thing_Copied a n id k h r = record {
  copy = mem_thing (some n) r.copy;
  next = r.next;
  cloned = rw (h, r.cloned) refl;
  dropped =
      Clears-up (λ j. free_block n j) (λ l. drop_cell r.copy l) n (suc n) r.next (Clears-block n)
        r.dropped;
  taken =
      Clears-up (λ j. free_block n j) (λ l. release_cell r.copy l) n (suc n) r.next (Clears-block n)
        r.taken;
  unleaked = r.unleaked;
}

cons_Copied :
    (n : ℕ) (c : Cell) (cs : Cells) (k : Live) (r : Copied k n c)
    → CopiedAll k r.next cs
    → CopiedAll k n (cell c cs)
unfolding clone_cell drop_cell release_cell leaked_slices count
cons_Copied n c cs k r s = record {
  copy = cell r.copy s.copy;
  next = s.next;
  cloned = rw (r.cloned, s.cloned) refl;
  counted = ap suc s.counted;
  dropped =
      Clears-up (λ j. drop_cell r.copy j) (λ l. drop_cells s.copy l) n r.next s.next r.dropped
        s.dropped;
  taken =
      Clears-up (λ j. release_cell r.copy j) (λ l. release_cells s.copy l) n r.next s.next r.taken
        s.taken;
  unleaked = rw (r.unleaked, s.unleaked) refl;
}

plain_Copied : (n : ℕ) (k : Live) → Copied k n mem_plain
unfolding clone_cell drop_cell release_cell leaked_slices
plain_Copied n k = record {
  copy = mem_plain;
  next = n;
  cloned = refl;
  dropped = Clears-none n;
  taken = Clears-none n;
  unleaked = refl;
}

none_Copied : (n : ℕ) (k : Live) → CopiedAll k n no_cells
unfolding clone_cell drop_cell release_cell leaked_slices
none_Copied n k = record {
  copy = no_cells;
  next = n;
  cloned = refl;
  counted = refl;
  dropped = Clears-none n;
  taken = Clears-none n;
  unleaked = refl;
}

mutual
  pub cell_Copied : (c : Cell) (n : ℕ) (k : Live) → IsIntact k c → Copied k n c
  cell_Copied mem_plain n k h = plain_Copied n k
  cell_Copied (mem_string none) n k h = elim h [ ]
  cell_Copied (mem_string (some a)) n k h = string_Copied a n k h
  cell_Copied (mem_array box none len cs) n k h = empty_Copied box n len cs k h
  cell_Copied (mem_array box (some arr) len cs) n k h =
      subst (λ l. Copied k n (mem_array box (some arr) l cs)) (sym h.2)
        (array_Copied box arr n cs k h.0 h.1 h.3 h.4 (cells_Copied cs (suc (suc n)) k h.5))
  cell_Copied (mem_object box cs) n k h =
      object_Copied box n cs k h.0 (cells_Copied cs (suc n) k h.1)
  cell_Copied (mem_bytes arr) n k h = elim h [ ]
  cell_Copied (mem_geometry slices copies) n k h = elim h [ ]
  cell_Copied (mem_thing none id) n k h = elim h [ ]
  cell_Copied (mem_thing (some a) id) n k h =
      thing_Copied a n id k h.0 (cell_Copied id (suc n) k h.1)

  pub cells_Copied : (cs : Cells) (n : ℕ) (k : Live) → AreIntact k cs → CopiedAll k n cs
  cells_Copied no_cells n k h = none_Copied n k
  cells_Copied (cell c cs) n k h =
      let r = cell_Copied c n k h.0 in cons_Copied n c cs k r (cells_Copied cs r.next k h.1)
