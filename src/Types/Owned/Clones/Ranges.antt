-- ===== src/Types/Owned/Clones/Ranges.antt =====
-- Frees that clear a range of blocks, in any order.
use surrealdb_c.Prelude.{ℕ, suc, ◌≡◌, ◌≤◌, ◌<◌, ap, ◌∙◌, true, false, arith}
use mathlib.Core.Path.{fun_ext}
use surrealdb_c.Rust.Run.{Run, ok, ◌>>=◌}
use surrealdb_c.Types.Owned.{Live, free_block}
use surrealdb_c.Types.Owned.Blocks.{AreLive, after, nothing, after_none, free_block-after}
use surrealdb_c.Types.Owned.Ranges.{everything}

-- It frees exactly the blocks of the range, where all of them are live.
pub record Clears (lo hi : ℕ) (f : Live → Run Live) : Type 0 where
  pub within : lo ≤ hi
  pub cleared : (k : Live) → AreLive lo hi k → f k ≡ ok (after nothing lo hi k)

pub Clears-none : (n : ℕ) → Clears n n (λ k. ok k)
Clears-none n = record { within = omega arith; cleared = λ k l. ap ok (after_none nothing n k) }

pub Clears-block : (n : ℕ) → Clears n (suc n) (free_block n)
Clears-block n = record {
  within = omega arith;
  cleared = λ k l. free_block-after k n (l n (omega arith) (omega arith));
}

live_up : (k : Live) (lo m hi : ℕ) (i : ℕ) → m ≤ i → k i ≡ true → after nothing lo m k i ≡ true
live_up k lo m hi i a h = ground (arith, h)

live_down : (k : Live) (lo m hi : ℕ) (i : ℕ) → i < m → k i ≡ true → after nothing m hi k i ≡ true
live_down k lo m hi i a h = ground (arith, h)

joined_up :
    (k : Live) (lo m hi i : ℕ)
    → lo ≤ m
    → m ≤ hi
    → after nothing m hi (after nothing lo m k) i ≡ after nothing lo hi k i
joined_up k lo m hi i a b = ground arith

joined_down :
    (k : Live) (lo m hi i : ℕ)
    → lo ≤ m
    → m ≤ hi
    → after nothing lo m (after nothing m hi k) i ≡ after nothing lo hi k i
joined_down k lo m hi i a b = ground arith

module _ (f g : Live → Run Live) (lo m hi : ℕ) where
  -- The lower part first, and the upper part first.
  pub Clears-up : Clears lo m f → Clears m hi g → Clears lo hi (λ k. f k >>= g)
  Clears-up a b = record {
    within = omega (arith, a.within, b.within);
    cleared = λ k l.
        ap (λ (r : Run Live). r >>= g) (a.cleared k (λ i p q. l i p (omega (arith, b.within))))
        ∙ b.cleared (after nothing lo m k)
            (λ i p q. live_up k lo m hi i p (l i (omega (arith, a.within)) q))
        ∙ ap ok (fun_ext (λ i. joined_up k lo m hi i a.within b.within));
  }

  pub Clears-down : Clears m hi f → Clears lo m g → Clears lo hi (λ k. f k >>= g)
  Clears-down a b = record {
    within = omega (arith, a.within, b.within);
    cleared = λ k l.
        ap (λ (r : Run Live). r >>= g) (a.cleared k (λ i p q. l i (omega (arith, b.within)) q))
        ∙ b.cleared (after nothing m hi k)
            (λ i p q. live_down k lo m hi i q (l i p (omega (arith, a.within))))
        ∙ ap ok (fun_ext (λ i. joined_down k lo m hi i b.within a.within));
  }

fresh_point :
    (k : Live) (lo hi i : ℕ)
    → (lo ≤ i → k i ≡ false)
    → after nothing lo hi (after everything lo hi k) i ≡ k i
fresh_point k lo hi i h = ground (arith, h)

live_point : (k : Live) (lo hi i : ℕ) → lo ≤ i → i < hi → after everything lo hi k i ≡ true
live_point k lo hi i a b = ground arith

-- New blocks that are cleared leave the heap as it was.
pub Clears-new :
    (f : Live → Run Live) (lo hi : ℕ) (k : Live)
    → Clears lo hi f
    → ((i : ℕ) → lo ≤ i → k i ≡ false)
    → f (after everything lo hi k) ≡ ok k
Clears-new f lo hi k c h =
    c.cleared (after everything lo hi k) (λ i p q. live_point k lo hi i p q)
    ∙ ap ok (fun_ext (λ i. fresh_point k lo hi i (h i)))

pub Clears-eq :
    {lo hi : ℕ} (f g : Live → Run Live) → ((k : Live) → f k ≡ g k) → Clears lo hi g → Clears lo hi f
Clears-eq f g e c = record { within = c.within; cleared = λ k l. e k ∙ c.cleared k l }
