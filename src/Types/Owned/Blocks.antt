-- ===== src/Types/Owned/Blocks.antt =====
-- Ranges of blocks, and what is live after some of them are freed.
use surrealdb_c.Prelude.{
  ℕ, suc, ◌≡◌, ◌≤◌, ◌<◌, ap, ◌∙◌, true, false, ◌&&◌, ltb, leb, ◌==◌, arith, if◌then◌else◌,
}
use mathlib.Core.Path.{fun_ext}
use surrealdb_c.Rust.Run.{Run, ok, ◌>>=◌}
use surrealdb_c.Types.Owned.{Live, free_block}

-- Every block from `lo` on and below `hi` is live.
abbrev pub AreLive : ℕ → ℕ → Live → Type 0
AreLive lo hi k = (i : ℕ) → lo ≤ i → i < hi → k i ≡ true

-- In the range what `p` says is live, and elsewhere what was.
abbrev pub after : Live → ℕ → ℕ → Live → Live
after p lo hi k i = if leb lo i && ltb i hi then p i else k i

-- `p` below `m`, and `q` from there on.
abbrev pub split : ℕ → Live → Live → Live
split m p q i = if ltb i m then p i else q i

abbrev pub nothing : Live
nothing _ = false

after_point : (p : Live) (lo : ℕ) (k : Live) (i : ℕ) → k i ≡ after p lo lo k i
after_point p lo k i = ground arith

pub after_none : (p : Live) (lo : ℕ) (k : Live) → k ≡ after p lo lo k
after_none p lo k = fun_ext (after_point p lo k)

kept_point :
    (p k : Live) (lo hi i : ℕ)
    → AreLive lo hi k
    → ((i : ℕ) → lo ≤ i → i < hi → p i ≡ true)
    → k i ≡ after p lo hi k i
kept_point p k lo hi i h q = ground (arith, h i, q i)

pub after_kept :
    (p k : Live) (lo hi : ℕ)
    → AreLive lo hi k
    → ((i : ℕ) → lo ≤ i → i < hi → p i ≡ true)
    → k ≡ after p lo hi k
after_kept p k lo hi h q = fun_ext (λ i. kept_point p k lo hi i h q)

freed_point : (k : Live) (a i : ℕ) → (if i == a then false else k i) ≡ after nothing a (suc a) k i
freed_point k a i = ground arith

pub free_block-after :
    (k : Live) (a : ℕ) → k a ≡ true → free_block a k ≡ ok (after nothing a (suc a) k)
unfolding free_block
free_block-after k a h = rw h (ap ok (fun_ext (freed_point k a)))

then_point :
    (p q k : Live) (lo m hi i : ℕ)
    → lo ≤ m
    → m ≤ hi
    → after q m hi (after p lo m k) i ≡ after (split m p q) lo hi k i
then_point p q k lo m hi i h e = ground arith

pub after-after :
    (p q k : Live) (lo m hi : ℕ)
    → lo ≤ m
    → m ≤ hi
    → after q m hi (after p lo m k) ≡ after (split m p q) lo hi k
after-after p q k lo m hi h e = fun_ext (λ i. then_point p q k lo m hi i h e)

pub AreLive-after :
    (p k : Live) (lo m n hi : ℕ) → m ≤ n → AreLive n hi k → AreLive n hi (after p lo m k)
AreLive-after p k lo m n hi h l i a b = ground (arith, l i a b)

-- A step that frees in a range, and then one that frees in the next.
pub then_after :
    (r : Run Live) (f : Live → Run Live) (p q k : Live) (lo m hi : ℕ)
    → lo ≤ m
    → m ≤ hi
    → r ≡ ok (after p lo m k)
    → f (after p lo m k) ≡ ok (after q m hi (after p lo m k))
    → (r >>= f) ≡ ok (after (split m p q) lo hi k)
then_after r f p q k lo m hi h e u v =
    ap (λ (x : Run Live). x >>= f) u ∙ v ∙ ap ok (after-after p q k lo m hi h e)

ext_point :
    (p q k : Live) (lo hi i : ℕ)
    → ((i : ℕ) → lo ≤ i → i < hi → p i ≡ q i)
    → after p lo hi k i ≡ after q lo hi k i
ext_point p q k lo hi i h = ground (arith, h i)

pub after_ext :
    (p q k : Live) (lo hi : ℕ)
    → ((i : ℕ) → lo ≤ i → i < hi → p i ≡ q i)
    → after p lo hi k ≡ after q lo hi k
after_ext p q k lo hi h = fun_ext (λ i. ext_point p q k lo hi i h)
