-- ===== src/VdsoRng/Pool/Apart.antt =====
-- The states of the pool of crates/vdso-rng/src/pool.rs as ranges of bytes.
use mathlib.Core.HLevel.{¬_prop}
use mathlib.Core.List.{Mem, mem-cons_self, mem-cons_of_mem, Pairwise, Perm}
use mathlib.Core.List.Perm
use useless.Base.{
  ℕ, zero, suc, ◌+◌, ◌*◌, ◌≤◌, ◌<◌, sym, subst, List, [], ◌∷◌, ◌++◌, All, All-append, All-map,
  Pairwise-cons_All, Pairwise-append_All, arith,
}
use useless.VdsoRng.Os.{Kernel, SegQueue, SegQueueLaws}
use useless.VdsoRng.Config.{Config, IsUsable}
use useless.VdsoRng.Pool.Blocks.{states, pages, block}
use useless.VdsoRng.Pool.Ownership.{blocks, PoolState, Reachable, Reachable-IsOwned}

-- The ranges of `size` bytes at `x` and at `y` have no byte in common.
abbrev pub Apart : ℕ → ℕ → ℕ → Type 0
Apart size x y = ¬ ((x < y + size) × (y < x + size))

Apart-prop : (size x y : ℕ) → IsProp (Apart size x y)
Apart-prop size x y = ¬_prop

-- The range of `size` bytes at `x` lies between `low` and `high`.
abbrev Within : (size low high x : ℕ) → Type 0
Within size low high x = (low ≤ x) × (x + size ≤ high)

Within-wider :
    (size low high low' high' : ℕ)
    → low' ≤ low
    → high ≤ high'
    → (x : ℕ) → Within size low high x
    → Within size low' high' x
Within-wider size low high low' high' hl hh x h = (omega arith, omega arith)

-- Ranges within ranges that have no byte in common have none.
Within-Apart :
    (size low high low' high' : ℕ)
    → high ≤ low'
    → (x : ℕ) → Within size low high x
    → (y : ℕ) → Within size low' high' y
    → Apart size x y
Within-Apart size low high low' high' h x hx y hy = λ both. omega arith

module _ (c : Config) where
  abbrev size : ℕ
  size = c.params.size_of_opaque_states

  states-Within :
      (page n s : ℕ)
      → All (Within size (page + s * size) (page + (s + n) * size)) (states c page n s)
  unfolding states
  states-Within page zero s = tt
  states-Within page (suc n) s = (
    (omega arith, omega arith),
    All-map _ (Within-wider size _ _ _ _ (omega arith) (omega arith)) _
        (states-Within page n (s + 1)),
  )

  states-Apart : (page n s : ℕ) → Pairwise (Apart size) (states c page n s)
  unfolding states
  states-Apart page zero s = Pairwise.nil
  states-Apart page (suc n) s =
      Pairwise-cons_All (Apart size) (Apart-prop size) _ _
        (All-map _
          (Within-Apart size (page + s * size) (page + (s + 1) * size) _ _ (omega arith) _
            (omega arith, omega arith))
          _ (states-Within page n (s + 1)))
        (states-Apart page n (s + 1))

  module _ (u : IsUsable c) where
    page-Within :
        (page : ℕ) → All (Within size page (page + c.page_size)) (states c page c.states_per_page 0)
    page-Within page =
        All-map _ (Within-wider size _ _ _ _ (omega arith) (omega (arith, u.states_fit))) _
          (states-Within page c.states_per_page 0)

    pages-Within :
        (base n p : ℕ)
        → All
            (Within size (base + p * c.page_size) (base + (p + n) * c.page_size))
            (pages c base n p)
    unfolding pages
    pages-Within base zero p = tt
    pages-Within base (suc n) p =
        All-append _ (states c (base + p * c.page_size) c.states_per_page 0) _
          (All-map _ (Within-wider size _ _ _ _ (omega arith) (omega arith)) _
            (page-Within (base + p * c.page_size)))
          (All-map _ (Within-wider size _ _ _ _ (omega arith) (omega arith)) _
            (pages-Within base n (p + 1)))

    pages-Apart : (base n p : ℕ) → Pairwise (Apart size) (pages c base n p)
    unfolding pages
    pages-Apart base zero p = Pairwise.nil
    pages-Apart base (suc n) p =
        Pairwise-append_All (Apart size) (Apart-prop size) _ _
          (states-Apart (base + p * c.page_size) c.states_per_page 0) (pages-Apart base n (p + 1))
          (All-map _
            (λ x hx.
              All-map _ (Within-Apart size _ _ _ _ (omega arith) x hx) _
                (pages-Within base n (p + 1)))
            _ (page-Within (base + p * c.page_size)))

    abbrev bytes : ℕ
    bytes = c.page_size * c.pages_per_block

    block-Within : (base : ℕ) → All (Within size base (base + bytes)) (block c base)
    block-Within base =
        All-map _ (Within-wider size _ _ _ _ (omega arith) (omega arith)) _
          (pages-Within base c.pages_per_block 0)

    Apart-blocks :
        (a b x y : ℕ)
        → Apart bytes a b
        → Within size a (a + bytes) x
        → Within size b (b + bytes) y
        → Apart size x y
    Apart-blocks a b x y h hx hy = λ both. h (omega arith, omega arith)

    other_blocks :
        (a x : ℕ) (bases : List ℕ)
        → Within size a (a + bytes) x
        → ((b : ℕ) → Mem b bases → Apart bytes a b)
        → All (Apart size x) (blocks c bases)
    unfolding blocks
    other_blocks a x [] hx h = tt
    other_blocks a x (b ∷ bases) hx h =
        All-append _ (block c b) (blocks c bases)
          (All-map _ (λ y. Apart-blocks a b x y (h b mem-cons_self) hx) _ (block-Within b))
          (other_blocks a x bases hx (λ b' m. h b' (mem-cons_of_mem _ m)))

    pub blocks-Apart :
        (bases : List ℕ) → Pairwise (Apart bytes) bases → Pairwise (Apart size) (blocks c bases)
    unfolding blocks
    blocks-Apart [] h = Pairwise.nil
    blocks-Apart (b ∷ bases) (Pairwise.cons h p) =
        Pairwise-append_All (Apart size) (Apart-prop size) _ _ (pages-Apart b c.pages_per_block 0)
          (blocks-Apart bases p)
          (All-map _ (λ x hx. other_blocks b x bases hx h) _ (block-Within b))

pub Apart-sym : (n x y : ℕ) → Apart n x y → Apart n y x
Apart-sym n x y h = λ both. h (both.1, both.0)

-- In every system that comes of a new pool with a usable configuration, by any sequence of `get` and
-- `recycle`: if the mapped blocks have no byte in common, then neither have any two of the states
-- that are free or rented. So no state is rented twice, or free while it is rented.
pub Reachable-Apart :
    (k : Kernel) (q : SegQueue)
    → SegQueueLaws q
    → (fuel : ℕ) (c : Config) → IsUsable c
    → (s : PoolState k q) → Reachable k q (suc (suc fuel)) c s
    → Pairwise (Apart (c.page_size * c.pages_per_block)) s.pool.mmaps.contents.contents
    → Pairwise (Apart c.params.size_of_opaque_states) (q.to_list s.pool.freelist ++ s.lent)
Reachable-Apart k q laws fuel c u s h apart =
    let o = Reachable-IsOwned k q laws fuel c u s h in
    Perm.pairwise (Apart-prop _) (Apart-sym _)
      (Perm.symm (
        subst (λ p. Perm (q.to_list p.freelist ++ s.lent) (blocks c o.bases)) (sym o.idle)
          o.covered))
      (blocks-Apart c u o.bases (
        subst (λ p. Pairwise (Apart (c.page_size * c.pages_per_block)) p.mmaps.contents.contents)
          o.idle apart))
