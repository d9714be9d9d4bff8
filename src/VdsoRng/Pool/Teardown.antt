-- ===== src/VdsoRng/Pool/Teardown.antt =====
-- The drop of the pool of crates/vdso-rng/src/pool.rs.
use mathlib.Core.List.{Perm, Permᴰ}
use mathlib.Core.Logic.{∥∥₁_elim}
use native.Mathlib.Nat.{ℕ_set}
use useless.Base.{
  ℕ, zero, suc, ◌+◌, ◌*◌, ◌<◌, ◌≡◌, refl, sym, ap, subst, ◌∙◌, true, List, [], ◌∷◌, some, length,
  length-append, ◌==◌, arith,
}
use useless.VdsoRng.Os.{munmap, Kernel, SegQueue, SegQueueLaws}
use useless.VdsoRng.Config.{Config, IsUsable}
use useless.VdsoRng.Pool.{Pool, drain, unmap_all, drop}
use useless.VdsoRng.Pool.Blocks.{block, length-pages}
use useless.VdsoRng.Pool.Refinement.{pool}
use useless.VdsoRng.Pool.Ownership.{blocks, PoolState, Reachable, Reachable-IsOwned}

length-PermD : (xs ys : List ℕ) → Permᴰ xs ys → length xs ≡ length ys
length-PermD _ _ Permᴰ.nil = refl
length-PermD _ _ (Permᴰ.cons e p) = ap suc (length-PermD _ _ p)
length-PermD _ _ (Permᴰ.swap e f) = refl
length-PermD _ _ (Permᴰ.trans p p') = length-PermD _ _ p ∙ length-PermD _ _ p'

length-Perm : (xs ys : List ℕ) → Perm xs ys → length xs ≡ length ys
length-Perm xs ys p = ∥∥₁_elim p (ℕ_set _ _) (length-PermD xs ys)

pub length-blocks :
    (c : Config) (bases : List ℕ)
    → length (blocks c bases) ≡ c.pages_per_block * c.states_per_page * length bases
unfolding blocks
length-blocks c [] = omega arith
length-blocks c (b ∷ bases) = omega (
  arith,
  length-append (block c b) (blocks c bases),
  length-pages c b c.pages_per_block 0,
  length-blocks c bases,
)

-- The kernels `w` and `w'` differ by one `munmap` of `size` bytes for each mapping, in their order.
pub data Unmapped (k : Kernel) (size : ℕ) : k.World → List ℕ → k.World → Type 0 where
  nothing_left : (w : k.World) → Unmapped k size w [] w
  unmaps :
      (w w' : k.World) (base : ℕ) (bases : List ℕ)
      → Unmapped k size (k.munmap_call w base size) bases w'
      → Unmapped k size w (base ∷ bases) w'

unmap_all-Unmapped :
    (k : Kernel) (q : SegQueue) (c : Config) (w : k.World) (bases : List ℕ)
    → Unmapped k (c.page_size * c.pages_per_block) w bases (unmap_all k q c w bases)
unfolding unmap_all munmap
unmap_all-Unmapped k q c w [] = Unmapped.nothing_left w
unmap_all-Unmapped k q c w (base ∷ bases) =
    Unmapped.unmaps w _ base bases
      (unmap_all-Unmapped k q c (k.munmap_call w base (c.page_size * c.pages_per_block)) bases)

-- `drop` ends with its assertion held, and every mapping is unmapped.
pub record Dropped (k : Kernel) (q : SegQueue) (more : ℕ) (w : k.World) (p : Pool q) : Type 0 where
  pub world_after : k.World
  pub run : drop k q more w p ≡ some (world_after, true)
  pub unmapped :
      Unmapped k
        (p.config.page_size * p.config.pages_per_block)
        w
        p.mmaps.contents.contents
        world_after

same_number : (m n : ℕ) → m ≡ n → (m == n) ≡ true
same_number m n e = ground arith

module _ (k : Kernel) (q : SegQueue) (laws : SegQueueLaws q) where
  drain-length :
      (xs : List ℕ) (fuel : ℕ) (states : q.Queue) (counter : ℕ)
      → q.to_list states ≡ xs
      → length xs < fuel
      → drain k q fuel states counter ≡ some (counter + length xs)
  unfolding drain
  drain-length xs zero states counter e h = absurd (omega arith)
  drain-length [] (suc fuel) states counter e h =
      rw (laws.pop_empty states e, drain) (ap some (omega arith))
  drain-length (x ∷ xs) (suc fuel) states counter e h =
      let front = laws.pop_front states x xs e in
      rw (front.1, drain)
        (drain-length xs fuel front.0 (counter + 1) front.2 (omega arith) ∙ ap some (omega arith))

  drop_pool :
      (more : ℕ) (c : Config) (w : k.World) (bases : List ℕ) (states : q.Queue)
      → length (q.to_list states) ≡ c.pages_per_block * c.states_per_page * length bases
      → length (q.to_list states) < more
      → drop k q more w (pool k q c bases states) ≡ some (unmap_all k q c w bases, true)
  unfolding drop
  drop_pool more c w bases states e enough =
      rw
        (
          drain-length (q.to_list states) more states 0 refl enough,
          drop,
          same_number (0 + length (q.to_list states))
              (c.pages_per_block * c.states_per_page * length bases) (omega (arith, e)),
        )
        refl

  pub drop_pool-Dropped :
      (more : ℕ) (c : Config) (w : k.World) (bases : List ℕ) (states : q.Queue)
      → length (q.to_list states) ≡ c.pages_per_block * c.states_per_page * length bases
      → length (q.to_list states) < more
      → Dropped k q more w (pool k q c bases states)
  drop_pool-Dropped more c w bases states e enough = record {
    world_after = unmap_all k q c w bases;
    run = drop_pool more c w bases states e enough;
    unmapped = unmap_all-Unmapped k q c w bases;
  }

  -- When a system that comes of a new pool with a usable configuration has no state rented, `drop` ends
  -- in one round more than there are free states, the assertion on its count holds, and it makes one
  -- `munmap` call for each mapping, with its address and its size, in their order.
  pub drop-Dropped :
      (fuel more : ℕ) (c : Config)
      → IsUsable c
      → (s : PoolState k q) → Reachable k q (suc (suc fuel)) c s
      → s.lent ≡ []
      → length (q.to_list s.pool.freelist) < more
      → Dropped k q more s.world s.pool
  drop-Dropped fuel more c u s h e enough =
      let o = Reachable-IsOwned k q laws fuel c u s h in
      let all = length-Perm _ _ o.covered in
      subst (λ p. length (q.to_list p.freelist) < more → Dropped k q more s.world p) (sym o.idle)
        (drop_pool-Dropped more c s.world o.bases o.states (
          omega (
            arith,
            all,
            length-append (q.to_list o.states) s.lent,
            ap length e,
            length-blocks c o.bases,
          )))
        enough
