-- ===== src/VdsoRng/Pool/Threads/Counted.antt =====
-- The number of states of a pool that several threads use, which `Pool::drop` asserts.
use useless.Base.{
  ℕ, ◌+◌, ◌*◌, ◌<◌, ◌≡◌, refl, ap, ◌∙◌, sum_to, sum_to_zero, length, length-append, arith,
}
use useless.VdsoRng.Os.{Kernel, SegQueue, SegQueueLaws}
use useless.VdsoRng.Config.{Config}
use useless.VdsoRng.Pool.Refinement.{pool}
use useless.VdsoRng.Pool.Teardown.{length-blocks, Dropped, drop_pool-Dropped}
use useless.VdsoRng.Pool.Threads.{Place, outside, SharedPool, Reached}
use useless.VdsoRng.Pool.Threads.Accounted.{Measure, carries}
use useless.VdsoRng.Pool.Threads.Kept.{Kept, Reached-Kept}

lengths : Measure
lengths = record { number = length; number_empty = refl; number-append = length-append }

module _ (k : Kernel) (q : SegQueue) (laws : SegQueueLaws q) (c : Config) (n : ℕ) where
  abbrev pub hands : SharedPool k q → ℕ
  hands s = sum_to (λ p. length (carries c p)) n s.pc

  -- The number of the states of the mapped blocks.
  abbrev pub mapped_states : SharedPool k q → ℕ
  mapped_states s = c.pages_per_block * c.states_per_page * length s.mmaps

  pub counted :
      (s : SharedPool k q)
      → Reached k q c n s
      → length (q.to_list s.freelist) + hands s ≡ mapped_states s
  unfolding Kept lengths
  counted s h = Reached-Kept k q laws c lengths n s h ∙ length-blocks c s.mmaps

  nothing_carried : (p : Place) → p ≡ outside → length (carries c p) ≡ 0
  nothing_carried p e = ap (λ p'. length (carries c p')) e

  -- For any state that `n` threads reach on a new pool, with their calls of `get` and their drops of a
  -- `LocalState` interleaved in any order: when every thread is outside, `drop` ends in one round more than
  -- there are free states, the assertion on its count holds, and it makes one `munmap` call for each
  -- mapping, with its address and its size, in their order.
  pub drop_all_outside :
      (s : SharedPool k q)
      → Reached k q c n s
      → ((i : ℕ) → s.pc i ≡ outside)
      → (more : ℕ) → length (q.to_list s.freelist) < more
      → Dropped k q more s.world (pool k q c s.mmaps s.freelist)
  drop_all_outside s h all more enough =
      drop_pool-Dropped k q laws more c s.world s.mmaps s.freelist
        (omega (
          arith,
          counted s h,
          sum_to_zero (λ p. length (carries c p)) n s.pc (λ i. nothing_carried (s.pc i) (all i)),
        ))
        enough
