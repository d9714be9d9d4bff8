-- ===== src/VdsoRng/Pool.antt =====
-- crates/vdso-rng/src/pool.rs: the pool of state blocks, called by one thread at a time. The lock over
-- the mappings is the poisoning lock of crates/lamlock, without `std`.
pub mod Blocks
pub mod Refinement
pub mod Ownership
pub mod Apart
pub mod Teardown
pub mod Threads
use useless.Base.{
  ℕ, zero, suc, ◌+◌, ◌*◌, Bool, true, false, List, [], ◌∷◌, ◌++◌, Option, none, some, Result, ok,
  err, if◌then◌else◌, ◌==◌, length,
}
use useless.Lamlock.Solo.{Lock, Outcome, returned, Answer, value, cancelled, unwinds}
use useless.Lamlock.Poison
use useless.Lamlock.Poison.{Shared}
use useless.VdsoRng.Os.{Error, pool_poisoned, allocation_failure, Kernel, SegQueue, mmap, munmap}
use useless.VdsoRng.Config.{Config}

pub record Pool (q : SegQueue) : Type 0 where
  pub config : Config
  pub mmaps : Lock (Shared (List ℕ))
  pub freelist : q.Queue

module _ (k : Kernel) (q : SegQueue) where
  -- `Pool::new`, once the configuration is known.
  unfoldable pub new : Config → Pool q
  new config = record { config = config; mmaps = Poison.new []; freelist = q.new }

  -- The inner loop of `grow`: the states `s`, `s + 1`, … of a page, `n` of them.
  unfoldable pub push_states : Config → (page : ℕ) → (n s : ℕ) → q.Queue → q.Queue
  push_states c page zero s free = free
  push_states c page (suc n) s free =
      push_states c page n (s + 1) (q.push free (page + s * c.params.size_of_opaque_states))

  -- The outer loop: the pages `p`, `p + 1`, … of the block at `base`, `n` of them.
  unfoldable pub push_pages : Config → (base : ℕ) → (n p : ℕ) → q.Queue → q.Queue
  unfolding push_states
  push_pages c base zero p free = free
  push_pages c base (suc n) p free =
      push_pages c base n (p + 1) (push_states c (base + p * c.page_size) c.states_per_page 0 free)

  -- What `grow` and the loop of `get` change.
  pub record Resources : Type 0 where
    pub world : k.World
    pub mmaps : List ℕ
    pub freelist : q.Queue

  grown : Config → Resources → k.World × Option ℕ → Resources × Result Error (Unit {0})
  unfolding push_pages
  grown c r (w, none) = (record r { world = w }, err allocation_failure)
  grown c r (w, some page) = (
    record {
      world = w;
      mmaps = r.mmaps ++ (page ∷ []);
      freelist = push_pages c page c.pages_per_block 0 r.freelist;
    },
    ok tt,
  )

  unfoldable pub grow : Config → Resources → Resources × Result Error (Unit {0})
  unfolding grown mmap
  grow c r =
      grown c r
        (mmap k r.world (c.page_size * c.pages_per_block) c.params.mmap_prot c.params.mmap_flags)

  -- The loop of `get` under the lock. With `none` it has not ended in `fuel` rounds.
  unfoldable pub get_loop : ℕ → Config → Resources → Resources × Option (Result Error ℕ)
  unfolding grow
  get_loop zero c r = (r, none)
  get_loop (suc fuel) c r = elim (q.pop r.freelist) [
    | some (ptr, rest) ↦ (record r { freelist = rest }, some (ok ptr))
    | none ↦ elim (grow c r).1 [
      | ok done ↦ get_loop fuel c (grow c r).0
      | err e ↦ ((grow c r).0, some (err e))
    ]
  ]

  -- The closure that `get` runs under the lock. It does not panic.
  abbrev Under : Type 0
  Under = k.World × q.Queue × Option (Result Error ℕ)

  unfoldable pub get_closure : ℕ → Config → k.World → q.Queue → List ℕ → Outcome (List ℕ) Under
  unfolding get_loop
  get_closure fuel c w free mmaps =
      let r : Resources × Option (Result Error ℕ) =
        get_loop fuel c (record { world = w; mmaps = mmaps; freelist = free }) in
      returned (r.0.world, r.0.freelist, r.1) r.0.mmaps

  -- `unwrap_or(Err(PoolPoisoned))`.
  after_lock :
      k.World
      → Pool q
      → Option (Lock (Shared (List ℕ)) × Answer Under)
      → Option (k.World × Pool q × Result Error ℕ)
  after_lock w p none = none
  after_lock w p (some (l, value (w', free, some result))) =
      some (w', record p { mmaps = l; freelist = free }, result)
  after_lock w p (some (l, value (w', free, none))) = none
  after_lock w p (some (l, cancelled)) = some (w, record p { mmaps = l }, err pool_poisoned)
  after_lock w p (some (l, unwinds payload)) = none

  unfoldable pub get_under_lock : ℕ → k.World → Pool q → Option (k.World × Pool q × Result Error ℕ)
  unfolding get_closure after_lock Poison.run
  get_under_lock fuel w p =
      after_lock w p (Poison.run false 0 p.mmaps (get_closure fuel p.config w p.freelist))

  -- `Pool::get`. `none` is a call that does not return: the loop has not ended within the fuel.
  unfoldable pub get : ℕ → k.World → Pool q → Option (k.World × Pool q × Result Error ℕ)
  unfolding get_under_lock
  get fuel w p = elim (q.pop p.freelist) [
    | some (ptr, rest) ↦ some (w, record p { freelist = rest }, ok ptr)
    | none ↦ get_under_lock fuel w p
  ]

  unfoldable pub recycle : Pool q → ℕ → Pool q
  recycle p ptr = record p { freelist = q.push p.freelist ptr }

  -- The first loop of `drop`, which counts the states that it pops; `none` if the fuel ran out.
  unfoldable pub drain : ℕ → q.Queue → ℕ → Option ℕ
  drain zero free counter = none
  drain (suc fuel) free counter = elim (q.pop free) [
    | some (ptr, rest) ↦ drain fuel rest (counter + 1)
    | none ↦ some counter
  ]

  unfoldable pub unmap_all : Config → k.World → List ℕ → k.World
  unfolding munmap
  unmap_all c w [] = w
  unmap_all c w (page ∷ pages) =
      unmap_all c (munmap k w page (c.page_size * c.pages_per_block)) pages

  -- `Pool::drop` in a debug build: the kernel after it, and whether the assertion on the count held.
  unfoldable pub drop : ℕ → k.World → Pool q → Option (k.World × Bool)
  unfolding drain unmap_all
  drop fuel w p = elim (drain fuel p.freelist 0) [
    | none ↦ none
    | some counter ↦
        let mmaps : List ℕ = p.mmaps.contents.contents in
        if counter == p.config.pages_per_block * p.config.states_per_page * length mmaps
        then some (unmap_all p.config w mmaps, true)
        else some (w, false)
  ]
