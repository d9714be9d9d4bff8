-- ===== src/VdsoRng/Pool/Refinement.antt =====
-- `Pool::get` of crates/vdso-rng/src/pool.rs against an abstract pool: two lists.
use native.Mathlib.Nat.{mul-pos}
use useless.Base.{
  false, ℕ, suc, ◌*◌, ◌≡◌, refl, ap, ◌∙◌, List, [], ◌∷◌, ◌++◌, Option, none, some, Result, ok, err,
  inl, inr, List-cases, Option-cases, length, arith,
}
use useless.VdsoRng.Os.{Error, allocation_failure, Kernel, SegQueue, SegQueueLaws, mmap}
use useless.VdsoRng.Config.{Config, IsUsable}
use useless.Lamlock.Poison.History.{free}
use useless.VdsoRng.Pool.{Pool, Resources, push_pages, grow, get_loop, get_under_lock, get}
use useless.VdsoRng.Pool.Blocks.{block, push_pages-to_list, length-pages}

-- The free states in their order, and the mappings.
abbrev pub Abstract : Type 0
Abstract = List ℕ × List ℕ

-- The first state of a new block at `base` is taken.
unfoldable pub open_block : ℕ → List ℕ → List ℕ → Abstract × Result Error ℕ
open_block base bases [] = (([], bases), err allocation_failure)
open_block base bases (x ∷ rest) = ((rest, bases ++ (base ∷ [])), ok x)

-- Takes the first free state. Without one, it takes the first of a new block, if a mapping is had.
unfoldable pub take_state : Config → Option ℕ → Abstract → Abstract × Result Error ℕ
unfolding open_block
take_state c answer (x ∷ rest, bases) = ((rest, bases), ok x)
take_state c none ([], bases) = (([], bases), err allocation_failure)
take_state c (some base) ([], bases) = open_block base bases (block c base)

block_nonempty :
    (c : Config) (base : ℕ) → IsUsable c → (x : ℕ) × (rest : List ℕ) × (block c base ≡ x ∷ rest)
block_nonempty c base u = elim (List-cases (block c base)) [
  | inl e ↦ absurd (
      omega (
        arith,
        ap length e,
        length-pages c base c.pages_per_block 0,
        mul-pos u.some_page u.some_state,
      ))
  | inr r ↦ r
]

module _ (k : Kernel) (q : SegQueue) where
  -- The pool whose lock no thread holds.
  abbrev pub pool : Config → List ℕ → q.Queue → Pool q
  pool c bases states = record { config = c; mmaps = free false bases; freelist = states }

  abbrev pub mapping : Config → k.World → k.World × Option ℕ
  mapping c w = mmap k w (c.page_size * c.pages_per_block) c.params.mmap_prot c.params.mmap_flags

  module _ (c : Config) (w : k.World) (bases : List ℕ) (states : q.Queue) where
    -- A free state is had without the lock.
    get_free :
        (fuel ptr : ℕ) (rest : q.Queue)
        → q.pop states ≡ some (ptr, rest)
        → get k q fuel w (pool c bases states) ≡ some (w, pool c bases rest, ok ptr)
    unfolding get
    get_free fuel ptr rest e = rw (e, get) refl

    get_free_lem :
        (fuel : ℕ)
        → q.pop states ≡ none
        → get k q fuel w (pool c bases states) ≡ get_under_lock k q fuel w (pool c bases states)
    unfolding get
    get_free_lem fuel e = rw (e, get) refl

    under_lock :
        (fuel : ℕ) (r : Resources k q) (result : Result Error ℕ)
        → get_loop k q fuel c (record { world = w; mmaps = bases; freelist = states })
          ≡ (r, some result)
        → get_under_lock k q fuel w (pool c bases states)
          ≡ some (r.world, pool c r.mmaps r.freelist, result)
    unfolding get_under_lock
    under_lock fuel r result e = rw (e, get_under_lock) refl

    abbrev resources : Resources k q
    resources = record { world = w; mmaps = bases; freelist = states }

    grow_fails :
        (mapping c w).1 ≡ none
        → grow k q c resources
          ≡ (record resources { world = (mapping c w).0 }, err allocation_failure)
    unfolding grow
    grow_fails m = rw (m, grow) refl

    abbrev enlarged : ℕ → Resources k q
    enlarged base = record {
      world = (mapping c w).0;
      mmaps = bases ++ (base ∷ []);
      freelist = push_pages k q c base c.pages_per_block 0 states;
    }

    grow_succeeds :
        (base : ℕ) → (mapping c w).1 ≡ some base → grow k q c resources ≡ (enlarged base, ok tt)
    unfolding grow
    grow_succeeds base m = rw (m, grow) refl

    get_fails :
        (fuel : ℕ)
        → q.pop states ≡ none
        → (mapping c w).1 ≡ none
        → get k q (suc fuel) w (pool c bases states)
          ≡ some ((mapping c w).0, pool c bases states, err allocation_failure)
    unfolding get_loop
    get_fails fuel e m =
        get_free_lem (suc fuel) e
        ∙ under_lock (suc fuel) (record resources { world = (mapping c w).0 }) _
            (rw (e, get_loop, grow_fails m, grow_fails m) refl)

    get_grows :
        (fuel base ptr : ℕ) (rest : q.Queue)
        → q.pop states ≡ none
        → (mapping c w).1 ≡ some base
        → q.pop (push_pages k q c base c.pages_per_block 0 states) ≡ some (ptr, rest)
        → get k q (suc (suc fuel)) w (pool c bases states)
          ≡ some ((mapping c w).0, pool c (bases ++ (base ∷ [])) rest, ok ptr)
    unfolding get_loop
    get_grows fuel base ptr rest e m f =
        get_free_lem (suc (suc fuel)) e
        ∙ under_lock (suc (suc fuel)) (record (enlarged base) { freelist = rest }) _
            (rw (e, get_loop, grow_succeeds base m, grow_succeeds base m, f, grow_succeeds base m)
              refl)

  -- The kernel is asked for a mapping only when no state is free.
  abbrev pub world_after : Config → k.World → List ℕ → k.World
  world_after c w [] = (mapping c w).0
  world_after c w (x ∷ rest) = w

  -- What a call of `get` did: it returned, with the lock free again, and did what `take_state` does.
  pub record Takes (fuel : ℕ) (c : Config) (w : k.World) (bases : List ℕ) (states : q.Queue)
      : Type 0 where
    pub bases_after : List ℕ
    pub states_after : q.Queue
    pub result : Result Error ℕ
    pub returns :
        get k q fuel w (pool c bases states)
        ≡ some (world_after c w (q.to_list states), pool c bases_after states_after, result)
    pub takes :
        take_state c (mapping c w).1 (q.to_list states, bases)
        ≡ ((q.to_list states_after, bases_after), result)

  -- On a pool with a usable configuration whose lock no thread holds, `get` returns, after two rounds
  -- of its loop at most, and does what `take_state` does to the two lists.
  pub get-take_state :
      (laws : SegQueueLaws q) (fuel : ℕ) (c : Config) (w : k.World) (bases : List ℕ)
      (states : q.Queue)
      → IsUsable c
      → Takes (suc (suc fuel)) c w bases states
  unfolding take_state open_block
  get-take_state laws fuel c w bases states u = elim (List-cases (q.to_list states)) [
    | inr (x, rest, e) ↦
        let front = laws.pop_front states x rest e in
        record {
          bases_after = bases;
          states_after = front.0;
          result = ok x;
          returns = rw e (get_free c w bases states (suc (suc fuel)) x front.0 front.1);
          takes = rw (e, front.2) refl;
        }
    | inl e ↦ elim (Option-cases (mapping c w).1) [
      | inl m ↦ record {
        bases_after = bases;
        states_after = states;
        result = err allocation_failure;
        returns = rw e (get_fails c w bases states (suc fuel) (laws.pop_empty states e) m);
        takes = rw (e, m) refl;
      }
      | inr (base, m) ↦
          let (x, rest, first) = block_nonempty c base u in
          let front =
            laws.pop_front (push_pages k q c base c.pages_per_block 0 states) x rest
              (push_pages-to_list k q laws c base c.pages_per_block 0 states ∙ rw e first) in
          record {
            bases_after = bases ++ (base ∷ []);
            states_after = front.0;
            result = ok x;
            returns = rw e (
                get_grows c w bases states fuel base x front.0 (laws.pop_empty states e) m front.1);
            takes = rw (e, m, first, front.2) refl;
          }
    ]
  ]
