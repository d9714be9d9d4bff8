-- ===== src/VdsoRng/Pool/Ownership.antt =====
-- Who holds the states of the pool of crates/vdso-rng/src/pool.rs: each state of a mapped block is in
-- the free list, or rented by one `LocalState`.
use mathlib.Core.List.{Perm, perm_append_comm, perm_middle}
use mathlib.Core.Option.{some-injective}
use mathlib.Core.List.Perm
use useless.Base.{
  ℕ, suc, ◌≡◌, refl, sym, ap, subst, ◌∙◌, List, [], ◌∷◌, ◌++◌, append_assoc, append-nil, Option,
  none, some, Result, ok, err,
}
use useless.VdsoRng.Os.{Error, Kernel, SegQueue, SegQueueLaws}
use useless.VdsoRng.Config.{Config, IsUsable}
use useless.VdsoRng.Pool
use useless.VdsoRng.Pool.{Pool, get, recycle}
use useless.VdsoRng.Pool.Blocks.{block}
use useless.VdsoRng.Pool.Refinement.{take_state, open_block, pool, get-take_state}

-- All the states of the blocks that were mapped.
unfoldable pub blocks : Config → List ℕ → List ℕ
blocks c [] = []
blocks c (base ∷ bases) = block c base ++ blocks c bases

-- The rented states after a `get` with the result `r`.
abbrev pub holding : Result Error ℕ → List ℕ → List ℕ
holding (ok ptr) lent = ptr ∷ lent
holding (err e) lent = lent

pub blocks-snoc :
    (c : Config) (bases : List ℕ) (base : ℕ)
    → blocks c (bases ++ (base ∷ [])) ≡ blocks c bases ++ block c base
unfolding blocks
blocks-snoc c [] base = append-nil _
blocks-snoc c (b ∷ bases) base =
    ap (◌++◌ (block c b)) (blocks-snoc c bases base)
    ∙ sym (append_assoc (block c b) (blocks c bases) (block c base))

module _ (c : Config) where
  -- The free states and the rented ones are those of the blocks.
  abbrev Covered : List ℕ → (List ℕ × List ℕ) × Result Error ℕ → Type 0
  Covered lent ((xs, bases), r) = Perm (xs ++ holding r lent) (blocks c bases)

  open_block-Covered :
      (bases lent : List ℕ) (base : ℕ) (xs : List ℕ)
      → block c base ≡ xs
      → Perm lent (blocks c bases)
      → Covered lent (open_block base bases xs)
  unfolding open_block
  open_block-Covered bases lent base [] e h = h
  open_block-Covered bases lent base (x ∷ rest) e h =
      rw (blocks-snoc c bases base, e)
        (Perm.trans (perm_middle rest lent)
          (Perm.trans (perm_append_comm (x ∷ rest) lent) (Perm.append_right (x ∷ rest) h)))

  take_state-Covered :
      (answer : Option ℕ) (xs bases lent : List ℕ)
      → Perm (xs ++ lent) (blocks c bases)
      → Covered lent (take_state c answer (xs, bases))
  unfolding take_state
  take_state-Covered answer (x ∷ rest) bases lent h = Perm.trans (perm_middle rest lent) h
  take_state-Covered none [] bases lent h = h
  take_state-Covered (some base) [] bases lent h =
      open_block-Covered bases lent base (block c base) refl h

module _ (k : Kernel) (q : SegQueue) where
  -- A pool, its kernel, and the states that live `LocalState`s hold.
  pub record PoolState : Type 0 where
    pub world : k.World
    pub pool : Pool q
    pub lent : List ℕ

  -- A `get` that returned, and the `recycle` of a held state by its `LocalState`.
  pub data Step (fuel : ℕ) : PoolState → PoolState → Type 0 where
    gets :
        (s : PoolState) (w : k.World) (p : Pool q) (r : Result Error ℕ)
        → get k q fuel s.world s.pool ≡ some (w, p, r)
        → Step fuel s (record { world = w; pool = p; lent = holding r s.lent })
    recycles :
        (s : PoolState) (xs ys : List ℕ) (ptr : ℕ)
        → s.lent ≡ xs ++ (ptr ∷ ys)
        → Step fuel s (record s { pool = recycle k q s.pool ptr; lent = xs ++ ys })

  -- The systems that come of a new pool.
  pub data Reachable (fuel : ℕ) (c : Config) : PoolState → Type 0 where
    starts :
        (w : k.World) → Reachable fuel c (record { world = w; pool = Pool.new k q c; lent = [] })
    steps : (s t : PoolState) → Reachable fuel c s → Step fuel s t → Reachable fuel c t

  -- No thread holds the lock, which is not poisoned, and every state of the mapped blocks is free or
  -- rented, as often as it stands in the blocks.
  pub record IsOwned (c : Config) (s : PoolState) : Type 0 where
    pub bases : List ℕ
    pub states : q.Queue
    pub idle : s.pool ≡ pool k q c bases states
    pub covered : Perm (q.to_list states ++ s.lent) (blocks c bases)

  module _ (laws : SegQueueLaws q) where
    gets-IsOwned :
        (fuel : ℕ) (c : Config) (s : PoolState) (w : k.World) (p : Pool q) (r : Result Error ℕ)
        → IsUsable c
        → get k q (suc (suc fuel)) s.world s.pool ≡ some (w, p, r)
        → IsOwned c s
        → IsOwned c (record { world = w; pool = p; lent = holding r s.lent })
    gets-IsOwned fuel c s w p r u e o =
        let t = get-take_state k q laws fuel c s.world o.bases o.states u in
        let same =
          some-injective _ _
            (sym t.returns ∙ ap (get k q (suc (suc fuel)) s.world) (sym o.idle) ∙ e) in
        let new_result : t.result ≡ r = ap (λ x. x.2) same in
        record {
          bases = t.bases_after;
          states = t.states_after;
          idle = sym (ap (λ x. x.1) same);
          covered =
              subst
                (λ (r : Result Error ℕ).
                  Perm (q.to_list t.states_after ++ holding r s.lent) (blocks c t.bases_after))
                new_result
                (subst (Covered c s.lent) t.takes
                  (take_state-Covered c _ (q.to_list o.states) o.bases s.lent o.covered));
        }

    recycles-IsOwned :
        (c : Config) (s : PoolState) (xs ys : List ℕ) (ptr : ℕ)
        → s.lent ≡ xs ++ (ptr ∷ ys)
        → IsOwned c s
        → IsOwned c (record s { pool = recycle k q s.pool ptr; lent = xs ++ ys })
    unfolding recycle
    recycles-IsOwned c s xs ys ptr e o = record {
      bases = o.bases;
      states = q.push o.states ptr;
      idle = rw o.idle refl;
      covered =
          rw
            (
              laws.to_list-push o.states ptr,
              append_assoc (q.to_list o.states) (ptr ∷ []) (xs ++ ys),
            )
            (Perm.trans (Perm.append_left (q.to_list o.states) (Perm.symm (perm_middle xs ys)))
              (subst (λ l. Perm (q.to_list o.states ++ l) (blocks c o.bases)) e o.covered));
    }

    -- In every system that comes of a new pool with a usable configuration, by any sequence of `get`
    -- and `recycle`, the lock is free and not poisoned, and the free states with the rented ones are
    -- the states of the mapped blocks, each as often as it stands there.
    pub Reachable-IsOwned :
        (fuel : ℕ) (c : Config)
        → IsUsable c
        → (s : PoolState) → Reachable (suc (suc fuel)) c s
        → IsOwned c s
    unfolding Pool.new blocks
    Reachable-IsOwned fuel c u s (starts w) = record {
      bases = [];
      states = q.new;
      idle = refl;
      covered = rw (laws.to_list-new) Perm.nil;
    }
    Reachable-IsOwned fuel c u t (steps s t' h (gets s' w p r e)) =
        gets-IsOwned fuel c s w p r u e (Reachable-IsOwned fuel c u s h)
    Reachable-IsOwned fuel c u t (steps s t' h (recycles s' xs ys ptr e)) =
        recycles-IsOwned c s xs ys ptr e (Reachable-IsOwned fuel c u s h)
