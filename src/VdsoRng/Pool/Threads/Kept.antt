-- ===== src/VdsoRng/Pool/Threads/Kept.antt =====
-- Every step of the threads that use a pool keeps the number of its states.
use useless.Base.{
  ℕ, ◌+◌, ◌*◌, ◌<◌, ◌≡◌, refl, sym, ap, inl, inr, Bool-cases, [], ◌∷◌, Option, none, some, Result,
  ok, err, ltb, put, sum_to, sum_to-put, sum_to_zero, arith,
}
use useless.VdsoRng.Os.{Error, Kernel, SegQueue, SegQueueLaws, mmap}
use useless.VdsoRng.Config.{Config}
use useless.VdsoRng.Pool.Blocks.{block}
use useless.VdsoRng.Pool.Ownership.{blocks, blocks-snoc}
use useless.VdsoRng.Pool.Threads.{
  Place, outside, popping, locking, looping, mapping, pushing, leaving, holding, SharedPool,
  moves_to, popped, take_lock, mapped_block, push_next, got, get_step, get_act, gives_back, Reached,
}
use useless.VdsoRng.Pool.Threads.Accounted.{
  Measure, carries, rest_state, rest_page, rest-block, rest_end, pop_some,
}

module _ (k : Kernel) (q : SegQueue) (laws : SegQueueLaws q) (c : Config) (m : Measure)
    (n : ℕ) where
  open m use {number, number_empty, number-append}

  -- The number of the states that a thread has in its hands.
  abbrev weight : Place → ℕ
  weight p = number (carries c p)

  unfoldable pub Kept : SharedPool k q → Type 0
  Kept s = number (q.to_list s.freelist) + sum_to weight n s.pc ≡ number (blocks c s.mmaps)

  module _ (s : SharedPool k q) (kept : Kept s) (i : ℕ) (below : i < n) where
    -- A thread that gives and takes the same number of states.
    moves :
        (p : Place) (free : q.Queue)
        → number (q.to_list free) + weight p ≡ number (q.to_list s.freelist) + weight (s.pc i)
        → number (q.to_list free) + sum_to weight n (put s.pc i p) ≡ number (blocks c s.mmaps)
    unfolding Kept
    moves p free e = omega (arith, e, kept, sum_to-put weight n s.pc i p below)

    popped-Kept :
        (found : ℕ → Place) (empty : Place)
        → ((x : ℕ) → carries c (found x) ≡ x ∷ [])
        → carries c empty ≡ []
        → carries c (s.pc i) ≡ []
        → Kept (popped k q s i found empty (q.pop s.freelist))
    unfolding popped Kept
    popped-Kept found empty f e o = by_pop (q.pop s.freelist) refl
      where
        by_pop :
            (r : Option (ℕ × q.Queue)) → q.pop s.freelist ≡ r → Kept (popped k q s i found empty r)
        by_pop none h = moves empty s.freelist (omega (arith, ap number e, ap number o))
        by_pop (some (x, ys)) h = moves (found x) ys (
            omega (
              arith,
              ap number (f x),
              ap number o,
              ap number (pop_some q laws s.freelist ys x h),
              number-append (x ∷ []) (q.to_list ys),
              number_empty,
            ))

    moves_to-Kept : (p : Place) → carries c p ≡ carries c (s.pc i) → Kept (moves_to k q s i p)
    unfolding Kept
    moves_to-Kept p e = moves p s.freelist (omega (arith, ap number e))

    mapped_block-Kept :
        (r : k.World × Option ℕ) → carries c (s.pc i) ≡ [] → Kept (mapped_block k q s i r)
    unfolding mapped_block Kept
    mapped_block-Kept (w, none) o = moves _ s.freelist (omega (arith, ap number o, number_empty))
    mapped_block-Kept (w, some base) o = omega (
      arith,
      kept,
      sum_to-put weight n s.pc i (pushing base 0 0) below,
      ap number (rest-block c base),
      ap number (blocks-snoc c s.mmaps base),
      number-append (blocks c s.mmaps) (block c base),
      ap number o,
      number_empty,
    )

    push_next-Kept :
        (base p t : ℕ) → s.pc i ≡ pushing base p t → Kept (push_next k q c s i base p t)
    unfolding push_next Kept
    push_next-Kept base p t e = elim (Bool-cases (ltb p c.pages_per_block)) [
      | inl h ↦ elim (Bool-cases (ltb t c.states_per_page)) [
        | inl h' ↦
            rw (h, h')
              (let x : ℕ = base + p * c.page_size + t * c.params.size_of_opaque_states in
                moves (pushing base p (t + 1)) (q.push s.freelist x) (
                  omega (
                    arith,
                    ap weight e,
                    ap number (rest_state c base p t h h'),
                    number-append (x ∷ []) (carries c (pushing base p (t + 1))),
                    ap number (laws.to_list-push s.freelist x),
                    number-append (q.to_list s.freelist) (x ∷ []),
                  )))
        | inr h' ↦
            rw (h, h')
              (moves (pushing base (p + 1) 0) s.freelist
                (omega (arith, ap weight e, ap number (rest_page c base p t h h'))))
      ]
      | inr h ↦
          rw h (
            moves looping s.freelist
              (omega (arith, ap weight e, ap number (rest_end c base p t h))))
    ]

    carried : (p : Place) → s.pc i ≡ p → carries c (s.pc i) ≡ carries c p
    carried p e = ap (carries c) e

    take_lock-Kept : (holder : Option ℕ) → s.pc i ≡ locking → Kept (take_lock k q s i holder)
    unfolding take_lock Kept
    take_lock-Kept none e = moves_to-Kept looping (sym (carried locking e))
    take_lock-Kept (some j) e = kept

    got-Kept :
        (r : Result Error ℕ)
        → s.pc i ≡ leaving r
        → Kept (moves_to k q (record s { holder = none }) i (got k q r))
    unfolding got Kept
    got-Kept (ok x) e = moves_to-Kept (holding x) (sym (carried _ e))
    got-Kept (err x) e = moves_to-Kept outside (sym (carried _ e))

    get_step-Kept : (p : Place) → s.pc i ≡ p → Kept (get_step k q c s i p)
    unfolding get_step
    get_step-Kept outside e = kept
    get_step-Kept popping e = popped-Kept holding locking (λ x. refl) refl (carried _ e)
    get_step-Kept locking e = take_lock-Kept s.holder e
    get_step-Kept looping e =
        popped-Kept (λ ptr. leaving (ok ptr)) mapping (λ x. refl) refl (carried _ e)
    get_step-Kept mapping e =
        mapped_block-Kept
          (mmap k s.world (c.page_size * c.pages_per_block) c.params.mmap_prot c.params.mmap_flags)
          (carried _ e)
    get_step-Kept (pushing base p t) e = push_next-Kept base p t e
    get_step-Kept (leaving r) e = got-Kept r e
    get_step-Kept (holding ptr) e = kept

    gives_back-Kept : (ptr : ℕ) → s.pc i ≡ holding ptr → Kept (gives_back k q s i ptr)
    unfolding Kept
    gives_back-Kept ptr e = moves outside (q.push s.freelist ptr) (
        omega (
          arith,
          ap weight e,
          ap number (laws.to_list-push s.freelist ptr),
          number-append (q.to_list s.freelist) (ptr ∷ []),
          number_empty,
        ))

  -- In every state that the threads reach, each state of the mapped blocks is counted as often in
  -- the free list and in the threads' hands as in the blocks.
  pub Reached-Kept : (s : SharedPool k q) → Reached k q c n s → Kept s
  unfolding Kept blocks get_act
  Reached-Kept _ (Reached.starts w) = omega (
    arith,
    ap number laws.to_list-new,
    number_empty,
    sum_to_zero weight n (λ i. outside) (λ i. number_empty),
  )
  Reached-Kept _ (Reached.enters {s} i h below e) =
      moves_to-Kept s (Reached-Kept s h) i below popping
        (sym (carried s (Reached-Kept s h) i below _ e))
  Reached-Kept _ (Reached.acts {s} i h below) =
      get_step-Kept s (Reached-Kept s h) i below (s.pc i) refl
  Reached-Kept _ (Reached.drops {s} i ptr h below e) =
      gives_back-Kept s (Reached-Kept s h) i below ptr e
