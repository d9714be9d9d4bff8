-- ===== src/VdsoRng/Pool/Threads/Bound.antt =====
-- How many blocks several threads map.
use native.Mathlib.Decide.{ℕ_discrete}
use native.Mathlib.Nat.{mul-pos}
use useless.Base.{
  ℕ, ◌+◌, ◌*◌, ◌≤◌, ◌<◌, ◌≡◌, refl, ap, inl, inr, Bool, Bool-cases, true, false, [], ◌∷◌, Option,
  none, some, Result, ok, err, ltb, put, sum_to_lt, length, length-append, arith,
}
use useless.VdsoRng.Os.{Error, allocation_failure, Kernel, SegQueue, SegQueueLaws, mmap}
use useless.VdsoRng.Config.{Config, IsUsable}
use useless.VdsoRng.Pool.Threads.{
  Place, outside, popping, locking, looping, mapping, pushing, leaving, holding, SharedPool,
  moves_to, popped, take_lock, mapped_block, push_next, got, get_step, get_act, gives_back, Reached,
}
use useless.VdsoRng.Pool.Threads.Accounted.{carries, pop_none}
use useless.VdsoRng.Pool.Threads.Locked.{in_lock, Reached-Locked, Exclusive-same}
use useless.VdsoRng.Pool.Threads.Counted.{hands, mapped_states, counted}

module _ (k : Kernel) (q : SegQueue) (laws : SegQueueLaws q) (c : Config) (n : ℕ) where
  abbrev is_mapping : Place → Bool
  is_mapping mapping = true
  is_mapping p = false

  -- A thread that is about to map a block has found too few states for the threads.
  record Bounded (s : SharedPool k q) : Type 0 where
    within : mapped_states k q laws c n s < n + c.pages_per_block * c.states_per_page
    room : (i : ℕ) → is_mapping (s.pc i) ≡ true → mapped_states k q laws c n s < n

  is_mapping-in_lock : (p : Place) → is_mapping p ≡ true → in_lock p ≡ true
  is_mapping-in_lock mapping h = refl
  is_mapping-in_lock p h = ground (arith, h)

  at_most_one : (p : Place) → in_lock p ≡ false → length (carries c p) ≤ 1
  at_most_one p h = ground (arith, h)

  module _ (s : SharedPool k q) (h : Reached k q c n s) (b : Bounded s) (i : ℕ)
      (below : i < n) where
    -- A step that leaves the mappings as they are.
    keeps :
        (p : Place)
        → (is_mapping p ≡ true → mapped_states k q laws c n s < n)
        → (j : ℕ) → is_mapping (put s.pc i p j) ≡ true
        → mapped_states k q laws c n s < n
    keeps p room j m = elim (ℕ_discrete i j) [
      | yes e ↦ ground (arith, e, room, m)
      | no e ↦ ground (arith, b.room j, m)
    ]

    moves :
        (w : k.World) (holder : Option ℕ) (free : q.Queue) (p : Place)
        → is_mapping p ≡ false
        → Bounded (record {
          world = w;
          holder = holder;
          mmaps = s.mmaps;
          freelist = free;
          pc = put s.pc i p;
        })
    moves w holder free p o = record {
      within = b.within;
      room = keeps p (λ m. ground (arith, o, m));
    }

    -- Every thread but the one under the lock has one state at most, and that one has none.
    few_in_hands : s.pc i ≡ looping → hands k q laws c n s < n
    few_in_hands e =
        let in_closure : in_lock (s.pc i) ≡ true = ap in_lock e in
        let none_carried : length (carries c (s.pc i)) ≡ 0 = ap (λ p. length (carries c p)) e in
        sum_to_lt (λ p. length (carries c p)) n s.pc i below none_carried
          (λ j. elim (Bool-cases (in_lock (s.pc j))) [
            | inl l ↦
                let same =
                  Exclusive-same s.holder s.pc (Reached-Locked k q c n s h) i j in_closure l in
                omega (arith, ap (λ m. length (carries c (s.pc m))) same, none_carried)
            | inr l ↦ at_most_one (s.pc j) l
          ])

    looping-Bounded :
        (r : Option (ℕ × q.Queue))
        → q.pop s.freelist ≡ r
        → s.pc i ≡ looping
        → Bounded (popped k q s i (λ ptr. leaving (ok ptr)) mapping r)
    unfolding popped
    looping-Bounded none e at_loop = record {
      within = b.within;
      room = keeps mapping (λ m. omega (
        arith,
        few_in_hands at_loop,
        counted k q laws c n s h,
        ap length (pop_none q laws s.freelist e),
      ));
    }
    looping-Bounded (some (x, ys)) e at_loop = moves _ _ _ (leaving (ok x)) refl

    popping-Bounded : (r : Option (ℕ × q.Queue)) → Bounded (popped k q s i holding locking r)
    unfolding popped
    popping-Bounded none = moves _ _ _ locking refl
    popping-Bounded (some (x, ys)) = moves _ _ _ (holding x) refl

    take_lock-Bounded : (holder : Option ℕ) → Bounded (take_lock k q s i holder)
    unfolding take_lock
    take_lock-Bounded none = moves _ _ _ looping refl
    take_lock-Bounded (some j) = b

    -- No other thread is about to map a block.
    alone :
        (p : Place)
        → is_mapping p ≡ false
        → s.pc i ≡ mapping
        → (j : ℕ) → ¬ (is_mapping (put s.pc i p j) ≡ true)
    alone p o e j m = elim (ℕ_discrete i j) [
      | yes same ↦ ground (arith, same, o, m)
      | no other ↦
          let at_j : is_mapping (s.pc j) ≡ true = ground (arith, other, m) in
          other (
            Exclusive-same s.holder s.pc (Reached-Locked k q c n s h) i j (ap in_lock e)
              (is_mapping-in_lock (s.pc j) at_j))
    ]

    mapped_block-Bounded :
        (r : k.World × Option ℕ) → s.pc i ≡ mapping → Bounded (mapped_block k q s i r)
    unfolding mapped_block
    mapped_block-Bounded (w, none) e = moves _ _ _ (leaving (err allocation_failure)) refl
    mapped_block-Bounded (w, some base) e = record {
      within = omega (
        arith,
        b.room i (ap is_mapping e),
        ap (λ m. c.pages_per_block * c.states_per_page * m) (length-append s.mmaps (base ∷ [])),
      );
      room = λ j m. absurd (alone (pushing base 0 0) refl e j m);
    }

    push_next-Bounded : (base p t : ℕ) → Bounded (push_next k q c s i base p t)
    unfolding push_next
    push_next-Bounded base p t = elim (Bool-cases (ltb p c.pages_per_block)) [
      | inl l ↦ elim (Bool-cases (ltb t c.states_per_page)) [
        | inl l' ↦ rw (l, l') (moves _ _ _ (pushing base p (t + 1)) refl)
        | inr l' ↦ rw (l, l') (moves _ _ _ (pushing base (p + 1) 0) refl)
      ]
      | inr l ↦ rw l (moves _ _ _ looping refl)
    ]

    got-Bounded :
        (r : Result Error ℕ) → Bounded (moves_to k q (record s { holder = none }) i (got k q r))
    unfolding got
    got-Bounded (ok x) = moves _ _ _ (holding x) refl
    got-Bounded (err x) = moves _ _ _ outside refl

    get_step-Bounded : (p : Place) → s.pc i ≡ p → Bounded (get_step k q c s i p)
    unfolding get_step
    get_step-Bounded outside e = b
    get_step-Bounded popping e = popping-Bounded (q.pop s.freelist)
    get_step-Bounded locking e = take_lock-Bounded s.holder
    get_step-Bounded looping e = looping-Bounded (q.pop s.freelist) refl e
    get_step-Bounded mapping e =
        mapped_block-Bounded
          (mmap k s.world (c.page_size * c.pages_per_block) c.params.mmap_prot c.params.mmap_flags)
          e
    get_step-Bounded (pushing base p t) e = push_next-Bounded base p t
    get_step-Bounded (leaving r) e = got-Bounded r
    get_step-Bounded (holding ptr) e = b

    gives_back-Bounded : (ptr : ℕ) → Bounded (gives_back k q s i ptr)
    gives_back-Bounded ptr = moves _ _ _ outside refl

  Reached-Bounded : IsUsable c → (s : SharedPool k q) → Reached k q c n s → Bounded s
  unfolding get_act
  Reached-Bounded u _ (Reached.starts w) = record {
    within = omega (arith, mul-pos u.some_page u.some_state);
    room = λ i m. ground (arith, m);
  }
  Reached-Bounded u _ (Reached.enters {s} i h below e) =
      moves s h (Reached-Bounded u s h) i below _ _ _ popping refl
  Reached-Bounded u _ (Reached.acts {s} i h below) =
      get_step-Bounded s h (Reached-Bounded u s h) i below (s.pc i) refl
  Reached-Bounded u _ (Reached.drops {s} i ptr h below e) =
      gives_back-Bounded s h (Reached-Bounded u s h) i below ptr

  -- For a usable configuration and any state that `n` threads reach on a new pool, with their calls of
  -- `get` and their drops of a `LocalState` interleaved in any order: the mapped blocks have fewer than `n`
  -- states more than one block has. So the pool maps no block that the threads could not come to use.
  pub mapped_states_lt :
      IsUsable c
      → (s : SharedPool k q) → Reached k q c n s
      → c.pages_per_block * c.states_per_page * length s.mmaps
        < n + c.pages_per_block * c.states_per_page
  mapped_states_lt u s h = (Reached-Bounded u s h).within
