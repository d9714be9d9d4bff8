-- ===== src/VdsoRng/Pool/Threads/Locked.antt =====
-- The lock over the mappings of a pool that several threads use.
use native.Mathlib.Decide.{ℕ_discrete}
use useless.Base.{
  ℕ, ◌+◌, ◌*◌, ◌≡◌, refl, ap, ◌∙◌, inl, inr, Bool, Bool-cases, true, false, Option, none, some,
  Result, ok, err, ltb, put, arith,
}
use useless.VdsoRng.Os.{Error, Kernel, SegQueue, mmap}
use useless.VdsoRng.Config.{Config}
use useless.VdsoRng.Pool.Threads.{
  Place, outside, popping, locking, looping, mapping, pushing, leaving, holding, SharedPool,
  moves_to, popped, take_lock, mapped_block, push_next, got, get_step, get_act, Reached,
}

-- Whether a thread runs the closure of `get`.
abbrev pub in_lock : Place → Bool
in_lock looping = true
in_lock mapping = true
in_lock (pushing base p t) = true
in_lock (leaving r) = true
in_lock p = false

-- Every thread that runs the closure is the holder.
pub Exclusive : Option ℕ → (ℕ → Place) → Type 0
Exclusive holder pc = (i : ℕ) → in_lock (pc i) ≡ true → holder ≡ some i

module _ (holder : Option ℕ) (pc : ℕ → Place) (excl : Exclusive holder pc) (i : ℕ) (p : Place) where
  stays : (in_lock p ≡ true → holder ≡ some i) → Exclusive holder (put pc i p)
  unfolding Exclusive
  stays h j inside = elim (ℕ_discrete i j) [
    | yes e ↦ ground (arith, e, h)
    | no e ↦ ground (arith, excl j)
  ]

  takes : holder ≡ none → Exclusive (some i) (put pc i p)
  unfolding Exclusive
  takes h j inside = elim (ℕ_discrete i j) [ yes e ↦ ap some e | no e ↦ ground (arith, excl j, h) ]

  leaves : holder ≡ some i → in_lock p ≡ false → Exclusive none (put pc i p)
  unfolding Exclusive
  leaves h outside_lock j inside = elim (ℕ_discrete i j) [
    | yes e ↦ ground (arith, e, outside_lock)
    | no e ↦ ground (arith, excl j, h)
  ]

module _ (k : Kernel) (q : SegQueue) (c : Config) where
  Locked : SharedPool k q → Type 0
  Locked s = Exclusive s.holder s.pc

  module _ (s : SharedPool k q) (h : Locked s) (i : ℕ) where
    inside : (p : Place) → s.pc i ≡ p → in_lock p ≡ true → s.holder ≡ some i
    unfolding Locked Exclusive
    inside p e l = h i (ap in_lock e ∙ l)

    stays_out : (p : Place) → in_lock p ≡ false → Exclusive s.holder (put s.pc i p)
    unfolding Locked
    stays_out p l = stays s.holder s.pc h i p (λ l'. ground (arith, l, l'))

    stays_in : (p p' : Place) → s.pc i ≡ p' → in_lock p' ≡ true → Exclusive s.holder (put s.pc i p)
    unfolding Locked
    stays_in p p' e l = stays s.holder s.pc h i p (λ _. inside p' e l)

    popping-Locked : (r : Option (ℕ × q.Queue)) → Locked (popped k q s i holding locking r)
    unfolding popped Locked
    popping-Locked none = stays_out locking refl
    popping-Locked (some (x, ys)) = stays_out (holding x) refl

    looping-Locked :
        (r : Option (ℕ × q.Queue))
        → s.pc i ≡ looping
        → Locked (popped k q s i (λ ptr. leaving (ok ptr)) mapping r)
    unfolding popped Locked
    looping-Locked none e = stays_in mapping looping e refl
    looping-Locked (some (x, ys)) e = stays_in (leaving (ok x)) looping e refl

    take_lock-Locked : (holder : Option ℕ) → s.holder ≡ holder → Locked (take_lock k q s i holder)
    unfolding take_lock Locked
    take_lock-Locked none e = takes s.holder s.pc h i looping e
    take_lock-Locked (some j) e = h

    mapped_block-Locked :
        (r : k.World × Option ℕ) → s.pc i ≡ mapping → Locked (mapped_block k q s i r)
    unfolding mapped_block Locked
    mapped_block-Locked (w, none) e = stays_in _ mapping e refl
    mapped_block-Locked (w, some base) e = stays_in _ mapping e refl

    push_next-Locked :
        (base p t : ℕ) → s.pc i ≡ pushing base p t → Locked (push_next k q c s i base p t)
    unfolding push_next Locked
    push_next-Locked base p t e = elim (Bool-cases (ltb p c.pages_per_block)) [
      | inl l ↦ elim (Bool-cases (ltb t c.states_per_page)) [
        | inl l' ↦ rw (l, l') (stays_in (pushing base p (t + 1)) _ e refl)
        | inr l' ↦ rw (l, l') (stays_in (pushing base (p + 1) 0) _ e refl)
      ]
      | inr l ↦ rw l (stays_in looping _ e refl)
    ]

    got-Locked :
        (r : Result Error ℕ)
        → s.pc i ≡ leaving r
        → Locked (moves_to k q (record s { holder = none }) i (got k q r))
    unfolding got Locked
    got-Locked (ok x) e = leaves s.holder s.pc h i (holding x) (inside _ e refl) refl
    got-Locked (err x) e = leaves s.holder s.pc h i outside (inside _ e refl) refl

    get_step-Locked : (p : Place) → s.pc i ≡ p → Locked (get_step k q c s i p)
    unfolding get_step
    get_step-Locked outside e = h
    get_step-Locked popping e = popping-Locked (q.pop s.freelist)
    get_step-Locked locking e = take_lock-Locked s.holder refl
    get_step-Locked looping e = looping-Locked (q.pop s.freelist) e
    get_step-Locked mapping e =
        mapped_block-Locked
          (mmap k s.world (c.page_size * c.pages_per_block) c.params.mmap_prot c.params.mmap_flags)
          e
    get_step-Locked (pushing base p t) e = push_next-Locked base p t e
    get_step-Locked (leaving r) e = got-Locked r e
    get_step-Locked (holding ptr) e = h

  all_outside : Exclusive none (λ i. outside)
  unfolding Exclusive
  all_outside i l = ground (arith, l)

  pub Reached-Locked : (n : ℕ) (s : SharedPool k q) → Reached k q c n s → Exclusive s.holder s.pc
  unfolding Locked get_act
  Reached-Locked n _ (Reached.starts w) = all_outside
  Reached-Locked n _ (Reached.enters {s} i h below e) =
      stays_out s (Reached-Locked n s h) i popping refl
  Reached-Locked n _ (Reached.acts {s} i h below) =
      get_step-Locked s (Reached-Locked n s h) i (s.pc i) refl
  Reached-Locked n _ (Reached.drops {s} i ptr h below e) =
      stays_out s (Reached-Locked n s h) i outside refl

pub Exclusive-same :
    (holder : Option ℕ) (pc : ℕ → Place)
    → Exclusive holder pc
    → (i j : ℕ) → in_lock (pc i) ≡ true
    → in_lock (pc j) ≡ true
    → i ≡ j
unfolding Exclusive
Exclusive-same holder pc h i j hi hj = ground (arith, h i hi, h j hj)
