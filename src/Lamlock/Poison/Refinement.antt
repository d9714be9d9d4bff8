-- ===== src/Lamlock/Poison/Refinement.antt =====
-- The calls of the poisoning lock of crates/lamlock/src/poison.rs, by threads that interleave, are those
-- of its specification.
use native.Mathlib.Decide.{ℕ_discrete}
use useless.Base.{
  ℕ, ◌≡◌, ◌⊎◌, if◌then◌else◌, inl, inr, refl, sym, ap, ◌∙◌, subst, Bool, true, false, Result, List,
  put, arith,
}
use useless.Lamlock.RawLock.{QueueError}
use useless.Lamlock.Threads.{System}
use useless.Lamlock.Threads.Run.{Run}
use useless.Lamlock.Threads.Linear.{run-AtomicRun}
use useless.Lamlock.Solo.{Outcome, returned, panicked, Answer, value, unwinds, cancelled}
use useless.Lamlock.Atomic.{Phase, out, asked, ran, Event, Atomic, Internal, AtomicRun}
use useless.Lamlock.Poison.{Shared, flatten}
use useless.Lamlock.Poison.Calls.{Operation, Given, task, seen}
use useless.Lamlock.Poison.Tasks.{health_of, Answered, task-Answered}
use useless.Lamlock.Poison.Abstract.{
  Health, healthy, poisoned, disabled, PoisonLock, new_lock, done_with, Broken, is_poisoned,
  is_disabled, Work, PoisonRun,
}

health_of_flag :
    (d b : Bool) → (health_of d b ≡ disabled) ⊎ (health_of d b ≡ (if b then poisoned else healthy))
unfolding health_of
health_of_flag true b = inl refl
health_of_flag false true = inr refl
health_of_flag false false = inr refl

module _ {T R : Type 0} where
  shown : Phase (Result QueueError (Given R)) (Operation T R) → Phase (Given R) (Operation T R)
  shown out = out
  shown (asked op) = asked op
  shown (ran x) = ran (flatten x)

  shown_out : (x : Phase (Result QueueError (Given R)) (Operation T R)) → shown x ≡ out → x ≡ out
  unfolding shown
  shown_out out e = refl
  shown_out (asked op) e = ground (arith, e)
  shown_out (ran x) e = ground (arith, e)

module _ {T R : Type 0} where
  -- The flag and the data of the nonpoisoning lock show the state of the specification.
  record Shows (a : Atomic (Shared T) (Result QueueError (Given R)) (Operation T R))
      (p : PoisonLock T R) : Type 0 where
    data_shown : p.contents ≡ a.contents.contents
    health_shown : p.health ≡ health_of a.disabled a.contents.poisoned
    phases_shown : (i : ℕ) → p.phase i ≡ shown (a.phase i)

  put-shown :
      (phase : ℕ → Phase (Given R) (Operation T R))
      (under : ℕ → Phase (Result QueueError (Given R)) (Operation T R))
      → ((j : ℕ) → phase j ≡ shown (under j))
      → (i : ℕ) (x : Phase (Given R) (Operation T R))
        (y : Phase (Result QueueError (Given R)) (Operation T R))
      → x ≡ shown y
      → (j : ℕ) → put phase i x j ≡ shown (put under i y j)
  put-shown phase under h i x y e j = elim (ℕ_discrete i j) [
    | yes same ↦ ground (arith, same, e)
    | no other ↦ ground (arith, other, h j)
  ]

  module _ (std : Bool) (a : Atomic (Shared T) (Result QueueError (Given R)) (Operation T R))
      (p : PoisonLock T R) (s : Shows a p) (i : ℕ) where
    open s use {data_shown, health_shown, phases_shown}

    -- A step of the nonpoisoning lock, and one of the specification.
    Simulated : Atomic (Shared T) (Result QueueError (Given R)) (Operation T R) → Type 0
    Simulated a' = (p' : PoisonLock T R) × Work std p p' × Shows a' p'

    asked_shown : (op : Operation T R) → a.phase i ≡ asked op → p.phase i ≡ asked op
    unfolding shown
    asked_shown op e = phases_shown i ∙ ap shown e

    enabled_shown : a.disabled ≡ false → p.health ≡ health_of false a.contents.poisoned
    enabled_shown e = health_shown ∙ ap (λ d. health_of d a.contents.poisoned) e

    task_shown :
        (op : Operation T R) (o : Outcome (Shared T) (Result QueueError (Given R)))
        → a.phase i ≡ asked op
        → a.disabled ≡ false
        → task op a.contents ≡ o
        → Answered std p i o
    task_shown op o asks enabled e =
        subst (Answered std p i)
          (ap (λ c. task op (record { contents = c; poisoned = a.contents.poisoned })) data_shown
            ∙ e)
          (task-Answered std p i op a.contents.poisoned (asked_shown op asks)
            (enabled_shown enabled))

    runs-Simulated :
        (op : Operation T R) (r : Result QueueError (Given R)) (t : Shared T)
        → a.phase i ≡ asked op
        → a.disabled ≡ false
        → task op a.contents ≡ returned r t
        → Simulated (record a { contents = t; phase = put a.phase i (ran (value r)) })
    unfolding Simulated Answered shown
    runs-Simulated op r t asks enabled e = (
      done_with p i t.contents (health_of false t.poisoned) (flatten (value r)),
      task_shown op (returned r t) asks enabled e,
      record {
        data_shown = refl;
        health_shown = ap (λ d. health_of d t.poisoned) (sym enabled);
        phases_shown = put-shown p.phase a.phase phases_shown i _ (ran (value r)) refl;
      },
    )

    panics-Simulated :
        (op : Operation T R) (x : ℕ) (t : Shared T) (d : Bool) (h : Health)
        → a.phase i ≡ asked op
        → a.disabled ≡ false
        → task op a.contents ≡ panicked x t
        → Broken std h
        → h ≡ health_of d true
        → Simulated (record { contents = t; phase = put a.phase i (ran (unwinds x)); disabled = d })
    unfolding Simulated Answered shown flatten
    panics-Simulated op x t d h asks enabled e broken e' =
        let work = task_shown op (panicked x t) asks enabled e in
        (
          done_with p i t.contents h (unwinds x),
          work.1 h broken,
          record {
            data_shown = refl;
            health_shown = e' ∙ ap (health_of d) (sym work.0);
            phases_shown = put-shown p.phase a.phase phases_shown i _ (ran (unwinds x)) refl;
          },
        )

    not_out : ¬ (a.phase i ≡ out) → ¬ (p.phase i ≡ out)
    not_out h e = h (shown_out (a.phase i) (sym (phases_shown i) ∙ e))

    -- A disabled lock gives its error or a panic.
    ends-Simulated :
        (y : Answer (Result QueueError (Given R))) (x : Answer (Given R))
        → x ≡ flatten y
        → (p.health ≡ disabled
            → ¬ (p.phase i ≡ out)
            → Work std p (done_with p i p.contents disabled x))
        → a.disabled ≡ true
        → ¬ (a.phase i ≡ out)
        → Simulated (record a { phase = put a.phase i (ran y) })
    unfolding Simulated shown health_of
    ends-Simulated y x e work d h = (
      done_with p i p.contents disabled x,
      work (health_shown ∙ ap (λ b. health_of b a.contents.poisoned) d) (not_out h),
      record {
        data_shown = data_shown;
        health_shown = ap (λ b. health_of b a.contents.poisoned) (sym d);
        phases_shown = put-shown p.phase a.phase phases_shown i (ran x) (ran y) (ap ran e);
      },
    )

  Internal-Simulated :
      (std : Bool) (a a' : Atomic (Shared T) (Result QueueError (Given R)) (Operation T R))
      (p : PoisonLock T R)
      → Shows a p
      → Internal task std a a'
      → (p' : PoisonLock T R) × Work std p p' × Shows a' p'
  unfolding Simulated health_of flatten
  Internal-Simulated std a _ p s Internal.nothing = (p, Work.nothing, s)
  Internal-Simulated std a _ p s (Internal.runs i op r t asks d e) =
      runs-Simulated std a p s i op r t asks d e
  Internal-Simulated std a _ p s (Internal.panics i op x t asks d e) =
      panics-Simulated std a p s i op x t a.disabled poisoned asks d e is_poisoned
        (ap (λ b. health_of b true) (sym d))
  Internal-Simulated std a _ p s (Internal.disables i op x t without asks d e) =
      panics-Simulated std a p s i op x t true disabled asks d e (is_disabled without) refl
  Internal-Simulated std a _ p s (Internal.fails i d h) =
      ends-Simulated std a p s i cancelled cancelled refl (Work.fails i) d h
  Internal-Simulated std a _ p s (Internal.unwinds_with i x d h) =
      ends-Simulated std a p s i (unwinds x) (unwinds x) refl (Work.unwinds_with i x) d h

  AtomicRun-PoisonRun :
      (std : Bool) (t : T) (l : List (Event (Result QueueError (Given R)) (Operation T R)))
      (a : Atomic (Shared T) (Result QueueError (Given R)) (Operation T R))
      → AtomicRun task std (record { contents = t; poisoned = false }) l a
      → (p : PoisonLock T R) × PoisonRun std t (seen l) p × Shows a p
  unfolding seen shown health_of
  AtomicRun-PoisonRun std t _ _ AtomicRun.starts = (
    new_lock t,
    PoisonRun.starts,
    record { data_shown = refl; health_shown = refl; phases_shown = λ i. refl },
  )
  AtomicRun-PoisonRun std t l _ (AtomicRun.works {a} {a'} run step) =
      let before = AtomicRun-PoisonRun std t l a run in
      let after = Internal-Simulated std a a' before.0 before.2 step in
      (after.0, PoisonRun.works before.1 after.1, after.2)
  AtomicRun-PoisonRun std t _ _ (AtomicRun.is_called {l} {a} i op run e) =
      let before = AtomicRun-PoisonRun std t l a run in
      let s = before.2 in
      (
        record before.0 { phase = put before.0.phase i (asked op) },
        PoisonRun.is_called i op before.1 (s.phases_shown i ∙ ap shown e),
        record {
          data_shown = s.data_shown;
          health_shown = s.health_shown;
          phases_shown = put-shown before.0.phase a.phase s.phases_shown i _ (asked op) refl;
        },
      )
  AtomicRun-PoisonRun std t _ _ (AtomicRun.replies {l} {a} i x run e) =
      let before = AtomicRun-PoisonRun std t l a run in
      let s = before.2 in
      (
        record before.0 { phase = put before.0.phase i out },
        PoisonRun.replies i (flatten x) before.1 (s.phases_shown i ∙ ap shown e),
        record {
          data_shown = s.data_shown;
          health_shown = s.health_shown;
          phases_shown = put-shown before.0.phase a.phase s.phases_shown i out out refl;
        },
      )

-- Every run of threads that call `run`, `poison` and `try_unpoison` of a new lock, in any order of their
-- steps, is a run of the specification with the same calls and with the same answers, which are
-- `LockResult`s: the calls run one at a time, each in one step between its call and its answer, a
-- closure that panics in `run` leaves the lock poisoned or disabled, and a poisoned lock runs no closure but
-- those of `try_unpoison`. The data is what the specification has; and the specification is disabled, or
-- it is poisoned if the flag is set, and healthy if it is clear.
pub run-PoisonRun :
    {T R : Type 0} (std : Bool) (t : T)
    (l : List (Event (Result QueueError (Given R)) (Operation T R)))
    (s : System (Shared T) (Result QueueError (Given R)) (Operation T R))
    → Run task std (record { contents = t; poisoned = false }) l s
    → (p : PoisonLock T R) × PoisonRun std t (seen l) p
      × (p.contents ≡ s.data_cell.contents)
      × ((p.health ≡ disabled) ⊎ (p.health ≡ (if s.data_cell.poisoned then poisoned else healthy)))
run-PoisonRun std t l s run =
    let under = run-AtomicRun task std (record { contents = t; poisoned = false }) l s run in
    let spec = AtomicRun-PoisonRun std t l under.0 under.1 in
    (
      spec.0,
      spec.1,
      spec.2.data_shown ∙ ap (λ c. c.contents) (sym under.2),
      elim (health_of_flag under.0.disabled under.0.contents.poisoned) [
        | inl e ↦ inl (spec.2.health_shown ∙ e)
        | inr e ↦ inr (
            spec.2.health_shown
            ∙ e
            ∙ ap (λ c. if c.poisoned then poisoned else healthy) (sym under.2))
      ],
    )
