-- ===== src/Lamlock/Poison/Tasks.antt =====
-- What the tasks of the methods of crates/lamlock/src/poison.rs do, in the words of the specification.
use useless.Base.{ℕ, ◌≡◌, refl, Bool, true, false, Result}
use useless.Lamlock.RawLock.{QueueError}
use useless.Lamlock.Solo.{Outcome, returned, panicked, value, unwinds}
use useless.Lamlock.Atomic.{asked}
use useless.Lamlock.Poison.{
  Shared, flatten, finished, recovered, run_task, poison_task, unpoison_task,
}
use useless.Lamlock.Poison.Calls.{
  Operation, runs, poisons, unpoisons, Given, result, given, given_flag, task,
}
use useless.Lamlock.Poison.Abstract.{
  Health, healthy, poisoned, disabled, PoisonLock, done_with, Broken, Work,
}

unfoldable pub health_of : (disabled poisoned : Bool) → Health
health_of true b = disabled
health_of false true = poisoned
health_of false false = healthy

module _ {T R : Type 0} (std : Bool) (p : PoisonLock T R) (i : ℕ) where
  -- What the specification does where a task ends like this.
  unfoldable pub Answered : Outcome (Shared T) (Result QueueError (Given R)) → Type 0
  unfolding flatten health_of
  Answered (returned r s) =
      Work std p (done_with p i s.contents (health_of false s.poisoned) (flatten (value r)))
  Answered (panicked x s) =
      (s.poisoned ≡ true)
      × ((h : Health) → Broken std h → Work std p (done_with p i s.contents h (unwinds x)))

  run-Answered :
      (f : T → Outcome T R) (o : Outcome T R)
      → f p.contents ≡ o
      → p.phase i ≡ asked (runs f)
      → p.health ≡ healthy
      → Answered (given result (finished (record { contents = p.contents; poisoned = true }) o))
  unfolding Answered finished
  run-Answered f (returned r t) e asks h = Work.completes i f r t asks h e
  run-Answered f (panicked x t) e asks h = (refl, λ h' b. Work.breaks i f x t h' asks h e b)

  recovery-Answered :
      (f : T → Outcome T Bool) (o : Outcome T Bool)
      → f p.contents ≡ o
      → p.phase i ≡ asked (unpoisons f)
      → p.health ≡ poisoned
      → Answered (given_flag (recovered o))
  unfolding Answered recovered
  recovery-Answered f (returned true t) e asks h = Work.recovers i f true t asks h e
  recovery-Answered f (returned false t) e asks h = Work.recovers i f false t asks h e
  recovery-Answered f (panicked x t) e asks h =
      (refl, λ h' b. Work.breaks_again i f x t h' asks h e b)

  pub task-Answered :
      (op : Operation T R) (b : Bool)
      → p.phase i ≡ asked op
      → p.health ≡ health_of false b
      → Answered (task op (record { contents = p.contents; poisoned = b }))
  unfolding Answered task run_task poison_task unpoison_task
  task-Answered (runs f) true asks h = Work.rejects_run i f asks h
  task-Answered (runs f) false asks h = run-Answered f (f p.contents) refl asks h
  task-Answered poisons true asks h = Work.rejects_poison i asks h
  task-Answered poisons false asks h = Work.gets_poisoned i asks h
  task-Answered (unpoisons f) true asks h = recovery-Answered f (f p.contents) refl asks h
  task-Answered (unpoisons f) false asks h = Work.needs_no_recovery i f asks h
