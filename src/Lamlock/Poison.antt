-- ===== src/Lamlock/Poison.antt =====
-- crates/lamlock/src/poison.rs: the poisoning lock. The flag lies beside the data that the inner lock
-- protects, since every task reads and writes it inside the lock.
pub mod History
pub mod Calls
pub mod Abstract
pub mod Tasks
pub mod Refinement
mod Tests
use useless.Base.{
  ℕ, Bool, true, false, Option, none, some, Result, ok, err, if◌then◌else◌, ◌||◌, not,
}
use mathlib.Core.Option
use useless.Lamlock.RawLock.{QueueError, lock_poisoned}
use useless.Lamlock.Solo.{
  Outcome, returned, panicked, Answer, value, cancelled, unwinds, Lock, try_run,
}
use useless.Lamlock.Solo

pub record Shared (T : Type 0) : Type 0 where
  pub contents : T
  pub poisoned : Bool

abbrev pub new : {T : Type 0} → T → Lock (Shared T)
new t = Solo.new (record { contents = t; poisoned = false })

-- `map_err` and `?`: both a rejected task and a disabled queue are `LockPoisoned`.
unfoldable pub flatten : {R : Type 0} → Answer (Result QueueError R) → Answer R
flatten (value (ok r)) = value r
flatten (value (err e)) = cancelled
flatten cancelled = cancelled
flatten (unwinds p) = unwinds p

-- The task of `poison`.
unfoldable pub poison_task :
    {T : Type 0} → Shared T → Outcome (Shared T) (Result QueueError (Unit {0}))
poison_task s =
    if s.poisoned
    then returned (err lock_poisoned) s
    else returned (ok tt) (record s { poisoned = true })

module _ {T : Type 0} where
  recovered : Outcome T Bool → Outcome (Shared T) Bool
  recovered (returned true t) = returned true (record { contents = t; poisoned = false })
  recovered (returned false t) = returned false (record { contents = t; poisoned = true })
  recovered (panicked p t) = panicked p (record { contents = t; poisoned = true })

  -- The task of `try_unpoison`: the closure is called only if the flag is set.
  unfoldable pub unpoison_task : (T → Outcome T Bool) → Shared T → Outcome (Shared T) Bool
  unfolding recovered
  unpoison_task f s = if not s.poisoned then returned false s else recovered (f s.contents)

module _ {T R : Type 0} where
  -- What is left of the task of `run` after the closure, in the state that it began in: a return clears
  -- the flag, and a panic leaves it as it is.
  unfoldable pub finished : Shared T → Outcome T R → Outcome (Shared T) (Result QueueError R)
  finished s (returned r t) = returned (ok r) (record s { contents = t; poisoned = false })
  finished s (panicked p t) = panicked p (record s { contents = t })

  -- The task of `run`: the flag is set before the closure is called.
  unfoldable pub run_task : (T → Outcome T R) → Shared T → Outcome (Shared T) (Result QueueError R)
  unfolding finished
  run_task f s =
      if s.poisoned
      then returned (err lock_poisoned) s
      else let during : Shared T = record s { poisoned = true } in
        finished during (f during.contents)

  unfoldable pub run :
      (std : Bool) → ℕ → Lock (Shared T) → (T → Outcome T R) → Option (Lock (Shared T) × Answer R)
  unfolding run_task flatten try_run
  run std node l f = Option.map (λ r. (r.0, flatten r.1)) (try_run std node l (run_task f))

module _ {T : Type 0} where
  unfoldable pub poison :
      (std : Bool) → ℕ → Lock (Shared T) → Option (Lock (Shared T) × Answer (Unit {0}))
  unfolding poison_task flatten try_run
  poison std node l = Option.map (λ r. (r.0, flatten r.1)) (try_run std node l poison_task)

  unfoldable pub try_unpoison :
      (std : Bool)
      → ℕ
      → Lock (Shared T)
      → (T → Outcome T Bool)
      → Option (Lock (Shared T) × Answer Bool)
  unfolding unpoison_task try_run
  try_unpoison std node l f = try_run std node l (unpoison_task f)
