-- ===== src/Lamlock/Poison/Calls.antt =====
-- The calls of the poisoning lock of crates/lamlock/src/poison.rs by threads that interleave: each method
-- is one call of the nonpoisoning lock with its task, and turns the answer into a `LockResult`.
use useless.Base.{Bool, Result, ok, err, List, [], ◌∷◌}
use useless.Lamlock.RawLock.{QueueError}
use useless.Lamlock.Solo.{Outcome, returned, panicked}
use useless.Lamlock.Atomic.{Event, calls, answers}
use useless.Lamlock.Poison.{Shared, flatten, poison_task, unpoison_task, run_task}

-- The methods with their closures, and the values that they return.
pub data Operation (T R : Type 0) : Type 0 where
  runs : (T → Outcome T R) → Operation T R
  poisons : Operation T R
  unpoisons : (T → Outcome T Bool) → Operation T R

pub data Given (R : Type 0) : Type 0 where
  result : R → Given R
  poisoned_now : Given R
  recovery : Bool → Given R

abbrev pub given :
    {S A R : Type 0} → (A → R) → Outcome S (Result QueueError A) → Outcome S (Result QueueError R)
given g (returned (ok a) s) = returned (ok (g a)) s
given g (returned (err e) s) = returned (err e) s
given g (panicked p s) = panicked p s

-- The answer of `try_unpoison` has no error of its own.
abbrev pub given_flag : {S R : Type 0} → Outcome S Bool → Outcome S (Result QueueError (Given R))
given_flag (returned b s) = returned (ok (recovery b)) s
given_flag (panicked p s) = panicked p s

module _ {T R : Type 0} where
  -- The task that a method gives to `try_run`.
  unfoldable pub task : Operation T R → Shared T → Outcome (Shared T) (Result QueueError (Given R))
  unfolding run_task poison_task unpoison_task
  task (runs f) s = given result (run_task f s)
  task poisons s = given (λ u. poisoned_now) (poison_task s)
  task (unpoisons f) s = given_flag (unpoison_task f s)

  -- The calls and answers that the callers of the poisoning lock see.
  unfoldable pub seen :
      List (Event (Result QueueError (Given R)) (Operation T R))
      → List (Event (Given R) (Operation T R))
  unfolding flatten
  seen [] = []
  seen (calls i op ∷ l) = calls i op ∷ seen l
  seen (answers i x ∷ l) = answers i (flatten x) ∷ seen l
