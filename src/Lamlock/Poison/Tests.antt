-- ===== src/Lamlock/Poison/Tests.antt =====
-- Runs of three threads on a poisoning lock whose data is 5.
use useless.Base.{ℕ, zero, suc, ◌+◌, ◌≡◌, ◌⊎◌, refl, true, false, Result, ok, err, List, [], ◌∷◌}
use useless.Lamlock.RawLock.{QueueError, lock_poisoned}
use useless.Lamlock.Solo.{returned, panicked, value, unwinds, cancelled}
use useless.Lamlock.Atomic.{Event, calls, answers}
use useless.Lamlock.Threads.{System, new, goto, entered, answered, idle}
use useless.Lamlock.Threads.Call.{act, step}
use useless.Lamlock.Threads.Run.{Run}
use useless.Lamlock.Poison.{Shared}
use useless.Lamlock.Poison.Calls.{Operation, runs, poisons, unpoisons, Given, recovery, task, seen}
use useless.Lamlock.Poison.Abstract.{PoisonLock, PoisonRun, disabled, healthy}
use useless.Lamlock.Poison.Refinement.{run-PoisonRun}

abbrev Threads3 : Type 0
Threads3 = System (Shared ℕ) (Result QueueError (Given ℕ)) (Operation ℕ ℕ)

-- A closure that panics, and a recovery that resets the data.
abbrev fail : Operation ℕ ℕ
fail = runs (λ d. panicked 7 (d + 1))

abbrev reset : Operation ℕ ℕ
reset = unpoisons (λ d. returned true 0)

abbrev called : Threads3
called =
    goto
      (goto (goto (new (record { contents = 5; poisoned = false })) 0 (entered fail)) 1
        (entered poisons))
      2 (entered reset)

-- Each thread makes a step in each round.
rounds : ℕ → Threads3 → Threads3
unfolding act step
rounds zero s = s
rounds (suc n) s = rounds n (act task true (act task true (act task true s 0) 1) 2)

abbrev all_answered : Threads3
all_answered = rounds 20 called

test_fail : all_answered.pc 0 ≡ answered (unwinds 7)
unfolding rounds act step task
test_fail = refl

test_poisons : all_answered.pc 1 ≡ answered (value (err lock_poisoned))
unfolding rounds act step task
test_poisons = refl

test_reset : all_answered.pc 2 ≡ answered (value (ok (recovery true)))
unfolding rounds act step task
test_reset = refl

abbrev asked_for : List (Event (Result QueueError (Given ℕ)) (Operation ℕ ℕ))
asked_for = calls 2 reset ∷ calls 1 poisons ∷ calls 0 fail ∷ []

-- Then they return to their callers.
abbrev all_events : List (Event (Result QueueError (Given ℕ)) (Operation ℕ ℕ))
all_events =
    answers 2 (value (ok (recovery true)))
    ∷ answers 1 (value (err lock_poisoned))
    ∷ answers 0 (unwinds 7)
    ∷ asked_for

abbrev returned_all : Threads3
returned_all = goto (goto (goto all_answered 0 idle) 1 idle) 2 idle

rounds-Run :
    (n : ℕ) (s : Threads3)
    → Run task true (record { contents = 5; poisoned = false }) asked_for s
    → Run task true (record { contents = 5; poisoned = false }) asked_for (rounds n s)
unfolding rounds
rounds-Run zero s run = run
rounds-Run (suc n) s run = rounds-Run n _ (Run.acts 2 (Run.acts 1 (Run.acts 0 run)))

all_answered-Run : Run task true (record { contents = 5; poisoned = false }) asked_for all_answered
all_answered-Run = rounds-Run 20 called (
    Run.is_called 2 reset (Run.is_called 1 poisons (Run.is_called 0 fail Run.starts refl) refl)
      refl)

returned_all-Run : Run task true (record { contents = 5; poisoned = false }) all_events returned_all
returned_all-Run =
    Run.replies 2 (value (ok (recovery true)))
      (Run.replies 1 (value (err lock_poisoned))
        (Run.replies 0 (unwinds 7) all_answered-Run test_fail) test_poisons)
      test_reset

run-PoisonRun_example :
    (p : PoisonLock ℕ ℕ) × PoisonRun true 5
      (answers 2 (value (recovery true))
        ∷ answers 1 cancelled
        ∷ answers 0 (unwinds 7)
        ∷ calls 2 reset
        ∷ calls 1 poisons
        ∷ calls 0 fail
        ∷ [])
      p
    × (p.contents ≡ 0)
    × ((p.health ≡ disabled) ⊎ (p.health ≡ healthy))
unfolding rounds act step task seen
run-PoisonRun_example = run-PoisonRun true 5 all_events returned_all returned_all-Run
