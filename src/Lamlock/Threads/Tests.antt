-- ===== src/Lamlock/Threads/Tests.antt =====
-- Runs of three threads on a counter.
use useless.Base.{
  ℕ, zero, suc, ◌+◌, ◌≡◌, ◌≢◌, ◌⊎◌, refl, if◌then◌else◌, ◌==◌, arith, Bool, true, false, some, List,
  [], ◌∷◌,
}
use useless.Lamlock.Solo.{Outcome, returned, panicked, cancelled}
use useless.Lamlock.Atomic.{Atomic, AtomicRun, Event, calls}
use useless.Lamlock.Threads.{done, head, poisoned, entered, answered, undefined, System, new, goto}
use useless.Lamlock.Threads.Call.{act, step}
use useless.Lamlock.RawLock.{Status, has_tail}
use useless.Lamlock.Threads.Memory.{Fields, Same, scribble, alive, dead-untouched}
use useless.Lamlock.Threads.Run.{Run}
use useless.Lamlock.Threads.Linear.{run-AtomicRun}
use useless.Lamlock.Threads.Safety.{
  with_data, with_data_unique, undefined-unreached, sleeper-woken, woken-message, handing-has_tail,
  std-answered,
}
use useless.Lamlock.Threads.Poisoned.{poisoned_forever}
use useless.Lamlock.Threads.Progress.{Moves, no_deadlock}
use useless.Base.{ok}

abbrev Task : Type 0
Task = ℕ → Outcome ℕ ℕ

abbrev run_closure : Task → ℕ → Outcome ℕ ℕ
run_closure f d = f d

abbrev add_one : Task
add_one d = returned d (d + 1)

-- Panics if the data is 6, and adds one to it.
abbrev fail_at_six : Task
fail_at_six d = if d == 6 then panicked 7 (d + 1) else returned d (d + 1)

-- The threads make steps in the order of a list.
turns : Bool → List ℕ → System ℕ ℕ Task → System ℕ ℕ Task
unfolding act step
turns std [] s = s
turns std (i ∷ l) s = turns std l (act run_closure std s i)

-- Each of the threads 0, 1 and 2 calls the lock, whose data is 5; the closure of 1 will panic.
abbrev three_calls : System ℕ ℕ Task
three_calls =
    goto (goto (goto (new 5) 0 (entered add_one)) 1 (entered fail_at_six)) 2 (entered add_one)

-- The thread 0 runs its closure, 1 is the first of the queue, and 2 links its node behind it.
abbrev contended_turns : List ℕ
contended_turns = 0 ∷ 0 ∷ 0 ∷ 1 ∷ 1 ∷ 1 ∷ 1 ∷ 2 ∷ 2 ∷ 2 ∷ []

-- From there, 2 goes to sleep.
abbrev sleep_turns : ℕ → List ℕ
sleep_turns zero = []
sleep_turns (suc n) = 2 ∷ sleep_turns n

-- Then 0 is done, and 1 runs its closure and that of 2, up to the wake-up call for it.
abbrev combining_turns : List ℕ
combining_turns = 0 ∷ 0 ∷ 1 ∷ 1 ∷ 1 ∷ 1 ∷ 1 ∷ 1 ∷ 1 ∷ 1 ∷ 1 ∷ 1 ∷ []

abbrev contended : System ℕ ℕ Task
contended = turns true contended_turns three_calls

abbrev asleep : System ℕ ℕ Task
asleep = turns true combining_turns (turns true (sleep_turns 104) contended)

test_data : asleep.data_cell ≡ 8
unfolding turns act step
test_data = refl

abbrev events : List (Event ℕ Task)
events = calls 2 add_one ∷ calls 1 fail_at_six ∷ calls 0 add_one ∷ []

start-Run : (std : Bool) → Run run_closure std 5 events three_calls
start-Run std =
    Run.is_called 2 add_one
      (Run.is_called 1 fail_at_six (Run.is_called 0 add_one Run.starts refl) refl) refl

turns-Run :
    (std : Bool) (l : List ℕ) (s : System ℕ ℕ Task)
    → Run run_closure std 5 events s
    → Run run_closure std 5 events (turns std l s)
unfolding turns
turns-Run std [] s run = run
turns-Run std (i ∷ l) s run = turns-Run std l _ (Run.acts i run)

contended-Run : Run run_closure true 5 events contended
contended-Run = turns-Run true contended_turns three_calls (start-Run true)

asleep-Run : Run run_closure true 5 events asleep
asleep-Run =
    turns-Run true combining_turns _ (turns-Run true (sleep_turns 104) contended contended-Run)

run-AtomicRun_example :
    (a : Atomic ℕ ℕ Task) × AtomicRun run_closure true 5 events a × (asleep.data_cell ≡ a.contents)
run-AtomicRun_example = run-AtomicRun run_closure true 5 events asleep asleep-Run

abbrev runner : ℕ
runner = 0

with_data_unique_example : runner ≡ 0
unfolding with_data turns act step
with_data_unique_example =
    with_data_unique run_closure true 5 events contended contended-Run runner 0 refl refl

no_deadlock_example : (j : ℕ) × Moves run_closure true contended j
unfolding turns act step
no_deadlock_example = no_deadlock run_closure true 5 events contended 1 contended-Run (ground arith)

-- Other contents in the node of the thread 0, which is done, leave the next step of 1 as it is.
abbrev garbage : Fields ℕ Task
garbage = record {
  word = head;
  next = some 2;
  closure = some fail_at_six;
  started = true;
  result = some (ok 3);
}

dead-untouched_example :
    Same
      (act run_closure true (scribble asleep 0 garbage) 1)
      (scribble (act run_closure true asleep 1) 0 garbage)
unfolding alive turns act step
dead-untouched_example = dead-untouched run_closure true 5 events asleep 1 0 garbage asleep-Run refl

sleeper-woken_example : (j : ℕ) × (asleep.wake j ≡ some 2)
unfolding turns act step
sleeper-woken_example = sleeper-woken run_closure true 5 events asleep asleep-Run 2 refl refl

undefined-unreached_example : contended.pc 1 ≢ undefined
undefined-unreached_example =
    undefined-unreached run_closure true 5 events contended contended-Run 1

-- 1 and 2 are done with 2's closure, and 2 has woken up with its message.
abbrev awake_turns : List ℕ
awake_turns = 1 ∷ 2 ∷ 2 ∷ []

abbrev awoken : System ℕ ℕ Task
awoken = turns true awake_turns asleep

awoken-Run : Run run_closure true 5 events awoken
awoken-Run = turns-Run true awake_turns asleep asleep-Run

woken-message_example : (done ≡ done) ⊎ (done ≡ head) ⊎ ((done ≡ poisoned) × (true ≡ false))
unfolding turns act step
woken-message_example = woken-message run_closure true 5 events awoken awoken-Run 2 done refl

-- 1 cannot close the queue, since 2 is behind it but has not linked its node.
abbrev handing_turns : List ℕ
handing_turns = 0 ∷ 0 ∷ 1 ∷ 1 ∷ 1 ∷ 1 ∷ 1 ∷ []

abbrev waiting_for_link : System ℕ ℕ Task
waiting_for_link = turns true handing_turns contended

handing-has_tail_example : has_tail waiting_for_link.raw ≡ true
unfolding turns act step
handing-has_tail_example =
    handing-has_tail run_closure true 5 events waiting_for_link
      (turns-Run true handing_turns contended contended-Run) 1 1 refl

std-answered_example :
    (contended.raw.status ≢ Status.poisoned) × (contended.pc 0 ≢ answered cancelled)
std-answered_example = std-answered run_closure 5 events contended 0 contended-Run

-- Without `std`: 0 is done, and the closure of 1 panics and poisons the lock.
abbrev panic_turns : List ℕ
panic_turns = 0 ∷ 0 ∷ 1 ∷ 1 ∷ 1 ∷ 1 ∷ []

abbrev broken : System ℕ ℕ Task
broken = turns false panic_turns (turns false contended_turns three_calls)

poisoned_forever_example :
    ((act run_closure false broken 2).raw.status ≡ Status.poisoned)
    × (with_data (broken.pc 2) ≡ false)
unfolding turns act step
poisoned_forever_example =
    poisoned_forever run_closure false 5 events broken 2
      (turns-Run false panic_turns _
        (turns-Run false contended_turns three_calls (start-Run false)))
      refl
