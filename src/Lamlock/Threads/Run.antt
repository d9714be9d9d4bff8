-- ===== src/Lamlock/Threads/Run.antt =====
-- The runs of any number of threads on a new lock, step by step, in any order.
use useless.Base.{ℕ, ◌≡◌, Bool, List, [], ◌∷◌}
use useless.Lamlock.Solo.{Outcome, Answer}
use useless.Lamlock.Atomic.{Event, calls, answers}
use useless.Lamlock.Threads.{new, idle, entered, answered, parked, checking, System, goto}
use useless.Lamlock.Threads.Call.{act}

module _ {T R F : Type 0} (call : F → T → Outcome T R) (std : Bool) (t : T) where
  -- The states that the threads can be in after the events, the last first. A call enters `try_run`, a
  -- thread makes its next step, a sleeper wakes up by itself, or a caller takes its answer.
  pub data Run : List (Event R F) → System T R F → Type 0 where
    starts : Run [] (new t)
    is_called :
        {l : List (Event R F)} {s : System T R F} (i : ℕ) (f : F)
        → Run l s
        → s.pc i ≡ idle
        → Run (calls i f ∷ l) (goto s i (entered f))
    acts : {l : List (Event R F)} {s : System T R F} (i : ℕ) → Run l s → Run l (act call std s i)
    is_interrupted :
        {l : List (Event R F)} {s : System T R F} (i : ℕ)
        → Run l s
        → s.pc i ≡ parked
        → Run l (goto s i checking)
    replies :
        {l : List (Event R F)} {s : System T R F} (i : ℕ) (x : Answer R)
        → Run l s
        → s.pc i ≡ answered x
        → Run (answers i x ∷ l) (goto s i idle)
