-- ===== src/Lamlock/Atomic.antt =====
-- What crates/lamlock promises to its callers: a lock whose calls run one at a time, each in one step.
-- Without `std` a closure's panic may disable the lock: no closure runs from then on, and a call may end
-- with the error or a panic.
use useless.Base.{ℕ, ◌≡◌, Bool, true, false, List, [], ◌∷◌, put}
use useless.Lamlock.Solo.{Outcome, returned, panicked, Answer, value, unwinds, cancelled}

-- A thread's call: none, asked for and not run, or run with its answer.
pub data Phase (R F : Type 0) : Type 0 where
  out : Phase R F
  asked : F → Phase R F
  ran : Answer R → Phase R F

pub record Atomic (T R F : Type 0) : Type 0 where
  pub contents : T
  pub phase : ℕ → Phase R F
  pub disabled : Bool

-- What the callers see: a call, and its answer.
pub data Event (R F : Type 0) : Type 0 where
  calls : (i : ℕ) → F → Event R F
  answers : (i : ℕ) → Answer R → Event R F

abbrev pub idle_lock : {T R F : Type 0} → T → Atomic T R F
idle_lock t = record { contents = t; phase = λ i. out; disabled = false }

module _ {T R F : Type 0} (call : F → T → Outcome T R) (std : Bool) where
  -- A step that the callers do not see.
  pub data Internal (a : Atomic T R F) : Atomic T R F → Type 0 where
    nothing : Internal a a
    runs :
        (i : ℕ) (f : F) (r : R) (t : T)
        → a.phase i ≡ asked f
        → a.disabled ≡ false
        → call f a.contents ≡ returned r t
        → Internal a (record a { contents = t; phase = put a.phase i (ran (value r)) })
    panics :
        (i : ℕ) (f : F) (p : ℕ) (t : T)
        → a.phase i ≡ asked f
        → a.disabled ≡ false
        → call f a.contents ≡ panicked p t
        → Internal a (record a { contents = t; phase = put a.phase i (ran (unwinds p)) })
    disables :
        (i : ℕ) (f : F) (p : ℕ) (t : T)
        → std ≡ false
        → a.phase i ≡ asked f
        → a.disabled ≡ false
        → call f a.contents ≡ panicked p t
        → Internal a
            (record { contents = t; phase = put a.phase i (ran (unwinds p)); disabled = true })
    fails :
        (i : ℕ)
        → a.disabled ≡ true
        → ¬ (a.phase i ≡ out)
        → Internal a (record a { phase = put a.phase i (ran cancelled) })
    unwinds_with :
        (i p : ℕ)
        → a.disabled ≡ true
        → ¬ (a.phase i ≡ out)
        → Internal a (record a { phase = put a.phase i (ran (unwinds p)) })

  -- The states that the lock can be in after the events, the last first.
  pub data AtomicRun (t : T) : List (Event R F) → Atomic T R F → Type 0 where
    starts : AtomicRun t [] (idle_lock t)
    works :
        {l : List (Event R F)} {a a' : Atomic T R F}
        → AtomicRun t l a
        → Internal a a'
        → AtomicRun t l a'
    is_called :
        {l : List (Event R F)} {a : Atomic T R F} (i : ℕ) (f : F)
        → AtomicRun t l a
        → a.phase i ≡ out
        → AtomicRun t (calls i f ∷ l) (record a { phase = put a.phase i (asked f) })
    replies :
        {l : List (Event R F)} {a : Atomic T R F} (i : ℕ) (x : Answer R)
        → AtomicRun t l a
        → a.phase i ≡ ran x
        → AtomicRun t (answers i x ∷ l) (record a { phase = put a.phase i out })
