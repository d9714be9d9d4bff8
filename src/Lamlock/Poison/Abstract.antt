-- ===== src/Lamlock/Poison/Abstract.antt =====
-- What crates/lamlock/src/poison.rs promises to its callers: a lock whose calls run one at a time, each in
-- one step, and that is healthy, poisoned or disabled. Only without `std` is it ever disabled, by a
-- closure's panic; a call then ends with the error or a panic.
use useless.Base.{ℕ, ◌≡◌, Bool, false, List, [], ◌∷◌, put, if◌then◌else◌}
use useless.Lamlock.Solo.{Outcome, returned, panicked, Answer, value, unwinds, cancelled}
use useless.Lamlock.Atomic.{Phase, out, asked, ran, Event, calls, answers}
use useless.Lamlock.Poison.Calls.{
  Operation, runs, poisons, unpoisons, Given, result, poisoned_now, recovery,
}

pub data Health : Type 0 where
  healthy poisoned disabled : Health

pub record PoisonLock (T R : Type 0) : Type 0 where
  pub contents : T
  pub health : Health
  pub phase : ℕ → Phase (Given R) (Operation T R)

abbrev pub new_lock : {T R : Type 0} → T → PoisonLock T R
new_lock t = record { contents = t; health = healthy; phase = λ i. out }

module _ {T R : Type 0} where
  -- The call of `i` has run, and left the data `t` and the health `h`.
  abbrev pub done_with : PoisonLock T R → ℕ → T → Health → Answer (Given R) → PoisonLock T R
  done_with a i t h x = record { contents = t; health = h; phase = put a.phase i (ran x) }

-- After a panic the lock is poisoned, or without `std` it can be disabled.
pub data Broken (std : Bool) : Health → Type 0 where
  is_poisoned : Broken std poisoned
  is_disabled : std ≡ false → Broken std disabled

module _ {T R : Type 0} (std : Bool) where
  -- A step that the callers do not see.
  pub data Work (a : PoisonLock T R) : PoisonLock T R → Type 0 where
    nothing : Work a a
    completes :
        (i : ℕ) (f : T → Outcome T R) (r : R) (t : T)
        → a.phase i ≡ asked (runs f)
        → a.health ≡ healthy
        → f a.contents ≡ returned r t
        → Work a (done_with a i t healthy (value (result r)))
    breaks :
        (i : ℕ) (f : T → Outcome T R) (p : ℕ) (t : T) (h : Health)
        → a.phase i ≡ asked (runs f)
        → a.health ≡ healthy
        → f a.contents ≡ panicked p t
        → Broken std h
        → Work a (done_with a i t h (unwinds p))
    rejects_run :
        (i : ℕ) (f : T → Outcome T R)
        → a.phase i ≡ asked (runs f)
        → a.health ≡ poisoned
        → Work a (done_with a i a.contents poisoned cancelled)
    gets_poisoned :
        (i : ℕ)
        → a.phase i ≡ asked poisons
        → a.health ≡ healthy
        → Work a (done_with a i a.contents poisoned (value poisoned_now))
    rejects_poison :
        (i : ℕ)
        → a.phase i ≡ asked poisons
        → a.health ≡ poisoned
        → Work a (done_with a i a.contents poisoned cancelled)
    needs_no_recovery :
        (i : ℕ) (f : T → Outcome T Bool)
        → a.phase i ≡ asked (unpoisons f)
        → a.health ≡ healthy
        → Work a (done_with a i a.contents healthy (value (recovery false)))
    recovers :
        (i : ℕ) (f : T → Outcome T Bool) (b : Bool) (t : T)
        → a.phase i ≡ asked (unpoisons f)
        → a.health ≡ poisoned
        → f a.contents ≡ returned b t
        → Work a (done_with a i t (if b then healthy else poisoned) (value (recovery b)))
    breaks_again :
        (i : ℕ) (f : T → Outcome T Bool) (p : ℕ) (t : T) (h : Health)
        → a.phase i ≡ asked (unpoisons f)
        → a.health ≡ poisoned
        → f a.contents ≡ panicked p t
        → Broken std h
        → Work a (done_with a i t h (unwinds p))
    fails :
        (i : ℕ)
        → a.health ≡ disabled
        → ¬ (a.phase i ≡ out)
        → Work a (done_with a i a.contents disabled cancelled)
    unwinds_with :
        (i p : ℕ)
        → a.health ≡ disabled
        → ¬ (a.phase i ≡ out)
        → Work a (done_with a i a.contents disabled (unwinds p))

  -- The states that the lock can be in after the events, the last first.
  pub data PoisonRun (t : T)
      : List (Event (Given R) (Operation T R)) → PoisonLock T R → Type 0 where
    starts : PoisonRun t [] (new_lock t)
    works :
        {l : List (Event (Given R) (Operation T R))} {a a' : PoisonLock T R}
        → PoisonRun t l a
        → Work a a'
        → PoisonRun t l a'
    is_called :
        {l : List (Event (Given R) (Operation T R))} {a : PoisonLock T R} (i : ℕ)
        (op : Operation T R)
        → PoisonRun t l a
        → a.phase i ≡ out
        → PoisonRun t (calls i op ∷ l) (record a { phase = put a.phase i (asked op) })
    replies :
        {l : List (Event (Given R) (Operation T R))} {a : PoisonLock T R} (i : ℕ)
        (x : Answer (Given R))
        → PoisonRun t l a
        → a.phase i ≡ ran x
        → PoisonRun t (answers i x ∷ l) (record a { phase = put a.phase i out })
