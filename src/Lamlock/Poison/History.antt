-- ===== src/Lamlock/Poison/History.antt =====
-- Histories of calls on one poisoning lock of crates/lamlock/src/poison.rs, one after another.
use useless.Base.{ℕ, ◌≡◌, refl, Bool, true, false, Option, none, some, List, [], ◌∷◌, arith}
use useless.Lamlock.RawLock
use useless.Lamlock.Solo.{Outcome, returned, panicked, Answer, value, cancelled, unwinds, Lock}
use useless.Lamlock.Poison
use useless.Lamlock.Poison.{Shared}

-- The free lock over the data `t`.
abbrev pub free : {T : Type 0} → Bool → T → Lock (Shared T)
free bad t = record { raw = RawLock.new; contents = record { contents = t; poisoned = bad } }

-- A call of `run` with its closure, or of `poison`.
pub data Call (T R : Type 0) : Type 0 where
  runs : (T → Outcome T R) → Call T R
  poisons : Call T R

-- The lock after one call, and whether the call got `LockPoisoned`.
unfoldable pub rejects :
    {T A : Type 0} → Option (Lock (Shared T) × Answer A) → Option (Lock (Shared T) × Bool)
rejects none = none
rejects (some (l, cancelled)) = some (l, true)
rejects (some (l, value a)) = some (l, false)
rejects (some (l, unwinds p)) = some (l, false)

module _ {T R : Type 0} (std : Bool) (node : ℕ) where
  unfoldable pub one_call : Lock (Shared T) → Call T R → Option (Lock (Shared T) × Bool)
  unfolding rejects
  one_call l (runs f) = rejects (Poison.run std node l f)
  one_call l poisons = rejects (Poison.poison std node l)

  -- The lock after a history, and whether every call of it was rejected.
  unfoldable pub all_rejected : Lock (Shared T) → List (Call T R) → Option (Lock (Shared T) × Bool)
  unfolding one_call
  all_rejected l [] = some (l, true)
  all_rejected l (c ∷ cs) = elim (one_call l c) [
    | none ↦ none
    | some (l', true) ↦ all_rejected l' cs
    | some (l', false) ↦ some (l', false)
  ]

  one_call_rejected : (t : T) (c : Call T R) → one_call (free true t) c ≡ some (free true t, true)
  unfolding one_call Poison.run Poison.poison
  one_call_rejected t (runs f) = refl
  one_call_rejected t poisons = refl

  history_rejected :
      (t : T) (cs : List (Call T R)) → all_rejected (free true t) cs ≡ some (free true t, true)
  unfolding all_rejected
  history_rejected t [] = refl
  history_rejected t (c ∷ cs) = rw (one_call_rejected t c, all_rejected) (history_rejected t cs)

  -- After a closure has panicked in `run` with the payload `p` and left the data `t'`, the caller
  -- unwinds with `p`; then every call of `run` and `poison`, in any number, gets `LockPoisoned`, calls
  -- no closure and leaves the data `t'` as it is.
  pub run_panic_poisons :
      (t t' : T) (p : ℕ) (f : T → Outcome T R) (cs : List (Call T R))
      → f t ≡ panicked p t'
      → (Poison.run std node (free false t) f ≡ some (free true t', unwinds p))
        × (all_rejected (free true t') cs ≡ some (free true t', true))
  unfolding Poison.run
  run_panic_poisons t t' p f cs e = (ground arith, history_rejected t' cs)

-- What `try_unpoison` leaves and answers, from the end of its closure.
abbrev pub recovery : {T : Type 0} → Outcome T Bool → Lock (Shared T) × Answer Bool
recovery (returned true t) = (free false t, value true)
recovery (returned false t) = (free true t, value false)
recovery (panicked p t) = (free true t, unwinds p)

-- On a poisoned lock `try_unpoison` calls the closure: `true` clears the poison, `false` or a panic
-- keeps it, and the data is as the closure left it. On a healthy lock it answers `false`, calls
-- nothing and changes nothing.
pub try_unpoison-recovery :
    {T : Type 0} (std : Bool) (node : ℕ) (t : T) (f : T → Outcome T Bool)
    → (Poison.try_unpoison std node (free true t) f ≡ some (recovery (f t)))
      × (Poison.try_unpoison std node (free false t) f ≡ some (free false t, value false))
unfolding Poison.try_unpoison
try_unpoison-recovery std node t f = (ground arith, refl)
