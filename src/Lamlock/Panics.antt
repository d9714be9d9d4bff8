-- ===== src/Lamlock/Panics.antt =====
-- Panics in the locks of crates/lamlock, for calls that no other thread interleaves with.
use useless.Base.{ℕ, ◌≡◌, refl, Bool, true, false, none, some, arith}
use useless.Lamlock.RawLock
use useless.Lamlock.RawLock.{RawLock, Status}
use useless.Lamlock.Solo.{
  Outcome, returned, panicked, Answer, value, cancelled, unwinds, Lock, run_slowly, try_run,
}

-- What a lock that no thread holds or waits for makes of the end of a closure.
abbrev pub settled : {T R : Type 0} → Outcome T R → Lock T × Answer R
settled (returned r t) = (record { raw = RawLock.new; contents = t }, value r)
settled (panicked p t) = (record { raw = RawLock.new; contents = t }, unwinds p)

abbrev pub disabled : RawLock
disabled = record { status = Status.poisoned; tail = none }

module _ {T R : Type 0} (node : ℕ) (t : T) (f : T → Outcome T R) where
  abbrev idle : Lock T
  idle = record { raw = RawLock.new; contents = t }

  -- On a free lock, `try_run` calls the closure once on the data, keeps the data that it left, gives
  -- its value or its panic to the caller, and leaves the lock free, with `std` and without it.
  pub try_run-settled : (std : Bool) → try_run std node idle f ≡ some (settled (f t))
  unfolding try_run
  try_run-settled std = ground arith

  -- With `std`, the queued path and the uncontended path do the same on a free lock.
  pub run_slowly-try_run : run_slowly true node idle f ≡ try_run true node idle f
  unfolding run_slowly try_run
  run_slowly-try_run = ground arith

  -- Without `std`, a panic on the queued path of a free lock unwinds and disables the lock, and a call
  -- on the disabled lock is cancelled and changes nothing.
  pub run_slowly_disables :
      (p : ℕ) (t' : T) (g : T → Outcome T R) (other : ℕ)
      → f t ≡ panicked p t'
      → (run_slowly false node idle f ≡ some (record { raw = disabled; contents = t' }, unwinds p))
        × (try_run false other (record { raw = disabled; contents = t' }) g
            ≡ some (record { raw = disabled; contents = t' }, cancelled))
  unfolding run_slowly try_run
  run_slowly_disables p t' g other e = (ground arith, refl)
