-- ===== src/Lamlock/Solo.antt =====
-- crates/lamlock/src/nonpoison.rs, panic.rs, and `Node::attach` of node.rs with the guard and the bomb
-- of bomb.rs: a call that no other thread interleaves with. `none` is a call that does not return by
-- itself, since it waits for another thread.
use useless.Base.{ℕ, Bool, true, false, Option, none, some, Result, ok, err, if◌then◌else◌}
use useless.Lamlock.RawLock
use useless.Lamlock.RawLock.{
  RawLock, Status, QueueError, has_tail, swap_tail, try_close, try_acquire, acquire, poison,
  release,
}

-- How a closure ends that was given mutable data: with a value or a panic, and what it left there.
pub data Outcome (T R : Type 0) : Type 0 where
  returned : R → T → Outcome T R
  panicked : (payload : ℕ) → T → Outcome T R

-- What a call gives its caller: a value, the error of a disabled queue, or a panic.
pub data Answer (R : Type 0) : Type 0 where
  value : R → Answer R
  cancelled : Answer R
  unwinds : (payload : ℕ) → Answer R

-- `nonpoison::Lock`.
pub record Lock (T : Type 0) : Type 0 where
  pub raw : RawLock
  pub contents : T

abbrev pub new : {T : Type 0} → T → Lock T
new t = record { raw = RawLock.new; contents = t }

-- `Bomb::drop` with no other node in the queue: the lock is poisoned and the tail is closed.
unfoldable pub bomb_drop : ℕ → RawLock → RawLock
unfolding poison try_close
bomb_drop node raw = (try_close (poison raw) node).0

module _ {T R : Type 0} where
  -- The guard releases the lock on a return and on a panic.
  fast_path : RawLock → Outcome T R → Lock T × Answer R
  unfolding release
  fast_path raw (returned r t) = (record { raw = release raw; contents = t }, value r)
  fast_path raw (panicked p t) = (record { raw = release raw; contents = t }, unwinds p)

  -- The end of `attach`: the tail is closed and the lock released, unless another node was attached.
  close : ℕ → T → Answer R → RawLock → Option (Lock T × Answer R)
  unfolding try_close release
  close node t answer raw =
      if (try_close raw node).1
      then some (record { raw = release (try_close raw node).0; contents = t }, answer)
      else none

  -- The combiner runs its own task. With `std` a panic is caught, stored and resumed on the
  -- requester, which is this thread; without it the panic unwinds through the bomb.
  combine : (std : Bool) → ℕ → RawLock → Outcome T R → Option (Lock T × Answer R)
  unfolding close bomb_drop
  combine std node raw (returned r t) = close node t (value r) raw
  combine true node raw (panicked p t) = close node t (unwinds p) raw
  combine false node raw (panicked p t) =
      some (record { raw = bomb_drop node raw; contents = t }, unwinds p)

  -- `raw.acquire()?` at the head of the queue. A lock that is held is waited for; the error of a
  -- poisoned lock drops the bomb.
  head_of_queue :
      (std : Bool)
      → ℕ
      → T
      → (T → Outcome T R)
      → Option (RawLock × Result QueueError (Unit {0}))
      → Option (Lock T × Answer R)
  unfolding combine
  head_of_queue std node t f (some (raw, ok done)) = combine std node raw (f t)
  head_of_queue std node t f none = none
  head_of_queue std node t f (some (raw, err e)) =
      some (record { raw = bomb_drop node raw; contents = t }, cancelled)

  -- With a predecessor in the queue, the call waits for it.
  attach :
      (std : Bool) → ℕ → T → (T → Outcome T R) → RawLock × Option ℕ → Option (Lock T × Answer R)
  unfolding head_of_queue acquire
  attach std node t f (raw, some prev) = none
  attach std node t f (raw, none) = head_of_queue std node t f (acquire raw)

  unfoldable pub run_slowly :
      (std : Bool) → ℕ → Lock T → (T → Outcome T R) → Option (Lock T × Answer R)
  unfolding attach swap_tail
  run_slowly std node l f = attach std node l.contents f (swap_tail l.raw node)

  -- `self.raw.try_acquire()?` and what follows it.
  try_fast :
      (std : Bool)
      → ℕ
      → T
      → (T → Outcome T R)
      → RawLock × Result QueueError Bool
      → Option (Lock T × Answer R)
  unfolding fast_path run_slowly
  try_fast std node t f (raw, ok true) = some (fast_path raw (f t))
  try_fast std node t f (raw, ok false) = run_slowly std node (record { raw = raw; contents = t }) f
  try_fast std node t f (raw, err e) = some (record { raw = raw; contents = t }, cancelled)

  unfoldable pub try_run :
      (std : Bool) → ℕ → Lock T → (T → Outcome T R) → Option (Lock T × Answer R)
  unfolding try_fast has_tail
  try_run std node l f =
      if has_tail l.raw
      then run_slowly std node l f
      else try_fast std node l.contents f (try_acquire l.raw)
