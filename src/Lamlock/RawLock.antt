-- ===== src/Lamlock/RawLock.antt =====
-- crates/lamlock/src/rawlock.rs: the lock word and the tail of the queue. Each function is one atomic
-- access; a node is named by a number. The status `poisoned` is stored only without the `std` feature.
use useless.Base.{ℕ, Bool, true, false, Option, none, some, Result, ok, err, if◌then◌else◌, ◌==◌}

pub data Status : Type 0 where
  unlocked locked poisoned : Status

pub record RawLock : Type 0 where
  pub status : Status
  pub tail : Option ℕ

-- The error of a disabled queue: `LockPoisoned`.
pub data QueueError : Type 0 where
  lock_poisoned : QueueError

abbrev pub new : RawLock
new = record { status = unlocked; tail = none }

unfoldable pub has_tail : RawLock → Bool
has_tail raw = elim raw.tail [ none ↦ false | some node ↦ true ]

-- The new lock, and the old tail.
unfoldable pub swap_tail : RawLock → ℕ → RawLock × Option ℕ
swap_tail raw node = (record raw { tail = some node }, raw.tail)

unfoldable pub close_tail : RawLock → ℕ → Option ℕ → RawLock × Bool
close_tail raw expected none = (raw, false)
close_tail raw expected (some node) =
    if node == expected then (record raw { tail = none }, true) else (raw, false)

unfoldable pub try_close : RawLock → ℕ → RawLock × Bool
unfolding close_tail
try_close raw expected = close_tail raw expected raw.tail

unfoldable pub acquire_status : RawLock → Status → RawLock × Result QueueError Bool
acquire_status raw unlocked = (record raw { status = locked }, ok true)
acquire_status raw locked = (raw, ok false)
acquire_status raw poisoned = (raw, err lock_poisoned)

unfoldable pub try_acquire : RawLock → RawLock × Result QueueError Bool
unfolding acquire_status
try_acquire raw = acquire_status raw raw.status

-- `acquire` without other threads: the first `try_acquire` decides. `none` is the wait for the release
-- of a lock that is held.
acquired : RawLock × Result QueueError Bool → Option (RawLock × Result QueueError (Unit {0}))
acquired (raw, ok true) = some (raw, ok tt)
acquired (raw, ok false) = none
acquired (raw, err e) = some (raw, err e)

unfoldable pub acquire : RawLock → Option (RawLock × Result QueueError (Unit {0}))
unfolding acquired try_acquire
acquire raw = acquired (try_acquire raw)

unfoldable pub poison : RawLock → RawLock
poison raw = record raw { status = poisoned }

unfoldable pub release : RawLock → RawLock
release raw = record raw { status = unlocked }
