-- ===== src/Lamlock/Threads/Attach.antt =====
-- crates/lamlock/src/node.rs: `Node::attach`, one function for each of its atomic accesses, and
-- `RawLock::acquire` of rawlock.rs.
use useless.Base.{ℕ, zero, suc, Bool, true, false, Option, none, some, Result, ok, err, put}
use useless.Lamlock.RawLock.{
  RawLock, QueueError, swap_tail, try_close, try_acquire, release, Status, locked,
}
use useless.Lamlock.Threads.{
  Word, waiting, done, head, poisoned, Pc, linking, spinning, parking, woken, acquiring, pausing,
  calling, passing, closing, freeing, handing, heading, leaving, returning, failing, bombing,
  System, goto,
}
use useless.Lamlock.Threads.Futex.{notify}

abbrev pub spin_limit : ℕ
spin_limit = 100

module _ {T R F : Type 0} where
  unfoldable pub attach_to : System T R F → ℕ → RawLock × Option ℕ → System T R F
  attach_to s i (raw, some prev) = goto (record s { raw = raw }) i (linking prev)
  attach_to s i (raw, none) = goto (record s { raw = raw }) i acquiring

  unfoldable pub attach : System T R F → ℕ → System T R F
  unfolding attach_to swap_tail
  attach s i = attach_to s i (swap_tail s.raw i)

  unfoldable pub store_next : System T R F → ℕ → ℕ → System T R F
  store_next s i prev = record s {
    next = put s.next prev (some i);
    pc = put s.pc i (spinning spin_limit);
  }

  -- The spinning of the waiter: a load for each of `left` rounds, then `Node::wait`.
  unfoldable pub spin_on : Word → ℕ → Pc T R F
  spin_on waiting zero = parking
  spin_on waiting (suc left) = spinning (suc left)
  spin_on w left = woken w

  unfoldable pub spin : System T R F → ℕ → ℕ → System T R F
  unfolding spin_on
  spin s i zero = goto s i parking
  spin s i (suc left) = goto s i (spin_on (s.word i) left)

  -- Without `std` a cancelled waiter returns the error.
  unfoldable pub cancelled_waiter : Bool → ℕ → Pc T R F
  cancelled_waiter true i = calling i
  cancelled_waiter false i = failing

  -- What the waiter makes of its message: any but these two is its turn as a combiner.
  unfoldable pub receive : Bool → ℕ → Word → Pc T R F
  unfolding cancelled_waiter
  receive std i done = returning
  receive std i poisoned = cancelled_waiter std i
  receive std i m = calling i

  unfoldable pub acquire_with : System T R F → ℕ → RawLock × Result QueueError Bool → System T R F
  acquire_with s i (raw, ok true) = goto (record s { raw = raw }) i (calling i)
  acquire_with s i (raw, ok false) = goto (record s { raw = raw }) i pausing
  acquire_with s i (raw, err e) = goto (record s { raw = raw }) i (bombing none i)

  -- `raw.acquire()?`: its test and its spinning; the error drops the bomb.
  unfoldable pub acquire : System T R F → ℕ → System T R F
  unfolding acquire_with try_acquire
  acquire s i = acquire_with s i (try_acquire s.raw)

  unfoldable pub paused : Status → Pc T R F
  paused locked = pausing
  paused w = acquiring

  unfoldable pub pause : System T R F → ℕ → System T R F
  unfolding paused
  pause s i = goto s i (paused s.raw.status)

  -- The combiner's loop, after a closure.
  unfoldable pub combine_to : ℕ → Option ℕ → Pc T R F
  combine_to c (some n) = passing c n
  combine_to c none = closing c

  unfoldable pub load_next : System T R F → ℕ → ℕ → System T R F
  unfolding combine_to
  load_next s i c = goto s i (combine_to c (s.next c))

  unfoldable pub wake_as_done : System T R F → ℕ → ℕ → Pc T R F → System T R F
  unfolding notify
  wake_as_done s i c p = notify s i c done p

  unfoldable pub close_with : System T R F → ℕ → ℕ → RawLock × Bool → System T R F
  close_with s i c (raw, true) = goto (record s { raw = raw }) i (freeing c)
  close_with s i c (raw, false) = goto (record s { raw = raw }) i (handing c)

  unfoldable pub close : System T R F → ℕ → ℕ → System T R F
  unfolding close_with try_close
  close s i c = close_with s i c (try_close s.raw c)

  unfoldable pub unlock : System T R F → ℕ → Pc T R F → System T R F
  unfolding release
  unlock s i p = goto (record s { raw = release s.raw }) i p

  -- The last loop: the successor that is being linked gets the lock.
  unfoldable pub hand_to : ℕ → Option ℕ → Pc T R F
  hand_to c (some n) = heading c n
  hand_to c none = handing c

  unfoldable pub hand_over : System T R F → ℕ → ℕ → System T R F
  unfolding hand_to
  hand_over s i c = goto s i (hand_to c (s.next c))

  unfoldable pub wake_as_head : System T R F → ℕ → ℕ → ℕ → System T R F
  unfolding notify
  wake_as_head s i c n = notify s i n head (leaving c)
