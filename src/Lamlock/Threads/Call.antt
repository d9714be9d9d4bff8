-- ===== src/Lamlock/Threads/Call.antt =====
-- crates/lamlock/src/nonpoison.rs: `try_run` and `run_slowly` with `execute`, and the step of a thread.
-- A closure's call reads the data, and a later step writes what it leaves there.
use useless.Base.{ℕ, Bool, true, false, Option, none, some, Result, ok, err, put, if◌then◌else◌}
use useless.Lamlock.RawLock.{RawLock, QueueError, has_tail, try_acquire}
use useless.Lamlock.Solo.{Outcome, returned, panicked, value, unwinds, cancelled}
use useless.Lamlock.Threads.{
  waiting, Pc, idle, entered, tested, guarded, slow, running_fast, unlocking, answered, attaching,
  parking, checking, entering, parked, awake, acquiring, pausing, linking, spinning, woken, calling,
  called, closing, freeing, handing, leaving, running, passing, heading, releasing, bombing,
  draining, drain_closing, drain_telling, drain_spinning, drain_passing, returning, failing,
  undefined, System, goto,
}
use useless.Lamlock.Threads.Futex.{wait, check, futex_wait, futex_wake}
use useless.Lamlock.Threads.Bomb.{
  drop_poison, drop_load, drop_pass, drop_close, drop_tell, drop_spin,
}
use useless.Lamlock.Threads.Attach.{
  attach, store_next, spin, receive, acquire, pause, load_next, wake_as_done, close, unlock,
  hand_over, wake_as_head,
}

module _ {T R F : Type 0} where
  -- `self.raw.has_tail`
  unfoldable pub test_tail : F → Bool → Pc T R F
  test_tail f true = slow f
  test_tail f false = tested f

  -- `self.raw.try_acquire()?`
  unfoldable pub enter_with : System T R F → ℕ → F → RawLock × Result QueueError Bool → System T R F
  enter_with s i f (raw, ok true) = goto (record s { raw = raw }) i (guarded f)
  enter_with s i f (raw, ok false) = goto (record s { raw = raw }) i (slow f)
  enter_with s i f (raw, err e) = goto (record s { raw = raw }) i (answered cancelled)

  -- The end of a closure on the fast path: the guard's drop follows, on a return and on a panic.
  unfoldable pub finish_fast : System T R F → ℕ → Outcome T R → System T R F
  finish_fast s i (returned r t) = goto (record s { data_cell = t }) i (unlocking (value r))
  finish_fast s i (panicked p t) = goto (record s { data_cell = t }) i (unlocking (unwinds p))

  -- `run_slowly`: the node and its fields.
  unfoldable pub new_node : System T R F → ℕ → F → System T R F
  new_node s i f = record s {
    word = put s.word i waiting;
    next = put s.next i none;
    closure = put s.closure i (some f);
    started = put s.started i false;
    result = put s.result i none;
    pc = put s.pc i attaching;
  }

  -- `execute`: the closure moves out of its slot.
  unfoldable pub execute : (std : Bool) → System T R F → ℕ → ℕ → Option F → System T R F
  execute std s i c (some f) = record s {
    started = if std then s.started else put s.started c true;
    closure = put s.closure c none;
    pc = put s.pc i (running c f s.data_cell);
  }
  execute std s i c none = goto s i undefined

  -- The end of `execute`. With `std` a panic is caught and stored; without it, it drops the bomb.
  unfoldable pub finish : Bool → System T R F → ℕ → ℕ → Outcome T R → System T R F
  finish std s i c (returned r t) = record s {
    data_cell = t;
    result = put s.result c (some (ok r));
    pc = put s.pc i (called c);
  }
  finish true s i c (panicked p t) = record s {
    data_cell = t;
    result = put s.result c (some (err p));
    pc = put s.pc i (called c);
  }
  finish false s i c (panicked p t) = goto (record s { data_cell = t }) i (bombing (some p) c)

  -- The outcome that the requester reads.
  unfoldable pub resume : Option (Result ℕ R) → Pc T R F
  resume (some (ok r)) = answered (value r)
  resume (some (err p)) = answered (unwinds p)
  resume none = undefined

  -- The error of `attach`: a closure that was not consumed is dropped.
  unfoldable pub cancel_with : System T R F → ℕ → Bool → Option F → System T R F
  cancel_with s i true f = goto s i (answered cancelled)
  cancel_with s i false (some f) =
      goto (record s { closure = put s.closure i none }) i (answered cancelled)
  cancel_with s i false none = goto s i undefined

module _ {T R F : Type 0} (call : F → T → Outcome T R) (std : Bool) where
  -- The step of the thread `i` at its place in the code.
  unfoldable pub step : System T R F → ℕ → Pc T R F → System T R F
  unfolding test_tail enter_with finish_fast new_node execute finish resume cancel_with has_tail
      try_acquire wait check futex_wait drop_poison drop_load drop_pass drop_close drop_tell
      drop_spin attach store_next spin receive acquire pause load_next wake_as_done close unlock
      hand_over wake_as_head
  step s i idle = s
  step s i (entered f) = goto s i (test_tail f (has_tail s.raw))
  step s i (tested f) = enter_with s i f (try_acquire s.raw)
  step s i (guarded f) = goto s i (running_fast f s.data_cell)
  step s i (running_fast f d) = finish_fast s i (call f d)
  step s i (unlocking a) = unlock s i (answered a)
  step s i (slow f) = new_node s i f
  step s i attaching = attach s i
  step s i (linking prev) = store_next s i prev
  step s i (spinning left) = spin s i left
  step s i parking = wait s i
  step s i checking = check s i
  step s i entering = futex_wait s i
  step s i parked = s
  step s i awake = goto s i (woken (s.word i))
  step s i (woken m) = goto s i (receive std i m)
  step s i acquiring = acquire s i
  step s i pausing = pause s i
  step s i (calling c) = execute std s i c (s.closure c)
  step s i (running c f d) = finish std s i c (call f d)
  step s i (called c) = load_next s i c
  step s i (passing c n) = wake_as_done s i c (calling n)
  step s i (closing c) = close s i c
  step s i (freeing c) = wake_as_done s i c releasing
  step s i releasing = unlock s i returning
  step s i (handing c) = hand_over s i c
  step s i (heading c n) = wake_as_head s i c n
  step s i (leaving c) = wake_as_done s i c returning
  step s i returning = goto s i (resume (s.result i))
  step s i (bombing e c) = drop_poison s i e c
  step s i (draining e c) = drop_load s i e c
  step s i (drain_passing e c n) = drop_pass s i e c n
  step s i (drain_closing e c) = drop_close s i e c
  step s i (drain_telling e c) = drop_tell s i e c
  step s i (drain_spinning e c) = drop_spin s i e c
  step s i failing = cancel_with s i (s.started i) (s.closure i)
  step s i (answered a) = s
  step s i undefined = s

  -- A thread that still has to make a wake-up call makes it first.
  unfoldable pub act : System T R F → ℕ → System T R F
  unfolding step futex_wake
  act s i = elim (s.wake i) [ none ↦ step s i (s.pc i) | some c ↦ futex_wake s i c ]
