-- ===== src/Lamlock/Threads/Futex.antt =====
-- crates/lamlock/src/futex.rs, and `Node::wait` of node.rs. The kernel's part is its documented
-- behaviour: FUTEX_WAIT puts the caller to sleep only if the word still has the value, a sleeper may
-- wake up at any time, and FUTEX_WAKE wakes the sleeper of the address, if there is one.
use useless.Base.{ℕ, Option, none, some, put}
use useless.Lamlock.Threads.{
  Word, waiting, sleeping, Pc, checking, entering, parked, awake, woken, System, goto,
}

-- The wake-up call of a notification, if the old value asks for one.
unfoldable pub wake_for : ℕ → Word → Option ℕ
wake_for c sleeping = some c
wake_for c w = none

module _ {T R F : Type 0} where
  -- `Node::wait`: the compare_exchange of WAITING by SLEEPING.
  unfoldable pub exchange_waiting : System T R F → ℕ → Word → System T R F
  exchange_waiting s i waiting = record s { word = put s.word i sleeping; pc = put s.pc i checking }
  exchange_waiting s i w = goto s i (woken w)

  unfoldable pub wait : System T R F → ℕ → System T R F
  unfolding exchange_waiting
  wait s i = exchange_waiting s i (s.word i)

  -- `Futex::wait`: the load that the loop tests.
  unfoldable pub loop_test : Word → Pc T R F
  loop_test sleeping = entering
  loop_test w = awake

  unfoldable pub check : System T R F → ℕ → System T R F
  unfolding loop_test
  check s i = goto s i (loop_test (s.word i))

  -- The system call of `Futex::wait`: the kernel compares the word before it puts the thread to sleep.
  unfoldable pub kernel_test : Word → Pc T R F
  kernel_test sleeping = parked
  kernel_test w = checking

  unfoldable pub futex_wait : System T R F → ℕ → System T R F
  unfolding kernel_test
  futex_wait s i = goto s i (kernel_test (s.word i))

  -- `Futex::notify`: the swap, whose old value tells whether the wake-up call follows.

  unfoldable pub notify : System T R F → ℕ → ℕ → Word → Pc T R F → System T R F
  unfolding wake_for
  notify s i c m p = record s {
    word = put s.word c m;
    wake = put s.wake i (wake_for c (s.word c));
    pc = put s.pc i p;
  }

  -- `Futex::wake`, which does not read the memory of the node.
  unfoldable pub roused : Pc T R F → Pc T R F
  roused parked = checking
  roused p = p

  unfoldable pub futex_wake : System T R F → ℕ → ℕ → System T R F
  unfolding roused
  futex_wake s i c = record s { wake = put s.wake i none; pc = put s.pc c (roused (s.pc c)) }
