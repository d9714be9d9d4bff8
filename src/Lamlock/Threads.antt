-- ===== src/Lamlock/Threads.antt =====
-- crates/lamlock with calls that interleave: the nodes of node.rs, the futex of futex.rs, the bomb of
-- bomb.rs and the calls of nonpoison.rs as a machine of threads. A step of a thread makes one atomic
-- access of the code and what is local around it; the accesses are taken to be sequentially
-- consistent. A thread's node has the thread's number, so a thread's next call uses the address again.
pub mod Futex
pub mod Attach
pub mod Bomb
pub mod Call
pub mod View
pub mod Words
pub mod Good
pub mod Run
pub mod Linear
pub mod Open
pub mod Safety
pub mod Blocked
pub mod Progress
pub mod Poisoned
pub mod Memory
mod Tests
use useless.Base.{ℕ, ◌≡◌, Bool, true, false, Option, none, some, Result, put}
use useless.Lamlock.RawLock
use useless.Lamlock.RawLock.{RawLock}
use useless.Lamlock.Solo.{Outcome, Answer}

-- The word of a node's futex.
pub data Word : Type 0 where
  waiting done head sleeping poisoned : Word

-- Where a thread is: before the access that it makes next. The argument `c` is the combiner's cursor
-- or the bomb's atom, `n` its successor, `f` a closure, `d` the data that a closure began with, and
-- `e` the payload of the panic that dropped the bomb, or `none` on the early return of `attach`.
pub data Pc (T R F : Type 0) : Type 0 where
  -- try_run
  idle : Pc T R F
  entered tested guarded slow : F → Pc T R F
  running_fast : F → T → Pc T R F
  unlocking answered : Answer R → Pc T R F
  -- attach, its wait, and raw.acquire
  attaching parking checking entering parked awake acquiring pausing : Pc T R F
  linking spinning : ℕ → Pc T R F
  woken : Word → Pc T R F
  -- the combiner
  calling called closing freeing handing leaving : (c : ℕ) → Pc T R F
  running : (c : ℕ) → F → T → Pc T R F
  passing heading : (c n : ℕ) → Pc T R F
  releasing : Pc T R F
  -- the bomb's drop
  bombing draining drain_closing drain_telling drain_spinning : Option ℕ → (c : ℕ) → Pc T R F
  drain_passing : Option ℕ → (c n : ℕ) → Pc T R F
  -- the end of run_slowly
  returning failing : Pc T R F
  -- a read of memory that is not initialised
  undefined : Pc T R F

-- The memory that the threads share, and where each is: the lock word and the tail, the fields of
-- every node (`closure` and `result` are `none` while they are not initialised), the lock's data, and
-- the address for which a thread still has to make the wake-up call of a notification.
pub record System (T R F : Type 0) : Type 0 where
  pub raw : RawLock
  pub word : ℕ → Word
  pub next : ℕ → Option ℕ
  pub closure : ℕ → Option F
  pub started : ℕ → Bool
  pub result : ℕ → Option (Result ℕ R)
  pub data_cell : T
  pub pc : ℕ → Pc T R F
  pub wake : ℕ → Option ℕ

-- `Lock::new`, with no thread in a call.
abbrev pub new : {T R F : Type 0} → T → System T R F
new t = record {
  raw = RawLock.new;
  word = λ i. waiting;
  next = λ i. none;
  closure = λ i. none;
  started = λ i. false;
  result = λ i. none;
  data_cell = t;
  pc = λ i. idle;
  wake = λ i. none;
}

module _ {T R F : Type 0} where
  abbrev pub goto : System T R F → ℕ → Pc T R F → System T R F
  goto s i p = record s { pc = put s.pc i p }
