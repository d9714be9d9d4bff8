-- ===== src/Lamlock/Protocol.antt =====
-- The protocol of the queue of crates/lamlock, without data, sleep and spinning: what each thread is
-- in charge of, for `Node::attach` of node.rs and the drop of bomb.rs. Below it stand the invariant and
-- the effect of each kind of step on it.
pub mod Invariant
pub mod Locking
pub mod Poisoning
pub mod Members
pub mod Attaching
pub mod Waiting
pub mod Finding
pub mod Passing
pub mod Leaving
use useless.Base.{ℕ, ◌≡◌, Bool, true, false, Option, none, some, put}
use useless.Lamlock.RawLock.{Status, unlocked, locked, poisoned}

-- The word of a node, as far as its waiter reads a message in it.
pub data Message : Type 0 where
  nothing done head cancel : Message

-- What a thread does. `serves c` has the lock and is at the node `c`, the first of the queue; `gives
-- c n` knows its successor besides. `frees`, `leaves` and `drained` still have to tell `c` its end.
-- `bombs` has the lock, `rebombs` found it poisoned, and both are about to poison it.
pub data Role : Type 0 where
  out fast ready waits acquires releases : Role
  links serves frees leaves bombs rebombs drains drained : ℕ → Role
  gives drains_next : ℕ → ℕ → Role

pub record Protocol : Type 0 where
  pub status : Status
  pub tail : Option ℕ
  pub next : ℕ → Option ℕ
  pub message : ℕ → Message
  pub role : ℕ → Role
