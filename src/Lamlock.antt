-- ===== src/Lamlock.antt =====
-- crates/lamlock: the flat-combining locks. `RawLock` is the shared word and tail, `Solo` a call that
-- no other thread interleaves with, `Poison` the poisoning wrapper.
pub mod RawLock
pub mod Solo
pub mod Poison
pub mod Panics
pub mod Protocol
pub mod Atomic
pub mod Ledger
pub mod Threads
mod Tests
