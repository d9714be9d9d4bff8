-- ===== src/Lib.antt =====
-- The crates of this repository, modelled and verified: punyenc (a Punycode encoder), lamlock (a
-- flat-combining lock, with and without poisoning) and vdso-rng (random bytes from the kernel's vDSO,
-- with a pool of state blocks behind a lock of lamlock).
--
-- crates/punyenc/src/lib.rs
--   Punyenc.Bootstring: the constants, `digit_to_char`, `adapt`, `push_delta`. The loops of `adapt` and
--     `push_delta` recur on the accessibility of the number that they divide, so they have no fuel.
--   Punyenc.Encoder: `encode`. A text is its list of code points, an output a list of bytes, and each
--     loop is a function over a record of the variables that it changes. The loop over the values has
--     as many rounds as there are pairs; each takes one at least. `usize` and `u64` have 64 bits, and
--     the operations on the accumulators wrap.
--   Punyenc.Fenwick: `FenwickTree` of the ftree crate, a parameter with its prefix sums as laws.
--   Punyenc.Rfc: the decoder and the bias adaptation as RFC 3492 writes them, for the specification.
--   Punyenc.Integers, Bias, Below, Sorted, Reads, Occurrence, Group, Placing, Round, Values, RoundTrip:
--     proofs.
--
-- crates/lamlock/src
--   Lamlock.RawLock: rawlock.rs, one function for each atomic access. A node is named by a number.
--   Lamlock.Solo: nonpoison.rs, panic.rs, `UnlockGuard` and `Bomb` of bomb.rs, `Node::attach` of
--     node.rs, for a call that no other thread interleaves with. A closure is a function from the data
--     to an `Outcome`: a value or a panic, with the data that it leaves. The first argument `std` says
--     whether the feature is on. `none` is a call that waits for another thread.
--   Lamlock.Poison: poison.rs over Lamlock.Solo; Lamlock.Poison.History, Lamlock.Panics: proofs.
--     A closure's step writes the data and the flag at its end; between its two stores, no other task
--     reads the flag, since tasks run one at a time.
--     Lamlock.Poison.Calls: the methods of poison.rs as calls of Lamlock.Threads; Abstract: their
--     specification; Tasks, Refinement: proofs.
--   Lamlock.Threads: any number of threads with calls that interleave. `System` is the shared memory
--     with the place of each thread in the code, and a step makes one atomic access. Futex is futex.rs
--     and `Node::wait`; Attach is `Node::attach` and `RawLock::acquire`, with the waiter's 100 rounds of
--     spinning; Bomb is bomb.rs; Call is nonpoison.rs and the step of a thread; Run is the runs. The
--     accesses are sequentially consistent; the kernel's futex calls are their documented behaviour. A
--     thread's node has the number of the thread, so its next call uses the address again.
--   Lamlock.Atomic: the specification, a lock whose calls run one at a time. Lamlock.Protocol and
--     Lamlock.Ledger: the queue, its messages and the nodes' closures and results, without sleep and
--     spinning, with invariants. Lamlock.Threads.View, Words, Good, Linear, Open, Safety, Blocked,
--     Progress, Poisoned, Memory: proofs.
--   Not modelled: weaker memory orderings, `prefetch_next`, and the variants of futex.rs for miri.
--
-- crates/vdso-rng/src
--   VdsoRng.Os: utils.rs and the errors of lib.rs. The system calls and crossbeam's `SegQueue` are
--     parameters.
--   VdsoRng.Config: config.rs. VdsoRng.Processors: proofs.
--   VdsoRng.Pool: pool.rs. The lock around the mappings is that of Lamlock.Poison, without `std`. The
--     loop of `get` and that of `drop` have fuel, and `none` is a run that has not ended in it.
--   VdsoRng.Pool.Blocks, Refinement, Ownership, Apart, Teardown: proofs.
--   VdsoRng.Pool.Threads: `get` and `recycle` of any number of threads that interleave, with one access
--     of the free list, of the lock or of the mappings in a step. The lock is its holder, and it is never
--     poisoned: see Lamlock.Threads for the lock that the pool has. Accounted, Kept, Locked, Apart,
--     Counted and Bound below it: proofs.
--   VdsoRng.LocalState: `LocalState` of lib.rs, in a debug build. The function of the vDSO is a
--     parameter. The loop of `fill` has fuel: as many rounds as the buffer has bytes and the function
--     asks for retries are enough. VdsoRng.LocalState.Promises, Rounds, Fill: proofs.
--   VdsoRng.Mock: vdso_miri.rs, the function that stands for `vgetrandom` in tests.
--   VdsoRng.Vdso: vdso.rs and the iterator of auxv.rs. `Image` is the memory, read as the types of
--     linux_raw_sys, a parameter; `Symbols` is `SymbolTable` with its searches, `Headers` the loading of
--     the tables, `Search` is `get_function_and_page_size`. Loops that follow pointers have fuel.
--     The `prctl` call is a parameter. VdsoRng.Vdso.Versions, Lookup, Returns,
--     Provides, Vector: proofs.
--   VdsoRng.Create: `Pool::new` with the search and `Config::new`.
--   Not modelled: the allocation that replaces `mmap` under miri.
pub mod Base
pub mod Punyenc
pub mod Lamlock
pub mod VdsoRng
