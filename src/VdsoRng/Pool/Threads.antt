-- ===== src/VdsoRng/Pool/Threads.antt =====
-- crates/vdso-rng/src/pool.rs with calls of several threads that interleave: `get` for a new
-- `LocalState`, and `recycle` for its drop. The free list is a lock-free queue, so threads push and pop
-- between the accesses of a thread that has the lock over the mappings. The lock is its holder: that a lock
-- of crates/lamlock runs one closure at a time is the matter of Lamlock.Threads and Lamlock.Poison. Its
-- combiner may run a closure for another thread; here the closure's steps are those of the thread
-- that called `get`. Since no closure of the pool panics, the lock is never poisoned.
pub mod Accounted
pub mod Kept
pub mod Locked
pub mod Apart
pub mod Counted
pub mod Bound
mod Tests
use useless.Base.{
  ℕ, ◌+◌, ◌*◌, ◌<◌, ◌≡◌, List, [], ◌∷◌, ◌++◌, Option, none, some, Result, ok, err, if◌then◌else◌,
  ltb, put,
}
use useless.VdsoRng.Os.{Error, allocation_failure, Kernel, SegQueue, mmap}
use useless.VdsoRng.Config.{Config}

-- Where a thread is, which has one `LocalState` at most: a thread of the program that has several is as
-- many of these, with their calls one after the other. `outside` has none, and `holding ptr` has the
-- one with the state `ptr`. `popping`, `locking`, `looping` and `mapping` are before the first pop of
-- `get`, the lock, the pop of its loop and the mapping of `grow`. `pushing base p s` is about to push
-- the state `s` of the page `p` of the block at `base`, and `leaving` has the closure's result and
-- still the lock.
pub data Place : Type 0 where
  outside popping locking looping mapping : Place
  pushing : (base p s : ℕ) → Place
  leaving : Result Error ℕ → Place
  holding : (ptr : ℕ) → Place

module _ (k : Kernel) (q : SegQueue) where
  pub record SharedPool : Type 0 where
    pub world : k.World
    pub holder : Option ℕ
    pub mmaps : List ℕ
    pub freelist : q.Queue
    pub pc : ℕ → Place

  abbrev pub new_shared : k.World → SharedPool
  new_shared w = record {
    world = w;
    holder = none;
    mmaps = [];
    freelist = q.new;
    pc = λ i. outside;
  }

  abbrev pub moves_to : SharedPool → ℕ → Place → SharedPool
  moves_to s i p = record s { pc = put s.pc i p }

  -- A pop, and what follows on a state and on an empty free list.
  unfoldable pub popped : SharedPool → ℕ → (ℕ → Place) → Place → Option (ℕ × q.Queue) → SharedPool
  popped s i found empty none = moves_to s i empty
  popped s i found empty (some (ptr, rest)) = moves_to (record s { freelist = rest }) i (found ptr)

  unfoldable pub take_lock : SharedPool → ℕ → Option ℕ → SharedPool
  take_lock s i none = moves_to (record s { holder = some i }) i looping
  take_lock s i (some j) = s

  -- The mapping of `grow`, and the push to the mappings, which the lock protects.
  unfoldable pub mapped_block : SharedPool → ℕ → k.World × Option ℕ → SharedPool
  mapped_block s i (w, none) =
      moves_to (record s { world = w }) i (leaving (err allocation_failure))
  mapped_block s i (w, some base) =
      moves_to (record s { world = w; mmaps = s.mmaps ++ (base ∷ []) }) i (pushing base 0 0)

  -- The loops of `grow`: a state of the page, or the next page, or the end.
  unfoldable pub push_next : Config → SharedPool → ℕ → ℕ → ℕ → ℕ → SharedPool
  push_next c s i base p t =
      if ltb p c.pages_per_block
      then if ltb t c.states_per_page
        then moves_to
            (record s {
              freelist =
                  q.push s.freelist (base + p * c.page_size + t * c.params.size_of_opaque_states);
            })
            i (pushing base p (t + 1))
        else moves_to s i (pushing base (p + 1) 0)
      else moves_to s i looping

  -- The end of `get`: the caller has the state or the error.
  unfoldable pub got : Result Error ℕ → Place
  got (ok ptr) = holding ptr
  got (err e) = outside

  -- A step of the thread `i` inside `get`.
  unfoldable pub get_step : Config → SharedPool → ℕ → Place → SharedPool
  unfolding popped take_lock mapped_block push_next got mmap
  get_step c s i outside = s
  get_step c s i popping = popped s i holding locking (q.pop s.freelist)
  get_step c s i locking = take_lock s i s.holder
  get_step c s i looping = popped s i (λ ptr. leaving (ok ptr)) mapping (q.pop s.freelist)
  get_step c s i mapping =
      mapped_block s i
        (mmap k s.world (c.page_size * c.pages_per_block) c.params.mmap_prot c.params.mmap_flags)
  get_step c s i (pushing base p t) = push_next c s i base p t
  get_step c s i (leaving r) = moves_to (record s { holder = none }) i (got r)
  get_step c s i (holding ptr) = s

  unfoldable pub get_act : Config → SharedPool → ℕ → SharedPool
  unfolding get_step
  get_act c s i = get_step c s i (s.pc i)

  -- `LocalState::new` calls `get`.
  abbrev pub calls_get : SharedPool → ℕ → SharedPool
  calls_get s i = moves_to s i popping

  -- The drop of a `LocalState` calls `recycle`.
  abbrev pub gives_back : SharedPool → ℕ → ℕ → SharedPool
  gives_back s i ptr = moves_to (record s { freelist = q.push s.freelist ptr }) i outside

  -- The states that `n` threads reach on a new pool, with their steps in any order.
  pub data Reached (c : Config) (n : ℕ) : SharedPool → Type 0 where
    starts : (w : k.World) → Reached c n (new_shared w)
    enters :
        {s : SharedPool} (i : ℕ)
        → Reached c n s
        → i < n
        → s.pc i ≡ outside
        → Reached c n (calls_get s i)
    acts : {s : SharedPool} (i : ℕ) → Reached c n s → i < n → Reached c n (get_act c s i)
    drops :
        {s : SharedPool} (i ptr : ℕ)
        → Reached c n s
        → i < n
        → s.pc i ≡ holding ptr
        → Reached c n (gives_back s i ptr)
