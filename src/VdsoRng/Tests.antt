-- ===== src/VdsoRng/Tests.antt =====
-- Runs of crates/vdso-rng on concrete inputs: a page of 4096 bytes, states of 2048, a kernel that maps
-- each block behind the last, and a queue that is a list.
use mathlib.Core.HLevel.{¬_prop}
use mathlib.Core.List.{Pairwise, Pairwise-pair}
use useless.Base.{
  add64, mul64, ℕ, ◌*◌, ◌+◌, ◌≡◌, ◌<◌, ◌≤◌, refl, none, some, ok, List, [], ◌∷◌, ◌++◌, replicate,
  length-replicate, arith,
}
use useless.VdsoRng.Config
use useless.VdsoRng.Config.{Params, Config, IsUsable, new-IsUsable}
use useless.VdsoRng.Processors.{new-guess_cpu_count}
use useless.VdsoRng.Os.{guess_cpu_count, Kernel, SegQueue, SegQueueLaws}
use useless.VdsoRng.LocalState.Fill.{Fills, fill-Filled}
use useless.VdsoRng.Mock.{
  mocked_vgetrandom, Mocked, mocked_vgetrandom-Mocked, Memory, write_bytes, mock, mock_params,
  mock_page_size, mock_cpu_count, mock-VdsoFuncLaws,
}
use useless.VdsoRng.Pool
use useless.VdsoRng.Pool.{drop, get, recycle, unmap_all}
use useless.VdsoRng.Pool.Refinement.{pool, Takes, get-take_state}
use useless.VdsoRng.Pool.Ownership.{PoolState, Step, Reachable, IsOwned, Reachable-IsOwned}
use useless.VdsoRng.Pool.Apart.{Apart, Reachable-Apart}
use useless.VdsoRng.Pool.Teardown.{Dropped, drop-Dropped}

abbrev pub params : Params
params = record { size_of_opaque_states = 2048; mmap_prot = 3; mmap_flags = 34; reserved = [] }

abbrev pub config : Config
config = record { page_size = 4096; pages_per_block = 1; states_per_page = 2; params = params }

-- The world is the next address, and the mappings that were unmapped.
abbrev pub kernel : Kernel
kernel = record {
  World = ℕ × List ℕ;
  mmap_call = λ w size prot flags. ((w.0 + size, w.1), w.0);
  munmap_call = λ w addr size. (w.0, addr ∷ w.1);
}

abbrev pub list_queue : SegQueue
list_queue = record {
  Queue = List ℕ;
  new = [];
  push = λ xs x. xs ++ (x ∷ []);
  pop = λ xs. elim xs [ [] ↦ none | x ∷ rest ↦ some (x, rest) ];
  to_list = λ xs. xs;
}

pub list_queue_laws : SegQueueLaws list_queue
list_queue_laws = record {
  to_list-new = refl;
  to_list-push = λ xs x. refl;
  pop_empty = λ xs e. rw e refl;
  pop_front = λ xs x rest e. (rest, rw e refl, refl);
}

pub config-IsUsable : IsUsable config
config-IsUsable = record {
  some_page = omega arith;
  some_state = omega arith;
  some_byte = omega arith;
  states_fit = omega arith;
}

-- One state rented, out of a block at 8192.
abbrev one_rented : PoolState kernel list_queue
one_rented = record {
  world = (12288, []);
  pool = pool kernel list_queue config (8192 ∷ []) (10240 ∷ []);
  lent = 8192 ∷ [];
}

one_rented-Reachable : Reachable kernel list_queue 2 config one_rented
unfolding Pool.new get
one_rented-Reachable = Reachable.steps _ _ (Reachable.starts (8192, [])) (
    Step.gets _ (12288, []) (pool kernel list_queue config (8192 ∷ []) (10240 ∷ [])) (ok 8192) refl)

-- Three states rented, out of two blocks.
abbrev three_rented : PoolState kernel list_queue
three_rented = record {
  world = (16384, []);
  pool = pool kernel list_queue config (8192 ∷ 12288 ∷ []) (14336 ∷ []);
  lent = 12288 ∷ 10240 ∷ 8192 ∷ [];
}

three_rented-Reachable : Reachable kernel list_queue 2 config three_rented
unfolding get
three_rented-Reachable =
    Reachable.steps _ _
      (Reachable.steps _ _ one_rented-Reachable
        (Step.gets _ (12288, []) (pool kernel list_queue config (8192 ∷ []) []) (ok 10240) refl))
      (Step.gets _ (16384, []) (pool kernel list_queue config (8192 ∷ 12288 ∷ []) (14336 ∷ []))
        (ok 12288) refl)

abbrev none_rented : PoolState kernel list_queue
none_rented = record {
  world = (12288, []);
  pool = pool kernel list_queue config (8192 ∷ []) (10240 ∷ 8192 ∷ []);
  lent = [];
}

none_rented-Reachable : Reachable kernel list_queue 2 config none_rented
unfolding recycle
none_rented-Reachable =
    Reachable.steps _ _ one_rented-Reachable (Step.recycles one_rented [] [] 8192 refl)

new-IsUsable_example :
    (c : Config) × (Config.new params 8 4096 ≡ some c)
    × (c.page_size ≡ 4096)
    × IsUsable c
    × (8 * 2048 < c.pages_per_block * c.page_size)
    × (c.pages_per_block * c.page_size ≤ 8 * 2048 + 4096)
new-IsUsable_example = new-IsUsable params 8 4096 (omega arith) (omega arith) (omega arith)

get-take_state_example : Takes kernel list_queue 2 config (8192, []) [] []
get-take_state_example =
    get-take_state kernel list_queue list_queue_laws 0 config (8192, []) [] [] config-IsUsable

Reachable-IsOwned_example : IsOwned kernel list_queue config one_rented
Reachable-IsOwned_example =
    Reachable-IsOwned kernel list_queue list_queue_laws 0 config config-IsUsable one_rented
      one_rented-Reachable

Reachable-Apart_example : Pairwise (Apart 2048) (14336 ∷ 12288 ∷ 10240 ∷ 8192 ∷ [])
Reachable-Apart_example =
    Reachable-Apart kernel list_queue list_queue_laws 0 config config-IsUsable three_rented
      three_rented-Reachable ((Pairwise-pair (λ a b. ¬_prop)).1 (λ both. omega arith))

drop-Dropped_example :
    Dropped kernel list_queue 3
      (12288, [])
      (pool kernel list_queue config (8192 ∷ []) (10240 ∷ 8192 ∷ []))
drop-Dropped_example =
    drop-Dropped kernel list_queue list_queue_laws 0 3 config config-IsUsable none_rented
      none_rented-Reachable refl (omega arith)

-- The kernel records the two calls.
two_unmapped :
    unmap_all kernel list_queue config (16384, []) (8192 ∷ 12288 ∷ []) ≡ (16384, 12288 ∷ 8192 ∷ [])
unfolding unmap_all
two_unmapped = refl

-- Five bytes from the mock, from the counter 36: the first call writes two and ends behind 37.
abbrev memory : Memory
memory = record { counter = λ a. 36; params = λ a. none }

fill-Filled_example : Fills mock (λ x. x < 256) 5 config memory 8192 (0 ∷ 0 ∷ 0 ∷ 0 ∷ 0 ∷ []) 0
fill-Filled_example =
    fill-Filled mock (λ x. x < 256) (λ m. 0) mock-VdsoFuncLaws 5 config memory 8192
      (0 ∷ 0 ∷ 0 ∷ 0 ∷ 0 ∷ []) 0 (omega arith)

early_end : write_bytes 36 (0 ∷ 0 ∷ 0 ∷ 0 ∷ 0 ∷ []) ≡ (38, 36 ∷ 37 ∷ 0 ∷ 0 ∷ 0 ∷ [], 2)
unfolding write_bytes
early_end = refl

new-guess_cpu_count_example :
    (c : Config) × (Config.new params (guess_cpu_count 128 (replicate 128 15)) 4096 ≡ some c)
    × IsUsable c
    × (c.pages_per_block ≤ 1026)
new-guess_cpu_count_example =
    new-guess_cpu_count params 128 4096 (replicate 128 15) (length-replicate {A = ℕ} 128 15)
      (omega arith) (omega arith) (omega arith)

-- Under miri, a block has one page with eight states of a word.
mock_config :
    Config.new mock_params mock_cpu_count mock_page_size
    ≡ some
        (record { page_size = 64; pages_per_block = 1; states_per_page = 8; params = mock_params })
unfolding Config.new add64 mul64
mock_config = refl

-- Five bytes from the counter 36: two are written.
mocked_vgetrandom-Mocked_example :
    Mocked memory
      (0 ∷ 0 ∷ 0 ∷ 0 ∷ 0 ∷ [])
      8192
      8
      (mocked_vgetrandom memory (0 ∷ 0 ∷ 0 ∷ 0 ∷ 0 ∷ []) 8192 8)
mocked_vgetrandom-Mocked_example = mocked_vgetrandom-Mocked memory (0 ∷ 0 ∷ 0 ∷ 0 ∷ 0 ∷ []) 8192 8
