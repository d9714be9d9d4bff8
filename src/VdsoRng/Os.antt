-- ===== src/VdsoRng/Os.antt =====
-- crates/vdso-rng/src/utils.rs and the errors of lib.rs. The kernel and the lock-free queue of the
-- crossbeam_queue crate are parameters.
use useless.Base.{
  ℕ, zero, suc, ◌+◌, ◌-◌, ◌/◌, ◌%◌, ◌^◌, ◌≡◌, ◌||◌, List, [], ◌∷◌, ◌++◌, Option, none, some,
  if◌then◌else◌, leb, ◌==◌,
}

-- `Error` of lib.rs.
pub data Error : Type 0 where
  pool_poisoned : Error
  not_supported : Error
  allocation_failure : Error
  errno : ℕ → Error

-- A run of code that can panic. `unfinished` is a loop that has not ended within its fuel.
pub data Run (A : Type 0) : Type 0 where
  done : A → Run A
  panics unfinished : Run A

-- The kernel: the raw result of `mmap` for a size, a protection and flags, and `munmap`.
pub record Kernel : Type 1 where
  pub World : Type 0
  pub mmap_call : World → ℕ → ℕ → ℕ → World × ℕ
  pub munmap_call : World → ℕ → ℕ → World

-- `SegQueue<Ptr>`, an unbounded queue. Its documented behaviour is that of a first-in first-out list.
pub record SegQueue : Type 1 where
  pub Queue : Type 0
  pub new : Queue
  pub push : Queue → ℕ → Queue
  pub pop : Queue → Option (ℕ × Queue)
  pub to_list : Queue → List ℕ

pub record SegQueueLaws (q : SegQueue) : Type 0 where
  pub to_list-new : q.to_list q.new ≡ []
  pub to_list-push : (xs : q.Queue) (x : ℕ) → q.to_list (q.push xs x) ≡ q.to_list xs ++ (x ∷ [])
  pub pop_empty : (xs : q.Queue) → q.to_list xs ≡ [] → q.pop xs ≡ none
  pub pop_front :
      (xs : q.Queue) (x : ℕ) (rest : List ℕ)
      → q.to_list xs ≡ x ∷ rest
      → (ys : q.Queue) × (q.pop xs ≡ some (x, ys)) × (q.to_list ys ≡ rest)

-- A raw result that is -1 as a signed word, or null, is a failure.
unfoldable pub mapped : ℕ → Option ℕ
mapped addr = if addr == 2 ^ 64 - 1 then none else if addr == 0 then none else some addr

unfoldable pub mmap : (k : Kernel) → k.World → ℕ → ℕ → ℕ → k.World × Option ℕ
unfolding mapped
mmap k w size prot flags = let r : k.World × ℕ = k.mmap_call w size prot flags in (r.0, mapped r.1)

unfoldable pub munmap : (k : Kernel) → k.World → ℕ → ℕ → k.World
munmap k w addr size = k.munmap_call w addr size

-- `u8::count_ones`.
unfoldable pub ones : ℕ → ℕ → ℕ
ones zero x = 0
ones (suc bits) x = x % 2 + ones bits (x / 2)

unfoldable pub total_ones : List ℕ → ℕ
unfolding ones
total_ones [] = 0
total_ones (x ∷ xs) = ones 8 x + total_ones xs

-- `guess_cpu_count`, from the raw result of `sched_getaffinity` and the set that it wrote. A result
-- from 2 ^ 63 on is negative as a signed word.
unfoldable pub guess_cpu_count : ℕ → List ℕ → ℕ
unfolding total_ones
guess_cpu_count res cpu_set =
    if res == 0 || leb (2 ^ 63) res
    then 1
    else if total_ones cpu_set == 0
    then 1
    else total_ones cpu_set
