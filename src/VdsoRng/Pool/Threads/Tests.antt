-- ===== src/VdsoRng/Pool/Threads/Tests.antt =====
-- Runs of three threads on a pool: a page of 4096 bytes, states of 2048, and the kernel and the queue of
-- VdsoRng.Tests.
use mathlib.Core.List.{Pairwise-singleton}
use useless.Base.{ℕ, ◌*◌, ◌+◌, ◌≡◌, ◌<◌, All, Bool, true, false, refl, List, [], ◌∷◌, length, arith}
use useless.VdsoRng.Pool.Refinement.{pool}
use useless.VdsoRng.Pool.Teardown.{Dropped}
use useless.VdsoRng.Pool.Apart.{Apart}
use useless.VdsoRng.Pool.Threads.{
  SharedPool, new_shared, get_act, calls_get, gives_back, holding, outside, Reached,
}
use useless.VdsoRng.Pool.Threads.Apart.{two_held, held_free}
use useless.VdsoRng.Pool.Threads.Counted.{drop_all_outside}
use useless.VdsoRng.Pool.Threads.Bound.{mapped_states_lt}
use useless.VdsoRng.Tests.{config, kernel, list_queue, list_queue_laws, config-IsUsable}

abbrev Pool3 : Type 0
Pool3 = SharedPool kernel list_queue

-- The thread 0 or 1.
abbrev thread : Bool → ℕ
thread false = 0
thread true = 1

thread-below : (b : Bool) → thread b < 3
thread-below false = omega arith
thread-below true = omega arith

turns : List Bool → Pool3 → Pool3
unfolding get_act
turns [] s = s
turns (b ∷ l) s = turns l (get_act kernel list_queue config s (thread b))

turns-Reached :
    (l : List Bool) (s : Pool3)
    → Reached kernel list_queue config 3 s
    → Reached kernel list_queue config 3 (turns l s)
unfolding turns
turns-Reached [] s h = h
turns-Reached (b ∷ l) s h = turns-Reached l _ (Reached.acts (thread b) h (thread-below b))

-- The threads 0 and 1 call `get`.
abbrev two_calls : Pool3
two_calls =
    calls_get kernel list_queue
      (calls_get kernel list_queue (new_shared kernel list_queue (8192, [])) 0) 1

two_calls-Reached : Reached kernel list_queue config 3 two_calls
two_calls-Reached =
    Reached.enters 1 (Reached.enters 0 (Reached.starts (8192, [])) (omega arith) refl) (omega arith)
      refl

-- 0 maps a block and pushes its first state, which 1 pops in its first pop.
abbrev first_taken : Pool3
first_taken = turns (false ∷ false ∷ false ∷ false ∷ false ∷ true ∷ []) two_calls

-- 0 pushes the second state, and then pops it.
abbrev in_between : Pool3
in_between = turns (false ∷ []) first_taken

abbrev both_hold : Pool3
both_hold = turns (false ∷ false ∷ false ∷ false ∷ []) in_between

test_first : first_taken.pc 1 ≡ holding 8192
unfolding turns get_act
test_first = refl

test_both : both_hold.pc 0 ≡ holding 10240
unfolding turns get_act
test_both = refl

first_taken-Reached : Reached kernel list_queue config 3 first_taken
first_taken-Reached = turns-Reached _ two_calls two_calls-Reached

in_between-Reached : Reached kernel list_queue config 3 in_between
in_between-Reached = turns-Reached _ first_taken first_taken-Reached

both_hold-Reached : Reached kernel list_queue config 3 both_hold
both_hold-Reached = turns-Reached _ in_between in_between-Reached

-- Both give their states back.
abbrev all_back : Pool3
all_back = gives_back kernel list_queue (gives_back kernel list_queue both_hold 1 8192) 0 10240

all_back-Reached : Reached kernel list_queue config 3 all_back
unfolding turns get_act
all_back-Reached =
    Reached.drops 0 10240 (Reached.drops 1 8192 both_hold-Reached (omega arith) refl) (omega arith)
      refl

nobody_inside : (i : ℕ) → all_back.pc i ≡ outside
unfolding turns get_act
nobody_inside i = ground arith

two_held_example : Apart 2048 10240 8192
unfolding turns get_act
two_held_example =
    two_held kernel list_queue list_queue_laws config config-IsUsable 3 both_hold both_hold-Reached
      (Pairwise-singleton _ 8192) 0 1 10240 8192 (omega arith) (omega arith) (omega arith) refl refl

held_free_example : All (Apart 2048 8192) (10240 ∷ [])
unfolding turns get_act
held_free_example =
    held_free kernel list_queue list_queue_laws config config-IsUsable 3 in_between
      in_between-Reached (Pairwise-singleton _ 8192) 1 8192 (omega arith) refl

drop_all_outside_example :
    Dropped kernel list_queue 3
      (12288, [])
      (pool kernel list_queue config (8192 ∷ []) (8192 ∷ 10240 ∷ []))
unfolding turns get_act
drop_all_outside_example =
    drop_all_outside kernel list_queue list_queue_laws config 3 all_back all_back-Reached
      nobody_inside 3 (omega arith)

mapped_states_lt_example : 1 * 2 * length {A = ℕ} (8192 ∷ []) < 3 + 1 * 2
unfolding turns get_act
mapped_states_lt_example =
    mapped_states_lt kernel list_queue list_queue_laws config 3 config-IsUsable both_hold
      both_hold-Reached
