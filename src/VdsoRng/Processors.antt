-- ===== src/VdsoRng/Processors.antt =====
-- The guess of crates/vdso-rng/src/utils.rs at the number of processors, and the configuration made
-- from it.
use native.Mathlib.Nat.{mul-le-mul, le_of_mul-le-mul_right}
use useless.Base.{
  ◌/◌, subst, ℕ, zero, suc, ◌+◌, ◌*◌, ◌^◌, ◌≤◌, ◌<◌, ◌≡◌, List, [], ◌∷◌, some, length, arith,
}
use useless.VdsoRng.Os.{ones, total_ones, guess_cpu_count}
use useless.VdsoRng.Config
use useless.VdsoRng.Config.{Params, Config, IsUsable, new-IsUsable}

ones_le : (bits x : ℕ) → ones bits x ≤ bits
unfolding ones
ones_le zero x = omega arith
ones_le (suc bits) x = omega (arith, ones_le bits (x / 2))

total_ones_le : (set : List ℕ) → total_ones set ≤ 8 * length set
unfolding total_ones
total_ones_le [] = omega arith
total_ones_le (x ∷ set) = omega (arith, ones_le 8 x, total_ones_le set)

-- The guess is 1 at least, and at most the bits of the set, or 1.
guess_cpu_count_bounds :
    (res : ℕ) (set : List ℕ)
    → (1 ≤ guess_cpu_count res set) × (guess_cpu_count res set ≤ 8 * length set + 1)
unfolding guess_cpu_count
guess_cpu_count_bounds res set = ground (arith, total_ones_le set)

-- Whatever `sched_getaffinity` answers and writes into its 128 bytes: with a state size from 1 to the
-- page size, and pages of at most 2 ^ 48 bytes, `Config::new` makes a usable configuration from the
-- guess, with one page at least and 1026 pages at most in a block.
pub new-guess_cpu_count :
    (params : Params) (res page_size : ℕ) (set : List ℕ)
    → length set ≡ 128
    → 0 < params.size_of_opaque_states
    → params.size_of_opaque_states ≤ page_size
    → page_size ≤ 2 ^ 48
    → (c : Config) × (Config.new params (guess_cpu_count res set) page_size ≡ some c)
      × IsUsable c
      × (c.pages_per_block ≤ 1026)
new-guess_cpu_count params res page_size set bytes some_byte fits small =
    let g : ℕ = guess_cpu_count res set in
    let bound : g ≤ 1025 = omega (arith, guess_cpu_count_bounds res set) in
    let total : g * params.size_of_opaque_states ≤ 1025 * page_size = mul-le-mul bound fits in
    let (c, run, page, usable, filled, near) =
      new-IsUsable params g page_size some_byte fits (omega arith) in
    (
      c,
      run,
      usable,
      le_of_mul-le-mul_right {k = page_size}
          (omega (
            arith,
            total,
            subst (λ (p : ℕ). c.pages_per_block * p ≤ g * params.size_of_opaque_states + page_size)
                page near,
          ))
          (omega arith),
    )
