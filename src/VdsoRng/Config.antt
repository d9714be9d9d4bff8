-- ===== src/VdsoRng/Config.antt =====
-- crates/vdso-rng/src/config.rs. The parameters come from the vDSO function, and the number of
-- processors from `guess_cpu_count`.
use native.Mathlib.Nat.{div-add-mod, mod-lt, mul-div_cancel, le-div_iff_mul-le, div-mul-le_self}
use useless.Base.{
  false, ap, ◌∙◌, ℕ, ◌+◌, ◌-◌, ◌*◌, ◌/◌, ◌%◌, ◌^◌, ◌≤◌, ◌<◌, ◌≡◌, ◌||◌, refl, List, Option, none,
  some, if◌then◌else◌, ◌==◌, add64, mul64, add64_exact, mul64_exact, arith,
}

-- `VGetrandomOpaqueParams`.
pub record Params : Type 0 where
  pub size_of_opaque_states : ℕ
  pub mmap_prot : ℕ
  pub mmap_flags : ℕ
  pub reserved : List ℕ

pub record Config : Type 0 where
  pub page_size : ℕ
  pub pages_per_block : ℕ
  pub states_per_page : ℕ
  pub params : Params

-- `Config::new`; `none` is the panic of a division by zero.
unfoldable pub new : Params → ℕ → ℕ → Option Config
new params cpu_count page_size =
    let guessed_bytes : ℕ = mul64 cpu_count params.size_of_opaque_states in
    let aligned_bytes : ℕ = add64 guessed_bytes (page_size - guessed_bytes % page_size) in
    if page_size == 0 || params.size_of_opaque_states == 0
    then none
    else some (record {
      page_size = page_size;
      pages_per_block = aligned_bytes / page_size;
      states_per_page = page_size / params.size_of_opaque_states;
      params = params;
    })

-- What the pool relies on: a block has a page, a page has a state, and the states of a page fit in it.
pub record IsUsable (c : Config) : Type 0 where
  pub some_page : 0 < c.pages_per_block
  pub some_state : 0 < c.states_per_page
  pub some_byte : 0 < c.params.size_of_opaque_states
  pub states_fit : c.states_per_page * c.params.size_of_opaque_states ≤ c.page_size

nonzero : (n : ℕ) → 0 < n → (n == 0) ≡ false
nonzero n h = ground arith

-- Rounding up: the next multiple of `p` above `g`.
rounded : (g p : ℕ) → 0 < p → g + (p - g % p) ≡ (g / p + 1) * p
rounded g p h = omega (arith, div-add-mod g p, mod-lt g h)

aligned_pages : (g p : ℕ) → 0 < p → (g + (p - g % p)) / p ≡ g / p + 1
aligned_pages g p h = ap (λ (x : ℕ). x / p) (rounded g p h) ∙ mul-div_cancel (g / p + 1) h

-- For a state size from 1 to the page size, and a guess that does not overflow, `Config::new` does not
-- panic; its configuration is usable and has the page size, and a block is the guess rounded up to
-- more pages than it fills.
pub new-IsUsable :
    (params : Params) (cpu_count page_size : ℕ)
    → 0 < params.size_of_opaque_states
    → params.size_of_opaque_states ≤ page_size
    → cpu_count * params.size_of_opaque_states + page_size < 2 ^ 64
    → (c : Config) × (new params cpu_count page_size ≡ some c)
      × (c.page_size ≡ page_size)
      × IsUsable c
      × (cpu_count * params.size_of_opaque_states < c.pages_per_block * c.page_size)
      × (c.pages_per_block * c.page_size ≤ cpu_count * params.size_of_opaque_states + page_size)
unfolding new
new-IsUsable params cpu_count page_size pos fit small =
    let size : ℕ = params.size_of_opaque_states in
    let g : ℕ = cpu_count * size in
    let page : 0 < page_size = omega arith in
    let pages : add64 (mul64 cpu_count size) (page_size - mul64 cpu_count size % page_size)
          / page_size
        ≡ g / page_size + 1 =
      rw (mul64_exact cpu_count size (omega arith)) (
        rw (add64_exact g (page_size - g % page_size) (omega arith))
          (aligned_pages g page_size page)) in
    (
      record {
        page_size = page_size;
        pages_per_block = g / page_size + 1;
        states_per_page = page_size / size;
        params = params;
      },
      rw (nonzero page_size page, nonzero size pos, pages) refl,
      refl,
      record {
        some_page = omega arith;
        some_state = (le-div_iff_mul-le pos).1 (omega arith);
        some_byte = pos;
        states_fit = div-mul-le_self page_size size;
      },
      omega (arith, rounded g page_size page, mod-lt g page),
      omega (arith, rounded g page_size page, mod-lt g page),
    )
