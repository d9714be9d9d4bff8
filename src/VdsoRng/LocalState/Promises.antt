-- ===== src/VdsoRng/LocalState/Promises.antt =====
-- What `LocalState::fill` in crates/vdso-rng/src/lib.rs relies on.
use useless.Base.{ℕ, ◌+◌, ◌≤◌, ◌<◌, ◌≡◌, ◌⊎◌, List, length, take, pos, negsuc, All}
use useless.VdsoRng.LocalState.{VdsoFunc, eagain, eintr}

-- What the manual of `vgetrandom` promises: it leaves the length of the buffer, and it writes the
-- bytes that it counts, one at least into a buffer that is not empty, or returns an errno. `P` holds of
-- a byte that it wrote, and `retries` bounds the interrupted calls that can still come.
pub record VdsoFuncLaws (f : VdsoFunc) (P : ℕ → Type 0) (retries : f.World → ℕ) : Type 0 where
  pub length-call :
      (w : f.World) (buf : List ℕ) (flags state size : ℕ)
      → length (f.call w buf flags state size).1 ≡ length buf
  pub writes :
      (w : f.World) (buf : List ℕ) (flags state size n : ℕ)
      → (f.call w buf flags state size).2 ≡ pos n
      → (n ≤ length buf) × All P (take n (f.call w buf flags state size).1)
  pub moves_on :
      (w : f.World) (buf : List ℕ) (flags state size n : ℕ)
      → (f.call w buf flags state size).2 ≡ pos n
      → 0 < length buf
      → 0 < n
  pub small_errno :
      (w : f.World) (buf : List ℕ) (flags state size n : ℕ)
      → (f.call w buf flags state size).2 ≡ negsuc n
      → n < 4095
  pub retries_le :
      (w : f.World) (buf : List ℕ) (flags state size : ℕ)
      → retries (f.call w buf flags state size).0 ≤ retries w
  pub retries_lt :
      (w : f.World) (buf : List ℕ) (flags state size n : ℕ)
      → (f.call w buf flags state size).2 ≡ negsuc n
      → (n + 1 ≡ eagain) ⊎ (n + 1 ≡ eintr)
      → retries (f.call w buf flags state size).0 < retries w
