-- ===== src/VdsoRng/LocalState/Rounds.antt =====
-- One round of the loop of `LocalState::fill` in crates/vdso-rng/src/lib.rs.
use useless.Base.{
  ℕ, suc, ◌+◌, ◌^◌, ◌≤◌, ◌<◌, ◌≡◌, ◌≢◌, ◌⊎◌, inl, inr, refl, false, true, ◌||◌, List, ◌∷◌, ◌++◌,
  Result, ok, err, length, take, drop, ltb, ◌==◌, ℤ, pos, negsuc, arith,
}
use useless.VdsoRng.Os.{Error, errno, done}
use useless.VdsoRng.Config.{Config}
use useless.VdsoRng.LocalState.{LocalState, VdsoFunc, try_fill, fill, eagain, eintr}

not_least : (n : ℕ) → n < 4095 → (n + 1 == 2 ^ 31) ≡ false
not_least n h = ground arith

retried : (n : ℕ) → (n ≡ eagain) ⊎ (n ≡ eintr) → (n == eagain || n == eintr) ≡ true
retried n h = ground arith

not_retried : (n : ℕ) → n ≢ eagain → n ≢ eintr → (n == eagain || n == eintr) ≡ false
not_retried n a i = ground arith

within : (n m : ℕ) → n ≤ m → ltb m n ≡ false
within n m h = ground arith

pub ℤ-cases : (z : ℤ) → ((n : ℕ) × (z ≡ pos n)) ⊎ ((n : ℕ) × (z ≡ negsuc n))
ℤ-cases (pos n) = inl (n, refl)
ℤ-cases (negsuc n) = inr (n, refl)

pub retry-cases : (n : ℕ) → ((n ≡ eagain) ⊎ (n ≡ eintr)) ⊎ ((n ≢ eagain) × (n ≢ eintr))
retry-cases n = ground arith

abbrev pub held : ℕ → LocalState
held state = record { state = state; inflight = false }

module _ (f : VdsoFunc) where
  module _ (c : Config) (w : f.World) (state x : ℕ) (xs : List ℕ) (flag fuel : ℕ) where
    abbrev pub called : f.World × List ℕ × ℤ
    called = f.call w (x ∷ xs) flag state c.params.size_of_opaque_states

    try_fill_error :
        (n : ℕ)
        → called.2 ≡ negsuc n
        → n < 4095
        → try_fill f c w (held state) (x ∷ xs) flag
          ≡ done (called.0, held state, called.1, err (errno (n + 1)))
    unfolding try_fill
    try_fill_error n e small = rw (e, try_fill, not_least n small) refl

    try_fill_written :
        (n : ℕ)
        → called.2 ≡ pos n
        → try_fill f c w (held state) (x ∷ xs) flag ≡ done (called.0, held state, called.1, ok n)
    unfolding try_fill
    try_fill_written n e = rw (e, try_fill) refl

    pub fill_error :
        (n : ℕ)
        → called.2 ≡ negsuc n
        → n < 4095
        → n + 1 ≢ eagain
        → n + 1 ≢ eintr
        → fill f (suc fuel) c w (held state) (x ∷ xs) flag
          ≡ done (called.0, held state, called.1, err (errno (n + 1)))
    unfolding fill
    fill_error n e small no_again no_intr =
        rw (try_fill_error n e small, fill, not_retried (n + 1) no_again no_intr) refl

    pub fill_retry :
        (n : ℕ)
        → called.2 ≡ negsuc n
        → n < 4095
        → (n + 1 ≡ eagain) ⊎ (n + 1 ≡ eintr)
        → fill f (suc fuel) c w (held state) (x ∷ xs) flag
          ≡ fill f fuel c called.0 (held state) called.1 flag
    unfolding fill
    fill_retry n e small again = rw (try_fill_error n e small, fill, retried (n + 1) again) refl

    pub fill_written :
        (n : ℕ) (w' : f.World) (buf : List ℕ) (r : Result Error (Unit {0}))
        → called.2 ≡ pos n
        → n ≤ length called.1
        → fill f fuel c called.0 (held state) (drop n called.1) flag ≡ done (w', held state, buf, r)
        → fill f (suc fuel) c w (held state) (x ∷ xs) flag
          ≡ done (w', held state, take n called.1 ++ buf, r)
    unfolding fill
    fill_written n w' buf r e le rest =
        rw (try_fill_written n e, fill, within n (length called.1) le, rest) refl
