-- ===== src/Base/Family.antt =====
-- Families indexed by a number, changed at one index.
use Prim.Native.Nat.{ℕ, zero, suc, ◌+◌, ◌≤◌, ◌<◌}
use mathlib.Core.Path.{◌≡◌, refl}
use mathlib.Core.Logic.{◌≢◌}
use native.Mathlib.Decide.{ℕ_discrete}
use native.Mathlib.Omega.{arith}
use useless.Base.Tests.{◌==◌, if◌then◌else◌}

abbrev pub put {ℓ} : {A : Type ℓ} → (ℕ → A) → ℕ → A → ℕ → A
put f i a j = if i == j then a else f j

-- The sum of a weight over the first `n` members.
unfoldable pub sum_to {ℓ} : {A : Type ℓ} → (A → ℕ) → ℕ → (ℕ → A) → ℕ
sum_to w zero f = 0
sum_to w (suc n) f = w (f n) + sum_to w n f

module _ {ℓ} {A : Type ℓ} (w : A → ℕ) where
  sum_to-put_outside :
      (n : ℕ) (f : ℕ → A) (i : ℕ) (a : A) → n ≤ i → sum_to w n (put f i a) ≡ sum_to w n f
  unfolding sum_to
  sum_to-put_outside zero f i a h = refl
  sum_to-put_outside (suc n) f i a h = ground (arith, sum_to-put_outside n f i a)

  -- A change of one member changes the sum by that member's weight.
  pub sum_to-put :
      (n : ℕ) (f : ℕ → A) (i : ℕ) (a : A)
      → i < n
      → w (f i) + sum_to w n (put f i a) ≡ w a + sum_to w n f
  unfolding sum_to
  sum_to-put zero f i a h = absurd (omega arith)
  sum_to-put (suc n) f i a h = elim (ℕ_discrete i n) [
    | yes e ↦ ground (arith, sum_to-put_outside n f i a, e)
    | no e ↦ ground (arith, sum_to-put n f i a)
  ]

  -- A member's weight is a part of the sum, and so are those of two members.
  pub sum_to_ge : (n : ℕ) (f : ℕ → A) (i : ℕ) → i < n → w (f i) ≤ sum_to w n f
  unfolding sum_to
  sum_to_ge zero f i h = absurd (omega arith)
  sum_to_ge (suc n) f i h = elim (ℕ_discrete i n) [
    | yes e ↦ ground (arith, e)
    | no e ↦ ground (arith, sum_to_ge n f i)
  ]

  pub sum_to_ge_two :
      (n : ℕ) (f : ℕ → A) (i j : ℕ) → i < n → j < n → i ≢ j → w (f i) + w (f j) ≤ sum_to w n f
  unfolding sum_to
  sum_to_ge_two zero f i j h h' d = absurd (omega arith)
  sum_to_ge_two (suc n) f i j h h' d = elim (ℕ_discrete i n) [
    | yes e ↦ ground (arith, e, sum_to_ge n f j)
    | no e ↦ elim (ℕ_discrete j n) [
      | yes e' ↦ ground (arith, e', sum_to_ge n f i)
      | no e' ↦ ground (arith, sum_to_ge_two n f i j)
    ]
  ]

  pub sum_to_zero : (n : ℕ) (f : ℕ → A) → ((i : ℕ) → w (f i) ≡ 0) → sum_to w n f ≡ 0
  unfolding sum_to
  sum_to_zero zero f h = refl
  sum_to_zero (suc n) f h = omega (arith, h n, sum_to_zero n f h)

  sum_to_le : (n : ℕ) (f : ℕ → A) → ((i : ℕ) → w (f i) ≤ 1) → sum_to w n f ≤ n
  unfolding sum_to
  sum_to_le zero f h = omega arith
  sum_to_le (suc n) f h = omega (arith, h n, sum_to_le n f h)

  pub sum_to_lt :
      (n : ℕ) (f : ℕ → A) (i : ℕ) → i < n → w (f i) ≡ 0 → ((j : ℕ) → w (f j) ≤ 1) → sum_to w n f < n
  unfolding sum_to
  sum_to_lt zero f i h e all = absurd (omega arith)
  sum_to_lt (suc n) f i h e all = elim (ℕ_discrete i n) [
    | yes same ↦ ground (arith, same, sum_to_le n f all)
    | no other ↦ ground (arith, all n, sum_to_lt n f i)
  ]
