-- ===== src/Punyenc/Bias.antt =====
-- `adapt` of crates/punyenc/src/lib.rs against the bias adaptation of RFC 3492.
use useless.Base.{
  ℕ, zero, suc, ◌+◌, ◌*◌, ◌/◌, ◌^◌, ◌≤◌, ◌<◌, ◌≡◌, refl, sym, ap, ◌∙◌, Bool, true, false, dec_lt,
  some, lt→ltb, lt_wf, arith, if◌then◌else◌,
}
use useless.Punyenc.Bootstring.{delta_shrinks, adapt_loop, adapted, adapt}
use useless.Punyenc.Rfc.{bias_steps, next_bias}
use mathlib.Core.Logic.{dif_pos, dif_neg}
use mathlib.Core.WellFounded.{Acc}
use native.Mathlib.Bridge.{le_prop}
use native.Mathlib.Nat.{div-le_of_le-mul, pow-suc, zero-add, div-le_self}

-- Enough fuel is all the same.
bias_steps_last : (fuel delta : ℕ) → delta ≤ 455 → bias_steps fuel delta ≡ 36 * delta / (delta + 38)
unfolding bias_steps
bias_steps_last zero delta h = refl
bias_steps_last (suc fuel) delta h = ground arith

bias_steps_more :
    (fuel delta : ℕ) → 455 < delta → bias_steps (suc fuel) delta ≡ 36 + bias_steps fuel (delta / 35)
unfolding bias_steps
bias_steps_more fuel delta h = rw (lt→ltb _ _ h) refl

adapt_loop-bias_steps :
    (fuel delta k : ℕ) (w : Acc ◌<◌ delta)
    → delta ≤ fuel
    → adapt_loop delta k w ≡ k + bias_steps fuel delta
unfolding adapt_loop
adapt_loop-bias_steps zero delta k (Acc.intro _ smaller) h =
    let p : ¬ (455 < delta) = omega arith in
    rw (dif_neg _ p) (ap (◌+◌ k) (sym (bias_steps_last 0 delta (omega arith))))
adapt_loop-bias_steps (suc fuel) delta k (Acc.intro _ smaller) h = elim (dec_lt 455 delta) [
  | yes p ↦ rw (dif_pos _ le_prop p) (
      adapt_loop-bias_steps fuel (delta / 35) (k + 36) (smaller _ (delta_shrinks delta p))
        (omega (arith, delta_shrinks delta p))
      ∙ omega (arith, bias_steps_more fuel delta p))
  | no p ↦ rw (dif_neg _ p) (ap (◌+◌ k) (sym (bias_steps_last (suc fuel) delta (omega arith))))
]

-- The number that the bias is computed from.
abbrev scaled : ℕ → ℕ → Bool → ℕ
scaled delta points first =
    let half : ℕ = if first then delta / 700 else delta / 2 in half + half / points

adapted_lem :
    (delta points : ℕ) (first : Bool)
    → adapted delta points first
      ≡ adapt_loop (scaled delta points first) 0 (lt_wf.apply (scaled delta points first))
unfolding adapted
adapted_lem delta points first = refl

next_bias_lem :
    (delta points : ℕ) (first : Bool)
    → next_bias delta points first
      ≡ bias_steps (scaled delta points first) (scaled delta points first)
unfolding next_bias
next_bias_lem delta points true = refl
next_bias_lem delta points false = refl

adapted-next_bias :
    (delta points : ℕ) (first : Bool) → adapted delta points first ≡ next_bias delta points first
adapted-next_bias delta points first =
    let n : ℕ = scaled delta points first in
    adapted_lem delta points first
    ∙ adapt_loop-bias_steps n n 0 (lt_wf.apply n) (omega arith)
    ∙ zero-add _
    ∙ sym (next_bias_lem delta points first)

-- For every delta, number of points that is not 0, and flag, `adapt` does not panic and is the bias
-- adaptation of RFC 3492.
pub adapt-next_bias :
    (delta points : ℕ) (first : Bool)
    → 0 < points
    → adapt delta points first ≡ some (next_bias delta points first)
unfolding adapt
adapt-next_bias delta points first h = ground (arith, adapted-next_bias delta points first)

last_bound : (delta : ℕ) → 36 * delta / (delta + 38) ≤ 36
last_bound delta = div-le_of_le-mul (delta + 38) (omega arith)

bias_steps_bound : (j fuel delta : ℕ) → delta < 35 ^ j → bias_steps fuel delta ≤ 36 * j + 36
unfolding bias_steps
bias_steps_bound j zero delta h = omega (arith, last_bound delta)
bias_steps_bound zero (suc fuel) delta h =
    omega (arith, last_bound delta, bias_steps_last (suc fuel) delta (omega arith))
bias_steps_bound (suc j) (suc fuel) delta h =
    ground
      (arith, last_bound delta, bias_steps_bound j fuel (delta / 35) (omega (arith, pow-suc 35 j)))

scaled_le : (delta points : ℕ) (first : Bool) → scaled delta points first ≤ delta
scaled_le delta points true = omega (arith, div-le_self (delta / 700) points)
scaled_le delta points false = omega (arith, div-le_self (delta / 2) points)

pub next_bias_bound :
    (delta points : ℕ) (first : Bool) → delta < 2 ^ 64 → next_bias delta points first ≤ 504
next_bias_bound delta points first h =
    let n : ℕ = scaled delta points first in
    omega (
      arith,
      next_bias_lem delta points first,
      scaled_le delta points first,
      bias_steps_bound 13 n n (omega (arith, scaled_le delta points first)),
    )

-- For a 64-bit delta and a number of points that is not 0, `adapt` does not panic, and the bias that it
-- returns stays small: at most 504.
pub adapt_bound :
    (delta points : ℕ) (first : Bool)
    → delta < 2 ^ 64
    → 0 < points
    → (bias : ℕ) × (adapt delta points first ≡ some bias) × (bias ≤ 504)
adapt_bound delta points first h some_points = (
  next_bias delta points first,
  adapt-next_bias delta points first some_points,
  next_bias_bound delta points first h,
)
