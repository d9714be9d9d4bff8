-- ===== src/Punyenc/Bootstring.antt =====
-- crates/punyenc/src/lib.rs, lines 5 to 65: constants, `digit_to_char`, `adapt`, `push_delta`.
use useless.Base.{
  ℕ, ◌+◌, ◌-◌, ◌*◌, ◌/◌, ◌%◌, ◌≤◌, ◌<◌, Bool, List, [], ◌∷◌, ◌++◌, if◌then◌else◌, Option, none,
  some, ◌==◌, ltb, leb, dite, dec_lt, lt_wf, add64, arith,
}
use mathlib.Core.WellFounded.{Acc}

abbrev pub base : ℕ
base = 36

abbrev pub tmin : ℕ
tmin = 1

abbrev pub tmax : ℕ
tmax = 26

abbrev pub skew : ℕ
skew = 38

abbrev pub damp : ℕ
damp = 700

abbrev pub initial_bias : ℕ
initial_bias = 72

abbrev pub initial_n : ℕ
initial_n = 128

-- `d as u8` keeps the low byte.
unfoldable pub digit_to_char : ℕ → ℕ
digit_to_char d = if ltb d 26 then (b'a' + d % 256) % 256 else (b'0' + (d - 26) % 256) % 256

pub delta_shrinks : (delta : ℕ) → 455 < delta → delta / 35 < delta
delta_shrinks delta h = omega arith

-- The loop of `adapt`, with its result.
unfoldable pub adapt_loop : (delta k : ℕ) → Acc ◌<◌ delta → ℕ
adapt_loop delta k (Acc.intro _ smaller) =
    dite (dec_lt ((base - tmin) * tmax / 2) delta)
      (λ more. adapt_loop (delta / (base - tmin)) (k + base) (smaller _ (delta_shrinks delta more)))
      (λ _. k + (base - tmin + 1) * delta / (delta + skew))

-- `adapt` behind its division by `num_points`.
unfoldable pub adapted : ℕ → ℕ → Bool → ℕ
unfolding adapt_loop lt_wf dec_lt
adapted delta num_points first_time =
    let scaled : ℕ = if first_time then delta / damp else delta / 2 in
    let start : ℕ = scaled + scaled / num_points in adapt_loop start 0 (lt_wf.apply start)

-- `adapt`; `none` is the panic of the division by 0.
unfoldable pub adapt : ℕ → ℕ → Bool → Option ℕ
unfolding adapted
adapt delta num_points first_time =
    if num_points == 0 then none else some (adapted delta num_points first_time)

-- The threshold `t` of `push_delta`.
unfoldable pub threshold : ℕ → ℕ → ℕ
threshold k bias = if leb k bias then tmin else if leb (add64 bias tmax) k then tmax else k - bias

pub threshold_bounds : (k bias : ℕ) → (1 ≤ threshold k bias) × (threshold k bias ≤ 26)
unfolding threshold add64
threshold_bounds k bias = ground arith

pub quotient_smaller : (q t : ℕ) → (1 ≤ t) × (t ≤ 26) → ¬ (q < t) → (q - t) / (base - t) < q
quotient_smaller q t h k = omega arith

-- The loop of `push_delta` and the digit after it.
unfoldable pub push_loop : (output : List ℕ) (q k bias : ℕ) → Acc ◌<◌ q → List ℕ
push_loop output q k bias (Acc.intro _ smaller) =
    let t : ℕ = threshold k bias in
    dite (dec_lt q t) (λ _. output ++ (digit_to_char q ∷ []))
      (λ stay.
        push_loop (output ++ (digit_to_char (t + (q - t) % (base - t)) ∷ [])) ((q - t) / (base - t))
          (add64 k base) bias (smaller _ (quotient_smaller q t (threshold_bounds k bias) stay)))

unfoldable pub push_delta : List ℕ → ℕ → ℕ → List ℕ
unfolding push_loop lt_wf dec_lt threshold digit_to_char add64
push_delta output delta bias = push_loop output delta base bias (lt_wf.apply delta)
