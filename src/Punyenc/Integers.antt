-- ===== src/Punyenc/Integers.antt =====
-- `push_delta` of crates/punyenc/src/lib.rs against the reader of RFC 3492.
use useless.Base.{
  ℕ, zero, suc, ◌+◌, ◌-◌, ◌*◌, ◌/◌, ◌%◌, ◌^◌, ◌≤◌, ◌<◌, ◌≡◌, refl, sym, ap, ◌∙◌, List, [], ◌∷◌,
  ◌++◌, append_assoc, some, lt→ltb, ◌⊎◌, length, dec_lt, lt_wf, add64, add64_exact, All, arith,
}
use useless.Punyenc.Bootstring.{
  base, digit_to_char, threshold, threshold_bounds, quotient_smaller, push_loop, push_delta,
}
use useless.Punyenc.Rfc.{digit_value, bias_threshold, read_integer}
use mathlib.Core.Logic.{dif_pos, dif_neg}
use native.Mathlib.Bridge.{le_prop}
use mathlib.Core.WellFounded.{Acc}
use native.Mathlib.Nat.{div-add-mod, mod-lt, div-lt_iff_lt-mul, pow-suc, mul-one}

digit_value-digit_to_char : (d : ℕ) → d < 36 → digit_value (digit_to_char d) ≡ some d
unfolding digit_value digit_to_char
digit_value-digit_to_char d h = ground arith

threshold-bias_threshold : (k bias : ℕ) → bias < 2 ^ 32 → threshold k bias ≡ bias_threshold k bias
unfolding threshold bias_threshold add64
threshold-bias_threshold k bias h = ground arith

-- The digits of one round of the loop.
abbrev digit_of : ℕ → ℕ → ℕ
digit_of q t = t + (q - t) % (base - t)

-- The output so far is only appended to.
push_loop-append :
    (output : List ℕ) (q k bias : ℕ) (w : Acc ◌<◌ q)
    → push_loop output q k bias w ≡ output ++ push_loop [] q k bias w
unfolding push_loop
push_loop-append output q k bias (Acc.intro _ smaller) =
    let t : ℕ = threshold k bias in
    let digit : List ℕ = digit_to_char (digit_of q t) ∷ [] in
    elim (dec_lt q t) [
      | yes p ↦ rw (dif_pos _ le_prop p) (rw (dif_pos _ le_prop p) refl)
      | no p ↦
          let w : Acc ◌<◌ ((q - t) / (base - t)) =
            smaller _ (quotient_smaller q t (threshold_bounds k bias) p) in
          rw (dif_neg _ p) (
            rw (dif_neg _ p) (
              push_loop-append (output ++ digit) _ _ bias
                (smaller _ (quotient_smaller q t (threshold_bounds k bias) p))
              ∙ append_assoc output digit _
              ∙ ap (◌++◌ output) (
                  sym (
                    push_loop-append digit _ _ bias
                      (smaller _ (quotient_smaller q t (threshold_bounds k bias) p))))))
    ]

digit_of_bounds : (q t : ℕ) → (1 ≤ t) × (t ≤ 26) → t ≤ digit_of q t × (digit_of q t < 36)
digit_of_bounds q t h = ground (arith, mod-lt (q - t) {m = 36 - t})

digit_of_split :
    (q t w i : ℕ)
    → (1 ≤ t) × (t ≤ 26)
    → t ≤ q
    → i + (t + (q - t) % (36 - t)) * w + (q - t) / (36 - t) * (w * (36 - t)) ≡ i + q * w
digit_of_split q t w i h k = go (q - t) (36 - t) (omega arith)
  where
    go : (a b : ℕ) → a + t ≡ q → i + (t + a % b) * w + a / b * (w * b) ≡ i + q * w
    go a b e = omega (arith, ap (λ (x : ℕ). x * w) (div-add-mod a b), ap (λ (x : ℕ). x * w) e)

lt_sub : (t : ℕ) → (1 ≤ t) × (t ≤ 26) → 0 < 36 - t
lt_sub t h = omega arith

quotient_bound : (q t y : ℕ) → (1 ≤ t) × (t ≤ 26) → ¬ (q < t) → q < y * 10 → (q - t) / (36 - t) < y
quotient_bound q t y h k b =
    (div-lt_iff_lt-mul {k = 36 - t} {x = q - t} {y = y} (lt_sub t h)).1 (grind arith)

read_last :
    (d bias k w i : ℕ) (rest : List ℕ)
    → d < 36
    → d < bias_threshold k bias
    → read_integer bias k w i (digit_to_char d ∷ rest) ≡ some (i + d * w, rest)
unfolding read_integer
read_last d bias k w i rest h l = rw (digit_value-digit_to_char d h) (rw (lt→ltb _ _ l))

read_more :
    (d bias k w i : ℕ) (rest : List ℕ)
    → d < 36
    → bias_threshold k bias ≤ d
    → read_integer bias k w i (digit_to_char d ∷ rest)
      ≡ read_integer bias (k + 36) (w * (36 - bias_threshold k bias)) (i + d * w) rest
unfolding read_integer
read_more d bias k w i rest h l = rw (digit_value-digit_to_char d h) (ground arith)

-- The reader takes the digits of one integer, and no more.
read_integer-push_loop :
    (j q k bias w i : ℕ) (a : Acc ◌<◌ q) (rest : List ℕ)
    → bias < 2 ^ 32
    → q < 10 ^ j
    → k + 36 * j < 2 ^ 32
    → read_integer bias k w i (push_loop [] q k bias a ++ rest) ≡ some (i + q * w, rest)
unfolding push_loop
read_integer-push_loop zero q k bias w i (Acc.intro _ smaller) rest hb hq hk =
    let p : q < threshold k bias = omega (arith, threshold_bounds k bias) in
    rw (dif_pos _ le_prop p)
      (read_last q bias k w i rest (omega arith) (rw (threshold-bias_threshold k bias hb) at p))
read_integer-push_loop (suc j) q k bias w i (Acc.intro _ smaller) rest hb hq hk =
    let t : ℕ = threshold k bias in
    let same : t ≡ bias_threshold k bias = threshold-bias_threshold k bias hb in
    let range : (1 ≤ t) × (t ≤ 26) = threshold_bounds k bias in
    elim (dec_lt q t) [
      | yes p ↦ rw (dif_pos _ le_prop p) (read_last q bias k w i rest (omega arith) (omega arith))
      | no p ↦ rw (dif_neg _ p) (
          rw (push_loop-append (digit_to_char (digit_of q t) ∷ []) _ _ bias _) (
            read_more (digit_of q t) bias k w i _ (omega (arith, digit_of_bounds q t range))
              (omega (arith, digit_of_bounds q t range))
            ∙ rw (add64_exact k base (omega arith)) refl
            ∙ read_integer-push_loop j _ (k + 36) bias (w * (36 - bias_threshold k bias))
                (i + digit_of q t * w) (smaller _ (quotient_smaller q t range p)) rest hb
                (quotient_bound q t (10 ^ j) range p (omega (arith, pow-suc 10 j))) (omega arith)
            ∙ rw (← same)
                (ap (λ (x : ℕ). some (x, rest)) (digit_of_split q t w i range (omega arith)))))
    ]

-- A lowercase letter or a figure.
abbrev pub IsDigitChar : ℕ → Type 0
IsDigitChar c = ((b'a' ≤ c) × (c ≤ b'z')) ⊎ ((b'0' ≤ c) × (c ≤ b'9'))

digit_to_char-IsDigitChar : (d : ℕ) → d < 36 → IsDigitChar (digit_to_char d)
unfolding digit_to_char
digit_to_char-IsDigitChar d h = ground arith

push_loop-IsDigitChar :
    (q k bias : ℕ) (w : Acc ◌<◌ q)
    → All IsDigitChar (push_loop [] q k bias w) × (0 < length (push_loop [] q k bias w))
unfolding push_loop
push_loop-IsDigitChar q k bias (Acc.intro _ smaller) =
    let t : ℕ = threshold k bias in
    let range : (1 ≤ t) × (t ≤ 26) = threshold_bounds k bias in
    elim (dec_lt q t) [
      | yes p ↦
          rw (dif_pos _ le_prop p) ((digit_to_char-IsDigitChar q (omega arith), tt), omega arith)
      | no p ↦ rw (dif_neg _ p) (
          rw (push_loop-append (digit_to_char (digit_of q t) ∷ []) _ _ bias _) (
            (
              digit_to_char-IsDigitChar _ (omega (arith, digit_of_bounds q t range)),
              (push_loop-IsDigitChar _ _ bias (smaller _ (quotient_smaller q t range p))).0,
            ),
            omega arith,
          ))
    ]

push_delta_lem :
    (output : List ℕ) (delta bias : ℕ)
    → push_delta output delta bias ≡ push_loop output delta base bias (lt_wf.apply delta)
unfolding push_delta
push_delta_lem output delta bias = refl

pub push_delta-append :
    (output : List ℕ) (delta bias : ℕ)
    → push_delta output delta bias ≡ output ++ push_delta [] delta bias
push_delta-append output delta bias =
    rw (push_delta_lem output delta bias, push_delta_lem [] delta bias)
      (push_loop-append output delta base bias (lt_wf.apply delta))

-- Every character that `push_delta` appends is a lowercase letter or a figure, and it appends one.
pub push_delta-IsDigitChar :
    (delta bias : ℕ)
    → All IsDigitChar (push_delta [] delta bias) × (0 < length (push_delta [] delta bias))
push_delta-IsDigitChar delta bias =
    rw (push_delta_lem [] delta bias) (push_loop-IsDigitChar delta base bias (lt_wf.apply delta))

-- What the encoder appends for an integer below 2 ^ 64, under a bias below 2 ^ 32, is read back, added
-- to `i`, under the same bias, and what follows it is left.
pub read_integer-push_delta :
    (delta bias i : ℕ) (rest : List ℕ)
    → delta < 2 ^ 64
    → bias < 2 ^ 32
    → read_integer bias 36 1 i (push_delta [] delta bias ++ rest) ≡ some (i + delta, rest)
read_integer-push_delta delta bias i rest hd hb = rw (push_delta_lem [] delta bias) (
    read_integer-push_loop 20 delta base bias 1 i (lt_wf.apply delta) rest hb (omega arith)
      (omega arith)
    ∙ ap (λ (x : ℕ). some (i + x, rest)) (mul-one delta))
