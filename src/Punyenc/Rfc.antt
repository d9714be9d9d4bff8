-- ===== src/Punyenc/Rfc.antt =====
-- RFC 3492, sections 6.1 and 6.2, over unbounded numbers: the decoder that gives the encoder of
-- crates/punyenc/src/lib.rs its meaning. It is written from the RFC and shares no code with the
-- encoder but the list type.
use useless.Base.{
  ℕ, zero, suc, ◌+◌, ◌-◌, ◌*◌, ◌/◌, ◌%◌, Bool, List, [], ◌∷◌, ◌++◌, Option, none, some, length,
  if◌then◌else◌, ltb, leb, ◌==◌, take, drop, ◌&&◌,
}

infixl 5 ◌>>=◌
abbrev pub ◌>>=◌ {ℓ κ} : {A : Type ℓ} {B : Type κ} → Option A → (A → Option B) → Option B
none >>= f = none
some a >>= f = f a

-- The value of a digit; letters of either case are 0 to 25.
unfoldable pub digit_value : ℕ → Option ℕ
digit_value c =
    if leb b'0' c && leb c b'9'
    then some (c - 22)
    else if leb b'a' c && leb c b'z'
    then some (c - 97)
    else if leb b'A' c && leb c b'Z'
    then some (c - 65)
    else none

unfoldable pub bias_threshold : ℕ → ℕ → ℕ
bias_threshold k bias = if leb k bias then 1 else if leb (bias + 26) k then 26 else k - bias

-- `while delta > 455 do delta = delta div 35; k = k + 36`, with fuel.
unfoldable pub bias_steps : ℕ → ℕ → ℕ
bias_steps zero delta = 36 * delta / (delta + 38)
bias_steps (suc fuel) delta =
    let rest : ℕ = bias_steps fuel (delta / 35) in
    if ltb 455 delta then 36 + rest else 36 * delta / (delta + 38)

-- The bias adaptation. The fuel `delta` is more than the steps that it can take.
unfoldable pub next_bias : ℕ → ℕ → Bool → ℕ
unfolding bias_steps
next_bias delta points first =
    let scaled : ℕ = delta / (if first then 700 else 2) in
    bias_steps (scaled + scaled / points) (scaled + scaled / points)

-- A generalised variable-length integer from the front of the input, added to `i`.
unfoldable pub read_integer : ℕ → ℕ → ℕ → ℕ → List ℕ → Option (ℕ × List ℕ)
unfolding digit_value bias_threshold
read_integer bias k w i [] = none
read_integer bias k w i (c ∷ cs) = do
  d ← digit_value c
  let t = bias_threshold k bias
  if ltb d t then some (i + d * w, cs) else read_integer bias (k + 36) (w * (36 - t)) (i + d * w) cs

pub record Decoder : Type 0 where
  pub n : ℕ
  pub i : ℕ
  pub bias : ℕ
  pub output : List ℕ

-- The insertion of a code point, where `i'` is `i` with the delta that was read.
unfoldable pub insertion : Decoder → ℕ → Decoder
unfolding next_bias
insertion s i' =
    let points : ℕ = length s.output + 1 in
    let at : ℕ = i' % points in
    record {
      n = s.n + i' / points;
      i = at + 1;
      bias = next_bias (i' - s.i) points (s.i == 0);
      output = take at s.output ++ (s.n + i' / points) ∷ drop at s.output;
    }

unfoldable pub decode_deltas : ℕ → Decoder → List ℕ → Option (List ℕ)
unfolding read_integer insertion
decode_deltas fuel s [] = some s.output
decode_deltas zero s (c ∷ cs) = none
decode_deltas (suc fuel) s (c ∷ cs) = do
  (i', rest) ← read_integer s.bias 36 1 s.i (c ∷ cs)
  decode_deltas fuel (insertion s i') rest

-- What stands before and behind the last delimiter.
unfoldable pub split_last : List ℕ → Option (List ℕ × List ℕ)
split_last [] = none
split_last (c ∷ cs) = elim (split_last cs) [
  | some (front, back) ↦ some (c ∷ front, back)
  | none ↦ if c == b'-' then some ([], cs) else none
]

unfoldable pub all_basic : List ℕ → Bool
all_basic [] = Bool.true
all_basic (c ∷ cs) = ltb c 128 && all_basic cs

-- The decoder with `n`, `i` and `bias` at their initial values.
unfoldable pub decode_tail : List ℕ → List ℕ → Option (List ℕ)
unfolding all_basic decode_deltas
decode_tail basic tail =
    if all_basic basic
    then decode_deltas (length tail) (record { n = 128; i = 0; bias = 72; output = basic }) tail
    else none

-- A delimiter in the first place is not taken as one.
unfoldable pub decode : List ℕ → Option (List ℕ)
unfolding split_last decode_tail
decode xs = elim (split_last xs) [
  | none ↦ decode_tail [] xs
  | some ([], back) ↦ decode_tail [] xs
  | some (c ∷ front, back) ↦ decode_tail (c ∷ front) back
]
