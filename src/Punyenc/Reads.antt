-- ===== src/Punyenc/Reads.antt =====
-- Runs of the decoder of `Rfc` over a whole number of integers, and one insertion in it.
use useless.Base.{
  ℕ, zero, suc, ◌+◌, ◌-◌, ◌*◌, ◌/◌, ◌%◌, ◌^◌, ◌≤◌, ◌<◌, ◌≡◌, refl, ap, ◌∙◌, List, [], ◌∷◌, ◌++◌,
  append-nil, append_assoc, some, length, length-append, take, drop, ◌==◌, arith, dec_lt, All,
  All-append,
}
use useless.Punyenc.Bootstring.{push_delta}
use useless.Punyenc.Rfc.{Decoder, read_integer, next_bias, insertion, decode_deltas}
use useless.Punyenc.Integers.{IsDigitChar, read_integer-push_delta, push_delta-IsDigitChar}
use native.Mathlib.Nat.{div-add-mod, mod-lt}

-- `Reads d xs d'`: the text `xs` is a number of integers, which take the decoder from `d` to `d'`.
pub data Reads (d : Decoder) : List ℕ → Decoder → Type 0 where
  done : Reads d [] d
  next :
      {e : Decoder} {xs : List ℕ} (delta : ℕ)
      → Reads d xs e
      → delta < 2 ^ 64
      → e.bias < 2 ^ 32
      → Reads d (xs ++ push_delta [] delta e.bias) (insertion e (e.i + delta))

pub Reads-trans :
    {d e f : Decoder} {xs ys : List ℕ} → Reads d xs e → Reads e ys f → Reads d (xs ++ ys) f
Reads-trans {d} {f = f} {xs = xs} r done = rw (append-nil xs) r
Reads-trans {xs = xs} r (next {xs = ys} delta q h b) =
    rw (← append_assoc xs ys _) (next delta (Reads-trans r q) h b)

decode_step :
    (fuel i' : ℕ) (d : Decoder) (xs rest : List ℕ)
    → 0 < length xs
    → read_integer d.bias 36 1 d.i xs ≡ some (i', rest)
    → decode_deltas (suc fuel) d xs ≡ decode_deltas fuel (insertion d i') rest
unfolding decode_deltas
decode_step fuel i' d [] rest h e = absurd (omega arith)
decode_step fuel i' d (c ∷ xs) rest h e = rw e

-- What is left of the fuel after one integer of `size` characters at least.
one_integer :
    (d : Decoder) (delta : ℕ) (tail : List ℕ) (fuel : ℕ)
    → delta < 2 ^ 64
    → d.bias < 2 ^ 32
    → length (push_delta [] delta d.bias ++ tail) ≤ fuel
    → (left : ℕ) × (length tail ≤ left)
      × (decode_deltas fuel d (push_delta [] delta d.bias ++ tail)
          ≡ decode_deltas left (insertion d (d.i + delta)) tail)
one_integer d delta tail zero hd hb h = absurd (
    omega
      (arith, push_delta-IsDigitChar delta d.bias, length-append (push_delta [] delta d.bias) tail))
one_integer d delta tail (suc fuel) hd hb h =
    let size : length (push_delta [] delta d.bias ++ tail)
        ≡ length (push_delta [] delta d.bias) + length tail =
      length-append (push_delta [] delta d.bias) tail in
    let some_digit : 0 < length (push_delta [] delta d.bias) =
      (push_delta-IsDigitChar delta d.bias).1 in
    (
      fuel,
      omega arith,
      decode_step fuel (d.i + delta) d _ tail (omega arith)
          (read_integer-push_delta delta d.bias d.i tail hd hb),
    )

-- A decoder with fuel for each character reads all of `xs` and goes on with what follows.
pub decode_deltas-Reads :
    {d e : Decoder} {xs : List ℕ}
    → Reads d xs e
    → (tail : List ℕ) (fuel : ℕ) → length (xs ++ tail) ≤ fuel
    → (left : ℕ) × (length tail ≤ left)
      × (decode_deltas fuel d (xs ++ tail) ≡ decode_deltas left e tail)
decode_deltas-Reads done tail fuel h = (fuel, h, refl)
decode_deltas-Reads {d} (next {e} {xs = xs} delta r hd hb) tail fuel h =
    let (left, enough, run) =
      decode_deltas-Reads r (push_delta [] delta e.bias ++ tail) fuel (rw append_assoc at h) in
    let (left', enough', run') = one_integer e delta tail left hd hb enough in
    (left', enough', rw append_assoc (run ∙ run'))

-- A number below `p` over a multiple of `p` is found by division.
quotient_unique : (a b r s p : ℕ) → r < p → s < p → a * p + r ≡ b * p + s → (a ≡ b) × (r ≡ s)
quotient_unique a b r s p hr hs e = elim (dec_lt a b) [
  | yes less ↦ absurd (grind (arith))
  | no more ↦ elim (dec_lt b a) [
    | yes less ↦ absurd (grind arith)
    | no same ↦ let q : a ≡ b = omega arith in (q, omega (arith, ap (λ (x : ℕ). x * p) q))
  ]
]

divide_step :
    (n m i pos p : ℕ) → n * p + i ≡ m * p + pos → pos < p → (n + i / p ≡ m) × (i % p ≡ pos)
divide_step n m i pos p e h =
    quotient_unique (n + i / p) m (i % p) pos p (mod-lt i (omega arith)) h
      (omega (arith, div-add-mod i p))

pub insertion_lem :
    (d : Decoder) (m pos delta : ℕ)
    → d.n * (length d.output + 1) + d.i + delta ≡ m * (length d.output + 1) + pos
    → pos ≤ length d.output
    → insertion d (d.i + delta) ≡ record {
      n = m;
      i = pos + 1;
      bias = next_bias delta (length d.output + 1) (d.i == 0);
      output = take pos d.output ++ (m ∷ drop pos d.output);
    }
unfolding insertion
insertion_lem d m pos delta e h =
    let points : ℕ = length d.output + 1 in
    let (value, place) = divide_step d.n m (d.i + delta) pos points (omega arith) (omega arith) in
    let gap : d.i + delta - d.i ≡ delta = omega arith in rw (value, place, gap) refl

-- What is read is lowercase letters and figures.
pub Reads-IsDigitChar : {d e : Decoder} {xs : List ℕ} → Reads d xs e → All IsDigitChar xs
Reads-IsDigitChar done = tt
Reads-IsDigitChar (next {e} {xs = xs} delta r h b) =
    All-append IsDigitChar xs _ (Reads-IsDigitChar r) (push_delta-IsDigitChar delta e.bias).0
