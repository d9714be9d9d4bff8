-- ===== src/Punyenc/Tests.antt =====
-- Runs of the encoder of crates/punyenc/src/lib.rs, over a concrete tree.
use useless.Base.{
  ℕ, zero, suc, ◌+◌, ◌≤◌, ◌<◌, ◌≡◌, refl, ap, ◌++◌, length, if◌then◌else◌, ltb, All, arith, true,
  false, List, [], ◌∷◌, some, sum, take, mul64, sub64,
}
use useless.Punyenc.Fenwick.{Fenwick, FenwickLaws}
use useless.Punyenc.Bootstring.{push_delta, adapt}
use useless.Punyenc.Integers.{IsDigitChar, read_integer-push_delta}
use useless.Punyenc.Bias.{adapt-next_bias, adapt_bound}
use useless.Punyenc.Sorted.{with_value, with_value-sort}
use useless.Punyenc.RoundTrip.{decode-encode, encode_shape, encode_ascii}
use useless.Punyenc.Encoder.{encode, sort, non_basic}
use useless.Punyenc.Rfc.{decode, read_integer, next_bias}

abbrev add_slot : List ℕ → ℕ → ℕ → List ℕ
add_slot [] i x = []
add_slot (y ∷ ys) zero x = (y + x) ∷ ys
add_slot (y ∷ ys) (suc i) x = y ∷ add_slot ys i x

-- A tree by its slots.
abbrev slots : Fenwick
slots = record {
  Tree = List ℕ;
  from_iter = λ xs. xs;
  prefix_sum = λ t p start. start + sum (take p t);
  add_at = add_slot;
}

take_all : (xs : List ℕ) (p : ℕ) → 0 + sum (take p xs) ≡ sum (take p xs)
take_all xs p = omega arith

length-add_slot : (t : List ℕ) (i x : ℕ) → length (add_slot t i x) ≡ length t
length-add_slot [] i x = refl
length-add_slot (y ∷ t) zero x = refl
length-add_slot (y ∷ t) (suc i) x = ap suc (length-add_slot t i x)

sum-add_slot :
    (t : List ℕ) (i x p : ℕ)
    → i < length t
    → p ≤ length t
    → sum (take p (add_slot t i x)) ≡ sum (take p t) + (if ltb i p then x else 0)
sum-add_slot [] i x p h k = absurd (omega arith)
sum-add_slot (y ∷ t) i x zero h k = ground arith
sum-add_slot (y ∷ t) zero x (suc p) h k = ground arith
sum-add_slot (y ∷ t) (suc i) x (suc p) h k = ground (arith, sum-add_slot t i x p)

slots-laws : FenwickLaws slots
slots-laws = record {
  size = length;
  size-from_iter = λ xs. refl;
  size-add_at = λ t i x h. length-add_slot t i x;
  prefix_sum-from_iter = λ xs p h. take_all xs p;
  prefix_sum-add_at = λ t i x p h k. omega (arith, sum-add_slot t i x p h k);
}

abbrev bucher : List ℕ
bucher = b'b' ∷ 0xfc ∷ b'c' ∷ b'h' ∷ b'e' ∷ b'r' ∷ []

encode-bucher :
    encode slots bucher ≡ some (b'b' ∷ b'c' ∷ b'h' ∷ b'e' ∷ b'r' ∷ b'-' ∷ b'k' ∷ b'v' ∷ b'a' ∷ [])
unfolding encode push_delta mul64 sub64 adapt
encode-bucher = refl

decode-bucher :
    decode (b'b' ∷ b'c' ∷ b'h' ∷ b'e' ∷ b'r' ∷ b'-' ∷ b'k' ∷ b'v' ∷ b'a' ∷ []) ≡ some bucher
unfolding decode
decode-bucher = refl

abbrev vienna : List ℕ
vienna = b'3' ∷ 0x5e74 ∷ b'B' ∷ 0x7d44 ∷ 0x91d1 ∷ 0x516b ∷ 0x5148 ∷ 0x751f ∷ []

decode-encode_example :
    (out : List ℕ) × (encode slots vienna ≡ some out) × (decode out ≡ some vienna)
decode-encode_example = decode-encode slots slots-laws vienna (omega arith) (omega arith)

encode_shape_example :
    (tail : List ℕ) × (encode slots bucher
      ≡ some ((b'b' ∷ b'c' ∷ b'h' ∷ b'e' ∷ b'r' ∷ b'-' ∷ []) ++ tail))
    × All IsDigitChar tail
encode_shape_example = encode_shape slots slots-laws bucher (omega arith) (omega arith)

encode_ascii_example :
    encode slots (b'a' ∷ b'b' ∷ b'c' ∷ []) ≡ some (b'a' ∷ b'b' ∷ b'c' ∷ b'-' ∷ [])
encode_ascii_example = encode_ascii slots (b'a' ∷ b'b' ∷ b'c' ∷ []) (omega arith) (omega arith)

read_integer-push_delta_example :
    read_integer 72 36 1 0 (push_delta [] 745 72 ++ (b'x' ∷ [])) ≡ some (0 + 745, b'x' ∷ [])
read_integer-push_delta_example =
    read_integer-push_delta 745 72 0 (b'x' ∷ []) (omega arith) (omega arith)

adapt-next_bias_example : adapt 745 6 true ≡ some (next_bias 745 6 true)
adapt-next_bias_example = adapt-next_bias 745 6 true (omega arith)

adapt_bound_example : (bias : ℕ) × (adapt 0xffff_ffff_ffff_ffff 1 false ≡ some bias) × (bias ≤ 504)
adapt_bound_example = adapt_bound 0xffff_ffff_ffff_ffff 1 false (omega arith) (omega arith)

with_value-sort_example :
    with_value 0xfc (sort (non_basic 0 (0xfc ∷ 0xe4 ∷ b'a' ∷ 0xfc ∷ [])))
    ≡ (0xfc, 0) ∷ (0xfc, 3) ∷ []
with_value-sort_example = with_value-sort 0xfc 0 (0xfc ∷ 0xe4 ∷ b'a' ∷ 0xfc ∷ []) (omega arith)
