-- ===== src/Punyenc/RoundTrip.antt =====
-- `encode` of crates/punyenc/src/lib.rs against the decoder of RFC 3492.
use useless.Base.{
  ℕ, zero, suc, ◌+◌, ◌^◌, ◌<◌, ◌≡◌, refl, sym, ap, ◌∙◌, true, List, [], ◌∷◌, ◌++◌, append-nil,
  append_assoc, map, some, none, length, take, sum, All, arith, add64_exact, if◌then◌else◌, ltb,
  lt→ltb, not-lt→ltb, dec_lt, ◌%◌,
}
use native.Mathlib.Nat.{add-zero, zero-add}
use useless.Punyenc.Fenwick.{Fenwick, FenwickLaws}
use useless.Punyenc.Encoder.{Pair, push_basic, non_basic, sort, start, encode_groups, encode}
use useless.Punyenc.Rfc.{Decoder, split_last, all_basic, decode_deltas, decode_tail, decode}
use useless.Punyenc.Integers.{IsDigitChar}
use useless.Punyenc.Below.{below, below-All}
use useless.Punyenc.Sorted.{sort-IsSorted, sort-value_le, with_value-sort}
use useless.Punyenc.Reads.{Reads, Reads-IsDigitChar, decode_deltas-Reads}
use useless.Punyenc.Round.{Outside}
use useless.Punyenc.Values.{LoopRun, loop_run}

pair_path : {xs ys : List ℕ} {m n : ℕ} → xs ≡ ys → m ≡ n → ◌≡◌ {A = List ℕ × ℕ} (xs, m) (ys, n)
pair_path p q = λ i. (p i, q i)

push_basic_lem :
    (cs output : List ℕ) (n : ℕ)
    → n + length cs < 2 ^ 64
    → push_basic cs output n ≡ (output ++ below 128 cs, n + length (below 128 cs))
unfolding push_basic
push_basic_lem [] output n h = rw (append-nil output, add-zero n)
push_basic_lem (c ∷ cs) output n h = elim (dec_lt c 128) [
  | yes p ↦
      let byte : c % 256 ≡ c = omega arith in
      rw (lt→ltb c 128 p, byte, add64_exact n 1 (omega arith))
        (push_basic_lem cs (output ++ (c ∷ [])) (n + 1) (omega arith)
          ∙ pair_path (append_assoc output (c ∷ []) (below 128 cs)) (omega arith))
  | no p ↦ rw (not-lt→ltb c 128 p) (push_basic_lem cs output n (omega arith))
]

sum-indicator :
    (p : ℕ) (cs : List ℕ)
    → sum (take p (map (λ c. if ltb c 128 then 1 else 0) cs)) ≡ length (below 128 (take p cs))
sum-indicator zero cs = refl
sum-indicator (suc p) [] = refl
sum-indicator (suc p) (c ∷ cs) = ground (arith, sum-indicator p cs)

length_indicator : (g : ℕ → ℕ) (cs : List ℕ) → length (map g cs) ≡ length cs
length_indicator g [] = refl
length_indicator g (c ∷ cs) = ap suc (length_indicator g cs)

all_basic-below : (cs : List ℕ) → all_basic (below 128 cs) ≡ true
unfolding all_basic
all_basic-below [] = refl
all_basic-below (c ∷ cs) = ground (arith, all_basic-below cs)

-- A tail of letters and figures has no delimiter, so the last one stands before it.
split_last-none : (ys : List ℕ) → All IsDigitChar ys → split_last ys ≡ none
unfolding split_last
split_last-none [] h = refl
split_last-none (c ∷ ys) h = rw (split_last-none ys h.1) (ground arith)

split_last-some :
    (xs ys : List ℕ) → All IsDigitChar ys → split_last (xs ++ (b'-' ∷ ys)) ≡ some (xs, ys)
unfolding split_last
split_last-some [] ys h = rw (split_last-none ys h)
split_last-some (c ∷ xs) ys h = rw (split_last-some xs ys h)

decode_deltas_end : (fuel : ℕ) (d : Decoder) → decode_deltas fuel d [] ≡ some d.output
unfolding decode_deltas
decode_deltas_end zero d = refl
decode_deltas_end (suc fuel) d = refl

abbrev initial : List ℕ → Decoder
initial basic = record { n = 128; i = 0; bias = 72; output = basic }

decode_tail-Reads :
    (cs : List ℕ) {e : Decoder} (written : List ℕ)
    → Reads (initial (below 128 cs)) written e
    → decode_tail (below 128 cs) written ≡ some e.output
unfolding decode_tail
decode_tail-Reads cs {e} written r =
    let (left, enough, run) =
      decode_deltas-Reads r [] (length written) (rw append-nil (omega arith)) in
    rw (all_basic-below cs) (
      ap (decode_deltas (length written) (initial (below 128 cs))) (sym (append-nil written))
      ∙ run
      ∙ decode_deltas_end left e)

decode-some :
    (xs : List ℕ) {c : ℕ} {front back : List ℕ}
    → split_last xs ≡ some (c ∷ front, back)
    → decode xs ≡ decode_tail (c ∷ front) back
unfolding decode
decode-some xs e = rw (e, decode)

decode-none : (xs : List ℕ) → split_last xs ≡ none → decode xs ≡ decode_tail [] xs
unfolding decode
decode-none xs e = rw (e, decode)

-- What `encode` writes before the tail is taken off again.
decode_prefix :
    (basic written : List ℕ)
    → All IsDigitChar written
    → decode ((if ltb 0 (length basic) then basic ++ (b'-' ∷ []) else basic) ++ written)
      ≡ decode_tail basic written
decode_prefix [] written h = decode-none written (split_last-none written h)
decode_prefix (c ∷ basic) written h = rw (lt→ltb 0 (suc (length basic)) (omega arith)) (
    decode-some _ (
      ap split_last (append_assoc (c ∷ basic) (b'-' ∷ []) written)
      ∙ split_last-some (c ∷ basic) written h))

module _ (f : Fenwick) (laws : FenwickLaws f) (s : List ℕ) (chars : All (λ c. c < 0x11_0000) s)
    (short : length s < 2 ^ 43) where
  abbrev basic : List ℕ
  basic = below 128 s

  abbrev literal : List ℕ
  literal = if ltb 0 (length basic) then basic ++ (b'-' ∷ []) else basic

  abbrev pairs : List Pair
  pairs = sort (non_basic 0 s)

  start-Outside :
      Outside f laws s (length basic) (initial basic) (start f s literal (length basic)) pairs
  unfolding start
  start-Outside = record {
    kept = refl;
    same_bias = refl;
    small_bias = omega arith;
    counted = refl;
    aim = omega arith;
    first = ground arith;
    basics = omega arith;
    sized = laws.size-from_iter _ ∙ length_indicator _ s;
    tree = λ p h.
        laws.prefix_sum-from_iter _ p
          (omega (arith, length_indicator (λ c. if ltb c 128 then 1 else 0) s))
        ∙ sum-indicator p s;
    sorted = sort-IsSorted _;
    ahead = sort-value_le 0 s;
    complete = λ v h. with_value-sort v 0 s h;
  }

  start_n : (start f s literal (length basic)).n ≡ 128
  unfolding start
  start_n = refl

  encode_lem :
      encode f s
      ≡ encode_groups f (length pairs) (length basic) (start f s literal (length basic)) pairs
  unfolding encode
  encode_lem =
      ap
        (λ (r : List ℕ × ℕ).
          encode_groups f (length pairs) r.1
            (start f s (if ltb 0 r.1 then r.0 ++ (b'-' ∷ []) else r.0) r.1) pairs)
        (push_basic_lem s [] 0 (omega (arith, short)) ∙ pair_path refl (omega arith))

  loop :
      LoopRun f laws s chars short
        (length basic)
        (initial basic)
        (start f s literal (length basic))
        pairs
        (length pairs)
  loop =
      loop_run f laws s chars short (length basic) (length pairs) (initial basic)
        (start f s literal (length basic)) pairs (omega arith) (omega (arith, start_n))
        start-Outside

  start_output : (start f s literal (length basic)).output ≡ literal
  unfolding start
  start_output = refl

  encode_output : encode f s ≡ some (literal ++ loop.written)
  encode_output = encode_lem ∙ loop.run ∙ ap (λ (t : List ℕ). some (t ++ loop.written)) start_output

  -- For a text of Unicode code points, shorter than 2 ^ 43, `encode` ends with an output, and the
  -- decoder of RFC 3492 reads that output back to the text.
  pub decode-encode : (out : List ℕ) × (encode f s ≡ some out) × (decode out ≡ some s)
  decode-encode = (
    literal ++ loop.written,
    encode_output,
    decode_prefix basic loop.written (Reads-IsDigitChar loop.reads)
        ∙ decode_tail-Reads s loop.written loop.reads
        ∙ ap some loop.whole,
  )

  -- For a text of Unicode code points, shorter than 2 ^ 43, the output of `encode` is the basic code
  -- points in input order, then a `-` if there is one, then lowercase letters and figures only.
  pub encode_shape :
      (tail : List ℕ) × (encode f s
        ≡ some (
            (if ltb 0 (length (below 128 s)) then below 128 s ++ (b'-' ∷ []) else below 128 s)
            ++ tail))
      × All IsDigitChar tail
  encode_shape = (loop.written, encode_output, Reads-IsDigitChar loop.reads)

non_basic_none : (i : ℕ) (cs : List ℕ) → All (λ c. c < 128) cs → non_basic i cs ≡ []
unfolding non_basic
non_basic_none i [] h = refl
non_basic_none i (c ∷ cs) h = ground (arith, non_basic_none (suc i) cs h.1)

-- On basic code points alone, fewer than 2 ^ 43, `encode` gives the text back, with a `-` behind it if
-- it is not empty.
pub encode_ascii :
    (f : Fenwick) (s : List ℕ)
    → All (λ c. c < 128) s
    → length s < 2 ^ 43
    → encode f s ≡ some (if ltb 0 (length s) then s ++ (b'-' ∷ []) else s)
unfolding encode
encode_ascii f s h short =
    rw (push_basic_lem s [] 0 (omega (arith, short)), non_basic_none 0 s h)
      (rw (below-All 128 s h, zero-add (length s)) refl)
