-- ===== src/Punyenc/Occurrence.antt =====
-- One occurrence of a value `m` in the inner loop of `encode` in crates/punyenc/src/lib.rs.
use useless.Base.{
  some, ℕ, suc, ◌+◌, ◌-◌, ◌*◌, ◌^◌, ◌≤◌, ◌<◌, ◌≡◌, refl, sym, ap, ◌∙◌, List, [], ◌∷◌, ◌++◌,
  append_assoc, length, length-append, length-take-append, length-drop-append, take, drop, ◌==◌,
  arith, add64, sub64, add64_exact, sub64_exact,
}
use useless.Punyenc.Bootstring.{push_delta}
use useless.Punyenc.Fenwick.{Fenwick}
use useless.Punyenc.Encoder.{Group, occurrence}
use useless.Punyenc.Rfc.{Decoder, insertion, next_bias}
use useless.Punyenc.Bias.{adapt-next_bias, next_bias_bound}
use useless.Punyenc.Below.{
  below, count, below-append, below_here, below-suc_snoc, count_snoc, length-below-le,
  length-below-suc,
}
use native.Mathlib.Nat.{mul-le-mul}
use useless.Punyenc.Reads.{insertion_lem}

-- Before the occurrences in `b`, those in `a` done: the decoder has the code points below `m`, and
-- the occurrences of `m` in `a`; `delta` and `prev_c` lead it from where it is to the next one.
pub record Inside (m basic_count : ℕ) (d : Decoder) (g : Group) (a b : List ℕ) : Type 0 where
  pub kept : d.output ≡ below (suc m) a ++ below m b
  pub same_bias : d.bias ≡ g.bias
  pub small_bias : g.bias ≤ 504
  pub counted : g.handled ≡ length d.output
  pub aim :
      d.n * (length d.output + 1) + d.i + g.delta ≡ m * (length d.output + 1) + g.prev_c + count m a
  pub earlier : g.prev_c ≤ length (below m a)
  pub first : (d.i == 0) ≡ (g.handled == basic_count)
  pub basics : basic_count ≤ g.handled

-- The sizes at which 64-bit arithmetic is exact.
pub record Fits (s : List ℕ) (m : ℕ) : Type 0 where
  pub value : m < 0x11_0000
  pub short : length s < 2 ^ 43

module _ (f : Fenwick) (s : List ℕ) (m basic_count : ℕ) (t : f.Tree) (fits : Fits s m)
    (tree : (p : ℕ) → p ≤ length s → f.prefix_sum t p 0 ≡ length (below m (take p s))) where
  -- The tree counts the code points below `m` that stand before the occurrence.
  prefix_count : (a b : List ℕ) → s ≡ a ++ b → f.prefix_sum t (length a) 0 ≡ length (below m a)
  prefix_count a b e =
      let cut : take (length a) s ≡ a = ap (take (length a)) e ∙ length-take-append a b in
      tree (length a) (omega (arith, ap length e, length-append a b))
      ∙ ap (λ (x : List ℕ). length (below m x)) cut

  mul_short : (h : ℕ) → h ≤ length s → m * (h + 1) ≤ 0x11_0000 * 2 ^ 43
  mul_short h k =
      mul-le-mul {n₂ = 0x11_0000} {m₂ = 2 ^ 43} (omega (arith, fits.value))
        (omega (arith, fits.short))

  -- One occurrence of `m`, between `a` and `b`.
  module _ (d : Decoder) (g : Group) (a b : List ℕ) (e : s ≡ a ++ (m ∷ b))
      (v : Inside m basic_count d g a (m ∷ b)) where
    abbrev before : List ℕ
    before = below (suc m) a

    abbrev pub delta : ℕ
    delta = g.delta + length (below m a) - g.prev_c

    abbrev points : ℕ
    points = length d.output + 1

    abbrev pub decoder_after : Decoder
    decoder_after = record {
      n = m;
      i = length before + 1;
      bias = next_bias delta points (d.i == 0);
      output = before ++ (m ∷ below m b);
    }

    abbrev pub group_after : Group
    group_after = record {
      output = push_delta g.output delta g.bias;
      delta = 0;
      bias = next_bias delta points (d.i == 0);
      handled = points;
      prev_c = length (below m a);
      passed = g.passed ++ ((m, length a) ∷ []);
    }

    length_output : length d.output ≡ length before + length (below m b)
    length_output =
        ap length v.kept
        ∙ length-append before (below m (m ∷ b))
        ∙ ap (λ (x : List ℕ). length before + length x) (below_here m b)

    output_short : length d.output ≤ length s
    output_short = omega (
      arith,
      length_output,
      length-below-le (suc m) a,
      length-below-le m b,
      ap length e,
      length-append a (m ∷ b),
    )

    delta_aim : d.n * points + d.i + delta ≡ m * points + length before
    delta_aim = omega (arith, v.aim, v.earlier, length-below-suc m a)

    pub delta_short : delta < 2 ^ 64
    delta_short = omega (
      arith,
      delta_aim,
      mul_short (length d.output) output_short,
      length_output,
      output_short,
      fits.short,
    )

    insert_kept :
        take (length before) d.output ++ (m ∷ drop (length before) d.output)
        ≡ before ++ (m ∷ below m b)
    insert_kept =
        rw
          (
            v.kept,
            below_here m b,
            length-take-append before (below m b),
            length-drop-append before (below m b),
          )
          refl

    pub insertion_after : insertion d (d.i + delta) ≡ decoder_after
    insertion_after =
        insertion_lem d m (length before) delta delta_aim (omega (arith, length_output))
        ∙ ap
            (λ (x : List ℕ). record {
              n = m;
              i = length before + 1;
              bias = next_bias delta points (d.i == 0);
              output = x;
            })
            insert_kept

    delta_exact : add64 g.delta (sub64 (length (below m a)) g.prev_c) ≡ delta
    delta_exact =
        let count_short : length (below m a) < 2 ^ 64 =
          omega (arith, length-below-le m a, ap length e, length-append a (m ∷ b), fits.short) in
        rw (sub64_exact (length (below m a)) g.prev_c v.earlier count_short) (
          add64_exact g.delta (length (below m a) - g.prev_c)
            (omega (arith, delta_short, v.earlier))
          ∙ omega (arith, v.earlier))

    handled_exact : add64 g.handled 1 ≡ points
    handled_exact =
        add64_exact g.handled 1 (omega (arith, v.counted, output_short, fits.short))
        ∙ ap (λ (x : ℕ). x + 1) v.counted

    pub occurrence_after : occurrence f t basic_count g (m, length a) ≡ some group_after
    unfolding occurrence
    occurrence_after =
        rw
          (
            prefix_count a (m ∷ b) e,
            delta_exact,
            handled_exact,
            sym v.first,
            adapt-next_bias delta points (d.i == 0) (omega arith),
          )
          refl

    pub after-Inside : Inside m basic_count decoder_after group_after (a ++ (m ∷ [])) b
    after-Inside = record {
      kept = sym (
          ap (λ (x : List ℕ). x ++ below m b) (below-suc_snoc m a)
          ∙ append_assoc before (m ∷ []) (below m b));
      same_bias = refl;
      small_bias = next_bias_bound delta points (d.i == 0) delta_short;
      counted = omega (arith, length_output, length-append before (m ∷ below m b));
      aim = omega (arith, length-below-suc m a, count_snoc m a);
      earlier = omega (
        arith,
        ap length (below-append m a (m ∷ [])),
        length-append (below m a) (below m (m ∷ [])),
      );
      first = ground (arith, v.basics, v.counted);
      basics = omega (arith, v.basics, v.counted);
    }
