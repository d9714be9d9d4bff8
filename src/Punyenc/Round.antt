-- ===== src/Punyenc/Round.antt =====
-- A round of the outer loop of `encode` in crates/punyenc/src/lib.rs: the pairs of one value.
use useless.Base.{
  some, ℕ, suc, ◌+◌, ◌-◌, ◌*◌, ◌^◌, ◌≤◌, ◌<◌, ◌≡◌, refl, sym, ap, ◌∙◌, inr, List, [], ◌∷◌, ◌++◌,
  append-nil, length, take, All, ◌==◌, arith, add64, sub64, add64_exact, sub64_exact, mul64_exact,
}
use native.Mathlib.Nat.{mul-le-mul, sub-zero}
use useless.Punyenc.Fenwick.{Fenwick, FenwickLaws}
use useless.Punyenc.Encoder.{Pair, State, encode_group, place, open_group, close_group}
use useless.Punyenc.Rfc.{Decoder}
use useless.Punyenc.Below.{
  below, positions, below_same, NoneBetween, All-take, NoneBetween-positions, length-below-le,
  length-below-suc, positions-All, positions-cons,
}
use useless.Punyenc.Sorted.{
  with_value, above, IsSorted, split_value, above-All, above-IsSorted, with_value-above,
  with_value_none,
}
use useless.Punyenc.Occurrence.{Inside, Fits}
use useless.Punyenc.Group.{GroupRun, group_run}
use useless.Punyenc.Placing.{size-place, place-count}

-- Before the pairs `xs`: the decoder has the code points below `n`, `delta` leads it to the first
-- place of the value `n`, the tree counts the code points below `n`, and `xs` has the pairs of
-- each value from `n` on.
pub record Outside (f : Fenwick) (laws : FenwickLaws f) (s : List ℕ) (basic_count : ℕ) (d : Decoder)
    (st : State f.Tree) (xs : List Pair) : Type 0 where
  pub kept : d.output ≡ below st.n s
  pub same_bias : d.bias ≡ st.bias
  pub small_bias : st.bias ≤ 504
  pub counted : st.handled ≡ length d.output
  pub aim : d.n * (length d.output + 1) + d.i + st.delta ≡ st.n * (length d.output + 1)
  pub first : (d.i == 0) ≡ (st.handled == basic_count)
  pub basics : basic_count ≤ st.handled
  pub sized : laws.size st.placed ≡ length s
  pub tree : (p : ℕ) → p ≤ length s → f.prefix_sum st.placed p 0 ≡ length (below st.n (take p s))
  pub sorted : IsSorted xs
  pub ahead : All (λ y. st.n ≤ y.0) xs
  pub complete : (v : ℕ) → st.n ≤ v → with_value v xs ≡ positions v 0 s

module _ (f : Fenwick) (laws : FenwickLaws f) (s : List ℕ) (chars : All (λ c. c < 0x11_0000) s)
    (short : length s < 2 ^ 43) (basic_count : ℕ) where
  open laws use {size}

  -- A round of the outer loop, at the first pair `x` of those left.
  module _ (d : Decoder) (st : State f.Tree) (x : Pair) (ys : List Pair)
      (v : Outside f laws s basic_count d st (x ∷ ys)) where
    abbrev m : ℕ
    m = x.0

    occurs : (zs : List Pair) × (positions m 0 s ≡ x ∷ zs)
    occurs = (with_value m ys, sym (v.complete m v.ahead.0) ∙ ground arith)

    pub fits : Fits s m
    fits = record {
      value = positions-All (λ c. c < 0x11_0000) m 0 s x occurs.0 chars occurs.1;
      short = short;
    }

    from_m : All (λ y. m ≤ y.0) (x ∷ ys)
    from_m = (omega arith, v.sorted.0)

    none_between : NoneBetween st.n m s
    none_between =
        NoneBetween-positions st.n m 0 s
          (λ w lo hi. sym (v.complete w lo) ∙ with_value_none w m (x ∷ ys) hi from_m)

    pub tree_m : (p : ℕ) → p ≤ length s → f.prefix_sum st.placed p 0 ≡ length (below m (take p s))
    tree_m p h =
        v.tree p h
        ∙ sym (ap length (below_same st.n m (take p s) v.ahead.0 (All-take _ p s none_between)))

    kept_m : d.output ≡ below m s
    kept_m = v.kept ∙ sym (below_same st.n m s v.ahead.0 none_between)

    output_short : length d.output ≤ length s
    output_short = omega (arith, ap length kept_m, length-below-le m s)

    product :
        m * (length d.output + 1)
        ≡ st.n * (length d.output + 1) + (m - st.n) * (length d.output + 1)
    product =
        let gap : m ≡ st.n + (m - st.n) = omega (arith, v.ahead.0) in
        omega (arith, ap (λ (t : ℕ). t * (length d.output + 1)) gap)

    product_short : m * (length d.output + 1) ≤ 0x11_0000 * 2 ^ 43
    product_short =
        mul-le-mul {n₂ = 0x11_0000} {m₂ = 2 ^ 43} (omega (arith, fits.value))
          (omega (arith, output_short, short))

    open_delta : (open_group f st m).delta ≡ st.delta + (m - st.n) * (length d.output + 1)
    unfolding open_group
    open_delta =
        let one_more : add64 st.handled 1 ≡ length d.output + 1 =
          add64_exact st.handled 1 (omega (arith, v.counted, output_short, short))
          ∙ ap (λ (t : ℕ). t + 1) v.counted in
        let gap : sub64 m st.n ≡ m - st.n =
          sub64_exact m st.n v.ahead.0 (omega (arith, fits.value)) in
        rw
          (
            one_more,
            gap,
            mul64_exact (m - st.n) (length d.output + 1) (omega (arith, product, product_short)),
          )
          (add64_exact st.delta _ (omega (arith, v.aim, product, product_short)))

    open-Inside : Inside m basic_count d (open_group f st m) [] s
    unfolding open_group
    open-Inside = record {
      kept = kept_m;
      same_bias = v.same_bias;
      small_bias = v.small_bias;
      counted = v.counted;
      aim = omega (arith, v.aim, open_delta, product);
      earlier = omega arith;
      first = v.first;
      basics = v.basics;
    }

    pub group :
        GroupRun f s m basic_count st.placed fits tree_m d
          (open_group f st m)
          []
          s
          (above m (x ∷ ys))
    group =
        group_run f s m basic_count st.placed fits tree_m d (open_group f st m) [] s
          (above m (x ∷ ys)) refl (above-All m (x ∷ ys)) open-Inside

    split : x ∷ ys ≡ positions m 0 s ++ above m (x ∷ ys)
    split =
        split_value m (x ∷ ys) from_m v.sorted
        ∙ ap (λ (t : List Pair). t ++ above m (x ∷ ys)) (v.complete m v.ahead.0)

    pub inner_run :
        encode_group f st.placed basic_count m (open_group f st m) (x ∷ ys)
        ≡ some (group.group, above m (x ∷ ys))
    inner_run = ap (encode_group f st.placed basic_count m (open_group f st m)) split ∙ group.run

    abbrev pub st' : State f.Tree
    st' = close_group f st m group.group

    pub next_n : add64 m 1 ≡ suc m
    next_n = add64_exact m 1 (omega (arith, fits.value)) ∙ omega arith

    passed_all : group.group.passed ≡ positions m 0 s
    unfolding open_group
    passed_all = group.passed

    kept_after : group.decoder.output ≡ below (suc m) s
    kept_after = group.inside.kept ∙ append-nil (below (suc m) s)

    cleared : group.group.delta ≡ 0
    cleared = group.cleared (inr (positions-cons m 0 s x occurs.0 occurs.1))

    -- The carry into the next value.
    close_delta :
        add64 (sub64 st.handled group.group.prev_c) 1 ≡ length (below m s) - group.group.prev_c + 1
    close_delta =
        let handled : st.handled ≡ length (below m s) = v.counted ∙ ap length kept_m in
        let fits_word : length (below m s) + 1 < 2 ^ 64 =
          omega (arith, length-below-le m s, short) in
        rw
          (
            handled,
            sub64_exact (length (below m s)) group.group.prev_c group.inside.earlier (omega arith),
          )
          (add64_exact (length (below m s) - group.group.prev_c) 1 (omega arith))

    close_aim :
        group.decoder.n * (length group.decoder.output + 1)
          + group.decoder.i
          + (length (below m s) - group.group.prev_c + 1)
        ≡ suc m * (length group.decoder.output + 1)
    close_aim = omega (
      arith,
      group.inside.aim,
      group.inside.earlier,
      cleared,
      ap length kept_after,
      length-below-suc m s,
    )

    sized_after : size (place f st.placed group.group.passed) ≡ length s
    sized_after =
        rw passed_all (size-place f laws st.placed m 0 s (omega (arith, v.sized)) ∙ v.sized)

    tree_after :
        (p : ℕ)
        → p ≤ length s
        → f.prefix_sum (place f st.placed group.group.passed) p 0
          ≡ length (below (suc m) (take p s))
    tree_after p h = rw passed_all (
        place-count f laws st.placed m 0 p s (omega (arith, v.sized)) (omega (arith, v.sized))
        ∙ rw (sub-zero p) (omega (arith, tree_m p h, length-below-suc m (take p s))))

    pub close-Outside : Outside f laws s basic_count group.decoder st' (above m (x ∷ ys))
    unfolding close_group
    close-Outside = record {
      kept = rw next_n kept_after;
      same_bias = group.inside.same_bias;
      small_bias = group.inside.small_bias;
      counted = group.inside.counted;
      aim = rw (next_n, close_delta) close_aim;
      first = group.inside.first;
      basics = group.inside.basics;
      sized = sized_after;
      tree = rw next_n tree_after;
      sorted = above-IsSorted m (x ∷ ys) v.sorted;
      ahead = rw next_n (above-All m (x ∷ ys));
      complete = λ w h.
          with_value-above w m (x ∷ ys) (rw next_n at h)
          ∙ v.complete w (omega (arith, v.ahead.0, next_n));
    }
