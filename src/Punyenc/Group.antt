-- ===== src/Punyenc/Group.antt =====
-- The inner loop of `encode` in crates/punyenc/src/lib.rs: the occurrences of one value `m`.
use useless.Base.{
  some, ==_iff, ℕ, ◌+◌, ◌≤◌, ◌<◌, ◌≡◌, refl, sym, ap, ◌∙◌, ◌⊎◌, inl, List, [], ◌∷◌, ◌++◌,
  append-nil, append_assoc, length, length-append, length_snoc, ◌≢◌, take, All, arith, subst,
  ℕ_discrete,
}
use useless.Punyenc.Bootstring.{push_delta}
use useless.Punyenc.Fenwick.{Fenwick}
use useless.Punyenc.Encoder.{Pair, Group, occurrence, encode_group}
use useless.Punyenc.Rfc.{Decoder, insertion}
use useless.Punyenc.Integers.{push_delta-append}
use useless.Punyenc.Below.{below, count, positions, below-append, below_other, count_other}
use useless.Punyenc.Reads.{Reads, done, next, Reads-trans}
use useless.Punyenc.Occurrence.{
  Inside, Fits, delta, decoder_after, group_after, delta_short, insertion_after, occurrence_after,
  after-Inside,
}

module _ (f : Fenwick) (s : List ℕ) (m basic_count : ℕ) (t : f.Tree) (fits : Fits s m)
    (tree : (p : ℕ) → p ≤ length s → f.prefix_sum t p 0 ≡ length (below m (take p s))) where
  -- The run of the inner loop over the occurrences in `b`, up to the pairs `rest`.
  pub record GroupRun (d : Decoder) (g : Group) (a b : List ℕ) (rest : List Pair) : Type 0 where
    pub decoder : Decoder
    pub group : Group
    pub written : List ℕ
    pub run :
        encode_group f t basic_count m g (positions m (length a) b ++ rest) ≡ some (group, rest)
    pub reads : Reads d written decoder
    pub output : group.output ≡ g.output ++ written
    pub passed : group.passed ≡ g.passed ++ positions m (length a) b
    pub inside : Inside m basic_count decoder group (a ++ b) []
    pub cleared : (g.delta ≡ 0) ⊎ (0 < count m b) → group.delta ≡ 0

  -- The values of `rest` are greater than `m`, so the loop stops there.
  stop :
      (g : Group) (rest : List Pair)
      → All (λ y. m < y.0) rest
      → encode_group f t basic_count m g rest ≡ some (g, rest)
  unfolding encode_group
  stop g [] h = refl
  stop g (x ∷ rest) h = ground arith

  go_on :
      (g g' : Group) (i : ℕ) (xs : List Pair)
      → occurrence f t basic_count g (m, i) ≡ some g'
      → encode_group f t basic_count m g ((m, i) ∷ xs) ≡ encode_group f t basic_count m g' xs
  unfolding encode_group
  go_on g g' i xs e = rw ((==_iff m m).1 refl, e) refl

  other-Inside :
      (d : Decoder) (g : Group) (a b : List ℕ) (c : ℕ)
      → c ≢ m
      → Inside m basic_count d g a (c ∷ b)
      → Inside m basic_count d g (a ++ (c ∷ [])) b
  other-Inside d g a b c h v = record {
    kept = v.kept ∙ sym (below_other m c a b h);
    same_bias = v.same_bias;
    small_bias = v.small_bias;
    counted = v.counted;
    aim = omega (arith, v.aim, count_other m c a h);
    earlier = omega (
      arith,
      v.earlier,
      ap length (below-append m a (c ∷ [])),
      length-append (below m a) (below m (c ∷ [])),
    );
    first = v.first;
    basics = v.basics;
  }

  -- A code point that is not `m` has no pair in the group.
  pass :
      (d : Decoder) (g : Group) (a b : List ℕ) (rest : List Pair) (c : ℕ)
      → c ≢ m
      → GroupRun d g (a ++ (c ∷ [])) b rest
      → GroupRun d g a (c ∷ b) rest
  pass d g a b rest c h r =
      let same : positions m (length a) (c ∷ b) ≡ positions m (length (a ++ (c ∷ []))) b =
        rw (length_snoc a c) (ground arith) in
      record {
        decoder = r.decoder;
        group = r.group;
        written = r.written;
        run = rw same r.run;
        reads = r.reads;
        output = r.output;
        passed = rw same r.passed;
        inside = rw (append_assoc a (c ∷ []) b) at (r.inside);
        cleared = λ z. r.cleared (ground arith);
      }

  -- An occurrence is encoded, and the rest of the group follows.
  occur :
      (d : Decoder) (g : Group) (a b : List ℕ) (rest : List Pair) (e : s ≡ a ++ (m ∷ b))
      (v : Inside m basic_count d g a (m ∷ b))
      → GroupRun
          (decoder_after f s m basic_count t fits tree d g a b e v)
          (group_after f s m basic_count t fits tree d g a b e v)
          (a ++ (m ∷ []))
          b
          rest
      → GroupRun d g a (m ∷ b) rest
  occur d g a b rest e v r =
      let same : positions m (length a) (m ∷ b)
          ≡ (m, length a) ∷ positions m (length (a ++ (m ∷ []))) b =
        rw (length_snoc a m) (ground arith) in
      let start : Reads d (push_delta [] (delta f s m basic_count t fits tree d g a b e v) d.bias)
          (insertion d (d.i + delta f s m basic_count t fits tree d g a b e v)) =
        next (delta f s m basic_count t fits tree d g a b e v) done
          (delta_short f s m basic_count t fits tree d g a b e v)
          (omega (arith, v.same_bias, v.small_bias)) in
      let first : Reads d (push_delta [] (delta f s m basic_count t fits tree d g a b e v) d.bias)
          (decoder_after f s m basic_count t fits tree d g a b e v) =
        rw (insertion_after f s m basic_count t fits tree d g a b e v) at start in
      record {
        decoder = r.decoder;
        group = r.group;
        written =
            push_delta [] (delta f s m basic_count t fits tree d g a b e v) d.bias ++ r.written;
        run = rw same (
            go_on g (group_after f s m basic_count t fits tree d g a b e v) (length a) _
              (occurrence_after f s m basic_count t fits tree d g a b e v)
            ∙ r.run);
        reads = Reads-trans first r.reads;
        output =
            r.output
            ∙ rw
                (
                  push_delta-append g.output (delta f s m basic_count t fits tree d g a b e v)
                      g.bias,
                  v.same_bias,
                )
                (append_assoc g.output _ r.written);
        passed = rw same (r.passed ∙ append_assoc g.passed _ _);
        inside = rw (append_assoc a (m ∷ []) b) at (r.inside);
        cleared = λ z. r.cleared (inl refl);
      }

  pub group_run :
      (d : Decoder) (g : Group) (a b : List ℕ) (rest : List Pair)
      → s ≡ a ++ b
      → All (λ y. m < y.0) rest
      → Inside m basic_count d g a b
      → GroupRun d g a b rest
  group_run d g a [] rest e h v = record {
    decoder = d;
    group = g;
    written = [];
    run = stop g rest h;
    reads = done;
    output = sym (append-nil _);
    passed = sym (append-nil _);
    inside = rw append-nil v;
    cleared = λ z. ground arith;
  }
  group_run d g a (c ∷ b) rest e h v = elim (ℕ_discrete c m) [
    | yes here ↦
        subst
          (λ x. s ≡ a ++ (x ∷ b) → Inside m basic_count d g a (x ∷ b) → GroupRun d g a (x ∷ b) rest)
          (sym here)
          (λ e' v'. occur d g a b rest e' v' (
            group_run (decoder_after f s m basic_count t fits tree d g a b e' v')
              (group_after f s m basic_count t fits tree d g a b e' v') (a ++ (m ∷ [])) b rest
              (e' ∙ sym (append_assoc a (m ∷ []) b)) h
              (after-Inside f s m basic_count t fits tree d g a b e' v')))
          e v
    | no other ↦ pass d g a b rest c other (
        group_run d g (a ++ (c ∷ [])) b rest (e ∙ sym (append_assoc a (c ∷ []) b)) h
          (other-Inside d g a b c other v))
  ]
