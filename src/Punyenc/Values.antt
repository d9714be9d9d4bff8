-- ===== src/Punyenc/Values.antt =====
-- The outer loop of `encode` in crates/punyenc/src/lib.rs: one round for each value.
use useless.Base.{
  ℕ, zero, suc, ◌^◌, ◌≤◌, ◌<◌, ◌≡◌, refl, sym, ap, ◌∙◌, List, [], ◌∷◌, ◌++◌, some, append-nil,
  append_assoc, length, All, arith, add64,
}
use useless.Punyenc.Fenwick.{Fenwick, FenwickLaws}
use useless.Punyenc.Encoder.{
  Pair, Group, State, encode_group, open_group, close_group, encode_groups,
}
use useless.Punyenc.Rfc.{Decoder}
use useless.Punyenc.Below.{below_same, below-All, NoneBetween, NoneBetween-positions}
use useless.Punyenc.Sorted.{above, length-above-le}
use useless.Punyenc.Reads.{Reads, done, Reads-trans}
use useless.Punyenc.Group.{GroupRun}
use useless.Punyenc.Round.{Outside, fits, tree_m, group, inner_run, next_n, st', close-Outside}

module _ (f : Fenwick) (laws : FenwickLaws f) (s : List ℕ) (chars : All (λ c. c < 0x11_0000) s)
    (short : length s < 2 ^ 43) (basic_count : ℕ) where
  open laws use {size}

  -- The rest of the text that the outer loop writes: it is read to the whole input.
  pub record LoopRun (d : Decoder) (st : State f.Tree) (xs : List Pair) (fuel : ℕ) : Type 0 where
    pub written : List ℕ
    pub run : encode_groups f fuel basic_count st xs ≡ some (st.output ++ written)
    pub decoder : Decoder
    pub reads : Reads d written decoder
    pub whole : decoder.output ≡ s

  ended :
      (d : Decoder) (st : State f.Tree)
      → Outside f laws s basic_count d st []
      → st.n ≤ 0x11_0000
      → d.output ≡ s
  ended d st v h =
      let none : NoneBetween st.n 0x11_0000 s =
        NoneBetween-positions st.n 0x11_0000 0 s (λ w lo hi. sym (v.complete w lo)) in
      v.kept ∙ sym (below_same st.n 0x11_0000 s h none) ∙ below-All 0x11_0000 s chars

  encode_groups_last :
      (fuel : ℕ) (st : State f.Tree) → encode_groups f fuel basic_count st [] ≡ some st.output
  unfolding encode_groups
  encode_groups_last zero st = refl
  encode_groups_last (suc fuel) st = refl

  encode_groups_step :
      (fuel : ℕ) (st : State f.Tree) (x : Pair) (ys : List Pair) {g : Group} {rest : List Pair}
      → encode_group f st.placed basic_count x.0 (open_group f st x.0) (x ∷ ys) ≡ some (g, rest)
      → encode_groups f (suc fuel) basic_count st (x ∷ ys)
        ≡ encode_groups f fuel basic_count (close_group f st x.0 g) rest
  unfolding encode_groups
  encode_groups_step fuel st x ys e = rw (e, encode_groups) refl

  shorter : (x : Pair) (ys : List Pair) → length (above x.0 (x ∷ ys)) ≤ length ys
  shorter x ys = ground (arith, length-above-le x.0 ys)

  state_after :
      (st : State f.Tree) (k : ℕ) (g : Group)
      → ((close_group f st k g).n ≡ add64 k 1)
        × ((close_group f st k g).output ≡ g.output)
        × ((open_group f st k).output ≡ st.output)
  unfolding close_group open_group
  state_after st k g = (refl, refl, refl)

  pub loop_run :
      (fuel : ℕ) (d : Decoder) (st : State f.Tree) (xs : List Pair)
      → length xs ≤ fuel
      → st.n ≤ 0x11_0000
      → Outside f laws s basic_count d st xs
      → LoopRun d st xs fuel
  loop_run fuel d st [] h small v = record {
    written = [];
    run = encode_groups_last fuel st ∙ ap some (sym (append-nil st.output));
    decoder = d;
    reads = done;
    whole = ended d st v small;
  }
  loop_run zero d st (x ∷ ys) h small v = absurd (omega arith)
  loop_run (suc fuel) d st (x ∷ ys) h small v =
      let r : GroupRun f s x.0 basic_count st.placed
          (fits f laws s chars short basic_count d st x ys v)
          (tree_m f laws s chars short basic_count d st x ys v) d (open_group f st x.0) [] s
          (above x.0 (x ∷ ys)) =
        group f laws s chars short basic_count d st x ys v in
      let more : LoopRun r.decoder (st' f laws s chars short basic_count d st x ys v)
          (above x.0 (x ∷ ys)) fuel =
        loop_run fuel r.decoder (st' f laws s chars short basic_count d st x ys v)
          (above x.0 (x ∷ ys)) (omega (arith, shorter x ys))
          (omega (
            arith,
            (state_after st x.0 r.group).0,
            next_n f laws s chars short basic_count d st x ys v,
            (fits f laws s chars short basic_count d st x ys v).value,
          ))
          (close-Outside f laws s chars short basic_count d st x ys v) in
      let output : (st' f laws s chars short basic_count d st x ys v).output
          ≡ st.output ++ r.written =
        (state_after st x.0 r.group).1
        ∙ r.output
        ∙ ap (λ (t : List ℕ). t ++ r.written) (state_after st x.0 r.group).2 in
      record {
        written = r.written ++ more.written;
        run =
            encode_groups_step fuel st x ys (inner_run f laws s chars short basic_count d st x ys v)
            ∙ more.run
            ∙ ap (λ (t : List ℕ). some (t ++ more.written)) output
            ∙ ap some (append_assoc st.output r.written more.written);
        decoder = more.decoder;
        reads = Reads-trans r.reads more.reads;
        whole = more.whole;
      }
