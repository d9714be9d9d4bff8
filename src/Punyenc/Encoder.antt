-- ===== src/Punyenc/Encoder.antt =====
-- crates/punyenc/src/lib.rs, lines 67 to 180: `encode`. Its loops are functions over a record of the
-- variables that they change. `encode` is `none` where the code panics, or if the fuel of the outer
-- loop ran out.
use mathlib.Core.Option
use useless.Base.{
  ℕ, zero, suc, ◌%◌, Bool, List, [], ◌∷◌, ◌++◌, map, Option, none, some, length, if◌then◌else◌, ltb,
  leb, ◌==◌, add64, sub64, mul64,
}
use useless.Punyenc.Bootstring.{initial_n, initial_bias, push_delta, adapt}
use useless.Punyenc.Fenwick.{Fenwick}

-- A non-basic code point and its position in the input.
abbrev pub Pair : Type 0
Pair = ℕ × ℕ

-- The basic code points, which the encoder emits verbatim, and their number.
unfoldable pub push_basic : List ℕ → List ℕ → ℕ → List ℕ × ℕ
push_basic [] output basic_count = (output, basic_count)
push_basic (c ∷ cs) output basic_count =
    if ltb c initial_n
    then push_basic cs (output ++ (c % 256 ∷ [])) (add64 basic_count 1)
    else push_basic cs output basic_count

-- `enumerate`, `filter` and `map`: the non-basic code points as pairs.
unfoldable pub non_basic : ℕ → List ℕ → List Pair
non_basic i [] = []
non_basic i (c ∷ cs) =
    if leb initial_n c then (c, i) ∷ non_basic (suc i) cs else non_basic (suc i) cs

-- The lexicographic order of the tuples.
unfoldable pub pair_le : Pair → Pair → Bool
pair_le (v, p) (w, q) = if v == w then leb p q else ltb v w

-- `pairs.sort()`, which orders the tuples.
unfoldable pub insert : Pair → List Pair → List Pair
unfolding pair_le
insert x [] = x ∷ []
insert x (y ∷ ys) = if pair_le x y then x ∷ y ∷ ys else y ∷ insert x ys

unfoldable pub sort : List Pair → List Pair
unfolding insert
sort [] = []
sort (x ∷ xs) = insert x (sort xs)

-- The variables of the loop over the occurrences of one value, and the pairs that it has passed.
pub record Group : Type 0 where
  pub output : List ℕ
  pub delta : ℕ
  pub bias : ℕ
  pub handled : ℕ
  pub prev_c : ℕ
  pub passed : List Pair

-- The variables of the loop over the values.
pub record State (Tree : Type 0) : Type 0 where
  pub output : List ℕ
  pub placed : Tree
  pub n : ℕ
  pub delta : ℕ
  pub bias : ℕ
  pub handled : ℕ

module _ (f : Fenwick) where
  -- One round of the inner loop, at the pair `x`; `none` is a panic.
  unfoldable pub occurrence : f.Tree → ℕ → Group → Pair → Option Group
  occurrence placed basic_count g x =
      let c_p : ℕ = f.prefix_sum placed x.1 0 in
      let delta : ℕ = add64 g.delta (sub64 c_p g.prev_c) in
      Option.map
        (λ bias. record {
          output = push_delta g.output delta g.bias;
          delta = 0;
          bias = bias;
          handled = add64 g.handled 1;
          prev_c = c_p;
          passed = g.passed ++ (x ∷ []);
        })
        (adapt delta (add64 g.handled 1) (g.handled == basic_count))

  -- The inner loop: the pairs of value `m`, and the pairs that are left.
  unfoldable pub encode_group : f.Tree → ℕ → ℕ → Group → List Pair → Option (Group × List Pair)
  unfolding occurrence
  encode_group placed basic_count m g [] = some (g, [])
  encode_group placed basic_count m g (x ∷ xs) =
      if x.0 == m
      then elim (occurrence placed basic_count g x) [
        | none ↦ none
        | some g' ↦ encode_group placed basic_count m g' xs
      ]
      else some (g, x ∷ xs)

  -- `placed.add_at(p, 1)` for the pairs of a group.
  unfoldable pub place : f.Tree → List Pair → f.Tree
  place t [] = t
  place t (x ∷ xs) = place (f.add_at t x.1 1) xs

  -- The start of a round of the outer loop: `delta` is moved on to the value `m`.
  unfoldable pub open_group : State f.Tree → ℕ → Group
  open_group s m = record {
    output = s.output;
    delta = add64 s.delta (mul64 (sub64 m s.n) (add64 s.handled 1));
    bias = s.bias;
    handled = s.handled;
    prev_c = 0;
    passed = [];
  }

  -- The end of a round of the outer loop.
  unfoldable pub close_group : State f.Tree → ℕ → Group → State f.Tree
  unfolding place
  close_group s m g = record {
    output = g.output;
    placed = place s.placed g.passed;
    n = add64 m 1;
    delta = add64 (sub64 s.handled g.prev_c) 1;
    bias = g.bias;
    handled = g.handled;
  }

  -- The outer loop: each round takes a pair at least. `none` is a panic, or a loop that has not ended.
  unfoldable pub encode_groups : ℕ → ℕ → State f.Tree → List Pair → Option (List ℕ)
  unfolding encode_group open_group close_group
  encode_groups fuel basic_count s [] = some s.output
  encode_groups zero basic_count s (x ∷ xs) = none
  encode_groups (suc fuel) basic_count s (x ∷ xs) =
      elim (encode_group s.placed basic_count x.0 (open_group s x.0) (x ∷ xs)) [
        | none ↦ none
        | some (g, rest) ↦ encode_groups fuel basic_count (close_group s x.0 g) rest
      ]

  unfoldable pub start : List ℕ → List ℕ → ℕ → State f.Tree
  start code_points output basic_count = record {
    output = output;
    placed = f.from_iter (map (λ c. if ltb c initial_n then 1 else 0) code_points);
    n = initial_n;
    delta = 0;
    bias = initial_bias;
    handled = basic_count;
  }

  unfoldable pub encode : List ℕ → Option (List ℕ)
  unfolding push_basic non_basic sort start encode_groups
  encode code_points =
      let basic : List ℕ × ℕ = push_basic code_points [] 0 in
      let output : List ℕ = if ltb 0 basic.1 then basic.0 ++ (b'-' ∷ []) else basic.0 in
      let pairs : List Pair = sort (non_basic 0 code_points) in
      encode_groups (length pairs) basic.1 (start code_points output basic.1) pairs
