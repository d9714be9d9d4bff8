-- ===== src/Punyenc/Below.antt =====
-- What the encoder of crates/punyenc/src/lib.rs has handled before a value: the code points below
-- it, in input order; and where in the input a value stands.
use useless.Base.{
  ℕ, zero, suc, ◌+◌, ◌≤◌, ◌<◌, ◌≡◌, refl, ap, subst, ◌∙◌, ◌≢◌, ◌⊎◌, inl, inr, List, [], ◌∷◌, ◌++◌,
  length, take, All, append-nil, append_assoc, lt→ltb, not-lt→ltb, if◌then◌else◌, ltb, ◌==◌, arith,
  dec_lt, ℕ_discrete,
}
use useless.Punyenc.Encoder.{Pair}

abbrev pub below : ℕ → List ℕ → List ℕ
below m [] = []
below m (c ∷ cs) = if ltb c m then c ∷ below m cs else below m cs

abbrev pub count : ℕ → List ℕ → ℕ
count m [] = 0
count m (c ∷ cs) = if c == m then suc (count m cs) else count m cs

-- The pairs of value `m` of an input that begins at position `i`.
abbrev pub positions : ℕ → ℕ → List ℕ → List Pair
positions m i [] = []
positions m i (c ∷ cs) = if c == m then (m, i) ∷ positions m (suc i) cs else positions m (suc i) cs

pub below-append : (m : ℕ) (xs ys : List ℕ) → below m (xs ++ ys) ≡ below m xs ++ below m ys
below-append m [] ys = refl
below-append m (c ∷ xs) ys = ground (arith, below-append m xs ys)

pub count-append : (m : ℕ) (xs ys : List ℕ) → count m (xs ++ ys) ≡ count m xs + count m ys
count-append m [] ys = omega arith
count-append m (c ∷ xs) ys = ground (arith, count-append m xs ys)

pub length-below-le : (m : ℕ) (xs : List ℕ) → length (below m xs) ≤ length xs
length-below-le m [] = omega arith
length-below-le m (c ∷ xs) = ground (arith, length-below-le m xs)

pub length-below-suc :
    (m : ℕ) (xs : List ℕ) → length (below (suc m) xs) ≡ length (below m xs) + count m xs
length-below-suc m [] = omega arith
length-below-suc m (c ∷ xs) = ground (arith, length-below-suc m xs)

-- What one more `m` adds.
pub below_here : (m : ℕ) (xs : List ℕ) → below m (m ∷ xs) ≡ below m xs
below_here m xs = ground arith

pub below-suc_snoc :
    (m : ℕ) (xs : List ℕ) → below (suc m) (xs ++ (m ∷ [])) ≡ below (suc m) xs ++ (m ∷ [])
below-suc_snoc m xs = below-append (suc m) xs (m ∷ []) ∙ ap (◌++◌ (below (suc m) xs)) (ground arith)

pub count_snoc : (m : ℕ) (xs : List ℕ) → count m (xs ++ (m ∷ [])) ≡ suc (count m xs)
count_snoc m xs = ground (arith, count-append m xs (m ∷ []))

-- A code point that is not `m` counts on either side of the place that the encoder has reached.
pub below_other :
    (m c : ℕ) (xs ys : List ℕ)
    → c ≢ m
    → below (suc m) (xs ++ (c ∷ [])) ++ below m ys ≡ below (suc m) xs ++ below m (c ∷ ys)
below_other m c xs ys h = elim (dec_lt c m) [
  | yes p ↦
      rw (below-append (suc m) xs (c ∷ []), lt→ltb c m p, lt→ltb c (suc m) (omega arith))
        (append_assoc (below (suc m) xs) (c ∷ []) (below m ys))
  | no p ↦
      rw (below-append (suc m) xs (c ∷ []), not-lt→ltb c m p, not-lt→ltb c (suc m) (omega arith))
        (ap (λ (x : List ℕ). x ++ below m ys) (append-nil (below (suc m) xs)))
]

pub count_other : (m c : ℕ) (xs : List ℕ) → c ≢ m → count m (xs ++ (c ∷ [])) ≡ count m xs
count_other m c xs h = ground (arith, count-append m xs (c ∷ []))

-- No code point from `n` up to `m`.
abbrev pub NoneBetween : ℕ → ℕ → List ℕ → Type 0
NoneBetween n m = All (λ c. (c < n) ⊎ (m ≤ c))

pub below_same : (n m : ℕ) (xs : List ℕ) → n ≤ m → NoneBetween n m xs → below m xs ≡ below n xs
below_same n m [] h b = refl
below_same n m (c ∷ xs) h b = ground (arith, below_same n m xs)

pub below-All : (m : ℕ) (xs : List ℕ) → All (λ c. c < m) xs → below m xs ≡ xs
below-All m [] h = refl
below-All m (c ∷ xs) h = ground (arith, below-All m xs)

pub All-take {κ} : (P : ℕ → Type κ) (k : ℕ) (xs : List ℕ) → All P xs → All P (take k xs)
All-take P zero xs h = tt
All-take P (suc k) [] h = tt
All-take P (suc k) (x ∷ xs) h = (h.0, All-take P k xs h.1)

-- If no value from `n` up to `m` has a position, there is no such code point.
pub NoneBetween-positions :
    (n m i : ℕ) (xs : List ℕ)
    → ((v : ℕ) → n ≤ v → v < m → positions v i xs ≡ [])
    → NoneBetween n m xs
NoneBetween-positions n m i [] h = tt
NoneBetween-positions n m i (c ∷ xs) h = (
  elim (dec_lt c n) [
    | yes p ↦ inl p
    | no p ↦ elim (dec_lt c m) [
      | yes q ↦ absurd (ground (arith, h c (omega arith) q))
      | no q ↦ inr (omega arith)
    ]
  ],
  NoneBetween-positions n m (suc i) xs (λ v a b. ground (arith, h v a b)),
)

-- A value with a position is a code point of the input.
pub positions-All {κ} :
    (P : ℕ → Type κ) (m i : ℕ) (xs : List ℕ) (x : Pair) (ys : List Pair)
    → All P xs
    → positions m i xs ≡ x ∷ ys
    → P m
positions-All P m i [] x ys h e = cc
positions-All P m i (c ∷ xs) x ys h e = elim (ℕ_discrete c m) [
  | yes p ↦ subst P p h.0
  | no p ↦ positions-All P m (suc i) xs x ys h.1 (ground arith)
]

pub positions-cons :
    (m i : ℕ) (xs : List ℕ) (x : Pair) (ys : List Pair) → positions m i xs ≡ x ∷ ys → 0 < count m xs
positions-cons m i [] x ys e = cc
positions-cons m i (c ∷ xs) x ys e = ground (arith, positions-cons m (suc i) xs x ys)
