-- ===== src/Punyenc/Sorted.antt =====
-- The sorted pairs of crates/punyenc/src/lib.rs: by value, and within a value by position.
use useless.Base.{
  ℕ, suc, ◌≤◌, ◌<◌, ◌≡◌, refl, ◌∙◌, List, [], ◌∷◌, ◌++◌, All, true, false, Bool-cases,
  if◌then◌else◌, ltb, leb, ◌==◌, arith, length, inl, inr,
}
use useless.Punyenc.Encoder.{Pair, non_basic, pair_le, insert, sort}
use useless.Punyenc.Below.{positions}

abbrev pub with_value : ℕ → List Pair → List Pair
with_value m [] = []
with_value m (x ∷ xs) = if x.0 == m then x ∷ with_value m xs else with_value m xs

abbrev pub above : ℕ → List Pair → List Pair
above m [] = []
above m (x ∷ xs) = if ltb m x.0 then x ∷ above m xs else above m xs

-- No pair has a smaller value than one before it.
abbrev pub IsSorted : List Pair → Type 0
IsSorted [] = Unit {0}
IsSorted (x ∷ xs) = All (λ y. x.0 ≤ y.0) xs × IsSorted xs

pair_le-true : (x y : Pair) → pair_le x y ≡ true → x.0 ≤ y.0
unfolding pair_le
pair_le-true x y e = ground arith

pair_le-false : (x y : Pair) → pair_le x y ≡ false → y.0 ≤ x.0
unfolding pair_le
pair_le-false x y e = ground arith

pair_le-before : (x y : Pair) → pair_le x y ≡ false → x.1 < y.1 → y.0 < x.0
unfolding pair_le
pair_le-before x y e h = ground arith

insert-All {κ} :
    (P : Pair → Type κ) (x : Pair) (xs : List Pair) → P x → All P xs → All P (insert x xs)
unfolding insert
insert-All P x [] p h = (p, tt)
insert-All P x (y ∷ ys) p h = elim (Bool-cases (pair_le x y)) [
  | inl e ↦ rw e (p, h)
  | inr e ↦ rw e (h.0, insert-All P x ys p h.1)
]

sort-All {κ} : (P : Pair → Type κ) (xs : List Pair) → All P xs → All P (sort xs)
unfolding sort
sort-All P [] h = tt
sort-All P (x ∷ xs) h = insert-All P x (sort xs) h.0 (sort-All P xs h.1)

All-le : (v w : ℕ) (xs : List Pair) → v ≤ w → All (λ y. w ≤ y.0) xs → All (λ y. v ≤ y.0) xs
All-le v w [] h a = tt
All-le v w (x ∷ xs) h a = (omega arith, All-le v w xs h a.1)

insert-IsSorted : (x : Pair) (xs : List Pair) → IsSorted xs → IsSorted (insert x xs)
unfolding insert
insert-IsSorted x [] s = (tt, tt)
insert-IsSorted x (y ∷ ys) s = elim (Bool-cases (pair_le x y)) [
  | inl e ↦ rw e (((pair_le-true x y e), All-le x.0 y.0 ys (pair_le-true x y e) s.0), s)
  | inr e ↦
      rw e (insert-All (λ z. y.0 ≤ z.0) x ys (pair_le-false x y e) s.0, insert-IsSorted x ys s.1)
]

pub sort-IsSorted : (xs : List Pair) → IsSorted (sort xs)
unfolding sort
sort-IsSorted [] = tt
sort-IsSorted (x ∷ xs) = insert-IsSorted x (sort xs) (sort-IsSorted xs)

with_value-insert :
    (m : ℕ) (x : Pair) (xs : List Pair)
    → All (λ y. x.1 < y.1) xs
    → with_value m (insert x xs) ≡ with_value m (x ∷ xs)
unfolding insert
with_value-insert m x [] h = refl
with_value-insert m x (y ∷ ys) h = elim (Bool-cases (pair_le x y)) [
  | inl e ↦ rw e
  | inr e ↦ rw e (ground (arith, pair_le-before x y e h.0, with_value-insert m x ys h.1))
]

-- The pairs of the input stand at its positions, and their values are not basic.
non_basic-All :
    (k i : ℕ) (cs : List ℕ)
    → k ≤ i
    → All (λ x. k ≤ x.1) (non_basic i cs) × All (λ x. 128 ≤ x.0) (non_basic i cs)
unfolding non_basic
non_basic-All k i [] h = (tt, tt)
non_basic-All k i (c ∷ cs) h = ground (arith, non_basic-All k (suc i) cs)

pub sort-value_le : (i : ℕ) (cs : List ℕ) → All (λ x. 128 ≤ x.0) (sort (non_basic i cs))
sort-value_le i cs = sort-All (λ x. 128 ≤ x.0) _ (non_basic-All i i cs (omega arith)).1

-- After the sort, the pairs of one non-basic value stand in the order of their positions in the input.
pub with_value-sort :
    (m i : ℕ) (cs : List ℕ) → 128 ≤ m → with_value m (sort (non_basic i cs)) ≡ positions m i cs
unfolding sort non_basic
with_value-sort m i [] h = refl
with_value-sort m i (c ∷ cs) h =
    let rest : List Pair = sort (non_basic (suc i) cs) in
    elim (Bool-cases (leb 128 c)) [
      | inl e ↦ rw e (
          with_value-insert m (c, i) rest
            (sort-All (λ x. i < x.1) _ (non_basic-All (suc i) (suc i) cs (omega arith)).0)
          ∙ ground (arith, with_value-sort m (suc i) cs h))
      | inr e ↦ rw e (ground (arith, with_value-sort m (suc i) cs h))
    ]

pub with_value_none :
    (v m : ℕ) (xs : List Pair) → v < m → All (λ y. m ≤ y.0) xs → with_value v xs ≡ []
with_value_none v m [] h a = refl
with_value_none v m (x ∷ xs) h a = ground (arith, with_value_none v m xs)

above_self : (m w : ℕ) (xs : List Pair) → m < w → All (λ y. w ≤ y.0) xs → above m xs ≡ xs
above_self m w [] h a = refl
above_self m w (x ∷ xs) h a = ground (arith, above_self m w xs)

-- A sorted list whose values are at least `m` begins with the pairs of value `m`.
pub split_value :
    (m : ℕ) (xs : List Pair)
    → All (λ y. m ≤ y.0) xs
    → IsSorted xs
    → xs ≡ with_value m xs ++ above m xs
split_value m [] h s = refl
split_value m (x ∷ xs) h s =
    ground (arith, split_value m xs h.1 s.1, with_value_none m x.0 xs, above_self m x.0 xs)

pub above-All : (m : ℕ) (xs : List Pair) → All (λ y. m < y.0) (above m xs)
above-All m [] = tt
above-All m (x ∷ xs) = ground (arith, above-All m xs)

above-All-le : (v m : ℕ) (xs : List Pair) → All (λ y. v ≤ y.0) xs → All (λ y. v ≤ y.0) (above m xs)
above-All-le v m [] h = tt
above-All-le v m (x ∷ xs) h = ground (arith, above-All-le v m xs)

pub above-IsSorted : (m : ℕ) (xs : List Pair) → IsSorted xs → IsSorted (above m xs)
above-IsSorted m [] s = tt
above-IsSorted m (x ∷ xs) s = ground (arith, above-IsSorted m xs, above-All-le x.0 m xs)

pub with_value-above :
    (v m : ℕ) (xs : List Pair) → m < v → with_value v (above m xs) ≡ with_value v xs
with_value-above v m [] h = refl
with_value-above v m (x ∷ xs) h = ground (arith, with_value-above v m xs)

pub length-above-le : (m : ℕ) (xs : List Pair) → length (above m xs) ≤ length xs
length-above-le m [] = omega arith
length-above-le m (x ∷ xs) = ground (arith, length-above-le m xs)
