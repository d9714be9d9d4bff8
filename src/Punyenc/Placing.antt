-- ===== src/Punyenc/Placing.antt =====
-- The Fenwick tree of `encode` in crates/punyenc/src/lib.rs after a value has been placed in it.
use useless.Base.{
  ℕ, zero, suc, ◌+◌, ◌-◌, ◌≤◌, ◌≡◌, refl, List, [], ◌∷◌, length, take, ◌==◌, arith, if◌then◌else◌,
  ltb, dec_lt, lt→ltb, not-lt→ltb,
}
use useless.Punyenc.Fenwick.{Fenwick, FenwickLaws}
use useless.Punyenc.Encoder.{place}
use useless.Punyenc.Below.{count, positions}

count-take_nil : (m k : ℕ) → count m (take k []) ≡ 0
count-take_nil m zero = refl
count-take_nil m (suc k) = refl

count-take_cons :
    (m i p c : ℕ) (b : List ℕ)
    → count m (take (p - i) (c ∷ b))
      ≡ (if ltb i p then (if c == m then 1 else 0) else 0) + count m (take (p - suc i) b)
count-take_cons m i p c b = elim (dec_lt i p) [
  | yes h ↦ let e : p - i ≡ suc (p - suc i) = omega arith in rw (e, lt→ltb i p h) (ground arith)
  | no h ↦
      let e : p - i ≡ 0 = omega arith in
      let e' : p - suc i ≡ 0 = omega arith in rw (e, e', not-lt→ltb i p h) refl
]

module _ (f : Fenwick) (laws : FenwickLaws f) where
  open laws use {size, size-add_at, prefix_sum-add_at}

  -- Placing the positions of `m` keeps the size of the tree, and adds to a prefix count the
  -- occurrences of `m` in that prefix.
  pub size-place :
      (t : f.Tree) (m i : ℕ) (b : List ℕ)
      → i + length b ≤ size t
      → size (place f t (positions m i b)) ≡ size t
  unfolding place
  size-place t m i [] h = refl
  size-place t m i (c ∷ b) h =
      ground (
        arith,
        size-add_at t i 1,
        size-place t m (suc i) b,
        size-place (f.add_at t i 1) m (suc i) b,
      )

  pub place-count :
      (t : f.Tree) (m i p : ℕ) (b : List ℕ)
      → i + length b ≤ size t
      → p ≤ size t
      → f.prefix_sum (place f t (positions m i b)) p 0
        ≡ f.prefix_sum t p 0 + count m (take (p - i) b)
  unfolding place
  place-count t m i p [] h k = rw (count-take_nil m (p - i)) (omega arith)
  place-count t m i p (c ∷ b) h k = ground (
    arith,
    count-take_cons m i p c b,
    size-add_at t i 1,
    prefix_sum-add_at t i 1 p,
    place-count t m (suc i) p b,
    place-count (f.add_at t i 1) m (suc i) p b,
  )
