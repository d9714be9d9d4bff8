-- ===== src/VdsoRng/Pool/Threads/Apart.antt =====
-- The states of a pool that several threads use, as ranges of bytes.
use mathlib.Core.Logic.{◌≢◌}
use mathlib.Core.List.{Mem, mem-cons_self, mem-cons_of_mem, Pairwise}
use useless.Base.{
  ℕ, ◌+◌, ◌*◌, ◌≤◌, ◌<◌, ◌≡◌, refl, ap, inl, inr, Bool, Bool-cases, true, List, [], All, ◌∷◌, ◌++◌,
  if◌then◌else◌, ◌&&◌, ltb, leb, sum_to, sum_to_ge, sum_to_ge_two, arith,
}
use useless.VdsoRng.Os.{Kernel, SegQueue, SegQueueLaws}
use useless.VdsoRng.Config.{Config, IsUsable}
use useless.VdsoRng.Pool.Ownership.{blocks}
use useless.VdsoRng.Pool.Apart.{Apart, blocks-Apart}
use useless.VdsoRng.Pool.Threads.{holding, SharedPool, Reached}
use useless.VdsoRng.Pool.Threads.Accounted.{Measure, carries}
use useless.VdsoRng.Pool.Threads.Kept.{Kept, Reached-Kept}

module _ (size b : ℕ) where
  -- Whether the range of `size` bytes at `x` has the byte `b`, and how many of the ranges have it.
  covers : ℕ → Bool
  covers x = leb x b && ltb b (x + size)

  covering : List ℕ → ℕ
  unfolding covers
  covering [] = 0
  covering (x ∷ xs) = (if covers x then 1 else 0) + covering xs

  covering-append : (xs ys : List ℕ) → covering (xs ++ ys) ≡ covering xs + covering ys
  unfolding covering
  covering-append [] ys = omega arith
  covering-append (x ∷ xs) ys = omega (arith, covering-append xs ys)

  covered : Measure
  unfolding covering
  covered = record { number = covering; number_empty = refl; number-append = covering-append }

  covering_in : (x : ℕ) → x ≤ b → b < x + size → 1 ≤ covering (x ∷ [])
  unfolding covering
  covering_in x h h' = ground arith

  covering_none :
      (x : ℕ) (xs : List ℕ)
      → covers x ≡ true
      → ((y : ℕ) → Mem y xs → Apart size x y)
      → covering xs ≡ 0
  unfolding covering
  covering_none x [] h apart = refl
  covering_none x (y ∷ ys) h apart =
      ground (
        arith,
        h,
        apart y mem-cons_self,
        covering_none x ys h (λ z m. apart z (mem-cons_of_mem y m)),
      )

  covering_le : (xs : List ℕ) → Pairwise (Apart size) xs → covering xs ≤ 1
  unfolding covering
  covering_le [] p = omega arith
  covering_le (x ∷ xs) (Pairwise.cons h p) = elim (Bool-cases (covers x)) [
    | inl e ↦ ground (arith, e, covering_none x xs e h)
    | inr e ↦ ground (arith, e, covering_le xs p)
  ]

-- Two ranges of which no byte is in both: at the larger of the two addresses.
Apart-of_covering :
    (size x y : ℕ)
    → 0 < size
    → ((b : ℕ) → covering size b (x ∷ []) + covering size b (y ∷ []) ≤ 1)
    → Apart size x y
Apart-of_covering size x y some_byte h both = elim (Bool-cases (leb x y)) [
  | inl e ↦ omega (
    arith,
    h y,
    covering_in size y x (ground arith) both.1,
    covering_in size y y (omega arith) (omega arith),
  )
  | inr e ↦ omega (
    arith,
    h x,
    covering_in size x x (omega arith) (omega arith),
    covering_in size x y (ground arith) both.0,
  )
]

All-Apart :
    (size x : ℕ)
    → 0 < size
    → (xs : List ℕ) → ((b : ℕ) → covering size b (x ∷ []) + covering size b xs ≤ 1)
    → All (Apart size x) xs
All-Apart size x some_byte [] h = tt
All-Apart size x some_byte (y ∷ ys) h = (
  Apart-of_covering size x y some_byte
      (λ b. omega (arith, h b, covering-append size b (y ∷ []) ys)),
  All-Apart size x some_byte ys (λ b. omega (arith, h b, covering-append size b (y ∷ []) ys)),
)

module _ (k : Kernel) (q : SegQueue) (laws : SegQueueLaws q) (c : Config) (u : IsUsable c) (n : ℕ)
    (s : SharedPool k q) (h : Reached k q c n s)
    (apart : Pairwise (Apart (c.page_size * c.pages_per_block)) s.mmaps) where
  abbrev size : ℕ
  size = c.params.size_of_opaque_states

  abbrev hands : ℕ → ℕ
  hands b = sum_to (λ p. covering size b (carries c p)) n s.pc

  one_cover : (b : ℕ) → covering size b (q.to_list s.freelist) + hands b ≤ 1
  unfolding Kept covered
  one_cover b = omega (
    arith,
    Reached-Kept k q laws c (covered size b) n s h,
    covering_le size b (blocks c s.mmaps) (blocks-Apart c u s.mmaps apart),
  )

  in_hands :
      (b i x : ℕ)
      → s.pc i ≡ holding x
      → covering size b (carries c (s.pc i)) ≡ covering size b (x ∷ [])
  in_hands b i x e = ap (λ p. covering size b (carries c p)) e

  -- For a usable configuration and any state that `n` threads reach on a new pool, with their calls of
  -- `get` and their drops of a `LocalState` interleaved in any order: if the mapped blocks have no byte in
  -- common, then the states that two different threads hold have none.
  pub two_held :
      (i j x y : ℕ)
      → i < n
      → j < n
      → i ≢ j
      → s.pc i ≡ holding x
      → s.pc j ≡ holding y
      → Apart size x y
  two_held i j x y hi hj d ei ej = Apart-of_covering size x y u.some_byte (λ b. omega (
    arith,
    one_cover b,
    in_hands b i x ei,
    in_hands b j y ej,
    sum_to_ge_two (λ p. covering size b (carries c p)) n s.pc i j hi hj d,
  ))

  -- Under the same conditions, a state that a thread holds has no byte in common with any state in the
  -- free list.
  pub held_free : (i x : ℕ) → i < n → s.pc i ≡ holding x → All (Apart size x) (q.to_list s.freelist)
  held_free i x hi e = All-Apart size x u.some_byte (q.to_list s.freelist) (λ b. omega (
    arith,
    one_cover b,
    in_hands b i x e,
    sum_to_ge (λ p. covering size b (carries c p)) n s.pc i hi,
  ))
