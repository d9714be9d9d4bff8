-- ===== src/Punyenc/Fenwick.antt =====
-- The Fenwick tree of the `ftree` crate, which crates/punyenc/src/lib.rs calls: a parameter of the
-- encoder, with the documented behaviour that the encoder relies on.
use useless.Base.{ℕ, ◌+◌, ◌≤◌, ◌<◌, ◌≡◌, List, length, take, sum, if◌then◌else◌, ltb}

pub record Fenwick : Type 1 where
  pub Tree : Type 0
  pub from_iter : List ℕ → Tree
  pub prefix_sum : Tree → ℕ → ℕ → ℕ
  pub add_at : Tree → ℕ → ℕ → Tree

-- `prefix_sum tree p 0` is the sum of the slots left of `p`; `add_at tree i x` adds `x` to slot `i`.
-- Both are only described for positions within the tree.
pub record FenwickLaws (f : Fenwick) : Type 0 where
  pub size : f.Tree → ℕ
  pub size-from_iter : (xs : List ℕ) → size (f.from_iter xs) ≡ length xs
  pub size-add_at : (t : f.Tree) (i x : ℕ) → i < size t → size (f.add_at t i x) ≡ size t
  pub prefix_sum-from_iter :
      (xs : List ℕ) (p : ℕ) → p ≤ length xs → f.prefix_sum (f.from_iter xs) p 0 ≡ sum (take p xs)
  pub prefix_sum-add_at :
      (t : f.Tree) (i x p : ℕ)
      → i < size t
      → p ≤ size t
      → f.prefix_sum (f.add_at t i x) p 0 ≡ f.prefix_sum t p 0 + (if ltb i p then x else 0)
