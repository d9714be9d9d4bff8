-- ===== src/VdsoRng/Pool/Blocks.antt =====
-- The states that one `grow` of crates/vdso-rng/src/pool.rs adds.
use useless.Base.{
  ℕ, zero, suc, ◌+◌, ◌*◌, ◌≡◌, refl, sym, ap, ◌∙◌, List, [], ◌∷◌, ◌++◌, append_assoc, append-nil,
  length, length-append, arith,
}
use useless.VdsoRng.Os.{Kernel, SegQueue, SegQueueLaws}
use useless.VdsoRng.Config.{Config}
use useless.VdsoRng.Pool.{push_states, push_pages}

-- The states `s` to `s + n` of a page, and those of the pages `p` to `p + n` of a block.
unfoldable pub states : Config → ℕ → ℕ → ℕ → List ℕ
states c page zero s = []
states c page (suc n) s = (page + s * c.params.size_of_opaque_states) ∷ states c page n (s + 1)

unfoldable pub pages : Config → ℕ → ℕ → ℕ → List ℕ
unfolding states
pages c base zero p = []
pages c base (suc n) p =
    states c (base + p * c.page_size) c.states_per_page 0 ++ pages c base n (p + 1)

abbrev pub block : Config → ℕ → List ℕ
block c base = pages c base c.pages_per_block 0

module _ (k : Kernel) (q : SegQueue) (laws : SegQueueLaws q) where
  push_states-to_list :
      (c : Config) (page n s : ℕ) (free : q.Queue)
      → q.to_list (push_states k q c page n s free) ≡ q.to_list free ++ states c page n s
  unfolding push_states states
  push_states-to_list c page zero s free = sym (append-nil _)
  push_states-to_list c page (suc n) s free =
      push_states-to_list c page n (s + 1) _
      ∙ rw (laws.to_list-push free (page + s * c.params.size_of_opaque_states))
          (append_assoc (q.to_list free) _ _)

  pub push_pages-to_list :
      (c : Config) (base n p : ℕ) (free : q.Queue)
      → q.to_list (push_pages k q c base n p free) ≡ q.to_list free ++ pages c base n p
  unfolding push_pages pages
  push_pages-to_list c base zero p free = sym (append-nil _)
  push_pages-to_list c base (suc n) p free =
      push_pages-to_list c base n (p + 1) _
      ∙ rw (push_states-to_list c (base + p * c.page_size) c.states_per_page 0 free)
          (append_assoc (q.to_list free) _ _)

length-states : (c : Config) (page n s : ℕ) → length (states c page n s) ≡ n
unfolding states
length-states c page zero s = refl
length-states c page (suc n) s = ap suc (length-states c page n (s + 1))

pub length-pages : (c : Config) (base n p : ℕ) → length (pages c base n p) ≡ n * c.states_per_page
unfolding pages
length-pages c base zero p = omega arith
length-pages c base (suc n) p = omega (
  arith,
  length-append (states c (base + p * c.page_size) c.states_per_page 0) (pages c base n (p + 1)),
  length-states c (base + p * c.page_size) c.states_per_page 0,
  length-pages c base n (p + 1),
)
