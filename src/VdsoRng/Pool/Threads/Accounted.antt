-- ===== src/VdsoRng/Pool/Threads/Accounted.antt =====
-- The states of the pool that several threads use: each state of the mapped blocks is free, held by a
-- thread, or still to be pushed by the thread that grows the pool.
use useless.Base.{
  ℕ, zero, suc, ◌+◌, ◌-◌, ◌*◌, ◌<◌, ◌≡◌, refl, sym, ap, inl, inr, Bool-cases, true, false, List, [],
  ◌∷◌, ◌++◌, List-cases, none, some, ok, if◌then◌else◌, ltb, arith,
}
use useless.VdsoRng.Os.{SegQueue, SegQueueLaws}
use useless.VdsoRng.Config.{Config}
use useless.VdsoRng.Pool.Blocks.{states, pages, block}
use useless.VdsoRng.Pool.Threads.{Place, pushing, leaving, holding}

-- The states of a new block that are not pushed yet, from the state `t` of the page `p` on.
abbrev pub rest : Config → ℕ → ℕ → ℕ → List ℕ
rest c base p t =
    if ltb p c.pages_per_block
    then states c (base + p * c.page_size) (c.states_per_page - t) t
      ++ pages c base (c.pages_per_block - (p + 1)) (p + 1)
    else []

-- The states that a thread has in its hands.
abbrev pub carries : Config → Place → List ℕ
carries c (pushing base p t) = rest c base p t
carries c (leaving (ok ptr)) = ptr ∷ []
carries c (holding ptr) = ptr ∷ []
carries c p = []

-- A number of occurrences, for one state or for all.
pub record Measure : Type 0 where
  pub number : List ℕ → ℕ
  pub number_empty : number [] ≡ 0
  pub number-append : (xs ys : List ℕ) → number (xs ++ ys) ≡ number xs + number ys

suc_sub : (n : ℕ) → n ≡ suc n - 1
suc_sub n = omega arith

sub_zero : (n : ℕ) → n - 0 ≡ n
sub_zero n = omega arith

states_next :
    (c : Config) (page n t : ℕ)
    → 0 < n
    → states c page n t
      ≡ (page + t * c.params.size_of_opaque_states) ∷ states c page (n - 1) (t + 1)
unfolding states
states_next c page zero t h = absurd (omega arith)
states_next c page (suc n) t h =
    ap (λ m. (page + t * c.params.size_of_opaque_states) ∷ states c page m (t + 1)) (suc_sub n)

pages_next :
    (c : Config) (base n p : ℕ)
    → 0 < n
    → pages c base n p
      ≡ states c (base + p * c.page_size) c.states_per_page 0 ++ pages c base (n - 1) (p + 1)
unfolding pages
pages_next c base zero p h = absurd (omega arith)
pages_next c base (suc n) p h =
    ap (λ m. states c (base + p * c.page_size) c.states_per_page 0 ++ pages c base m (p + 1))
      (suc_sub n)

states_none : (c : Config) (page n t : ℕ) → n ≡ 0 → states c page n t ≡ []
unfolding states
states_none c page n t e = rw e refl

pages_none : (c : Config) (base n p : ℕ) → n ≡ 0 → pages c base n p ≡ []
unfolding pages
pages_none c base n p e = rw e refl

sub_sub : (m n : ℕ) → m - n - 1 ≡ m - (n + 1)
sub_sub m n = omega arith

rest_page_of :
    (c : Config) (base p n : ℕ) → n ≡ c.pages_per_block - p → pages c base n p ≡ rest c base p 0
rest_page_of c base p n e = elim (Bool-cases (ltb p c.pages_per_block)) [
  | inl h ↦
      rw
        (
          h,
          pages_next c base n p (ground arith),
          e,
          sub_sub c.pages_per_block p,
          sub_zero c.states_per_page,
        )
        refl
  | inr h ↦ rw (h, pages_none c base n p (ground arith)) refl
]

pub rest_state :
    (c : Config) (base p t : ℕ)
    → ltb p c.pages_per_block ≡ true
    → ltb t c.states_per_page ≡ true
    → rest c base p t
      ≡ (base + p * c.page_size + t * c.params.size_of_opaque_states) ∷ rest c base p (t + 1)
rest_state c base p t h h' =
    rw
      (
        h,
        states_next c (base + p * c.page_size) (c.states_per_page - t) t (ground arith),
        sub_sub c.states_per_page t,
      )
      refl

pub rest_page :
    (c : Config) (base p t : ℕ)
    → ltb p c.pages_per_block ≡ true
    → ltb t c.states_per_page ≡ false
    → rest c base p t ≡ rest c base (p + 1) 0
rest_page c base p t h h' =
    rw (h, states_none c (base + p * c.page_size) (c.states_per_page - t) t (ground arith))
      (rest_page_of c base (p + 1) (c.pages_per_block - (p + 1)) refl)

pub rest-block : (c : Config) (base : ℕ) → rest c base 0 0 ≡ block c base
rest-block c base = sym (rest_page_of c base 0 c.pages_per_block (sym (sub_zero c.pages_per_block)))

pub rest_end : (c : Config) (base p t : ℕ) → ltb p c.pages_per_block ≡ false → rest c base p t ≡ []
rest_end c base p t h = rw h refl

-- A pop takes the front of the queue, or the queue is empty.
pub pop_some :
    (q : SegQueue)
    → SegQueueLaws q
    → (xs ys : q.Queue) (x : ℕ) → q.pop xs ≡ some (x, ys)
    → q.to_list xs ≡ x ∷ q.to_list ys
pop_some q laws xs ys x e = elim (List-cases (q.to_list xs)) [
  | inl empty ↦ ground (arith, laws.pop_empty xs empty)
  | inr (y, rest, full) ↦
      let front = laws.pop_front xs y rest full in ground (arith, front.1, front.2, full)
]

pub pop_none :
    (q : SegQueue) → SegQueueLaws q → (xs : q.Queue) → q.pop xs ≡ none → q.to_list xs ≡ []
pop_none q laws xs e = elim (List-cases (q.to_list xs)) [
  | inl empty ↦ empty
  | inr (y, rest, full) ↦ let front = laws.pop_front xs y rest full in ground (arith, front.1)
]
