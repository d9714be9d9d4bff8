-- ===== src/Lamlock/Protocol/Members.antt =====
-- What the invariant of the protocol says of the nodes of the queue and of a node that gets its
-- message.
use useless.Base.{
  ℕ, ◌+◌, ◌-◌, ◌<◌, ◌≡◌, ◌⊎◌, refl, inl, inr, Bool, true, false, Option, none, some, arith,
}
use useless.Lamlock.Protocol.{Message, nothing, done, cancel, Role, Protocol}
use useless.Lamlock.Protocol.Invariant.{Queue, Inv, has_lock, first_of, is_waiting, successor}

-- A message that ends a wait.
abbrev pub is_last : Message → Bool
is_last done = true
is_last cancel = true
is_last m = false

pub told-has_lock :
    (m m' : Message) (r : Role) → is_last m ≡ true → has_lock m r ≡ true → has_lock m' r ≡ true
told-has_lock m m' r l h = ground arith

pub told-first_of :
    (m m' : Message) (r : Role) (i c : ℕ)
    → is_last m ≡ true
    → first_of m i r ≡ some c
    → first_of m' i r ≡ some c
told-first_of m m' r i c l h = ground arith

pub told-is_waiting : (m : Message) (r : Role) → is_last m ≡ true → is_waiting m r ≡ false
told-is_waiting m r l = ground arith

pub is_waiting_cases :
    (m : Message) (r : Role)
    → is_waiting m r ≡ true
    → (m ≡ nothing) × ((r ≡ Role.waits) ⊎ ((prev : ℕ) × (r ≡ Role.links prev)))
is_waiting_cases m r h = ground arith

Option-cases : {A : Type 0} (o : Option A) → (o ≡ none) ⊎ ((x : A) × (o ≡ some x))
Option-cases none = inl refl
Option-cases (some x) = inr (x, refl)

module _ {g : Queue} {s : Protocol} (inv : Inv g s) where
  open inv use {
    some_queue, one_server, served, tail_last, numbered, members, linking, linked, known,
  }

  pub first-ticket :
      (i c : ℕ)
      → first_of (s.message i) i (s.role i) ≡ some c
      → (g.server ≡ i)
        × (g.detached < g.attached)
        × (g.order g.detached ≡ c)
        × (g.ticket c ≡ g.detached)
        × ((is_waiting (s.message c) (s.role c) ≡ true) ⊎ (i ≡ c))
  first-ticket i c h = ground (arith, one_server i c, numbered g.detached, members g.detached)

  pub first-last :
      (i c : ℕ)
      → first_of (s.message i) i (s.role i) ≡ some c
      → s.tail ≡ some c
      → g.attached ≡ g.detached + 1
  first-last i c h t = ground (arith, first-ticket i c h, tail_last, numbered (g.attached - 1))

  pub successor-server : (i n : ℕ) → successor (s.role i) ≡ some n → g.server ≡ i
  successor-server i n h = elim (Option-cases (first_of (s.message i) i (s.role i))) [
    | inl e ↦ ground arith
    | inr (c, e) ↦ (one_server i c e).0
  ]

  -- The node after the first, once its link is found.
  pub successor-order :
      (i n : ℕ)
      → successor (s.role i) ≡ some n
      → (g.order (g.detached + 1) ≡ n)
        × (g.ticket n ≡ g.detached + 1)
        × (g.detached + 1 < g.attached)
        × (is_waiting (s.message n) (s.role n) ≡ true)
  successor-order i n h = ground (
    arith,
    known i n,
    linked g.detached,
    linking (g.order (g.detached + 1)) (g.order g.detached),
    numbered (g.detached + 1),
    members (g.detached + 1),
  )

  pub successor-waits :
      (i n : ℕ) → successor (s.role i) ≡ some n → (s.role n ≡ Role.waits) × (s.message n ≡ nothing)
  successor-waits i n h =
      let (e, w) = is_waiting_cases _ _ (successor-order i n h).3 in
      elim w [
        | inl w ↦ (w, e)
        | inr l ↦ ground (arith, known i n, successor-order i n h, linking n l.0, l.1)
      ]

  -- A thread that links its node is not the successor of a node whose link is found.
  pub linking-later :
      (i n j prev : ℕ)
      → successor (s.role i) ≡ some n
      → s.role j ≡ Role.links prev
      → g.detached + 1 < g.ticket j
  linking-later i n j prev h l = ground (arith, known i n, linking j prev)
