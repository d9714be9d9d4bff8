-- ===== src/Lamlock/Ledger/Places.antt =====
-- Where the nodes stand that the threads are at, by the invariant of the queue.
use useless.Base.{ℕ, ◌≤◌, ◌<◌, ◌≡◌, ◌≢◌, ◌⊎◌, inl, inr, true, some, arith}
use useless.Lamlock.Protocol.{Role, Protocol, nothing}
use useless.Lamlock.Protocol.Invariant.{Queue, Inv, has_lock, first_of, owed, is_waiting}
use useless.Lamlock.Protocol.Members.{first-ticket, is_waiting_cases}
use useless.Lamlock.Ledger.{Ledger, Fits, node_of, reads}

module _ {T R F : Type 0} {g : Queue} {s : Protocol} {l : Ledger T R F} (inv : Inv g s)
    (agree : Fits s l) where
  open agree use {fit}
  open inv use {one_holder, one_server, owing, numbered, linking}

  node-place :
      (j c : ℕ)
      → node_of (l.claim j) ≡ some c
      → (first_of (s.message j) j (s.role j) ≡ some c) ⊎ (owed (s.role j) ≡ some c)
  node-place j c h = ground (arith, fit j)

  -- The node that a thread is at is the first or is out of the queue.
  node-first :
      (j c : ℕ)
      → node_of (l.claim j) ≡ some c
      → (g.ticket c ≤ g.detached) × ((c ≡ j) ⊎ (is_waiting (s.message c) (s.role c) ≡ true))
  node-first j c h = ground (arith, node-place j c, first-ticket inv j c, owing j c)

  -- It is its own, or its thread waits and has linked it.
  pub node-ticket :
      (j c : ℕ)
      → node_of (l.claim j) ≡ some c
      → (g.ticket c ≤ g.detached) × ((c ≡ j) ⊎ ((s.role c ≡ Role.waits) × (s.message c ≡ nothing)))
  node-ticket j c h =
      let (t, w) = node-first j c h in
      elim w [
        | inl e ↦ (t, inl e)
        | inr q ↦ elim (is_waiting_cases _ _ q).1 [
          | inl r ↦ (t, inr (r, (is_waiting_cases _ _ q).0))
          | inr r ↦ ground (arith, linking c r.0, r.1)
        ]
      ]

  -- Two threads are not at one node.
  pub nodes-apart :
      (i j c : ℕ) → node_of (l.claim i) ≡ some c → node_of (l.claim j) ≡ some c → i ≡ j
  nodes-apart i j c h h' = ground (
    arith,
    node-place i c,
    node-place j c,
    first-ticket inv i c,
    first-ticket inv j c,
    owing i c,
    owing j c,
  )

  -- A node that a thread is at has no later place in the queue.
  pub node-queued :
      (j c k : ℕ) → node_of (l.claim j) ≡ some c → g.detached < k → k < g.attached → g.order k ≢ c
  node-queued j c k h p q e = ground (arith, node-ticket j c h, numbered k)

  -- Who is with the data has the lock.
  pub reads-has_lock :
      (j : ℕ) (d : T) → reads (l.claim j) ≡ some d → has_lock (s.message j) (s.role j) ≡ true
  reads-has_lock j d h = ground (arith, fit j)
