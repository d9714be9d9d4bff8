-- ===== src/Lamlock/Protocol/Invariant.antt =====
-- The invariant of the queue's protocol. The queue is the sequence of the attached nodes from the
-- `detached`-th on, and each node in it has its number there.
use useless.Base.{ℕ, ◌+◌, ◌-◌, ◌≤◌, ◌<◌, ◌≡◌, ◌⊎◌, Bool, true, false, Option, none, some}
use useless.Lamlock.RawLock.{locked, poisoned}
use useless.Lamlock.Protocol.{Message, nothing, head, Role, Protocol}

-- Whether the thread has the lock.
abbrev pub has_lock : Message → Role → Bool
has_lock m Role.fast = true
has_lock m (Role.serves c) = true
has_lock m (Role.gives c n) = true
has_lock m (Role.frees c) = true
has_lock m Role.releases = true
has_lock m (Role.bombs c) = true
has_lock head Role.waits = true
has_lock m r = false

-- The node that the thread `i` is in charge of, as the first of the queue.
abbrev pub first_of : Message → ℕ → Role → Option ℕ
first_of m i Role.acquires = some i
first_of m i (Role.serves c) = some c
first_of m i (Role.gives c n) = some c
first_of m i (Role.bombs c) = some c
first_of m i (Role.rebombs c) = some c
first_of m i (Role.drains c) = some c
first_of m i (Role.drains_next c n) = some c
first_of head i Role.waits = some i
first_of m i r = none

-- The node out of the queue that the thread still has to tell its end.
abbrev pub owed : Role → Option ℕ
owed (Role.frees c) = some c
owed (Role.leaves c) = some c
owed (Role.drained c) = some c
owed r = none

-- Whether the thread waits for a message.
abbrev pub is_waiting : Message → Role → Bool
is_waiting nothing Role.waits = true
is_waiting nothing (Role.links prev) = true
is_waiting m r = false

-- Whether the thread knows that the lock is poisoned.
abbrev pub knows_poison : Role → Bool
knows_poison (Role.rebombs c) = true
knows_poison (Role.drains c) = true
knows_poison (Role.drains_next c n) = true
knows_poison (Role.drained c) = true
knows_poison r = false

-- The successor that the thread knows.
abbrev pub successor : Role → Option ℕ
successor (Role.gives c n) = some n
successor (Role.drains_next c n) = some n
successor r = none

-- The queue: the numbers of attached and detached nodes, the nodes in their order, a node's number,
-- and the threads with the lock, with the first node, and with a node that is owed its end.
pub record Queue : Type 0 where
  pub attached : ℕ
  pub detached : ℕ
  pub order : ℕ → ℕ
  pub ticket : ℕ → ℕ
  pub holder : ℕ
  pub server : ℕ
  pub keeper : ℕ → ℕ

pub record Inv (g : Queue) (s : Protocol) : Type 0 where
  pub some_queue : g.detached ≤ g.attached
  pub one_holder :
      (i : ℕ) → has_lock (s.message i) (s.role i) ≡ true → (g.holder ≡ i) × (s.status ≡ locked)
  pub held : s.status ≡ locked → has_lock (s.message g.holder) (s.role g.holder) ≡ true
  pub one_server :
      (i c : ℕ)
      → first_of (s.message i) i (s.role i) ≡ some c
      → (g.server ≡ i) × (g.detached < g.attached) × (g.order g.detached ≡ c)
  pub served :
      g.detached < g.attached
      → first_of (s.message g.server) g.server (s.role g.server) ≡ some (g.order g.detached)
  pub tail_last : g.detached < g.attached → s.tail ≡ some (g.order (g.attached - 1))
  pub tail_none : g.attached ≤ g.detached → s.tail ≡ none
  pub numbered : (k : ℕ) → g.detached ≤ k → k < g.attached → g.ticket (g.order k) ≡ k
  pub members :
      (k : ℕ)
      → g.detached ≤ k
      → k < g.attached
      → (is_waiting (s.message (g.order k)) (s.role (g.order k)) ≡ true)
        ⊎ ((k ≡ g.detached) × (g.server ≡ g.order k))
  pub linking :
      (j prev : ℕ)
      → s.role j ≡ Role.links prev
      → (s.message j ≡ nothing)
        × (g.detached < g.ticket j)
        × (g.ticket j < g.attached)
        × (g.order (g.ticket j) ≡ j)
        × (g.order (g.ticket j - 1) ≡ prev)
        × (s.next prev ≡ none)
  pub linked :
      (k : ℕ)
      → g.detached ≤ k
      → k + 1 < g.attached
      → (s.next (g.order k) ≡ some (g.order (k + 1)))
        ⊎ (s.role (g.order (k + 1)) ≡ Role.links (g.order k))
  pub last_unlinked : g.detached < g.attached → s.next (g.order (g.attached - 1)) ≡ none
  pub known :
      (i n : ℕ)
      → successor (s.role i) ≡ some n
      → (g.detached + 1 < g.attached) × (s.next (g.order g.detached) ≡ some n)
  pub owing :
      (i c : ℕ)
      → owed (s.role i) ≡ some c
      → (g.keeper c ≡ i)
        × (g.ticket c < g.detached)
        × ((c ≡ i) ⊎ (is_waiting (s.message c) (s.role c) ≡ true))
  pub waiting :
      (j : ℕ)
      → is_waiting (s.message j) (s.role j) ≡ true
      → ((g.detached ≤ g.ticket j) × (g.ticket j < g.attached) × (g.order (g.ticket j) ≡ j))
        ⊎ (owed (s.role (g.keeper j)) ≡ some j)
  pub fresh : (i : ℕ) → s.role i ≡ Role.ready → (s.next i ≡ none) × (s.message i ≡ nothing)
  pub poison : (i : ℕ) → knows_poison (s.role i) ≡ true → s.status ≡ poisoned
