-- ===== src/Lamlock/Ledger.antt =====
-- Which closure and which outcome each node of the queue has, by what the threads do: the part of the
-- invariant that ties the nodes to the calls of an atomic lock.
pub mod Places
pub mod Quiet
pub mod Fast
pub mod Running
pub mod Waking
pub mod Passing
pub mod Draining
use useless.Base.{
  ℕ, ◌+◌, ◌≤◌, ◌<◌, ◌≡◌, ◌⊎◌, Bool, true, false, ◌==◌, ◌||◌, Option, none, some, Result, ok, err,
  put,
}
use useless.Lamlock.RawLock.{Status, locked, poisoned}
use useless.Lamlock.Solo.{Answer, value, unwinds}
use useless.Lamlock.Protocol.{Message, nothing, done, head, cancel, Role, Protocol}
use useless.Lamlock.Protocol.Invariant.{Queue}
use useless.Lamlock.Atomic.{Phase, out, asked, ran, Atomic}

-- What a thread has to do with closures and outcomes.
pub data Claim (T R F : Type 0) : Type 0 where
  outside fresh waits combined fails undefined : Claim T R F
  asks : F → Claim T R F
  reads_fast : F → T → Claim T R F
  replies : Answer R → Claim T R F
  calls finished : (c : ℕ) → Claim T R F
  runs : (c : ℕ) → F → T → Claim T R F
  drains : Option ℕ → (c : ℕ) → Claim T R F

pub record Ledger (T R F : Type 0) : Type 0 where
  pub closure : ℕ → Option F
  pub started : ℕ → Bool
  pub result : ℕ → Option (Result ℕ R)
  pub cell : T
  pub claim : ℕ → Claim T R F

module _ {R F : Type 0} where
  abbrev pub is_asked : Phase R F → Bool
  is_asked (asked f) = true
  is_asked p = false

  abbrev pub is_out : Phase R F → Bool
  is_out out = true
  is_out p = false

  abbrev pub asked_of : Phase R F → Option F
  asked_of (asked f) = some f
  asked_of p = none

  abbrev pub result_of : Phase R F → Option (Result ℕ R)
  result_of (ran (value r)) = some (ok r)
  result_of (ran (unwinds p)) = some (err p)
  result_of p = none

  abbrev pub has_result : Phase R F → Bool
  has_result (ran (value r)) = true
  has_result (ran (unwinds p)) = true
  has_result p = false

module _ {T R F : Type 0} where
  -- Whether a thread with this role can have this claim.
  abbrev pub fits : Claim T R F → Role → Bool
  fits outside Role.out = true
  fits (asks f) Role.out = true
  fits (asks f) Role.fast = true
  fits (reads_fast f d) Role.fast = true
  fits (replies x) Role.out = true
  fits (replies x) Role.fast = true
  fits fresh Role.ready = true
  fits fresh Role.acquires = true
  fits fresh (Role.links prev) = true
  fits waits Role.waits = true
  fits (calls c) (Role.serves c') = c == c'
  fits (runs c f d) (Role.serves c') = c == c'
  fits (finished c) (Role.serves c') = c == c'
  fits (finished c) (Role.gives c' n) = c == c'
  fits (finished c) (Role.frees c') = c == c'
  fits (finished c) (Role.leaves c') = c == c'
  fits combined Role.out = true
  fits combined Role.releases = true
  fits (drains e c) (Role.rebombs c') = c == c'
  fits (drains e c) (Role.bombs c') = c == c'
  fits (drains e c) (Role.drains c') = c == c'
  fits (drains e c) (Role.drained c') = c == c'
  fits (drains e c) (Role.drains_next c' n) = c == c'
  fits fails Role.out = true
  fits undefined Role.out = true
  fits c r = false

  pub record Fits (s : Protocol) (l : Ledger T R F) : Type 0 where
    pub fit : (j : ℕ) → fits (l.claim j) (s.role j) ≡ true

  abbrev pub request : Claim T R F → Option F
  request (asks f) = some f
  request (reads_fast f d) = some f
  request c = none

  abbrev pub reads : Claim T R F → Option T
  reads (reads_fast f d) = some d
  reads (runs c f d) = some d
  reads p = none

  abbrev pub reply : Claim T R F → Option (Answer R)
  reply (replies x) = some x
  reply c = none

  abbrev pub is_outside : Claim T R F → Bool
  is_outside outside = true
  is_outside c = false

  abbrev pub is_undefined : Claim T R F → Bool
  is_undefined undefined = true
  is_undefined c = false

  abbrev pub is_fresh : Claim T R F → Message → Bool
  is_fresh fresh m = true
  is_fresh waits head = true
  is_fresh c m = false

  abbrev pub is_finished : Claim T R F → Message → Bool
  is_finished combined m = true
  is_finished waits done = true
  is_finished c m = false

  abbrev pub is_spoilt : Claim T R F → Message → Bool
  is_spoilt fails m = true
  is_spoilt waits cancel = true
  is_spoilt (drains none c) m = true
  is_spoilt c m = false

  abbrev pub calls_of : Claim T R F → Option ℕ
  calls_of (calls c) = some c
  calls_of p = none

  abbrev pub finished_of : Claim T R F → Option ℕ
  finished_of (finished c) = some c
  finished_of p = none

  abbrev pub drains_of : Claim T R F → Option ℕ
  drains_of (drains e c) = some c
  drains_of p = none

  abbrev pub is_draining : Claim T R F → Bool
  is_draining (drains e c) = true
  is_draining p = false

  -- The node that the thread is at.
  abbrev pub node_of : Claim T R F → Option ℕ
  node_of (calls c) = some c
  node_of (runs c f d) = some c
  node_of (finished c) = some c
  node_of (drains e c) = some c
  node_of p = none

  abbrev pub cursor : Claim T R F → Option ℕ
  cursor (calls c) = some c
  cursor (runs c f d) = some c
  cursor (finished c) = some c
  cursor p = none

  module _ (std : Bool) (g : Queue) (a : Atomic T R F) (s : Protocol) (l : Ledger T R F) where
    -- The node `j` has the closure of its call, which has not run.
    abbrev pub Unrun : ℕ → Type 0
    Unrun j =
        (l.closure j ≡ asked_of (a.phase j)) × (is_asked (a.phase j) ≡ true) × (l.started j ≡ false)

    -- The node `j` has the outcome of its call.
    abbrev pub Ran : ℕ → Type 0
    Ran j = (l.result j ≡ result_of (a.phase j)) × (has_result (a.phase j) ≡ true)

    pub record Nodes : Type 0 where
      pub contents : l.cell ≡ a.contents
      pub requested : (j : ℕ) (f : F) → request (l.claim j) ≡ some f → a.phase j ≡ asked f
      pub reading : (j : ℕ) (d : T) → reads (l.claim j) ≡ some d → d ≡ l.cell
      pub running :
          (j c : ℕ) (f : F) (d : T)
          → l.claim j ≡ runs c f d
          → (a.phase c ≡ asked f) × ((std || l.started c) ≡ true)
      pub replied : (j : ℕ) (x : Answer R) → reply (l.claim j) ≡ some x → a.phase j ≡ ran x
      pub out_phase : (j : ℕ) → is_out (a.phase j) ≡ is_outside (l.claim j)
      pub unrun_own : (j : ℕ) → is_fresh (l.claim j) (s.message j) ≡ true → Unrun j
      pub ran_own : (j : ℕ) → is_finished (l.claim j) (s.message j) ≡ true → Ran j
      pub spoilt_own :
          (j : ℕ)
          → is_spoilt (l.claim j) (s.message j) ≡ true
          → (a.disabled ≡ true) × (l.started j ≡ false → Unrun j)
      pub queued : (k : ℕ) → g.detached < k → k < g.attached → Unrun (g.order k)
      pub called : (j c : ℕ) → calls_of (l.claim j) ≡ some c → Unrun c
      pub has_run : (j c : ℕ) → finished_of (l.claim j) ≡ some c → Ran c
      pub drained :
          (j c : ℕ)
          → drains_of (l.claim j) ≡ some c
          → (a.disabled ≡ true) × (l.started c ≡ false → Unrun c)
      pub foreign : (j c : ℕ) → cursor (l.claim j) ≡ some c → (c ≡ j) ⊎ Ran j
      pub defined : (j : ℕ) → is_undefined (l.claim j) ≡ false
      pub poisoned_disabled : s.status ≡ poisoned → a.disabled ≡ true
      pub disabled_lock :
          a.disabled ≡ true
          → (s.status ≡ poisoned) ⊎ ((is_draining (l.claim g.holder) ≡ true) × (s.status ≡ locked))
      pub std_enabled : std ≡ true → a.disabled ≡ false
