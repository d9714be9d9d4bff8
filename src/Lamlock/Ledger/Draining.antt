-- ===== src/Lamlock/Ledger/Draining.antt =====
-- The steps of a bomb, and of a call that ends with the error of a disabled queue.
use useless.Base.{ℕ, ◌+◌, ◌≡◌, Bool, Option, none, some, put, arith}
use useless.Lamlock.RawLock.{poisoned}
use useless.Lamlock.Solo.{unwinds, cancelled}
use useless.Lamlock.Protocol.{cancel, Role, Protocol}
use useless.Lamlock.Protocol.Invariant.{Queue, Inv}
use useless.Lamlock.Protocol.Members.{successor-order}
use useless.Lamlock.Atomic.{ran, Atomic}
use useless.Lamlock.Ledger.{Claim, Ledger, Fits, Nodes}
use useless.Lamlock.Ledger.Places.{node-ticket}

module _ {T R F : Type 0} {std : Bool} {g : Queue} {a : Atomic T R F} {s : Protocol}
    {l : Ledger T R F} (inv : Inv g s) (agree : Fits s l) (nodes : Nodes std g a s l) (i : ℕ) where
  open agree use {fit}
  open inv use {
    some_queue, one_holder, held, one_server, tail_last, tail_none, numbered, members, owing,
    waiting, poison,
  }
  open nodes use {
    contents, requested, reading, running, replied, out_phase, unrun_own, ran_own, spoilt_own,
    queued, called, has_run, drained, foreign, defined, poisoned_disabled, disabled_lock,
    std_enabled,
  }

  pub finds_poison-Nodes :
      (s' : Protocol)
      → s'.status ≡ s.status
      → ((j : ℕ) → s'.message j ≡ s.message j)
      → l.claim i ≡ Claim.fresh
      → s.status ≡ poisoned
      → Nodes std g a s' (record l { claim = put l.claim i (Claim.drains none i) })
  finds_poison-Nodes s' st me u v = record {
    contents = ground (arith, contents);
    requested = λ j z h. ground (arith, requested j z);
    reading = λ j z h. ground (arith, reading j z);
    running = λ j b z y h. ground (arith, running j b z y);
    replied = λ j z h. ground (arith, replied j z);
    out_phase = λ j. ground (arith, out_phase j, out_phase i);
    unrun_own = λ j h. ground (arith, unrun_own j, me j);
    ran_own = λ j h. ground (arith, ran_own j, me j);
    spoilt_own = λ j h. ground (arith, spoilt_own j, me j, unrun_own i);
    queued = λ k p q. ground (arith, queued k);
    called = λ j b h. ground (arith, called j b);
    has_run = λ j b h. ground (arith, has_run j b);
    drained = λ j b h. ground (arith, drained j b, unrun_own i);
    foreign = λ j b h. ground (arith, foreign j b);
    defined = λ j. ground (arith, defined j);
    poisoned_disabled = λ h. ground (arith, poisoned_disabled);
    disabled_lock = λ h. ground (arith, disabled_lock);
    std_enabled = λ h. ground (arith, std_enabled);
  }

  pub drains_on-Nodes :
      (s' : Protocol) (c n : ℕ) (e : Option ℕ)
      → s'.status ≡ s.status
      → ((j : ℕ) → s'.message j ≡ put s.message c cancel j)
      → l.claim i ≡ Claim.drains e c
      → s.role i ≡ Role.drains_next c n
      → Nodes std
          (record g { detached = g.detached + 1 })
          a
          s'
          (record l { claim = put l.claim i (Claim.drains e n) })
  drains_on-Nodes s' c n e st me u v = record {
    contents = ground (arith, contents);
    requested = λ j z h. ground (arith, requested j z);
    reading = λ j z h. ground (arith, reading j z);
    running = λ j b z y h. ground (arith, running j b z y);
    replied = λ j z h. ground (arith, replied j z);
    out_phase = λ j. ground (arith, out_phase j, out_phase i);
    unrun_own = λ j h. ground (arith, unrun_own j, me j);
    ran_own = λ j h. ground (arith, ran_own j, me j);
    spoilt_own = λ j h. ground (arith, spoilt_own j, me j, drained i c, spoilt_own i);
    queued = λ k p q. ground (arith, queued k);
    called = λ j b h. ground (arith, called j b);
    has_run = λ j b h. ground (arith, has_run j b);
    drained = λ j b h.
        ground (arith, drained j b, drained i c, queued (g.detached + 1), successor-order inv i n);
    foreign = λ j b h. ground (arith, foreign j b);
    defined = λ j. ground (arith, defined j);
    poisoned_disabled = λ h. ground (arith, poisoned_disabled);
    disabled_lock = λ h. ground (arith, disabled_lock);
    std_enabled = λ h. ground (arith, std_enabled);
  }

  pub drained_error-Nodes :
      (s' : Protocol) (c : ℕ)
      → s'.status ≡ s.status
      → ((j : ℕ) → s'.message j ≡ put s.message c cancel j)
      → l.claim i ≡ Claim.drains none c
      → s.status ≡ poisoned
      → Nodes std g a s' (record l { claim = put l.claim i Claim.fails })
  drained_error-Nodes s' c st me u v = record {
    contents = ground (arith, contents);
    requested = λ j z h. ground (arith, requested j z);
    reading = λ j z h. ground (arith, reading j z);
    running = λ j b z y h. ground (arith, running j b z y);
    replied = λ j z h. ground (arith, replied j z);
    out_phase = λ j. ground (arith, out_phase j, out_phase i);
    unrun_own = λ j h. ground (arith, unrun_own j, me j);
    ran_own = λ j h. ground (arith, ran_own j, me j);
    spoilt_own = λ j h. ground (arith, spoilt_own j, me j, drained i c, spoilt_own i);
    queued = λ k p q. ground (arith, queued k);
    called = λ j b h. ground (arith, called j b);
    has_run = λ j b h. ground (arith, has_run j b);
    drained = λ j b h. ground (arith, drained j b);
    foreign = λ j b h. ground (arith, foreign j b);
    defined = λ j. ground (arith, defined j);
    poisoned_disabled = λ h. ground (arith, poisoned_disabled);
    disabled_lock = λ h. ground (arith, disabled_lock);
    std_enabled = λ h. ground (arith, std_enabled);
  }

  pub drained_panic-Nodes :
      (s' : Protocol) (c p : ℕ)
      → s'.status ≡ s.status
      → ((j : ℕ) → s'.message j ≡ put s.message c cancel j)
      → l.claim i ≡ Claim.drains (some p) c
      → s.status ≡ poisoned
      → s.role i ≡ Role.drained c
      → Nodes std g
          (record a { phase = put a.phase i (ran (unwinds p)) })
          s'
          (record l { claim = put l.claim i (Claim.replies (unwinds p)) })
  drained_panic-Nodes s' c p st me u v w = record {
    contents = ground (arith, contents);
    requested = λ j z h. ground (arith, requested j z);
    reading = λ j z h. ground (arith, reading j z);
    running = λ j b z y h. ground (arith, running j b z y, fit i, node-ticket inv agree j b, fit j);
    replied = λ j z h. ground (arith, replied j z);
    out_phase = λ j. ground (arith, out_phase j, out_phase i);
    unrun_own = λ j h. ground (arith, unrun_own j, me j);
    ran_own = λ j h. ground (arith, ran_own j, me j);
    spoilt_own = λ j h. ground (arith, spoilt_own j, me j, drained i c);
    queued = λ k p q. ground (arith, queued k, fit i, members k);
    called = λ j b h. ground (arith, called j b, fit i, node-ticket inv agree j b, fit j);
    has_run = λ j b h. ground (arith, has_run j b, fit i, node-ticket inv agree j b, fit j);
    drained = λ j b h. ground (arith, drained j b, fit i, node-ticket inv agree j b, fit j);
    foreign = λ j b h. ground (arith, foreign j b, fit i, node-ticket inv agree j b, fit j);
    defined = λ j. ground (arith, defined j);
    poisoned_disabled = λ h. ground (arith, poisoned_disabled);
    disabled_lock = λ h. ground (arith, disabled_lock);
    std_enabled = λ h. ground (arith, std_enabled);
  }

  pub fails-Nodes :
      (s' : Protocol)
      → s'.status ≡ s.status
      → ((j : ℕ) → s'.message j ≡ s.message j)
      → l.claim i ≡ Claim.fails
      → Nodes std g
          (record a { phase = put a.phase i (ran cancelled) })
          s'
          (record l { claim = put l.claim i (Claim.replies cancelled) })
  fails-Nodes s' st me u = record {
    contents = ground (arith, contents);
    requested = λ j z h. ground (arith, requested j z);
    reading = λ j z h. ground (arith, reading j z);
    running = λ j b z y h. ground (arith, running j b z y, fit i, node-ticket inv agree j b, fit j);
    replied = λ j z h. ground (arith, replied j z);
    out_phase = λ j. ground (arith, out_phase j, out_phase i);
    unrun_own = λ j h. ground (arith, unrun_own j, me j);
    ran_own = λ j h. ground (arith, ran_own j, me j);
    spoilt_own = λ j h. ground (arith, spoilt_own j, me j);
    queued = λ k p q. ground (arith, queued k, fit i, members k);
    called = λ j b h. ground (arith, called j b, fit i, node-ticket inv agree j b, fit j);
    has_run = λ j b h. ground (arith, has_run j b, fit i, node-ticket inv agree j b, fit j);
    drained = λ j b h. ground (arith, drained j b, fit i, node-ticket inv agree j b, fit j);
    foreign = λ j b h. ground (arith, foreign j b, fit i, node-ticket inv agree j b, fit j);
    defined = λ j. ground (arith, defined j);
    poisoned_disabled = λ h. ground (arith, poisoned_disabled);
    disabled_lock = λ h. ground (arith, disabled_lock);
    std_enabled = λ h. ground (arith, std_enabled);
  }

  pub drops-Nodes :
      (s' : Protocol)
      → s'.status ≡ s.status
      → ((j : ℕ) → s'.message j ≡ s.message j)
      → l.claim i ≡ Claim.fails
      → Nodes std g
          (record a { phase = put a.phase i (ran cancelled) })
          s'
          (record l {
            closure = put l.closure i none;
            claim = put l.claim i (Claim.replies cancelled);
          })
  drops-Nodes s' st me u = record {
    contents = ground (arith, contents);
    requested = λ j z h. ground (arith, requested j z);
    reading = λ j z h. ground (arith, reading j z);
    running = λ j b z y h. ground (arith, running j b z y, fit i, node-ticket inv agree j b, fit j);
    replied = λ j z h. ground (arith, replied j z);
    out_phase = λ j. ground (arith, out_phase j, out_phase i);
    unrun_own = λ j h. ground (arith, unrun_own j, me j);
    ran_own = λ j h. ground (arith, ran_own j, me j);
    spoilt_own = λ j h. ground (arith, spoilt_own j, me j);
    queued = λ k p q. ground (arith, queued k, fit i, members k);
    called = λ j b h. ground (arith, called j b, fit i, node-ticket inv agree j b, fit j);
    has_run = λ j b h. ground (arith, has_run j b, fit i, node-ticket inv agree j b, fit j);
    drained = λ j b h. ground (arith, drained j b, fit i, node-ticket inv agree j b, fit j);
    foreign = λ j b h. ground (arith, foreign j b, fit i, node-ticket inv agree j b, fit j);
    defined = λ j. ground (arith, defined j);
    poisoned_disabled = λ h. ground (arith, poisoned_disabled);
    disabled_lock = λ h. ground (arith, disabled_lock);
    std_enabled = λ h. ground (arith, std_enabled);
  }
