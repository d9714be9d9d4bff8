-- ===== src/Lamlock/Ledger/Quiet.antt =====
-- The steps in which no closure, outcome or message moves: the nodes keep what they have.
use useless.Base.{ℕ, ◌+◌, ◌≤◌, ◌≡◌, Bool, true, false, some, put, arith}
use useless.Lamlock.RawLock.{unlocked, locked, poisoned}
use useless.Lamlock.Protocol.{Protocol}
use useless.Lamlock.Protocol.Invariant.{Queue, Inv, has_lock}
use useless.Lamlock.Atomic.{Atomic}
use useless.Lamlock.Ledger.{Claim, Ledger, Fits, Nodes, drains_of, is_draining}

module _ {T R F : Type 0} {std : Bool} {g : Queue} {a : Atomic T R F} {s : Protocol}
    {l : Ledger T R F} (inv : Inv g s) (agree : Fits s l) (nodes : Nodes std g a s l) (i : ℕ) where
  open agree use {fit}
  open inv use {
    some_queue, one_holder, held, one_server, tail_last, tail_none, numbered, members, owing,
    waiting, poison,
  }
  open nodes use {
    contents, requested, reading, running, replied, out_phase, unrun_own, ran_own, spoilt_own,
    queued, called, has_run, drained, foreign, defined, poisoned_disabled, disabled_lock,
    std_enabled,
  }

  pub stays-Nodes :
      (s' : Protocol)
      → s'.status ≡ s.status
      → ((j : ℕ) → s'.message j ≡ s.message j)
      → Nodes std g a s' l
  stays-Nodes s' st me = record {
    contents = ground (arith, contents);
    requested = λ j z h. ground (arith, requested j z);
    reading = λ j z h. ground (arith, reading j z);
    running = λ j b z y h. ground (arith, running j b z y);
    replied = λ j z h. ground (arith, replied j z);
    out_phase = λ j. ground (arith, out_phase j);
    unrun_own = λ j h. ground (arith, unrun_own j, me j);
    ran_own = λ j h. ground (arith, ran_own j, me j);
    spoilt_own = λ j h. ground (arith, spoilt_own j, me j);
    queued = λ k p q. ground (arith, queued k);
    called = λ j b h. ground (arith, called j b);
    has_run = λ j b h. ground (arith, has_run j b);
    drained = λ j b h. ground (arith, drained j b);
    foreign = λ j b h. ground (arith, foreign j b);
    defined = λ j. ground (arith, defined j);
    poisoned_disabled = λ h. ground (arith, poisoned_disabled);
    disabled_lock = λ h. ground (arith, disabled_lock);
    std_enabled = λ h. ground (arith, std_enabled);
  }

  pub attaches-Nodes :
      (s' : Protocol)
      → s'.status ≡ s.status
      → ((j : ℕ) → s'.message j ≡ s.message j)
      → l.claim i ≡ Claim.fresh
      → g.detached ≤ g.attached
      → Nodes std
          (record g {
            attached = g.attached + 1;
            order = put g.order g.attached i;
            ticket = put g.ticket i g.attached;
          })
          a
          s'
          l
  attaches-Nodes s' st me u v = record {
    contents = ground (arith, contents);
    requested = λ j z h. ground (arith, requested j z);
    reading = λ j z h. ground (arith, reading j z);
    running = λ j b z y h. ground (arith, running j b z y);
    replied = λ j z h. ground (arith, replied j z);
    out_phase = λ j. ground (arith, out_phase j);
    unrun_own = λ j h. ground (arith, unrun_own j, me j);
    ran_own = λ j h. ground (arith, ran_own j, me j);
    spoilt_own = λ j h. ground (arith, spoilt_own j, me j);
    queued = λ k p q. ground (arith, queued k, unrun_own i);
    called = λ j b h. ground (arith, called j b);
    has_run = λ j b h. ground (arith, has_run j b);
    drained = λ j b h. ground (arith, drained j b);
    foreign = λ j b h. ground (arith, foreign j b);
    defined = λ j. ground (arith, defined j);
    poisoned_disabled = λ h. ground (arith, poisoned_disabled);
    disabled_lock = λ h. ground (arith, disabled_lock);
    std_enabled = λ h. ground (arith, std_enabled);
  }

  pub attaches_first-Nodes :
      (s' : Protocol)
      → s'.status ≡ s.status
      → ((j : ℕ) → s'.message j ≡ s.message j)
      → l.claim i ≡ Claim.fresh
      → g.detached ≤ g.attached
      → Nodes std
          (record g {
            attached = g.attached + 1;
            order = put g.order g.attached i;
            ticket = put g.ticket i g.attached;
            server = i;
          })
          a
          s'
          l
  attaches_first-Nodes s' st me u v = record {
    contents = ground (arith, contents);
    requested = λ j z h. ground (arith, requested j z);
    reading = λ j z h. ground (arith, reading j z);
    running = λ j b z y h. ground (arith, running j b z y);
    replied = λ j z h. ground (arith, replied j z);
    out_phase = λ j. ground (arith, out_phase j);
    unrun_own = λ j h. ground (arith, unrun_own j, me j);
    ran_own = λ j h. ground (arith, ran_own j, me j);
    spoilt_own = λ j h. ground (arith, spoilt_own j, me j);
    queued = λ k p q. ground (arith, queued k, unrun_own i);
    called = λ j b h. ground (arith, called j b);
    has_run = λ j b h. ground (arith, has_run j b);
    drained = λ j b h. ground (arith, drained j b);
    foreign = λ j b h. ground (arith, foreign j b);
    defined = λ j. ground (arith, defined j);
    poisoned_disabled = λ h. ground (arith, poisoned_disabled);
    disabled_lock = λ h. ground (arith, disabled_lock);
    std_enabled = λ h. ground (arith, std_enabled);
  }

  pub empties-Nodes :
      (s' : Protocol) (c : ℕ)
      → s'.status ≡ s.status
      → ((j : ℕ) → s'.message j ≡ s.message j)
      → Nodes std (record g { detached = g.attached; keeper = put g.keeper c i }) a s' l
  empties-Nodes s' c st me = record {
    contents = ground (arith, contents);
    requested = λ j z h. ground (arith, requested j z);
    reading = λ j z h. ground (arith, reading j z);
    running = λ j b z y h. ground (arith, running j b z y);
    replied = λ j z h. ground (arith, replied j z);
    out_phase = λ j. ground (arith, out_phase j);
    unrun_own = λ j h. ground (arith, unrun_own j, me j);
    ran_own = λ j h. ground (arith, ran_own j, me j);
    spoilt_own = λ j h. ground (arith, spoilt_own j, me j);
    queued = λ k p q. ground (arith, queued k);
    called = λ j b h. ground (arith, called j b);
    has_run = λ j b h. ground (arith, has_run j b);
    drained = λ j b h. ground (arith, drained j b);
    foreign = λ j b h. ground (arith, foreign j b);
    defined = λ j. ground (arith, defined j);
    poisoned_disabled = λ h. ground (arith, poisoned_disabled);
    disabled_lock = λ h. ground (arith, disabled_lock);
    std_enabled = λ h. ground (arith, std_enabled);
  }

  pub takes-Nodes :
      (s' : Protocol)
      → s'.status ≡ locked
      → ((j : ℕ) → s'.message j ≡ s.message j)
      → s.status ≡ unlocked
      → Nodes std (record g { holder = i }) a s' l
  takes-Nodes s' st me u = record {
    contents = ground (arith, contents);
    requested = λ j z h. ground (arith, requested j z);
    reading = λ j z h. ground (arith, reading j z);
    running = λ j b z y h. ground (arith, running j b z y);
    replied = λ j z h. ground (arith, replied j z);
    out_phase = λ j. ground (arith, out_phase j);
    unrun_own = λ j h. ground (arith, unrun_own j, me j);
    ran_own = λ j h. ground (arith, ran_own j, me j);
    spoilt_own = λ j h. ground (arith, spoilt_own j, me j);
    queued = λ k p q. ground (arith, queued k);
    called = λ j b h. ground (arith, called j b);
    has_run = λ j b h. ground (arith, has_run j b);
    drained = λ j b h. ground (arith, drained j b);
    foreign = λ j b h. ground (arith, foreign j b);
    defined = λ j. ground (arith, defined j);
    poisoned_disabled = λ h. ground (arith, poisoned_disabled);
    disabled_lock = λ h. ground (arith, disabled_lock);
    std_enabled = λ h. ground (arith, std_enabled);
  }

  pub gives_back-Nodes :
      (s' : Protocol)
      → s'.status ≡ unlocked
      → ((j : ℕ) → s'.message j ≡ s.message j)
      → has_lock (s.message i) (s.role i) ≡ true
      → is_draining (l.claim i) ≡ false
      → Nodes std g a s' l
  gives_back-Nodes s' st me u v = record {
    contents = ground (arith, contents);
    requested = λ j z h. ground (arith, requested j z);
    reading = λ j z h. ground (arith, reading j z);
    running = λ j b z y h. ground (arith, running j b z y);
    replied = λ j z h. ground (arith, replied j z);
    out_phase = λ j. ground (arith, out_phase j);
    unrun_own = λ j h. ground (arith, unrun_own j, me j);
    ran_own = λ j h. ground (arith, ran_own j, me j);
    spoilt_own = λ j h. ground (arith, spoilt_own j, me j);
    queued = λ k p q. ground (arith, queued k);
    called = λ j b h. ground (arith, called j b);
    has_run = λ j b h. ground (arith, has_run j b);
    drained = λ j b h. ground (arith, drained j b);
    foreign = λ j b h. ground (arith, foreign j b);
    defined = λ j. ground (arith, defined j);
    poisoned_disabled = λ h. ground (arith, poisoned_disabled);
    disabled_lock = λ h. ground (arith, disabled_lock, one_holder i);
    std_enabled = λ h. ground (arith, std_enabled);
  }

  pub stores_poison-Nodes :
      (s' : Protocol) (c : ℕ)
      → s'.status ≡ poisoned
      → ((j : ℕ) → s'.message j ≡ s.message j)
      → drains_of (l.claim i) ≡ some c
      → Nodes std g a s' l
  stores_poison-Nodes s' c st me u = record {
    contents = ground (arith, contents);
    requested = λ j z h. ground (arith, requested j z);
    reading = λ j z h. ground (arith, reading j z);
    running = λ j b z y h. ground (arith, running j b z y);
    replied = λ j z h. ground (arith, replied j z);
    out_phase = λ j. ground (arith, out_phase j);
    unrun_own = λ j h. ground (arith, unrun_own j, me j);
    ran_own = λ j h. ground (arith, ran_own j, me j);
    spoilt_own = λ j h. ground (arith, spoilt_own j, me j);
    queued = λ k p q. ground (arith, queued k);
    called = λ j b h. ground (arith, called j b);
    has_run = λ j b h. ground (arith, has_run j b);
    drained = λ j b h. ground (arith, drained j b);
    foreign = λ j b h. ground (arith, foreign j b);
    defined = λ j. ground (arith, defined j);
    poisoned_disabled = λ h. ground (arith, poisoned_disabled, drained i c);
    disabled_lock = λ h. ground (arith, disabled_lock);
    std_enabled = λ h. ground (arith, std_enabled);
  }
