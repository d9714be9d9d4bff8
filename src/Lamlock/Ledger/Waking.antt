-- ===== src/Lamlock/Ledger/Waking.antt =====
-- The steps in which a waiter acts on its message or a thread becomes a combiner.
use useless.Base.{ℕ, ◌≡◌, Bool, put, arith}
use useless.Lamlock.RawLock.{unlocked, locked}
use useless.Lamlock.Protocol.{nothing, done, head, cancel, Protocol}
use useless.Lamlock.Protocol.Invariant.{Queue, Inv}
use useless.Lamlock.Atomic.{Atomic}
use useless.Lamlock.Ledger.{Claim, Ledger, Fits, Nodes}

module _ {T R F : Type 0} {std : Bool} {g : Queue} {a : Atomic T R F} {s : Protocol}
    {l : Ledger T R F} (inv : Inv g s) (agree : Fits s l) (nodes : Nodes std g a s l) (i : ℕ) where
  open agree use {fit}
  open inv use {
    some_queue, one_holder, held, one_server, tail_last, tail_none, numbered, members, owing,
    waiting, poison,
  }
  open nodes use {
    contents, requested, reading, running, replied, out_phase, unrun_own, ran_own, spoilt_own,
    queued, called, has_run, drained, foreign, defined, poisoned_disabled, disabled_lock,
    std_enabled,
  }

  pub sees_done-Nodes :
      (s' : Protocol)
      → s'.status ≡ s.status
      → ((j : ℕ) → s'.message j ≡ s.message j)
      → l.claim i ≡ Claim.waits
      → s.message i ≡ done
      → Nodes std g a s' (record l { claim = put l.claim i Claim.combined })
  sees_done-Nodes s' st me u v = record {
    contents = ground (arith, contents);
    requested = λ j z h. ground (arith, requested j z);
    reading = λ j z h. ground (arith, reading j z);
    running = λ j b z y h. ground (arith, running j b z y);
    replied = λ j z h. ground (arith, replied j z);
    out_phase = λ j. ground (arith, out_phase j, out_phase i);
    unrun_own = λ j h. ground (arith, unrun_own j, me j);
    ran_own = λ j h. ground (arith, ran_own j, me j, ran_own i);
    spoilt_own = λ j h. ground (arith, spoilt_own j, me j);
    queued = λ k p q. ground (arith, queued k);
    called = λ j b h. ground (arith, called j b);
    has_run = λ j b h. ground (arith, has_run j b);
    drained = λ j b h. ground (arith, drained j b);
    foreign = λ j b h. ground (arith, foreign j b);
    defined = λ j. ground (arith, defined j);
    poisoned_disabled = λ h. ground (arith, poisoned_disabled);
    disabled_lock = λ h. ground (arith, disabled_lock);
    std_enabled = λ h. ground (arith, std_enabled);
  }

  pub sees_cancel-Nodes :
      (s' : Protocol)
      → s'.status ≡ s.status
      → ((j : ℕ) → s'.message j ≡ s.message j)
      → l.claim i ≡ Claim.waits
      → s.message i ≡ cancel
      → Nodes std g a s' (record l { claim = put l.claim i Claim.fails })
  sees_cancel-Nodes s' st me u v = record {
    contents = ground (arith, contents);
    requested = λ j z h. ground (arith, requested j z);
    reading = λ j z h. ground (arith, reading j z);
    running = λ j b z y h. ground (arith, running j b z y);
    replied = λ j z h. ground (arith, replied j z);
    out_phase = λ j. ground (arith, out_phase j, out_phase i);
    unrun_own = λ j h. ground (arith, unrun_own j, me j);
    ran_own = λ j h. ground (arith, ran_own j, me j);
    spoilt_own = λ j h. ground (arith, spoilt_own j, me j, spoilt_own i);
    queued = λ k p q. ground (arith, queued k);
    called = λ j b h. ground (arith, called j b);
    has_run = λ j b h. ground (arith, has_run j b);
    drained = λ j b h. ground (arith, drained j b);
    foreign = λ j b h. ground (arith, foreign j b);
    defined = λ j. ground (arith, defined j);
    poisoned_disabled = λ h. ground (arith, poisoned_disabled);
    disabled_lock = λ h. ground (arith, disabled_lock);
    std_enabled = λ h. ground (arith, std_enabled);
  }

  pub sees_head-Nodes :
      (s' : Protocol)
      → s'.status ≡ s.status
      → ((j : ℕ) → s'.message j ≡ s.message j)
      → l.claim i ≡ Claim.waits
      → s.message i ≡ head
      → Nodes std g a s' (record l { claim = put l.claim i (Claim.calls i) })
  sees_head-Nodes s' st me u v = record {
    contents = ground (arith, contents);
    requested = λ j z h. ground (arith, requested j z);
    reading = λ j z h. ground (arith, reading j z);
    running = λ j b z y h. ground (arith, running j b z y);
    replied = λ j z h. ground (arith, replied j z);
    out_phase = λ j. ground (arith, out_phase j, out_phase i);
    unrun_own = λ j h. ground (arith, unrun_own j, me j);
    ran_own = λ j h. ground (arith, ran_own j, me j);
    spoilt_own = λ j h. ground (arith, spoilt_own j, me j);
    queued = λ k p q. ground (arith, queued k);
    called = λ j b h. ground (arith, called j b, unrun_own i);
    has_run = λ j b h. ground (arith, has_run j b);
    drained = λ j b h. ground (arith, drained j b);
    foreign = λ j b h. ground (arith, foreign j b);
    defined = λ j. ground (arith, defined j);
    poisoned_disabled = λ h. ground (arith, poisoned_disabled);
    disabled_lock = λ h. ground (arith, disabled_lock);
    std_enabled = λ h. ground (arith, std_enabled);
  }

  pub gets_lock-Nodes :
      (s' : Protocol)
      → s'.status ≡ locked
      → ((j : ℕ) → s'.message j ≡ s.message j)
      → l.claim i ≡ Claim.fresh
      → s.status ≡ unlocked
      → Nodes std
          (record g { holder = i })
          a
          s'
          (record l { claim = put l.claim i (Claim.calls i) })
  gets_lock-Nodes s' st me u v = record {
    contents = ground (arith, contents);
    requested = λ j z h. ground (arith, requested j z);
    reading = λ j z h. ground (arith, reading j z);
    running = λ j b z y h. ground (arith, running j b z y);
    replied = λ j z h. ground (arith, replied j z);
    out_phase = λ j. ground (arith, out_phase j, out_phase i);
    unrun_own = λ j h. ground (arith, unrun_own j, me j);
    ran_own = λ j h. ground (arith, ran_own j, me j);
    spoilt_own = λ j h. ground (arith, spoilt_own j, me j);
    queued = λ k p q. ground (arith, queued k);
    called = λ j b h. ground (arith, called j b, unrun_own i);
    has_run = λ j b h. ground (arith, has_run j b);
    drained = λ j b h. ground (arith, drained j b);
    foreign = λ j b h. ground (arith, foreign j b);
    defined = λ j. ground (arith, defined j);
    poisoned_disabled = λ h. ground (arith, poisoned_disabled);
    disabled_lock = λ h. ground (arith, disabled_lock);
    std_enabled = λ h. ground (arith, std_enabled);
  }

  pub links-Nodes :
      (s' : Protocol)
      → s'.status ≡ s.status
      → ((j : ℕ) → s'.message j ≡ s.message j)
      → l.claim i ≡ Claim.fresh
      → s.message i ≡ nothing
      → Nodes std g a s' (record l { claim = put l.claim i Claim.waits })
  links-Nodes s' st me u v = record {
    contents = ground (arith, contents);
    requested = λ j z h. ground (arith, requested j z);
    reading = λ j z h. ground (arith, reading j z);
    running = λ j b z y h. ground (arith, running j b z y);
    replied = λ j z h. ground (arith, replied j z);
    out_phase = λ j. ground (arith, out_phase j, out_phase i);
    unrun_own = λ j h. ground (arith, unrun_own j, me j);
    ran_own = λ j h. ground (arith, ran_own j, me j);
    spoilt_own = λ j h. ground (arith, spoilt_own j, me j);
    queued = λ k p q. ground (arith, queued k);
    called = λ j b h. ground (arith, called j b);
    has_run = λ j b h. ground (arith, has_run j b);
    drained = λ j b h. ground (arith, drained j b);
    foreign = λ j b h. ground (arith, foreign j b);
    defined = λ j. ground (arith, defined j);
    poisoned_disabled = λ h. ground (arith, poisoned_disabled);
    disabled_lock = λ h. ground (arith, disabled_lock);
    std_enabled = λ h. ground (arith, std_enabled);
  }
