-- ===== src/Lamlock/Ledger/Fast.antt =====
-- The steps of a call without a node.
use useless.Base.{ℕ, ◌≡◌, Bool, true, false, none, some, put, arith}
use useless.Lamlock.RawLock.{poisoned}
use useless.Lamlock.Solo.{Answer, cancelled}
use useless.Lamlock.Protocol.{nothing, Role, Protocol}
use useless.Lamlock.Protocol.Invariant.{Queue, Inv}
use useless.Lamlock.Atomic.{out, asked, ran, Atomic}
use useless.Lamlock.Ledger.{Claim, Ledger, Fits, Nodes, has_result}
use useless.Lamlock.Ledger.Places.{node-ticket, reads-has_lock}

module _ {T R F : Type 0} {std : Bool} {g : Queue} {a : Atomic T R F} {s : Protocol}
    {l : Ledger T R F} (inv : Inv g s) (agree : Fits s l) (nodes : Nodes std g a s l) (i : ℕ) where
  open agree use {fit}
  open inv use {
    some_queue, one_holder, held, one_server, tail_last, tail_none, numbered, members, owing,
    waiting, poison,
  }
  open nodes use {
    contents, requested, reading, running, replied, out_phase, unrun_own, ran_own, spoilt_own,
    queued, called, has_run, drained, foreign, defined, poisoned_disabled, disabled_lock,
    std_enabled,
  }

  pub is_called-Nodes :
      (s' : Protocol) (f : F)
      → s'.status ≡ s.status
      → ((j : ℕ) → s'.message j ≡ s.message j)
      → l.claim i ≡ Claim.outside
      → Nodes std g
          (record a { phase = put a.phase i (asked f) })
          s'
          (record l { claim = put l.claim i (Claim.asks f) })
  is_called-Nodes s' f st me u = record {
    contents = ground (arith, contents);
    requested = λ j z h. ground (arith, requested j z);
    reading = λ j z h. ground (arith, reading j z);
    running = λ j b z y h. ground (arith, running j b z y, out_phase i);
    replied = λ j z h. ground (arith, replied j z);
    out_phase = λ j. ground (arith, out_phase j);
    unrun_own = λ j h. ground (arith, unrun_own j, me j);
    ran_own = λ j h. ground (arith, ran_own j, me j);
    spoilt_own = λ j h. ground (arith, spoilt_own j, me j);
    queued = λ k p q. ground (arith, queued k, out_phase i);
    called = λ j b h. ground (arith, called j b, out_phase i);
    has_run = λ j b h. ground (arith, has_run j b, out_phase i);
    drained = λ j b h. ground (arith, drained j b, out_phase i);
    foreign = λ j b h. ground (arith, foreign j b);
    defined = λ j. ground (arith, defined j);
    poisoned_disabled = λ h. ground (arith, poisoned_disabled);
    disabled_lock = λ h. ground (arith, disabled_lock);
    std_enabled = λ h. ground (arith, std_enabled);
  }

  pub begins-Nodes :
      (s' : Protocol) (f : F)
      → s'.status ≡ s.status
      → ((j : ℕ) → s'.message j ≡ s.message j)
      → l.claim i ≡ Claim.asks f
      → Nodes std g a s' (record l { claim = put l.claim i (Claim.reads_fast f l.cell) })
  begins-Nodes s' f st me u = record {
    contents = ground (arith, contents);
    requested = λ j z h. ground (arith, requested j z, requested i f);
    reading = λ j z h. ground (arith, reading j z);
    running = λ j b z y h. ground (arith, running j b z y);
    replied = λ j z h. ground (arith, replied j z);
    out_phase = λ j. ground (arith, out_phase j, out_phase i);
    unrun_own = λ j h. ground (arith, unrun_own j, me j);
    ran_own = λ j h. ground (arith, ran_own j, me j);
    spoilt_own = λ j h. ground (arith, spoilt_own j, me j);
    queued = λ k p q. ground (arith, queued k);
    called = λ j b h. ground (arith, called j b);
    has_run = λ j b h. ground (arith, has_run j b);
    drained = λ j b h. ground (arith, drained j b);
    foreign = λ j b h. ground (arith, foreign j b);
    defined = λ j. ground (arith, defined j);
    poisoned_disabled = λ h. ground (arith, poisoned_disabled);
    disabled_lock = λ h. ground (arith, disabled_lock);
    std_enabled = λ h. ground (arith, std_enabled);
  }

  pub ends-Nodes :
      (s' : Protocol) (f : F) (d t : T) (x : Answer R)
      → s'.status ≡ s.status
      → ((j : ℕ) → s'.message j ≡ s.message j)
      → l.claim i ≡ Claim.reads_fast f d
      → has_result {F = F} (ran x) ≡ true
      → Nodes std g
          (record a { contents = t; phase = put a.phase i (ran x) })
          s'
          (record l { cell = t; claim = put l.claim i (Claim.replies x) })
  ends-Nodes s' f d t x st me u v = record {
    contents = ground (arith, contents);
    requested = λ j z h. ground (arith, requested j z);
    reading = λ j z h. ground (
      arith,
      reading j z,
      reads-has_lock inv agree j z,
      reads-has_lock inv agree i d,
      one_holder i,
      one_holder j,
    );
    running = λ j b z y h. ground (arith, running j b z y, fit i, node-ticket inv agree j b, fit j);
    replied = λ j z h. ground (arith, replied j z);
    out_phase = λ j. ground (arith, out_phase j);
    unrun_own = λ j h. ground (arith, unrun_own j, me j);
    ran_own = λ j h. ground (arith, ran_own j, me j);
    spoilt_own = λ j h. ground (arith, spoilt_own j, me j);
    queued = λ k p q. ground (arith, queued k, fit i, members k);
    called = λ j b h. ground (arith, called j b, fit i, node-ticket inv agree j b, fit j);
    has_run = λ j b h. ground (arith, has_run j b, fit i, node-ticket inv agree j b, fit j);
    drained = λ j b h. ground (arith, drained j b, fit i, node-ticket inv agree j b, fit j);
    foreign = λ j b h. ground (arith, foreign j b, fit i, node-ticket inv agree j b, fit j);
    defined = λ j. ground (arith, defined j);
    poisoned_disabled = λ h. ground (arith, poisoned_disabled);
    disabled_lock = λ h. ground (arith, disabled_lock);
    std_enabled = λ h. ground (arith, std_enabled);
  }

  pub is_rejected-Nodes :
      (s' : Protocol) (f : F)
      → s'.status ≡ s.status
      → ((j : ℕ) → s'.message j ≡ s.message j)
      → l.claim i ≡ Claim.asks f
      → s.status ≡ poisoned
      → Nodes std g
          (record a { phase = put a.phase i (ran cancelled) })
          s'
          (record l { claim = put l.claim i (Claim.replies cancelled) })
  is_rejected-Nodes s' f st me u v = record {
    contents = ground (arith, contents);
    requested = λ j z h. ground (arith, requested j z);
    reading = λ j z h. ground (arith, reading j z);
    running = λ j b z y h. ground (arith, running j b z y, fit i, node-ticket inv agree j b, fit j);
    replied = λ j z h. ground (arith, replied j z);
    out_phase = λ j. ground (arith, out_phase j);
    unrun_own = λ j h. ground (arith, unrun_own j, me j);
    ran_own = λ j h. ground (arith, ran_own j, me j);
    spoilt_own = λ j h. ground (arith, spoilt_own j, me j);
    queued = λ k p q. ground (arith, queued k, fit i, members k);
    called = λ j b h. ground (arith, called j b, fit i, node-ticket inv agree j b, fit j);
    has_run = λ j b h. ground (arith, has_run j b, fit i, node-ticket inv agree j b, fit j);
    drained = λ j b h. ground (arith, drained j b, fit i, node-ticket inv agree j b, fit j);
    foreign = λ j b h. ground (arith, foreign j b, fit i, node-ticket inv agree j b, fit j);
    defined = λ j. ground (arith, defined j);
    poisoned_disabled = λ h. ground (arith, poisoned_disabled);
    disabled_lock = λ h. ground (arith, disabled_lock);
    std_enabled = λ h. ground (arith, std_enabled);
  }

  pub makes_node-Nodes :
      (s' : Protocol) (f : F)
      → s'.status ≡ s.status
      → ((j : ℕ) → s'.message j ≡ put s.message i nothing j)
      → l.claim i ≡ Claim.asks f
      → s.role i ≡ Role.out
      → Nodes std g a s' (record l {
        closure = put l.closure i (some f);
        started = put l.started i false;
        result = put l.result i none;
        claim = put l.claim i Claim.fresh;
      })
  makes_node-Nodes s' f st me u v = record {
    contents = ground (arith, contents);
    requested = λ j z h. ground (arith, requested j z);
    reading = λ j z h. ground (arith, reading j z);
    running = λ j b z y h. ground (arith, running j b z y, fit i, node-ticket inv agree j b, fit j);
    replied = λ j z h. ground (arith, replied j z);
    out_phase = λ j. ground (arith, out_phase j, out_phase i);
    unrun_own = λ j h. ground (arith, unrun_own j, me j, requested i f);
    ran_own = λ j h. ground (arith, ran_own j, me j);
    spoilt_own = λ j h. ground (arith, spoilt_own j, me j);
    queued = λ k p q. ground (arith, queued k, fit i, members k);
    called = λ j b h. ground (arith, called j b, fit i, node-ticket inv agree j b, fit j);
    has_run = λ j b h. ground (arith, has_run j b, fit i, node-ticket inv agree j b, fit j);
    drained = λ j b h. ground (arith, drained j b, fit i, node-ticket inv agree j b, fit j);
    foreign = λ j b h. ground (arith, foreign j b, fit i, node-ticket inv agree j b, fit j);
    defined = λ j. ground (arith, defined j);
    poisoned_disabled = λ h. ground (arith, poisoned_disabled);
    disabled_lock = λ h. ground (arith, disabled_lock);
    std_enabled = λ h. ground (arith, std_enabled);
  }

  pub goes_out-Nodes :
      (s' : Protocol) (x : Answer R)
      → s'.status ≡ s.status
      → ((j : ℕ) → s'.message j ≡ s.message j)
      → l.claim i ≡ Claim.replies x
      → Nodes std g
          (record a { phase = put a.phase i out })
          s'
          (record l { claim = put l.claim i Claim.outside })
  goes_out-Nodes s' x st me u = record {
    contents = ground (arith, contents);
    requested = λ j z h. ground (arith, requested j z);
    reading = λ j z h. ground (arith, reading j z);
    running = λ j b z y h. ground (arith, running j b z y, fit i, node-ticket inv agree j b, fit j);
    replied = λ j z h. ground (arith, replied j z);
    out_phase = λ j. ground (arith, out_phase j);
    unrun_own = λ j h. ground (arith, unrun_own j, me j);
    ran_own = λ j h. ground (arith, ran_own j, me j);
    spoilt_own = λ j h. ground (arith, spoilt_own j, me j);
    queued = λ k p q. ground (arith, queued k, fit i, members k);
    called = λ j b h. ground (arith, called j b, fit i, node-ticket inv agree j b, fit j);
    has_run = λ j b h. ground (arith, has_run j b, fit i, node-ticket inv agree j b, fit j);
    drained = λ j b h. ground (arith, drained j b, fit i, node-ticket inv agree j b, fit j);
    foreign = λ j b h. ground (arith, foreign j b, fit i, node-ticket inv agree j b, fit j);
    defined = λ j. ground (arith, defined j);
    poisoned_disabled = λ h. ground (arith, poisoned_disabled);
    disabled_lock = λ h. ground (arith, disabled_lock);
    std_enabled = λ h. ground (arith, std_enabled);
  }
