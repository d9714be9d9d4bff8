-- ===== src/Lamlock/Ledger/Passing.antt =====
-- The steps in which a combiner tells nodes their messages, and in which a call reads its result.
use useless.Base.{ℕ, ◌+◌, ◌≡◌, Bool, true, put, arith}
use useless.Lamlock.Solo.{Answer}
use useless.Lamlock.Protocol.{done, head, Role, Protocol}
use useless.Lamlock.Protocol.Invariant.{Queue, Inv}
use useless.Lamlock.Protocol.Members.{successor-order, successor-waits}
use useless.Lamlock.Atomic.{ran, Atomic}
use useless.Lamlock.Ledger.{Claim, Ledger, Fits, Nodes, result_of, has_result}
use useless.Lamlock.Ledger.Places.{node-ticket}

module _ {T R F : Type 0} {std : Bool} {g : Queue} {a : Atomic T R F} {s : Protocol}
    {l : Ledger T R F} (inv : Inv g s) (agree : Fits s l) (nodes : Nodes std g a s l) (i : ℕ) where
  open agree use {fit}
  open inv use {
    some_queue, one_holder, held, one_server, tail_last, tail_none, numbered, members, owing,
    waiting, poison,
  }
  open nodes use {
    contents, requested, reading, running, replied, out_phase, unrun_own, ran_own, spoilt_own,
    queued, called, has_run, drained, foreign, defined, poisoned_disabled, disabled_lock,
    std_enabled,
  }

  pub passes-Nodes :
      (s' : Protocol) (c n : ℕ)
      → s'.status ≡ s.status
      → ((j : ℕ) → s'.message j ≡ put s.message c done j)
      → l.claim i ≡ Claim.finished c
      → s.role i ≡ Role.gives c n
      → Nodes std
          (record g { detached = g.detached + 1 })
          a
          s'
          (record l { claim = put l.claim i (Claim.calls n) })
  passes-Nodes s' c n st me u v = record {
    contents = ground (arith, contents);
    requested = λ j z h. ground (arith, requested j z);
    reading = λ j z h. ground (arith, reading j z);
    running = λ j b z y h. ground (arith, running j b z y);
    replied = λ j z h. ground (arith, replied j z);
    out_phase = λ j. ground (arith, out_phase j, out_phase i);
    unrun_own = λ j h. ground (arith, unrun_own j, me j);
    ran_own = λ j h. ground (arith, ran_own j, me j, has_run i c);
    spoilt_own = λ j h. ground (arith, spoilt_own j, me j);
    queued = λ k p q. ground (arith, queued k);
    called = λ j b h. ground (arith, called j b, queued (g.detached + 1), successor-order inv i n);
    has_run = λ j b h. ground (arith, has_run j b);
    drained = λ j b h. ground (arith, drained j b);
    foreign = λ j b h. ground (arith, foreign j b, foreign i c, has_run i c);
    defined = λ j. ground (arith, defined j);
    poisoned_disabled = λ h. ground (arith, poisoned_disabled);
    disabled_lock = λ h. ground (arith, disabled_lock);
    std_enabled = λ h. ground (arith, std_enabled);
  }

  pub hands_over-Nodes :
      (s' : Protocol) (c n : ℕ)
      → s'.status ≡ s.status
      → ((j : ℕ) → s'.message j ≡ put s.message n head j)
      → l.claim i ≡ Claim.finished c
      → s.role i ≡ Role.gives c n
      → Nodes std
          (record g {
            detached = g.detached + 1;
            keeper = put g.keeper c i;
            server = n;
            holder = n;
          })
          a
          s'
          l
  hands_over-Nodes s' c n st me u v = record {
    contents = ground (arith, contents);
    requested = λ j z h. ground (arith, requested j z);
    reading = λ j z h. ground (arith, reading j z);
    running = λ j b z y h. ground (arith, running j b z y);
    replied = λ j z h. ground (arith, replied j z);
    out_phase = λ j. ground (arith, out_phase j);
    unrun_own =
        λ j h. ground (arith, unrun_own j, me j, queued (g.detached + 1), successor-order inv i n);
    ran_own = λ j h. ground (arith, ran_own j, me j, successor-waits inv i n, fit n);
    spoilt_own =
        λ j h. ground (arith, spoilt_own j, me j, successor-waits inv i n, fit n, drained j);
    queued = λ k p q. ground (arith, queued k);
    called = λ j b h. ground (arith, called j b);
    has_run = λ j b h. ground (arith, has_run j b);
    drained = λ j b h. ground (arith, drained j b);
    foreign = λ j b h. ground (arith, foreign j b);
    defined = λ j. ground (arith, defined j);
    poisoned_disabled = λ h. ground (arith, poisoned_disabled);
    disabled_lock = λ h. ground (arith, disabled_lock, one_holder i, fit i);
    std_enabled = λ h. ground (arith, std_enabled);
  }

  pub tells-Nodes :
      (s' : Protocol) (c : ℕ)
      → s'.status ≡ s.status
      → ((j : ℕ) → s'.message j ≡ put s.message c done j)
      → l.claim i ≡ Claim.finished c
      → Nodes std g a s' (record l { claim = put l.claim i Claim.combined })
  tells-Nodes s' c st me u = record {
    contents = ground (arith, contents);
    requested = λ j z h. ground (arith, requested j z);
    reading = λ j z h. ground (arith, reading j z);
    running = λ j b z y h. ground (arith, running j b z y);
    replied = λ j z h. ground (arith, replied j z);
    out_phase = λ j. ground (arith, out_phase j, out_phase i);
    unrun_own = λ j h. ground (arith, unrun_own j, me j, node-ticket inv agree i c, fit j);
    ran_own = λ j h.
        ground (arith, ran_own j, me j, node-ticket inv agree i c, fit j, has_run i c, foreign i c);
    spoilt_own = λ j h. ground (arith, spoilt_own j, me j, node-ticket inv agree i c, fit j);
    queued = λ k p q. ground (arith, queued k);
    called = λ j b h. ground (arith, called j b);
    has_run = λ j b h. ground (arith, has_run j b);
    drained = λ j b h. ground (arith, drained j b);
    foreign = λ j b h. ground (arith, foreign j b);
    defined = λ j. ground (arith, defined j);
    poisoned_disabled = λ h. ground (arith, poisoned_disabled);
    disabled_lock = λ h. ground (arith, disabled_lock);
    std_enabled = λ h. ground (arith, std_enabled);
  }

  pub resumes-Nodes :
      (s' : Protocol) (x : Answer R)
      → s'.status ≡ s.status
      → ((j : ℕ) → s'.message j ≡ s.message j)
      → l.claim i ≡ Claim.combined
      → l.result i ≡ result_of {F = F} (ran x)
      → has_result {F = F} (ran x) ≡ true
      → Nodes std g a s' (record l { claim = put l.claim i (Claim.replies x) })
  resumes-Nodes s' x st me u v w = record {
    contents = ground (arith, contents);
    requested = λ j z h. ground (arith, requested j z);
    reading = λ j z h. ground (arith, reading j z);
    running = λ j b z y h. ground (arith, running j b z y);
    replied = λ j z h. ground (arith, replied j z, ran_own i);
    out_phase = λ j. ground (arith, out_phase j, out_phase i);
    unrun_own = λ j h. ground (arith, unrun_own j, me j);
    ran_own = λ j h. ground (arith, ran_own j, me j);
    spoilt_own = λ j h. ground (arith, spoilt_own j, me j);
    queued = λ k p q. ground (arith, queued k);
    called = λ j b h. ground (arith, called j b);
    has_run = λ j b h. ground (arith, has_run j b);
    drained = λ j b h. ground (arith, drained j b);
    foreign = λ j b h. ground (arith, foreign j b);
    defined = λ j. ground (arith, defined j);
    poisoned_disabled = λ h. ground (arith, poisoned_disabled);
    disabled_lock = λ h. ground (arith, disabled_lock);
    std_enabled = λ h. ground (arith, std_enabled);
  }
