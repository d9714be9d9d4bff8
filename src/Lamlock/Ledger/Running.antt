-- ===== src/Lamlock/Ledger/Running.antt =====
-- The steps of a combiner that runs a closure.
use useless.Base.{ℕ, ◌≡◌, Bool, true, false, none, some, put, if◌then◌else◌, arith}
use useless.Lamlock.RawLock.{locked}
use useless.Lamlock.Solo.{Answer, unwinds}
use useless.Lamlock.Protocol.{Protocol}
use useless.Lamlock.Protocol.Invariant.{Queue, Inv}
use useless.Lamlock.Atomic.{ran, Atomic}
use useless.Lamlock.Ledger.{Claim, Ledger, Fits, Nodes, result_of, has_result}
use useless.Lamlock.Ledger.Places.{node-ticket, nodes-apart, node-queued, reads-has_lock}

module _ {T R F : Type 0} {std : Bool} {g : Queue} {a : Atomic T R F} {s : Protocol}
    {l : Ledger T R F} (inv : Inv g s) (agree : Fits s l) (nodes : Nodes std g a s l) (i : ℕ) where
  open agree use {fit}
  open inv use {
    some_queue, one_holder, held, one_server, tail_last, tail_none, numbered, members, owing,
    waiting, poison,
  }
  open nodes use {
    contents, requested, reading, running, replied, out_phase, unrun_own, ran_own, spoilt_own,
    queued, called, has_run, drained, foreign, defined, poisoned_disabled, disabled_lock,
    std_enabled,
  }

  pub executes-Nodes :
      (s' : Protocol) (c : ℕ) (f : F)
      → s'.status ≡ s.status
      → ((j : ℕ) → s'.message j ≡ s.message j)
      → l.claim i ≡ Claim.calls c
      → l.closure c ≡ some f
      → Nodes std g a s' (record l {
        started = if std then l.started else put l.started c true;
        closure = put l.closure c none;
        claim = put l.claim i (Claim.runs c f l.cell);
      })
  executes-Nodes s' c f st me u v = record {
    contents = ground (arith, contents);
    requested = λ j z h. ground (arith, requested j z);
    reading = λ j z h. ground (arith, reading j z);
    running = λ j b z y h. ground (arith, running j b z y, nodes-apart inv agree i j c, called i c);
    replied = λ j z h. ground (arith, replied j z);
    out_phase = λ j. ground (arith, out_phase j, out_phase i);
    unrun_own = λ j h. ground (arith, unrun_own j, me j, node-ticket inv agree i c, fit j);
    ran_own = λ j h. ground (arith, ran_own j, me j, node-ticket inv agree i c, fit j);
    spoilt_own = λ j h. ground (arith, spoilt_own j, me j, node-ticket inv agree i c, fit j);
    queued = λ k p q. ground (arith, queued k, node-queued inv agree i c k);
    called = λ j b h. ground (arith, called j b, nodes-apart inv agree i j c);
    has_run = λ j b h. ground (arith, has_run j b, nodes-apart inv agree i j c);
    drained = λ j b h. ground (arith, drained j b, nodes-apart inv agree i j c, drained i c);
    foreign = λ j b h. ground (
      arith,
      foreign j b,
      node-ticket inv agree i c,
      fit j,
      nodes-apart inv agree i j b,
      foreign i c,
    );
    defined = λ j. ground (arith, defined j);
    poisoned_disabled = λ h. ground (arith, poisoned_disabled);
    disabled_lock = λ h. ground (arith, disabled_lock);
    std_enabled = λ h. ground (arith, std_enabled);
  }

  pub finishes-Nodes :
      (s' : Protocol) (c : ℕ) (f : F) (d t : T) (x : Answer R)
      → s'.status ≡ s.status
      → ((j : ℕ) → s'.message j ≡ s.message j)
      → l.claim i ≡ Claim.runs c f d
      → has_result {F = F} (ran x) ≡ true
      → Nodes std g
          (record a { contents = t; phase = put a.phase c (ran x) })
          s'
          (record l {
            cell = t;
            result = put l.result c (result_of {F = F} (ran x));
            claim = put l.claim i (Claim.finished c);
          })
  finishes-Nodes s' c f d t x st me u v = record {
    contents = ground (arith, contents);
    requested = λ j z h. ground (arith, requested j z, node-ticket inv agree i c, fit j);
    reading = λ j z h. ground (
      arith,
      reading j z,
      reads-has_lock inv agree j z,
      reads-has_lock inv agree i d,
      one_holder i,
      one_holder j,
    );
    running = λ j b z y h. ground (arith, running j b z y, nodes-apart inv agree i j c);
    replied = λ j z h. ground (arith, replied j z, node-ticket inv agree i c, fit j);
    out_phase = λ j. ground (
      arith,
      out_phase j,
      node-ticket inv agree i c,
      fit j,
      out_phase i,
      running i c f d,
      out_phase c,
    );
    unrun_own = λ j h. ground (arith, unrun_own j, me j, node-ticket inv agree i c, fit j);
    ran_own = λ j h. ground (arith, ran_own j, me j, node-ticket inv agree i c, fit j);
    spoilt_own = λ j h. ground (arith, spoilt_own j, me j, node-ticket inv agree i c, fit j);
    queued = λ k p q. ground (arith, queued k, node-queued inv agree i c k);
    called = λ j b h. ground (arith, called j b, nodes-apart inv agree i j c);
    has_run = λ j b h. ground (arith, has_run j b, nodes-apart inv agree i j c);
    drained = λ j b h. ground (arith, drained j b, nodes-apart inv agree i j c);
    foreign = λ j b h. ground (
      arith,
      foreign j b,
      node-ticket inv agree i c,
      fit j,
      nodes-apart inv agree i j b,
      foreign i c,
    );
    defined = λ j. ground (arith, defined j);
    poisoned_disabled = λ h. ground (arith, poisoned_disabled);
    disabled_lock = λ h. ground (arith, disabled_lock);
    std_enabled = λ h. ground (arith, std_enabled);
  }

  pub panics-Nodes :
      (s' : Protocol) (c : ℕ) (f : F) (d t : T) (p : ℕ)
      → s'.status ≡ s.status
      → ((j : ℕ) → s'.message j ≡ s.message j)
      → l.claim i ≡ Claim.runs c f d
      → std ≡ false
      → s.status ≡ locked
      → g.holder ≡ i
      → Nodes std g
          (record { contents = t; phase = put a.phase c (ran (unwinds p)); disabled = true })
          s'
          (record l { cell = t; claim = put l.claim i (Claim.drains (some p) c) })
  panics-Nodes s' c f d t p st me u v w e = record {
    contents = ground (arith, contents);
    requested = λ j z h. ground (arith, requested j z, node-ticket inv agree i c, fit j);
    reading = λ j z h. ground (
      arith,
      reading j z,
      reads-has_lock inv agree j z,
      reads-has_lock inv agree i d,
      one_holder i,
      one_holder j,
    );
    running = λ j b z y h. ground (arith, running j b z y, nodes-apart inv agree i j c);
    replied = λ j z h. ground (arith, replied j z, node-ticket inv agree i c, fit j);
    out_phase = λ j. ground (
      arith,
      out_phase j,
      node-ticket inv agree i c,
      fit j,
      out_phase i,
      running i c f d,
      out_phase c,
    );
    unrun_own = λ j h. ground (arith, unrun_own j, me j, node-ticket inv agree i c, fit j);
    ran_own = λ j h. ground (arith, ran_own j, me j, node-ticket inv agree i c, fit j);
    spoilt_own = λ j h. ground (arith, spoilt_own j, me j, node-ticket inv agree i c, fit j);
    queued = λ k p q. ground (arith, queued k, node-queued inv agree i c k);
    called = λ j b h. ground (arith, called j b, nodes-apart inv agree i j c);
    has_run = λ j b h. ground (arith, has_run j b, nodes-apart inv agree i j c);
    drained = λ j b h. ground (arith, drained j b, nodes-apart inv agree i j c, running i c f d);
    foreign = λ j b h.
        ground (arith, foreign j b, node-ticket inv agree i c, fit j, nodes-apart inv agree i j b);
    defined = λ j. ground (arith, defined j);
    poisoned_disabled = λ h. ground (arith, poisoned_disabled);
    disabled_lock = λ h. ground (arith, disabled_lock);
    std_enabled = λ h. ground (arith, std_enabled);
  }
