-- ===== src/Lamlock/Protocol/Poisoning.antt =====
-- The steps of the protocol that find or make the lock poisoned.
use useless.Base.{ℕ, ◌≡◌, put, arith}
use useless.Lamlock.RawLock.{poisoned}
use useless.Lamlock.Protocol.{Role, Protocol}
use useless.Lamlock.Protocol.Invariant.{Queue, Inv}

module _ {g : Queue} {s : Protocol} (inv : Inv g s) (i : ℕ) where
  open inv use {
    some_queue, one_holder, held, one_server, served, tail_last, tail_none, numbered, members,
    linking, linked, last_unlinked, known, owing, waiting, fresh, poison,
  }

  pub finds_poison-Inv :
      s.role i ≡ Role.acquires
      → s.status ≡ poisoned
      → Inv g (record s { role = put s.role i (Role.rebombs i) })
  finds_poison-Inv r u = record {
    some_queue = some_queue;
    one_holder = λ j h. ground (arith, one_holder j);
    held = λ h. ground (arith, held);
    one_server = λ j b h. ground (arith, one_server j b);
    served = λ h. ground (arith, served);
    tail_last = tail_last;
    tail_none = tail_none;
    numbered = numbered;
    members = λ k l h. ground (arith, members k);
    linking = λ j b h. ground (arith, linking j b);
    linked = λ k l h. ground (arith, linked k);
    last_unlinked = last_unlinked;
    known = λ j b h. ground (arith, known j b);
    owing = λ j b h. ground (arith, owing j b);
    waiting = λ j h. ground (arith, waiting j);
    fresh = λ j h. ground (arith, fresh j);
    poison = λ j h. ground (arith, poison j);
  }

  pub panics-Inv :
      (c : ℕ) → s.role i ≡ Role.serves c → Inv g (record s { role = put s.role i (Role.bombs c) })
  panics-Inv c r = record {
    some_queue = some_queue;
    one_holder = λ j h. ground (arith, one_holder j);
    held = λ h. ground (arith, held);
    one_server = λ j b h. ground (arith, one_server j b);
    served = λ h. ground (arith, served);
    tail_last = tail_last;
    tail_none = tail_none;
    numbered = numbered;
    members = λ k l h. ground (arith, members k);
    linking = λ j b h. ground (arith, linking j b);
    linked = λ k l h. ground (arith, linked k);
    last_unlinked = last_unlinked;
    known = λ j b h. ground (arith, known j b);
    owing = λ j b h. ground (arith, owing j b);
    waiting = λ j h. ground (arith, waiting j);
    fresh = λ j h. ground (arith, fresh j);
    poison = λ j h. ground (arith, poison j);
  }

  pub poisons-Inv :
      (c : ℕ)
      → s.role i ≡ Role.bombs c
      → Inv g (record s { status = poisoned; role = put s.role i (Role.drains c) })
  poisons-Inv c r = record {
    some_queue = some_queue;
    one_holder = λ j h. ground (arith, one_holder j, one_holder i);
    held = λ h. ground (arith, held);
    one_server = λ j b h. ground (arith, one_server j b);
    served = λ h. ground (arith, served);
    tail_last = tail_last;
    tail_none = tail_none;
    numbered = numbered;
    members = λ k l h. ground (arith, members k);
    linking = λ j b h. ground (arith, linking j b);
    linked = λ k l h. ground (arith, linked k);
    last_unlinked = last_unlinked;
    known = λ j b h. ground (arith, known j b);
    owing = λ j b h. ground (arith, owing j b);
    waiting = λ j h. ground (arith, waiting j);
    fresh = λ j h. ground (arith, fresh j);
    poison = λ j h. ground (arith, poison j);
  }

  pub poisons_again-Inv :
      (c : ℕ)
      → s.role i ≡ Role.rebombs c
      → Inv g (record s { status = poisoned; role = put s.role i (Role.drains c) })
  poisons_again-Inv c r = record {
    some_queue = some_queue;
    one_holder = λ j h. ground (arith, one_holder j, poison i);
    held = λ h. ground (arith, held);
    one_server = λ j b h. ground (arith, one_server j b);
    served = λ h. ground (arith, served);
    tail_last = tail_last;
    tail_none = tail_none;
    numbered = numbered;
    members = λ k l h. ground (arith, members k);
    linking = λ j b h. ground (arith, linking j b);
    linked = λ k l h. ground (arith, linked k);
    last_unlinked = last_unlinked;
    known = λ j b h. ground (arith, known j b);
    owing = λ j b h. ground (arith, owing j b);
    waiting = λ j h. ground (arith, waiting j);
    fresh = λ j h. ground (arith, fresh j);
    poison = λ j h. ground (arith, poison j);
  }
