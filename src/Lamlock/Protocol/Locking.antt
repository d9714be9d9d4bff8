-- ===== src/Lamlock/Protocol/Locking.antt =====
-- The steps of the protocol that take or give back the lock without a change of the queue.
use useless.Base.{ℕ, ◌+◌, ◌≡◌, put, arith}
use useless.Lamlock.RawLock.{unlocked, locked}
use useless.Lamlock.Protocol.{Role, Protocol}
use useless.Lamlock.Protocol.Invariant.{Queue, Inv}

module _ {g : Queue} {s : Protocol} (inv : Inv g s) (i : ℕ) where
  open inv use {
    some_queue, one_holder, held, one_server, served, tail_last, tail_none, numbered, members,
    linking, linked, last_unlinked, known, owing, waiting, fresh, poison,
  }

  pub locks-Inv :
      s.role i ≡ Role.out
      → s.status ≡ unlocked
      → Inv (record g { holder = i }) (record s { status = locked; role = put s.role i Role.fast })
  locks-Inv r u = record {
    some_queue = some_queue;
    one_holder = λ j h. ground (arith, one_holder j);
    held = λ h. ground (arith, held);
    one_server = λ j b h. ground (arith, one_server j b);
    served = λ h. ground (arith, served);
    tail_last = tail_last;
    tail_none = tail_none;
    numbered = numbered;
    members = λ k l h. ground (arith, members k, served);
    linking = λ j b h. ground (arith, linking j b);
    linked = λ k l h. ground (arith, linked k, members (k + 1));
    last_unlinked = last_unlinked;
    known = λ j b h. ground (arith, known j b);
    owing = λ j b h. ground (arith, owing j b);
    waiting = λ j h. ground (arith, waiting j);
    fresh = λ j h. ground (arith, fresh j);
    poison = λ j h. ground (arith, poison j);
  }

  pub unlocks-Inv :
      s.role i ≡ Role.fast → Inv g (record s { status = unlocked; role = put s.role i Role.out })
  unlocks-Inv r = record {
    some_queue = some_queue;
    one_holder = λ j h. ground (arith, one_holder j, one_holder i);
    held = λ h. ground (arith, held);
    one_server = λ j b h. ground (arith, one_server j b);
    served = λ h. ground (arith, served);
    tail_last = tail_last;
    tail_none = tail_none;
    numbered = numbered;
    members = λ k l h. ground (arith, members k, served);
    linking = λ j b h. ground (arith, linking j b);
    linked = λ k l h. ground (arith, linked k, members (k + 1));
    last_unlinked = last_unlinked;
    known = λ j b h. ground (arith, known j b);
    owing = λ j b h. ground (arith, owing j b);
    waiting = λ j h. ground (arith, waiting j);
    fresh = λ j h. ground (arith, fresh j);
    poison = λ j h. ground (arith, poison j, one_holder i);
  }

  pub acquires-Inv :
      s.role i ≡ Role.acquires
      → s.status ≡ unlocked
      → Inv
          (record g { holder = i })
          (record s { status = locked; role = put s.role i (Role.serves i) })
  acquires-Inv r u = record {
    some_queue = some_queue;
    one_holder = λ j h. ground (arith, one_holder j, poison j);
    held = λ h. ground (arith, held);
    one_server = λ j b h. ground (arith, one_server j b, one_server i i);
    served = λ h. ground (arith, served, one_server i i);
    tail_last = tail_last;
    tail_none = tail_none;
    numbered = numbered;
    members = λ k l h. ground (arith, members k);
    linking = λ j b h. ground (arith, linking j b);
    linked = λ k l h. ground (arith, linked k);
    last_unlinked = last_unlinked;
    known = λ j b h. ground (arith, known j b);
    owing = λ j b h. ground (arith, owing j b);
    waiting = λ j h. ground (arith, waiting j);
    fresh = λ j h. ground (arith, fresh j);
    poison = λ j h. ground (arith, poison j);
  }

  pub releases-Inv :
      s.role i ≡ Role.releases
      → Inv g (record s { status = unlocked; role = put s.role i Role.out })
  releases-Inv r = record {
    some_queue = some_queue;
    one_holder = λ j h. ground (arith, one_holder j, one_holder i);
    held = λ h. ground (arith, held);
    one_server = λ j b h. ground (arith, one_server j b);
    served = λ h. ground (arith, served);
    tail_last = tail_last;
    tail_none = tail_none;
    numbered = numbered;
    members = λ k l h. ground (arith, members k, served);
    linking = λ j b h. ground (arith, linking j b);
    linked = λ k l h. ground (arith, linked k, members (k + 1));
    last_unlinked = last_unlinked;
    known = λ j b h. ground (arith, known j b);
    owing = λ j b h. ground (arith, owing j b);
    waiting = λ j h. ground (arith, waiting j);
    fresh = λ j h. ground (arith, fresh j);
    poison = λ j h. ground (arith, poison j, one_holder i);
  }
