-- ===== src/Lamlock/Protocol/Leaving.antt =====
-- The steps of the protocol that end a service: the queue is closed or handed over, and the node
-- that is out of it is told its end.
use useless.Base.{ℕ, ◌+◌, ◌≡◌, none, some, put, arith}
use useless.Lamlock.Protocol.{done, head, cancel, Role, Protocol}
use useless.Lamlock.Protocol.Invariant.{Queue, Inv}
use useless.Lamlock.Protocol.Members.{
  successor-order, first-ticket, first-last, linking-later, successor-server, successor-waits,
  told-has_lock, told-first_of, told-is_waiting,
}

module _ {g : Queue} {s : Protocol} (inv : Inv g s) (i : ℕ) where
  open inv use {
    some_queue, one_holder, held, one_server, served, tail_last, tail_none, numbered, members,
    linking, linked, last_unlinked, known, owing, waiting, fresh, poison,
  }

  pub hands_over-Inv :
      (c n : ℕ)
      → s.role i ≡ Role.gives c n
      → Inv
          (record g {
            detached = g.detached + 1;
            keeper = put g.keeper c i;
            server = n;
            holder = n;
          })
          (record s { message = put s.message n head; role = put s.role i (Role.leaves c) })
  hands_over-Inv c n r = record {
    some_queue = ground (arith, some_queue, first-ticket inv i c);
    one_holder = λ j h. ground (arith, one_holder j, one_holder i);
    held = λ h. ground (arith, held, one_holder i, successor-waits inv i n);
    one_server = λ j b h. ground (
      arith,
      one_server j b,
      first-ticket inv i c,
      one_server j b,
      successor-order inv i n,
      successor-waits inv i n,
    );
    served = λ h. ground (arith, served, successor-waits inv i n, successor-order inv i n);
    tail_last = λ h. ground (arith, tail_last, known i n);
    tail_none = λ h. ground (arith, tail_none, known i n);
    numbered = λ k l h. ground (arith, numbered k);
    members = λ k l h.
        ground
          (arith, members k, first-ticket inv i c, numbered k, successor-order inv i n, members k);
    linking = λ j b h. ground (
      arith,
      linking j b,
      first-ticket inv i c,
      linking-later inv i n j b,
      successor-waits inv i n,
    );
    linked = λ k l h. ground (arith, linked k, linked k);
    last_unlinked = λ h. ground (arith, last_unlinked, known i n);
    known = λ j b h. ground (arith, known j b, first-ticket inv i c, successor-server inv j b);
    owing = λ j b h. ground (arith, owing j b, first-ticket inv i c, successor-order inv i n);
    waiting = λ j h. ground (arith, waiting j, first-ticket inv i c, successor-waits inv i n);
    fresh = λ j h. ground (arith, fresh j, successor-waits inv i n);
    poison = λ j h. ground (arith, poison j);
  }

  pub closes-Inv :
      (c : ℕ)
      → s.role i ≡ Role.serves c
      → s.tail ≡ some c
      → Inv
          (record g { detached = g.attached; keeper = put g.keeper c i })
          (record s { tail = none; role = put s.role i (Role.frees c) })
  closes-Inv c r u = record {
    some_queue = ground (arith, some_queue, first-last inv i c);
    one_holder = λ j h. ground (arith, one_holder j);
    held = λ h. ground (arith, held);
    one_server = λ j b h. ground (arith, one_server j b, first-ticket inv i c);
    served = λ h. ground (arith, served);
    tail_last = λ h. ground (arith, tail_last);
    tail_none = λ h. ground (arith, tail_none);
    numbered = λ k l h. ground (arith, numbered k);
    members = λ k l h. ground (arith, members k);
    linking = λ j b h. ground (arith, linking j b, first-last inv i c);
    linked = λ k l h. ground (arith, linked k);
    last_unlinked = λ h. ground (arith, last_unlinked);
    known = λ j b h. ground (arith, known j b, successor-server inv j b, first-ticket inv i c);
    owing = λ j b h. ground (arith, owing j b, first-ticket inv i c);
    waiting = λ j h. ground (arith, waiting j, first-last inv i c, first-ticket inv i c);
    fresh = λ j h. ground (arith, fresh j);
    poison = λ j h. ground (arith, poison j);
  }

  pub frees_last-Inv :
      (c : ℕ)
      → s.role i ≡ Role.frees c
      → Inv g (record s { message = put s.message c done; role = put s.role i Role.releases })
  frees_last-Inv c r = record {
    some_queue = some_queue;
    one_holder = λ j h.
        ground (arith, one_holder j, one_holder i, told-has_lock done (s.message j) (s.role j));
    held = λ h. ground (arith, held, owing i c);
    one_server =
        λ j b h. ground (arith, one_server j b, told-first_of done (s.message j) (s.role j) j b);
    served = λ h. ground (arith, served, owing i c);
    tail_last = tail_last;
    tail_none = tail_none;
    numbered = numbered;
    members = λ k l h. ground (arith, members k, owing i c, numbered k);
    linking = λ j b h. ground (arith, linking j b, owing i c, told-is_waiting done (s.role j));
    linked = λ k l h. ground (arith, linked k, linked k);
    last_unlinked = last_unlinked;
    known = λ j b h. ground (arith, known j b);
    owing = λ j b h. ground (arith, owing j b, owing i c);
    waiting = λ j h. ground (arith, waiting j, owing i c, told-is_waiting done (s.role j));
    fresh = λ j h. ground (arith, fresh j, owing i c);
    poison = λ j h. ground (arith, poison j);
  }

  pub leaves_queue-Inv :
      (c : ℕ)
      → s.role i ≡ Role.leaves c
      → Inv g (record s { message = put s.message c done; role = put s.role i Role.out })
  leaves_queue-Inv c r = record {
    some_queue = some_queue;
    one_holder = λ j h.
        ground (arith, one_holder j, one_holder i, told-has_lock done (s.message j) (s.role j));
    held = λ h. ground (arith, held, owing i c);
    one_server =
        λ j b h. ground (arith, one_server j b, told-first_of done (s.message j) (s.role j) j b);
    served = λ h. ground (arith, served, owing i c);
    tail_last = tail_last;
    tail_none = tail_none;
    numbered = numbered;
    members = λ k l h. ground (arith, members k, owing i c, numbered k);
    linking = λ j b h. ground (arith, linking j b, owing i c, told-is_waiting done (s.role j));
    linked = λ k l h. ground (arith, linked k, linked k);
    last_unlinked = last_unlinked;
    known = λ j b h. ground (arith, known j b);
    owing = λ j b h. ground (arith, owing j b, owing i c);
    waiting = λ j h. ground (arith, waiting j, owing i c, told-is_waiting done (s.role j));
    fresh = λ j h. ground (arith, fresh j, owing i c);
    poison = λ j h. ground (arith, poison j);
  }

  pub drain_closes-Inv :
      (c : ℕ)
      → s.role i ≡ Role.drains c
      → s.tail ≡ some c
      → Inv
          (record g { detached = g.attached; keeper = put g.keeper c i })
          (record s { tail = none; role = put s.role i (Role.drained c) })
  drain_closes-Inv c r u = record {
    some_queue = ground (arith, some_queue, first-last inv i c);
    one_holder = λ j h. ground (arith, one_holder j);
    held = λ h. ground (arith, held);
    one_server = λ j b h. ground (arith, one_server j b, first-ticket inv i c);
    served = λ h. ground (arith, served);
    tail_last = λ h. ground (arith, tail_last);
    tail_none = λ h. ground (arith, tail_none);
    numbered = λ k l h. ground (arith, numbered k);
    members = λ k l h. ground (arith, members k);
    linking = λ j b h. ground (arith, linking j b, first-last inv i c);
    linked = λ k l h. ground (arith, linked k);
    last_unlinked = λ h. ground (arith, last_unlinked);
    known = λ j b h. ground (arith, known j b, successor-server inv j b, first-ticket inv i c);
    owing = λ j b h. ground (arith, owing j b, first-ticket inv i c);
    waiting = λ j h. ground (arith, waiting j, first-last inv i c, first-ticket inv i c);
    fresh = λ j h. ground (arith, fresh j);
    poison = λ j h. ground (arith, poison j);
  }

  pub drain_ends-Inv :
      (c : ℕ)
      → s.role i ≡ Role.drained c
      → Inv g (record s { message = put s.message c cancel; role = put s.role i Role.out })
  drain_ends-Inv c r = record {
    some_queue = some_queue;
    one_holder = λ j h.
        ground (arith, one_holder j, one_holder i, told-has_lock cancel (s.message j) (s.role j));
    held = λ h. ground (arith, held, owing i c);
    one_server =
        λ j b h. ground (arith, one_server j b, told-first_of cancel (s.message j) (s.role j) j b);
    served = λ h. ground (arith, served, owing i c);
    tail_last = tail_last;
    tail_none = tail_none;
    numbered = numbered;
    members = λ k l h. ground (arith, members k, owing i c, numbered k);
    linking = λ j b h. ground (arith, linking j b, owing i c, told-is_waiting cancel (s.role j));
    linked = λ k l h. ground (arith, linked k, linked k);
    last_unlinked = last_unlinked;
    known = λ j b h. ground (arith, known j b);
    owing = λ j b h. ground (arith, owing j b, owing i c);
    waiting = λ j h. ground (arith, waiting j, owing i c, told-is_waiting cancel (s.role j));
    fresh = λ j h. ground (arith, fresh j, owing i c);
    poison = λ j h. ground (arith, poison j);
  }
