-- ===== src/Lamlock/Protocol/Attaching.antt =====
-- The steps of the protocol that make a node, attach it and link it.
use useless.Base.{ℕ, ◌+◌, ◌-◌, ◌≡◌, none, some, put, arith}
use useless.Lamlock.Protocol.{nothing, Role, Protocol}
use useless.Lamlock.Protocol.Invariant.{Queue, Inv}

module _ {g : Queue} {s : Protocol} (inv : Inv g s) (i : ℕ) where
  open inv use {
    some_queue, one_holder, held, one_server, served, tail_last, tail_none, numbered, members,
    linking, linked, last_unlinked, known, owing, waiting, fresh, poison,
  }

  pub prepares-Inv :
      s.role i ≡ Role.out
      → Inv g (record s {
        next = put s.next i none;
        message = put s.message i nothing;
        role = put s.role i Role.ready;
      })
  prepares-Inv r = record {
    some_queue = some_queue;
    one_holder = λ j h. ground (arith, one_holder j);
    held = λ h. ground (arith, held);
    one_server = λ j b h. ground (arith, one_server j b);
    served = λ h. ground (arith, served);
    tail_last = tail_last;
    tail_none = tail_none;
    numbered = numbered;
    members = λ k l h. ground (arith, members k, served);
    linking = λ j b h. ground (arith, linking j b);
    linked = λ k l h. ground (arith, linked k, members k, members (k + 1), served);
    last_unlinked = λ h. ground (arith, last_unlinked, members (g.attached - 1), served);
    known = λ j b h.
        ground (arith, known j b, one_server j (g.order g.detached), members g.detached, served);
    owing = λ j b h. ground (arith, owing j b);
    waiting = λ j h. ground (arith, waiting j);
    fresh = λ j h. ground (arith, fresh j);
    poison = λ j h. ground (arith, poison j);
  }

  pub attaches_first-Inv :
      s.role i ≡ Role.ready
      → s.tail ≡ none
      → Inv
          (record g {
            attached = g.attached + 1;
            order = put g.order g.attached i;
            ticket = put g.ticket i g.attached;
            server = i;
          })
          (record s { tail = some i; role = put s.role i Role.acquires })
  attaches_first-Inv r u = record {
    some_queue = ground (arith, some_queue, tail_last);
    one_holder = λ j h. ground (arith, one_holder j);
    held = λ h. ground (arith, held);
    one_server = λ j b h. ground (arith, one_server j b, tail_last, some_queue);
    served = λ h. ground (arith, served, tail_last, some_queue);
    tail_last = λ h. ground (arith, tail_last);
    tail_none = λ h. ground (arith, tail_none);
    numbered = λ k l h. ground (arith, numbered k, tail_last, some_queue);
    members = λ k l h. ground (arith, members k, tail_last, some_queue);
    linking = λ j b h. ground (arith, linking j b, tail_last, some_queue);
    linked = λ k l h. ground (arith, linked k, tail_last, some_queue);
    last_unlinked = λ h. ground (arith, last_unlinked, fresh i, tail_last, some_queue);
    known = λ j b h. ground (arith, known j b, tail_last, some_queue);
    owing = λ j b h. ground (arith, owing j b);
    waiting = λ j h. ground (arith, waiting j);
    fresh = λ j h. ground (arith, fresh j);
    poison = λ j h. ground (arith, poison j);
  }

  pub attaches_behind-Inv :
      (prev : ℕ)
      → s.role i ≡ Role.ready
      → s.tail ≡ some prev
      → Inv
          (record g {
            attached = g.attached + 1;
            order = put g.order g.attached i;
            ticket = put g.ticket i g.attached;
          })
          (record s { tail = some i; role = put s.role i (Role.links prev) })
  attaches_behind-Inv prev r u = record {
    some_queue = ground (arith, some_queue, tail_none);
    one_holder = λ j h. ground (arith, one_holder j);
    held = λ h. ground (arith, held);
    one_server = λ j b h. ground (arith, one_server j b, tail_none);
    served = λ h. ground (arith, served, tail_none, some_queue);
    tail_last = λ h. ground (arith, tail_last);
    tail_none = λ h. ground (arith, tail_none, some_queue);
    numbered = λ k l h. ground (arith, numbered k, tail_none, members k, served);
    members = λ k l h. ground (arith, members k, tail_none, served, some_queue, fresh i);
    linking = λ j b h. ground (arith, linking j b, tail_none, tail_last, fresh i, last_unlinked);
    linked = λ k l h. ground (arith, linked k, tail_none, tail_last, members (k + 1), served);
    last_unlinked = λ h. ground (arith, last_unlinked, fresh i, tail_last, tail_none);
    known = λ j b h. ground (arith, known j b, tail_none);
    owing = λ j b h. ground (arith, owing j b);
    waiting = λ j h. ground (arith, waiting j);
    fresh = λ j h. ground (arith, fresh j);
    poison = λ j h. ground (arith, poison j);
  }

  pub links_to-Inv :
      (prev : ℕ)
      → s.role i ≡ Role.links prev
      → Inv g (record s { next = put s.next prev (some i); role = put s.role i Role.waits })
  links_to-Inv prev r = record {
    some_queue = some_queue;
    one_holder = λ j h. ground (arith, one_holder j, linking i prev);
    held = λ h. ground (arith, held);
    one_server = λ j b h. ground (arith, one_server j b, linking i prev);
    served = λ h. ground (arith, served);
    tail_last = tail_last;
    tail_none = tail_none;
    numbered = numbered;
    members = λ k l h. ground (arith, members k, linking i prev);
    linking = λ j b h.
        ground (
          arith,
          linking j b,
          linking i prev,
          numbered (g.ticket j - 1),
          numbered (g.ticket i - 1),
        );
    linked =
        λ k l h. ground (arith, linked k, linking i prev, numbered k, numbered (g.ticket i - 1));
    last_unlinked = λ h. ground (
      arith,
      last_unlinked,
      linking i prev,
      numbered (g.ticket i - 1),
      numbered (g.attached - 1),
    );
    known = λ j b h. ground (arith, known j b, linking i prev);
    owing = λ j b h. ground (arith, owing j b, linking i prev);
    waiting = λ j h. ground (arith, waiting j, linking i prev);
    fresh = λ j h. ground (arith, fresh j, linking i prev, members (g.ticket i - 1), served);
    poison = λ j h. ground (arith, poison j);
  }
