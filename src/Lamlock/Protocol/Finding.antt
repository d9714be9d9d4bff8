-- ===== src/Lamlock/Protocol/Finding.antt =====
-- The steps of the protocol in which the server finds the successor of the first node.
use useless.Base.{ℕ, ◌≡◌, some, put, arith}
use useless.Lamlock.Protocol.{Role, Protocol}
use useless.Lamlock.Protocol.Invariant.{Queue, Inv}

module _ {g : Queue} {s : Protocol} (inv : Inv g s) (i : ℕ) where
  open inv use {
    some_queue, one_holder, held, one_server, served, tail_last, tail_none, numbered, members,
    linking, linked, last_unlinked, known, owing, waiting, fresh, poison,
  }

  pub finds_next-Inv :
      (c n : ℕ)
      → s.role i ≡ Role.serves c
      → s.next c ≡ some n
      → Inv g (record s { role = put s.role i (Role.gives c n) })
  finds_next-Inv c n r u = record {
    some_queue = some_queue;
    one_holder = λ j h. ground (arith, one_holder j);
    held = λ h. ground (arith, held);
    one_server = λ j b h. ground (arith, one_server j b);
    served = λ h. ground (arith, served);
    tail_last = tail_last;
    tail_none = tail_none;
    numbered = numbered;
    members = λ k l h. ground (arith, members k);
    linking = λ j b h. ground (arith, linking j b);
    linked = λ k l h. ground (arith, linked k, one_server i c);
    last_unlinked = last_unlinked;
    known = λ j b h. ground (arith, known j b, one_server i c, last_unlinked);
    owing = λ j b h. ground (arith, owing j b);
    waiting = λ j h. ground (arith, waiting j);
    fresh = λ j h. ground (arith, fresh j);
    poison = λ j h. ground (arith, poison j);
  }

  pub drain_finds_next-Inv :
      (c n : ℕ)
      → s.role i ≡ Role.drains c
      → s.next c ≡ some n
      → Inv g (record s { role = put s.role i (Role.drains_next c n) })
  drain_finds_next-Inv c n r u = record {
    some_queue = some_queue;
    one_holder = λ j h. ground (arith, one_holder j);
    held = λ h. ground (arith, held);
    one_server = λ j b h. ground (arith, one_server j b);
    served = λ h. ground (arith, served);
    tail_last = tail_last;
    tail_none = tail_none;
    numbered = numbered;
    members = λ k l h. ground (arith, members k);
    linking = λ j b h. ground (arith, linking j b);
    linked = λ k l h. ground (arith, linked k, one_server i c);
    last_unlinked = last_unlinked;
    known = λ j b h. ground (arith, known j b, one_server i c, last_unlinked);
    owing = λ j b h. ground (arith, owing j b);
    waiting = λ j h. ground (arith, waiting j);
    fresh = λ j h. ground (arith, fresh j);
    poison = λ j h. ground (arith, poison j);
  }
