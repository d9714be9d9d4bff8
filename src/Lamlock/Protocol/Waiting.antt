-- ===== src/Lamlock/Protocol/Waiting.antt =====
-- The steps of the protocol in which a waiter sees its message.
use useless.Base.{ℕ, ◌≡◌, put, arith}
use useless.Lamlock.Protocol.{done, head, cancel, Role, Protocol}
use useless.Lamlock.Protocol.Invariant.{Queue, Inv}

module _ {g : Queue} {s : Protocol} (inv : Inv g s) (i : ℕ) where
  open inv use {
    some_queue, one_holder, held, one_server, served, tail_last, tail_none, numbered, members,
    linking, linked, last_unlinked, known, owing, waiting, fresh, poison,
  }

  pub sees_head-Inv :
      s.role i ≡ Role.waits
      → s.message i ≡ head
      → Inv g (record s { role = put s.role i (Role.serves i) })
  sees_head-Inv r u = record {
    some_queue = some_queue;
    one_holder = λ j h. ground (arith, one_holder j);
    held = λ h. ground (arith, held);
    one_server = λ j b h. ground (arith, one_server j b);
    served = λ h. ground (arith, served);
    tail_last = tail_last;
    tail_none = tail_none;
    numbered = numbered;
    members = λ k l h. ground (arith, members k, one_server i i);
    linking = λ j b h. ground (arith, linking j b);
    linked = λ k l h. ground (arith, linked k);
    last_unlinked = last_unlinked;
    known = λ j b h. ground (arith, known j b);
    owing = λ j b h. ground (arith, owing j b);
    waiting = λ j h. ground (arith, waiting j);
    fresh = λ j h. ground (arith, fresh j);
    poison = λ j h. ground (arith, poison j);
  }

  pub sees_done-Inv :
      s.role i ≡ Role.waits → s.message i ≡ done → Inv g (record s { role = put s.role i Role.out })
  sees_done-Inv r u = record {
    some_queue = some_queue;
    one_holder = λ j h. ground (arith, one_holder j);
    held = λ h. ground (arith, held);
    one_server = λ j b h. ground (arith, one_server j b);
    served = λ h. ground (arith, served);
    tail_last = tail_last;
    tail_none = tail_none;
    numbered = numbered;
    members = λ k l h. ground (arith, members k, served);
    linking = λ j b h. ground (arith, linking j b);
    linked = λ k l h. ground (arith, linked k);
    last_unlinked = last_unlinked;
    known = λ j b h. ground (arith, known j b);
    owing = λ j b h. ground (arith, owing j b);
    waiting = λ j h. ground (arith, waiting j);
    fresh = λ j h. ground (arith, fresh j);
    poison = λ j h. ground (arith, poison j);
  }

  pub sees_cancel-Inv :
      s.role i ≡ Role.waits
      → s.message i ≡ cancel
      → Inv g (record s { role = put s.role i Role.out })
  sees_cancel-Inv r u = record {
    some_queue = some_queue;
    one_holder = λ j h. ground (arith, one_holder j);
    held = λ h. ground (arith, held);
    one_server = λ j b h. ground (arith, one_server j b);
    served = λ h. ground (arith, served);
    tail_last = tail_last;
    tail_none = tail_none;
    numbered = numbered;
    members = λ k l h. ground (arith, members k, served);
    linking = λ j b h. ground (arith, linking j b);
    linked = λ k l h. ground (arith, linked k);
    last_unlinked = last_unlinked;
    known = λ j b h. ground (arith, known j b);
    owing = λ j b h. ground (arith, owing j b);
    waiting = λ j h. ground (arith, waiting j);
    fresh = λ j h. ground (arith, fresh j);
    poison = λ j h. ground (arith, poison j);
  }
