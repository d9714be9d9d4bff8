-- ===== src/Lamlock/Protocol/Passing.antt =====
-- The steps of the protocol that tell the first node its end and go on to the second.
use useless.Base.{ℕ, ◌+◌, ◌≡◌, put, arith}
use useless.Lamlock.Protocol.{done, cancel, Role, Protocol}
use useless.Lamlock.Protocol.Invariant.{Queue, Inv}
use useless.Lamlock.Protocol.Members.{
  successor-order, first-ticket, linking-later, successor-server, told-has_lock, told-first_of,
  told-is_waiting,
}

module _ {g : Queue} {s : Protocol} (inv : Inv g s) (i : ℕ) where
  open inv use {
    some_queue, one_holder, held, one_server, served, tail_last, tail_none, numbered, members,
    linking, linked, last_unlinked, known, owing, waiting, fresh, poison,
  }

  pub passes-Inv :
      (c n : ℕ)
      → s.role i ≡ Role.gives c n
      → Inv
          (record g { detached = g.detached + 1 })
          (record s { message = put s.message c done; role = put s.role i (Role.serves n) })
  passes-Inv c n r = record {
    some_queue = ground (arith, some_queue, first-ticket inv i c);
    one_holder = λ j h.
        ground (arith, one_holder j, one_holder i, told-has_lock done (s.message j) (s.role j));
    held = λ h. ground (arith, held, one_holder i, one_server i c, one_server g.holder g.holder);
    one_server = λ j b h. ground (
      arith,
      one_server j b,
      first-ticket inv i c,
      told-first_of done (s.message j) (s.role j) j b,
      successor-order inv i n,
    );
    served = λ h. ground (arith, served, first-ticket inv i c, successor-order inv i n);
    tail_last = λ h. ground (arith, tail_last, known i n);
    tail_none = λ h. ground (arith, tail_none, known i n);
    numbered = λ k l h. ground (arith, numbered k);
    members = λ k l h.
        ground
          (arith, members k, first-ticket inv i c, numbered k, successor-order inv i n, members k);
    linking = λ j b h. ground (arith, linking j b, first-ticket inv i c, linking-later inv i n j b);
    linked = λ k l h. ground (arith, linked k, linked k);
    last_unlinked = λ h. ground (arith, last_unlinked, known i n);
    known = λ j b h. ground (arith, known j b, first-ticket inv i c, successor-server inv j b);
    owing = λ j b h. ground (arith, owing j b, first-ticket inv i c, one_server i c);
    waiting =
        λ j h. ground (arith, waiting j, first-ticket inv i c, told-is_waiting done (s.role j));
    fresh = λ j h. ground (arith, fresh j, first-ticket inv i c);
    poison = λ j h. ground (arith, poison j);
  }

  pub drain_passes-Inv :
      (c n : ℕ)
      → s.role i ≡ Role.drains_next c n
      → Inv
          (record g { detached = g.detached + 1 })
          (record s { message = put s.message c cancel; role = put s.role i (Role.drains n) })
  drain_passes-Inv c n r = record {
    some_queue = ground (arith, some_queue, first-ticket inv i c);
    one_holder = λ j h.
        ground (arith, one_holder j, one_holder i, told-has_lock cancel (s.message j) (s.role j));
    held = λ h. ground (arith, held, one_holder i, one_server i c, one_server g.holder g.holder);
    one_server = λ j b h. ground (
      arith,
      one_server j b,
      first-ticket inv i c,
      told-first_of cancel (s.message j) (s.role j) j b,
      successor-order inv i n,
    );
    served = λ h. ground (arith, served, first-ticket inv i c, successor-order inv i n);
    tail_last = λ h. ground (arith, tail_last, known i n);
    tail_none = λ h. ground (arith, tail_none, known i n);
    numbered = λ k l h. ground (arith, numbered k);
    members = λ k l h.
        ground
          (arith, members k, first-ticket inv i c, numbered k, successor-order inv i n, members k);
    linking = λ j b h. ground (arith, linking j b, first-ticket inv i c, linking-later inv i n j b);
    linked = λ k l h. ground (arith, linked k, linked k);
    last_unlinked = λ h. ground (arith, last_unlinked, known i n);
    known = λ j b h. ground (arith, known j b, first-ticket inv i c, successor-server inv j b);
    owing = λ j b h. ground (arith, owing j b, first-ticket inv i c, one_server i c);
    waiting =
        λ j h. ground (arith, waiting j, first-ticket inv i c, told-is_waiting cancel (s.role j));
    fresh = λ j h. ground (arith, fresh j, first-ticket inv i c);
    poison = λ j h. ground (arith, poison j);
  }
