-- ===== src/Lamlock/Threads/View.antt =====
-- The threads seen as the queue's protocol: what each is in charge of and which message each node has.
use useless.Base.{
  ℕ, ◌≡◌, sym, ap, subst, ◌∙◌, Bool, true, Bool-cases, ◌==◌, inl, inr, none, some, put, arith,
}
use std.Path.{fun_ext}
use useless.Lamlock.Protocol.{Message, Role, Protocol}
use useless.Lamlock.Protocol.Invariant.{Queue, Inv}
use useless.Lamlock.Ledger.{Claim, Ledger, Nodes, fits}
use useless.Lamlock.Atomic.{Atomic}
use useless.Lamlock.Threads.{
  Word, waiting, done, head, sleeping, poisoned, Pc, idle, entered, tested, guarded, slow,
  running_fast, unlocking, answered, attaching, parking, checking, entering, parked, awake,
  acquiring, pausing, linking, spinning, woken, calling, called, closing, freeing, handing, leaving,
  running, passing, heading, releasing, bombing, draining, drain_closing, drain_telling,
  drain_spinning, drain_passing, returning, failing, undefined, System,
}

abbrev pub message_of : Word → Message
message_of waiting = Message.nothing
message_of sleeping = Message.nothing
message_of done = Message.done
message_of head = Message.head
message_of poisoned = Message.cancel

module _ {T R F : Type 0} where
  abbrev pub role_of : Pc T R F → Role
  role_of (guarded f) = Role.fast
  role_of (running_fast f d) = Role.fast
  role_of (unlocking a) = Role.fast
  role_of attaching = Role.ready
  role_of (linking prev) = Role.links prev
  role_of (spinning left) = Role.waits
  role_of parking = Role.waits
  role_of checking = Role.waits
  role_of entering = Role.waits
  role_of parked = Role.waits
  role_of awake = Role.waits
  role_of (woken m) = Role.waits
  role_of acquiring = Role.acquires
  role_of pausing = Role.acquires
  role_of (calling c) = Role.serves c
  role_of (running c f d) = Role.serves c
  role_of (called c) = Role.serves c
  role_of (passing c n) = Role.gives c n
  role_of (closing c) = Role.serves c
  role_of (freeing c) = Role.frees c
  role_of releasing = Role.releases
  role_of (handing c) = Role.serves c
  role_of (heading c n) = Role.gives c n
  role_of (leaving c) = Role.leaves c
  role_of (bombing none c) = Role.rebombs c
  role_of (bombing (some p) c) = Role.bombs c
  role_of (draining e c) = Role.drains c
  role_of (drain_closing e c) = Role.drains c
  role_of (drain_spinning e c) = Role.drains c
  role_of (drain_passing e c n) = Role.drains_next c n
  role_of (drain_telling e c) = Role.drained c
  role_of p = Role.out

  abbrev pub claim_of : Pc T R F → Claim T R F
  claim_of idle = Claim.outside
  claim_of (entered f) = Claim.asks f
  claim_of (tested f) = Claim.asks f
  claim_of (guarded f) = Claim.asks f
  claim_of (slow f) = Claim.asks f
  claim_of (running_fast f d) = Claim.reads_fast f d
  claim_of (unlocking x) = Claim.replies x
  claim_of (answered x) = Claim.replies x
  claim_of attaching = Claim.fresh
  claim_of (linking prev) = Claim.fresh
  claim_of acquiring = Claim.fresh
  claim_of pausing = Claim.fresh
  claim_of (spinning left) = Claim.waits
  claim_of parking = Claim.waits
  claim_of checking = Claim.waits
  claim_of entering = Claim.waits
  claim_of parked = Claim.waits
  claim_of awake = Claim.waits
  claim_of (woken m) = Claim.waits
  claim_of (calling c) = Claim.calls c
  claim_of (running c f d) = Claim.runs c f d
  claim_of (called c) = Claim.finished c
  claim_of (passing c n) = Claim.finished c
  claim_of (closing c) = Claim.finished c
  claim_of (freeing c) = Claim.finished c
  claim_of (handing c) = Claim.finished c
  claim_of (heading c n) = Claim.finished c
  claim_of (leaving c) = Claim.finished c
  claim_of releasing = Claim.combined
  claim_of returning = Claim.combined
  claim_of (bombing e c) = Claim.drains e c
  claim_of (draining e c) = Claim.drains e c
  claim_of (drain_closing e c) = Claim.drains e c
  claim_of (drain_telling e c) = Claim.drains e c
  claim_of (drain_spinning e c) = Claim.drains e c
  claim_of (drain_passing e c n) = Claim.drains e c
  claim_of failing = Claim.fails
  claim_of undefined = Claim.undefined

  pub claim_of-role_of : (p : Pc T R F) → fits (claim_of p) (role_of p) ≡ true
  claim_of-role_of p = ground arith

  abbrev pub view : System T R F → Protocol
  view s = record {
    status = s.raw.status;
    tail = s.raw.tail;
    next = s.next;
    message = λ j. message_of (s.word j);
    role = λ j. role_of (s.pc j);
  }

  abbrev pub ledger : System T R F → Ledger T R F
  ledger s = record {
    closure = s.closure;
    started = s.started;
    result = s.result;
    cell = s.data_cell;
    claim = λ j. claim_of (s.pc j);
  }

pub put_ap :
    {A B : Type 0} (h : A → B) (f : ℕ → A) (i : ℕ) (x : A)
    → (λ j. h (put f i x j)) ≡ put (λ j. h (f j)) i (h x)
put_ap h f i x = fun_ext (λ j. elim (Bool-cases (i == j)) [ inl e ↦ rw e | inr e ↦ rw e ])

pub put_same : {A : Type 0} (f : ℕ → A) (i : ℕ) (x : A) → f i ≡ x → put f i x ≡ f
put_same f i x e = fun_ext (λ j. ground arith)

module _ {T R F : Type 0} (s : System T R F) (i : ℕ) (p : Pc T R F) where
  pub view-goto :
      record (view s) { role = put (view s).role i (role_of p) }
      ≡ view (record s { pc = put s.pc i p })
  view-goto = ap (λ r. record (view s) { role = r }) (sym (put_ap role_of s.pc i p))

  pub ledger-goto :
      record (ledger s) { claim = put (ledger s).claim i (claim_of p) }
      ≡ ledger (record s { pc = put s.pc i p })
  ledger-goto = ap (λ c. record (ledger s) { claim = c }) (sym (put_ap claim_of s.pc i p))

  pub view-notify :
      (c : ℕ) (m : Word)
      → record (view s) {
        message = put (view s).message c (message_of m);
        role = put (view s).role i (role_of p);
      }
        ≡ view (record s { word = put s.word c m; pc = put s.pc i p })
  view-notify c m =
      ap (λ f. record (view s) { message = f; role = put (view s).role i (role_of p) })
        (sym (put_ap message_of s.word c m))
      ∙ ap (λ r. record (view (record s { word = put s.word c m })) { role = r })
          (sym (put_ap role_of s.pc i p))

-- A thread that keeps its role.
pub put_role-Inv :
    {g : Queue} {s : Protocol} {i : ℕ} {r : Role}
    → Inv g s
    → s.role i ≡ r
    → Inv g (record s { role = put s.role i r })
put_role-Inv {g} {s} {i} {r} inv e =
    subst (λ f. Inv g (record s { role = f })) (sym (put_same s.role i r e)) inv

-- A node that keeps its message.
pub put_message-Inv :
    {g : Queue} {s : Protocol} {i : ℕ} {m : Message}
    → Inv g s
    → s.message i ≡ m
    → Inv g (record s { message = put s.message i m })
put_message-Inv {g} {s} {i} {m} inv e =
    subst (λ f. Inv g (record s { message = f })) (sym (put_same s.message i m e)) inv

pub put_at : {A : Type 0} (f : ℕ → A) (i j : ℕ) {x : A} → f i ≡ x → put f i x j ≡ f j
put_at f i j e = ground arith

-- A thread that keeps its claim.
pub put_claim-Nodes :
    {T R F : Type 0} {std : Bool} {g : Queue} {a : Atomic T R F} {s : Protocol} {l : Ledger T R F}
    {i : ℕ} {c : Claim T R F}
    → Nodes std g a s l
    → l.claim i ≡ c
    → Nodes std g a s (record l { claim = put l.claim i c })
put_claim-Nodes {std = std} {g = g} {a = a} {s = s} {l = l} {i = i} {c = c} nodes e =
    subst (λ f. Nodes std g a s (record l { claim = f })) (sym (put_same l.claim i c e)) nodes
