-- ===== src/Lamlock/Threads/Good.antt =====
-- The invariant of the threads against an atomic lock, and what a step has to keep.
pub mod Call
pub mod Wait
pub mod Combine
pub mod Hand
pub mod Drain
pub mod Step
use useless.Base.{
  ℕ, ◌≡◌, ◌⊎◌, refl, sym, ap, subst, Bool, true, false, Option, none, some, put, arith,
}
use useless.Lamlock.Solo.{Outcome}
use useless.Lamlock.Protocol.{Message, Role, Protocol}
use useless.Lamlock.Protocol.Invariant.{Queue, Inv}
use useless.Lamlock.Atomic.{Atomic, Internal}
use useless.Lamlock.Ledger.{Ledger, Fits, Nodes, reads, node_of}
use useless.Lamlock.Ledger.Quiet.{stays-Nodes}
use useless.Lamlock.Ledger.Places.{reads-has_lock, node-ticket}
use useless.Lamlock.Threads.{Word, sleeping, Pc, System, goto}
use useless.Lamlock.Threads.View.{
  message_of, role_of, claim_of, claim_of-role_of, view, ledger, view-goto, ledger-goto,
  put_role-Inv, put_claim-Nodes,
}
use useless.Lamlock.Threads.Words.{Words, word_ok, is_parked, goto-Words}

pub record Good {T R F : Type 0} (std : Bool) (s : System T R F) (a : Atomic T R F) : Type 0 where
  pub queue : Queue
  pub waker : ℕ → ℕ
  pub inv : Inv queue (view s)
  pub nodes : Nodes std queue a (view s) (ledger s)
  pub words : Words s.pc s.word s.wake waker

-- The state `s` follows a state that goes with `a`.
pub record Next {T R F : Type 0} (call : F → T → Outcome T R) (std : Bool) (a : Atomic T R F)
    (s : System T R F) : Type 0 where
  pub atomic : Atomic T R F
  pub internal : Internal call std a atomic
  pub good : Good std s atomic

module _ {T R F : Type 0} {std : Bool} {s : System T R F} {a : Atomic T R F} (good : Good std s a)
    (i : ℕ) where
  open good use {queue, inv, nodes}

  pub agree : Fits (view s) (ledger s)
  agree = record { fit = λ j. claim_of-role_of (s.pc j) }

  -- Who is with the data runs in an atomic lock that is not disabled.
  pub enabled : (d : T) → reads (claim_of (s.pc i)) ≡ some d → a.disabled ≡ false
  enabled d h =
      ground (arith, reads-has_lock inv agree i d h, inv.one_holder i, nodes.disabled_lock, h)

  -- The node that a thread is at may be told.
  pub told :
      (c : ℕ)
      → node_of (claim_of (s.pc i)) ≡ some c
      → (c ≡ i) ⊎ ((role_of (s.pc c) ≡ Role.waits) × (message_of (s.word c) ≡ Message.nothing))
  told c h = (node-ticket inv agree i c h).1

module _ {T R F : Type 0} {call : F → T → Outcome T R} {std : Bool} where
  pub next :
      {a a' : Atomic T R F} {s : System T R F} {g : Queue} {p : Protocol} {l : Ledger T R F}
      {w : ℕ → ℕ}
      → p ≡ view s
      → l ≡ ledger s
      → Inv g p
      → Nodes std g a' p l
      → Words s.pc s.word s.wake w
      → Internal call std a a'
      → Next call std a s
  next {a = a} {a' = a'} {s = s} {g = g} {p = p} {l = l} {w = w} e e' inv nodes words step =
      record {
        atomic = a';
        internal = step;
        good = record {
          queue = g;
          waker = w;
          inv = subst (Inv g) e inv;
          nodes =
              subst (λ m. Nodes std g a' (view s) m) e' (subst (λ q. Nodes std g a' q l) e nodes);
          words = words;
        };
      }

  module _ {s : System T R F} {a : Atomic T R F} (good : Good std s a) (i : ℕ) where
    open good use {inv, nodes, words}

    -- A thread that goes on with the role and the claim that it has.
    pub still :
        (p : Pc T R F)
        → role_of (s.pc i) ≡ role_of p
        → claim_of (s.pc i) ≡ claim_of p
        → word_ok p (s.word i) ≡ true
        → (is_parked p ≡ true → s.word i ≡ sleeping)
        → Next call std a (goto s i p)
    still p r c ok k =
        next (view-goto s i p) (ledger-goto s i p) (put_role-Inv inv r)
          (put_claim-Nodes (stays-Nodes inv (agree good i) nodes i _ refl (λ j. refl)) c)
          (goto-Words words i p ok k) Internal.nothing
