-- ===== src/Lamlock/Threads/Good/Drain.antt =====
-- The steps of a bomb keep the invariant.
use useless.Base.{
  ℕ, ◌≡◌, refl, ap, ◌∙◌, Bool, true, false, ◌==◌, ==_iff, Option, none, some, if◌then◌else◌, arith,
}
use useless.Lamlock.RawLock.{close_tail, try_close, poison}
use useless.Lamlock.Solo.{Outcome, unwinds}
use useless.Lamlock.Protocol.Poisoning.{poisons-Inv, poisons_again-Inv}
use useless.Lamlock.Protocol.Finding.{drain_finds_next-Inv}
use useless.Lamlock.Protocol.Passing.{drain_passes-Inv}
use useless.Lamlock.Protocol.Leaving.{drain_closes-Inv, drain_ends-Inv}
use useless.Lamlock.Atomic.{Atomic, Internal}
use useless.Lamlock.Ledger.Quiet.{stays-Nodes, empties-Nodes, stores_poison-Nodes}
use useless.Lamlock.Ledger.Draining.{drains_on-Nodes, drained_error-Nodes, drained_panic-Nodes}
use useless.Lamlock.Threads.{
  poisoned, answered, bombing, draining, drain_closing, drain_telling, drain_spinning,
  drain_passing, failing, System, goto,
}
use useless.Lamlock.Threads.Futex.{notify}
use useless.Lamlock.Threads.Bomb.{
  drop_poison, drain_to, drop_load, drop_pass, drain_closed, drop_close, dropped, drop_tell,
  drain_again, drop_spin,
}
use useless.Lamlock.Threads.View.{
  role_of, claim_of, view-goto, ledger-goto, view-notify, put_claim-Nodes,
}
use useless.Lamlock.Threads.Words.{goto-Words, notify-Words}
use useless.Lamlock.Threads.Good.{Good, Next, next, agree, told, still}

module _ {T R F : Type 0} {call : F → T → Outcome T R} {std : Bool} {s : System T R F}
    {a : Atomic T R F} (good : Good std s a) (i : ℕ) where
  open good use {queue, waker, inv, nodes, words}

  pub drop_poison-Next :
      (e : Option ℕ) (c : ℕ) → s.pc i ≡ bombing e c → Next call std a (drop_poison s i e c)
  unfolding drop_poison poison
  drop_poison-Next none c e =
      next (view-goto (record s { raw = poison s.raw }) i (draining none c))
        (ledger-goto s i (draining none c)) (poisons_again-Inv inv i c (ap role_of e))
        (put_claim-Nodes
          (stores_poison-Nodes inv (agree good i) nodes i _ c refl (λ j. refl) (rw e refl))
          (ap claim_of e))
        (goto-Words words i (draining none c) refl (ground arith)) Internal.nothing
  drop_poison-Next (some p) c e =
      next (view-goto (record s { raw = poison s.raw }) i (draining (some p) c))
        (ledger-goto s i (draining (some p) c)) (poisons-Inv inv i c (ap role_of e))
        (put_claim-Nodes
          (stores_poison-Nodes inv (agree good i) nodes i _ c refl (λ j. refl) (rw e refl))
          (ap claim_of e))
        (goto-Words words i (draining (some p) c) refl (ground arith)) Internal.nothing

  pub drop_load-Next :
      (x : Option ℕ) (c : ℕ) → s.pc i ≡ draining x c → Next call std a (drop_load s i x c)
  unfolding drop_load drain_to
  drop_load-Next x c e = by_next (s.next c) refl
    where
      by_next : (o : Option ℕ) → s.next c ≡ o → Next call std a (goto s i (drain_to x c o))
      by_next (some n) h =
          next (view-goto s i (drain_passing x c n)) (ledger-goto s i (drain_passing x c n))
            (drain_finds_next-Inv inv i c n (ap role_of e) h)
            (put_claim-Nodes (stays-Nodes inv (agree good i) nodes i _ refl (λ j. refl))
              (ap claim_of e))
            (goto-Words words i (drain_passing x c n) refl (ground arith)) Internal.nothing
      by_next none h =
          still good i (drain_closing x c) (ap role_of e) (ap claim_of e) refl (ground arith)

  pub drop_spin-Next :
      (x : Option ℕ) (c : ℕ) → s.pc i ≡ drain_spinning x c → Next call std a (drop_spin s i x c)
  unfolding drop_spin drain_again
  drop_spin-Next x c e = by_next (s.next c)
    where
      by_next : (o : Option ℕ) → Next call std a (goto s i (drain_again x c o))
      by_next (some n) =
          still good i (draining x c) (ap role_of e) (ap claim_of e) refl (ground arith)
      by_next none =
          still good i (drain_spinning x c) (ap role_of e) (ap claim_of e) refl (ground arith)

  pub drop_close-Next :
      (x : Option ℕ) (c : ℕ) → s.pc i ≡ drain_closing x c → Next call std a (drop_close s i x c)
  unfolding drop_close drain_closed try_close close_tail
  drop_close-Next x c e = by_tail s.raw.tail refl
    where
      open_still : Next call std a (goto s i (drain_spinning x c))
      open_still =
          still good i (drain_spinning x c) (ap role_of e) (ap claim_of e) refl (ground arith)

      by_match :
          (t : ℕ) (b : Bool)
          → s.raw.tail ≡ some t
          → (t == c) ≡ b
          → Next call std a (
              drain_closed s i x c
                (if b then (record s.raw { tail = none }, true) else (s.raw, false)))
      by_match t true h m =
          next (view-goto (record s { raw = record s.raw { tail = none } }) i (drain_telling x c))
            (ledger-goto s i (drain_telling x c))
            (drain_closes-Inv inv i c (ap role_of e) (h ∙ ap some ((==_iff t c).0 m)))
            (put_claim-Nodes (empties-Nodes inv (agree good i) nodes i _ c refl (λ j. refl))
              (ap claim_of e))
            (goto-Words words i (drain_telling x c) refl (ground arith)) Internal.nothing
      by_match t false h m = open_still

      by_tail :
          (o : Option ℕ)
          → s.raw.tail ≡ o
          → Next call std a (drain_closed s i x c (close_tail s.raw c o))
      by_tail none h = open_still
      by_tail (some t) h = by_match t (t == c) h refl

  module _ (quiet : s.wake i ≡ none) where
    pub drop_pass-Next :
        (x : Option ℕ) (c n : ℕ)
        → s.pc i ≡ drain_passing x c n
        → Next call std a (drop_pass s i x c n)
    unfolding drop_pass notify
    drop_pass-Next x c n e =
        next (view-notify s i (draining x n) c poisoned) (ledger-goto s i (draining x n))
          (drain_passes-Inv inv i c n (ap role_of e))
          (drains_on-Nodes inv (agree good i) nodes i _ c n x refl (λ j. refl) (ap claim_of e)
            (ap role_of e))
          (notify-Words words i c poisoned (draining x n) (told good i c (rw e refl)) refl
            (λ v. refl) refl quiet)
          Internal.nothing

    pub drop_tell-Next :
        (x : Option ℕ) (c : ℕ) → s.pc i ≡ drain_telling x c → Next call std a (drop_tell s i x c)
    unfolding drop_tell notify dropped
    drop_tell-Next none c e =
        next (view-notify s i failing c poisoned) (ledger-goto s i failing)
          (drain_ends-Inv inv i c (ap role_of e))
          (drained_error-Nodes inv (agree good i) nodes i _ c refl (λ j. refl) (ap claim_of e)
            (inv.poison i (rw e refl)))
          (notify-Words words i c poisoned failing (told good i c (rw e refl)) refl (λ v. refl) refl
            quiet)
          Internal.nothing
    drop_tell-Next (some p) c e =
        next (view-notify s i (answered (unwinds p)) c poisoned)
          (ledger-goto s i (answered (unwinds p))) (drain_ends-Inv inv i c (ap role_of e))
          (drained_panic-Nodes inv (agree good i) nodes i _ c p refl (λ j. refl) (ap claim_of e)
            (inv.poison i (rw e refl)) (ap role_of e))
          (notify-Words words i c poisoned (answered (unwinds p)) (told good i c (rw e refl)) refl
            (λ v. refl) refl quiet)
          (Internal.unwinds_with i p (nodes.drained i c (rw e refl)).0
            (ground (arith, nodes.out_phase i, e)))
