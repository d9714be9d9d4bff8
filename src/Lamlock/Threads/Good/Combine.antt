-- ===== src/Lamlock/Threads/Good/Combine.antt =====
-- The steps of a thread that gets the lock and runs closures keep the invariant.
use useless.Base.{
  ℕ, ◌≡◌, refl, ap, subst, ◌∙◌, Bool, true, false, Option, none, some, ok, err, put, if◌then◌else◌,
  arith,
}
use useless.Lamlock.RawLock.{Status, unlocked, locked, acquire_status, try_acquire}
use useless.Lamlock.Solo.{Outcome, returned, panicked, value, unwinds}
use useless.Lamlock.Protocol.Locking.{acquires-Inv}
use useless.Lamlock.Protocol.Poisoning.{finds_poison-Inv, panics-Inv}
use useless.Lamlock.Atomic.{asked, Atomic, Internal}
use useless.Lamlock.Ledger.{reads}
use useless.Lamlock.Ledger.Running.{executes-Nodes, finishes-Nodes, panics-Nodes}
use useless.Lamlock.Ledger.Waking.{gets_lock-Nodes}
use useless.Lamlock.Ledger.Draining.{finds_poison-Nodes}
use useless.Lamlock.Threads.{acquiring, pausing, calling, called, running, bombing, System, goto}
use useless.Lamlock.Threads.Attach.{acquire_with, acquire, paused, pause}
use useless.Lamlock.Threads.Call.{execute, finish}
use useless.Lamlock.Threads.View.{role_of, claim_of, view-goto, ledger-goto, put_role-Inv}
use useless.Lamlock.Threads.Words.{goto-Words}
use useless.Lamlock.Threads.Good.{Good, Next, next, agree, enabled, still}

module _ {T R F : Type 0} {call : F → T → Outcome T R} {std : Bool} {s : System T R F}
    {a : Atomic T R F} (good : Good std s a) (i : ℕ) where
  open good use {queue, waker, inv, nodes, words}

  pub acquire-Next : s.pc i ≡ acquiring → Next call std a (acquire s i)
  unfolding acquire acquire_with try_acquire acquire_status
  acquire-Next e = by_status s.raw.status refl
    where
      by_status :
          (t : Status)
          → s.raw.status ≡ t
          → Next call std a (acquire_with s i (acquire_status s.raw t))
      by_status unlocked t =
          next (view-goto (record s { raw = record s.raw { status = locked } }) i (calling i))
            (ledger-goto s i (calling i)) (acquires-Inv inv i (ap role_of e) t)
            (gets_lock-Nodes inv (agree good i) nodes i _ refl (λ j. refl) (ap claim_of e) t)
            (goto-Words words i (calling i) refl (ground arith)) Internal.nothing
      by_status locked t = still good i pausing (ap role_of e) (ap claim_of e) refl (ground arith)
      by_status Status.poisoned t =
          next (view-goto s i (bombing none i)) (ledger-goto s i (bombing none i))
            (finds_poison-Inv inv i (ap role_of e) t)
            (finds_poison-Nodes inv (agree good i) nodes i _ refl (λ j. refl) (ap claim_of e) t)
            (goto-Words words i (bombing none i) refl (ground arith)) Internal.nothing

  pub pause-Next : s.pc i ≡ pausing → Next call std a (pause s i)
  unfolding pause paused
  pause-Next e = by_status s.raw.status
    where
      by_status : (t : Status) → Next call std a (goto s i (paused t))
      by_status unlocked = still good i acquiring (ap role_of e) (ap claim_of e) refl (ground arith)
      by_status locked = still good i pausing (ap role_of e) (ap claim_of e) refl (ground arith)
      by_status Status.poisoned =
          still good i acquiring (ap role_of e) (ap claim_of e) refl (ground arith)

  pub execute-Next :
      (c : ℕ) → s.pc i ≡ calling c → Next call std a (execute std s i c (s.closure c))
  unfolding execute
  execute-Next c e = by_closure (s.closure c) refl
    where
      by_closure : (o : Option F) → s.closure c ≡ o → Next call std a (execute std s i c o)
      by_closure (some f) h =
          next (view-goto s i (running c f s.data_cell))
            (ledger-goto
              (record s {
                started = if std then s.started else put s.started c true;
                closure = put s.closure c none;
              })
              i (running c f s.data_cell))
            (put_role-Inv inv (ap role_of e))
            (executes-Nodes inv (agree good i) nodes i _ c f refl (λ j. refl) (ap claim_of e) h)
            (goto-Words words i (running c f s.data_cell) refl (ground arith)) Internal.nothing
      by_closure none h = ground (arith, nodes.called i c, h, e)

  pub finish-Next :
      (c : ℕ) (f : F) (d : T)
      → s.pc i ≡ running c f d
      → Next call std a (finish std s i c (call f d))
  unfolding finish
  finish-Next c f d e = by_outcome std (call f d) refl refl
    where
      on_contents : (o : Outcome T R) → call f d ≡ o → call f a.contents ≡ o
      on_contents o h =
          subst (λ t. call f t ≡ o)
            (nodes.reading i d (ap (λ p. reads (claim_of p)) e) ∙ nodes.contents) h

      free : a.disabled ≡ false
      free = enabled good i d (ap (λ p. reads (claim_of p)) e)

      asks : a.phase c ≡ asked f
      asks = (nodes.running i c f d (ap claim_of e)).0

      by_outcome :
          (b : Bool) (o : Outcome T R) → std ≡ b → call f d ≡ o → Next call std a (finish b s i c o)
      by_outcome b (returned r t) hb h =
          next
            (view-goto (record s { data_cell = t; result = put s.result c (some (ok r)) }) i
              (called c))
            (ledger-goto (record s { data_cell = t; result = put s.result c (some (ok r)) }) i
              (called c))
            (put_role-Inv inv (ap role_of e))
            (finishes-Nodes inv (agree good i) nodes i _ c f d t (value r) refl (λ j. refl)
              (ap claim_of e) refl)
            (goto-Words words i (called c) refl (ground arith))
            (Internal.runs c f r t asks free (on_contents _ h))
      by_outcome true (panicked p t) hb h =
          next
            (view-goto (record s { data_cell = t; result = put s.result c (some (err p)) }) i
              (called c))
            (ledger-goto (record s { data_cell = t; result = put s.result c (some (err p)) }) i
              (called c))
            (put_role-Inv inv (ap role_of e))
            (finishes-Nodes inv (agree good i) nodes i _ c f d t (unwinds p) refl (λ j. refl)
              (ap claim_of e) refl)
            (goto-Words words i (called c) refl (ground arith))
            (Internal.panics c f p t asks free (on_contents _ h))
      by_outcome false (panicked p t) hb h =
          next (view-goto (record s { data_cell = t }) i (bombing (some p) c))
            (ledger-goto (record s { data_cell = t }) i (bombing (some p) c))
            (panics-Inv inv i c (ap role_of e))
            (panics-Nodes inv (agree good i) nodes i _ c f d t p refl (λ j. refl) (ap claim_of e) hb
              (inv.one_holder i (rw e refl)).1 (inv.one_holder i (rw e refl)).0)
            (goto-Words words i (bombing (some p) c) refl (ground arith))
            (Internal.disables c f p t hb asks free (on_contents _ h))
