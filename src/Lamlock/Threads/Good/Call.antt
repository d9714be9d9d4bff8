-- ===== src/Lamlock/Threads/Good/Call.antt =====
-- The steps of a call on the fast path, and its ends, keep the invariant.
use useless.Base.{
  ℕ, ◌≡◌, refl, ap, subst, ◌∙◌, Bool, true, false, Option, none, some, Result, ok, err, put, arith,
}
use useless.Lamlock.RawLock.{
  Status, unlocked, locked, acquire_status, try_acquire, has_tail, release,
}
use useless.Lamlock.Solo.{Outcome, returned, panicked, Answer, value, unwinds, cancelled}
use useless.Lamlock.Protocol.Locking.{locks-Inv, unlocks-Inv}
use useless.Lamlock.Protocol.Attaching.{prepares-Inv}
use useless.Lamlock.Atomic.{asked, ran, Atomic, Internal}
use useless.Lamlock.Ledger.{reads, request}
use useless.Lamlock.Ledger.Quiet.{takes-Nodes, gives_back-Nodes}
use useless.Lamlock.Ledger.Fast.{begins-Nodes, ends-Nodes, is_rejected-Nodes, makes_node-Nodes}
use useless.Lamlock.Ledger.Passing.{resumes-Nodes}
use useless.Lamlock.Ledger.Draining.{fails-Nodes, drops-Nodes}
use useless.Lamlock.Threads.{
  waiting, entered, tested, guarded, slow, running_fast, unlocking, answered, attaching, returning,
  failing, System, goto,
}
use useless.Lamlock.Threads.Attach.{unlock}
use useless.Lamlock.Threads.Call.{test_tail, enter_with, finish_fast, new_node, resume, cancel_with}
use useless.Lamlock.Threads.View.{
  role_of, claim_of, view-goto, ledger-goto, view-notify, put_role-Inv, put_claim-Nodes,
}
use useless.Lamlock.Threads.Words.{goto-Words, makes_node-Words}
use useless.Lamlock.Threads.Good.{Good, Next, next, agree, enabled, still}

module _ {T R F : Type 0} {call : F → T → Outcome T R} {std : Bool} {s : System T R F}
    {a : Atomic T R F} (good : Good std s a) (i : ℕ) where
  open good use {queue, waker, inv, nodes, words}

  pub test_tail-Next :
      (f : F) → s.pc i ≡ entered f → Next call std a (goto s i (test_tail f (has_tail s.raw)))
  unfolding test_tail
  test_tail-Next f e = by_test (has_tail s.raw)
    where
      by_test : (b : Bool) → Next call std a (goto s i (test_tail f b))
      by_test true = still good i (slow f) (ap role_of e) (ap claim_of e) refl (ground arith)
      by_test false = still good i (tested f) (ap role_of e) (ap claim_of e) refl (ground arith)

  pub enter-Next :
      (f : F) → s.pc i ≡ tested f → Next call std a (enter_with s i f (try_acquire s.raw))
  unfolding enter_with try_acquire acquire_status
  enter-Next f e = by_status s.raw.status refl
    where
      by_status :
          (t : Status)
          → s.raw.status ≡ t
          → Next call std a (enter_with s i f (acquire_status s.raw t))
      by_status unlocked t =
          next (view-goto (record s { raw = record s.raw { status = locked } }) i (guarded f))
            (ledger-goto s i (guarded f)) (locks-Inv inv i (ap role_of e) t)
            (put_claim-Nodes (takes-Nodes inv (agree good i) nodes i _ refl (λ j. refl) t)
              (ap claim_of e))
            (goto-Words words i (guarded f) refl (ground arith)) Internal.nothing
      by_status locked t = still good i (slow f) (ap role_of e) (ap claim_of e) refl (ground arith)
      by_status Status.poisoned t =
          next (view-goto s i (answered cancelled)) (ledger-goto s i (answered cancelled))
            (put_role-Inv inv (ap role_of e))
            (is_rejected-Nodes inv (agree good i) nodes i _ f refl (λ j. refl) (ap claim_of e) t)
            (goto-Words words i (answered cancelled) refl (ground arith))
            (Internal.fails i (nodes.poisoned_disabled t) (ground (arith, nodes.out_phase i, e)))

  pub guarded-Next :
      (f : F) → s.pc i ≡ guarded f → Next call std a (goto s i (running_fast f s.data_cell))
  guarded-Next f e =
      next (view-goto s i (running_fast f s.data_cell))
        (ledger-goto s i (running_fast f s.data_cell)) (put_role-Inv inv (ap role_of e))
        (begins-Nodes inv (agree good i) nodes i _ f refl (λ j. refl) (ap claim_of e))
        (goto-Words words i (running_fast f s.data_cell) refl (ground arith)) Internal.nothing

  pub finish_fast-Next :
      (f : F) (d : T) → s.pc i ≡ running_fast f d → Next call std a (finish_fast s i (call f d))
  unfolding finish_fast
  finish_fast-Next f d e = by_outcome (call f d) refl
    where
      on_contents : (o : Outcome T R) → call f d ≡ o → call f a.contents ≡ o
      on_contents o h =
          subst (λ t. call f t ≡ o)
            (nodes.reading i d (ap (λ p. reads (claim_of p)) e) ∙ nodes.contents) h

      is_asked_for : a.phase i ≡ asked f
      is_asked_for = nodes.requested i f (ap (λ p. request (claim_of p)) e)

      by_outcome : (o : Outcome T R) → call f d ≡ o → Next call std a (finish_fast s i o)
      by_outcome (returned r t) h =
          next (view-goto (record s { data_cell = t }) i (unlocking (value r)))
            (ledger-goto (record s { data_cell = t }) i (unlocking (value r)))
            (put_role-Inv inv (ap role_of e))
            (ends-Nodes inv (agree good i) nodes i _ f d t (value r) refl (λ j. refl)
              (ap claim_of e) refl)
            (goto-Words words i (unlocking (value r)) refl (ground arith))
            (Internal.runs i f r t is_asked_for (enabled good i d (ap (λ p. reads (claim_of p)) e))
              (on_contents _ h))
      by_outcome (panicked p t) h =
          next (view-goto (record s { data_cell = t }) i (unlocking (unwinds p)))
            (ledger-goto (record s { data_cell = t }) i (unlocking (unwinds p)))
            (put_role-Inv inv (ap role_of e))
            (ends-Nodes inv (agree good i) nodes i _ f d t (unwinds p) refl (λ j. refl)
              (ap claim_of e) refl)
            (goto-Words words i (unlocking (unwinds p)) refl (ground arith))
            (Internal.panics i f p t is_asked_for
              (enabled good i d (ap (λ p. reads (claim_of p)) e)) (on_contents _ h))

  pub unlock-Next :
      (x : Answer R) → s.pc i ≡ unlocking x → Next call std a (unlock s i (answered x))
  unfolding unlock release
  unlock-Next x e =
      next (view-goto (record s { raw = release s.raw }) i (answered x))
        (ledger-goto s i (answered x)) (unlocks-Inv inv i (ap role_of e))
        (put_claim-Nodes
          (gives_back-Nodes inv (agree good i) nodes i _ refl (λ j. refl) (rw e refl) (rw e refl))
          (ap claim_of e))
        (goto-Words words i (answered x) refl (ground arith)) Internal.nothing

  pub new_node-Next : (f : F) → s.pc i ≡ slow f → Next call std a (new_node s i f)
  unfolding new_node
  new_node-Next f e =
      next (view-notify (record s { next = put s.next i none }) i attaching i waiting)
        (ledger-goto
          (record s {
            closure = put s.closure i (some f);
            started = put s.started i false;
            result = put s.result i none;
          })
          i attaching)
        (prepares-Inv inv i (ap role_of e))
        (makes_node-Nodes inv (agree good i) nodes i _ f refl (λ j. refl) (ap claim_of e)
          (ap role_of e))
        (makes_node-Words words i) Internal.nothing

  pub resume-Next : s.pc i ≡ returning → Next call std a (goto s i (resume (s.result i)))
  unfolding resume
  resume-Next e = by_result (s.result i) refl
    where
      by_result : (o : Option (Result ℕ R)) → s.result i ≡ o → Next call std a (goto s i (resume o))
      by_result (some (ok r)) h =
          next (view-goto s i (answered (value r))) (ledger-goto s i (answered (value r)))
            (put_role-Inv inv (ap role_of e))
            (resumes-Nodes inv (agree good i) nodes i _ (value r) refl (λ j. refl) (ap claim_of e) h
              refl)
            (goto-Words words i (answered (value r)) refl (ground arith)) Internal.nothing
      by_result (some (err p)) h =
          next (view-goto s i (answered (unwinds p))) (ledger-goto s i (answered (unwinds p)))
            (put_role-Inv inv (ap role_of e))
            (resumes-Nodes inv (agree good i) nodes i _ (unwinds p) refl (λ j. refl) (ap claim_of e)
              h refl)
            (goto-Words words i (answered (unwinds p)) refl (ground arith)) Internal.nothing
      by_result none h = ground (arith, nodes.ran_own i, h, e)

  pub cancel-Next : s.pc i ≡ failing → Next call std a (cancel_with s i (s.started i) (s.closure i))
  unfolding cancel_with
  cancel-Next e = by_node (s.started i) (s.closure i) refl refl
    where
      fails : Internal call std a (record a { phase = put a.phase i (ran cancelled) })
      fails =
          Internal.fails i (nodes.spoilt_own i (rw e refl)).0 (ground (arith, nodes.out_phase i, e))

      by_node :
          (b : Bool) (o : Option F)
          → s.started i ≡ b
          → s.closure i ≡ o
          → Next call std a (cancel_with s i b o)
      by_node true o st h =
          next (view-goto s i (answered cancelled)) (ledger-goto s i (answered cancelled))
            (put_role-Inv inv (ap role_of e))
            (fails-Nodes inv (agree good i) nodes i _ refl (λ j. refl) (ap claim_of e))
            (goto-Words words i (answered cancelled) refl (ground arith)) fails
      by_node false (some f) st h =
          next (view-goto s i (answered cancelled))
            (ledger-goto (record s { closure = put s.closure i none }) i (answered cancelled))
            (put_role-Inv inv (ap role_of e))
            (drops-Nodes inv (agree good i) nodes i _ refl (λ j. refl) (ap claim_of e))
            (goto-Words words i (answered cancelled) refl (ground arith)) fails
      by_node false none st h = ground (arith, nodes.spoilt_own i, h, e, st)
