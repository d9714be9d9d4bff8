-- ===== src/Lamlock/Threads/Linear.antt =====
-- A run of the threads is a run of the atomic lock, with the invariant between them.
use useless.Base.{ℕ, ◌≡◌, refl, ap, subst, Bool, put, arith}
use useless.Lamlock.Solo.{Outcome, Answer}
use useless.Lamlock.Protocol.Invariant.{Inv}
use useless.Lamlock.Atomic.{out, asked, Atomic}
use useless.Lamlock.Ledger.{Nodes, reply}
use useless.Lamlock.Ledger.Fast.{is_called-Nodes, goes_out-Nodes}
use useless.Lamlock.Threads.{idle, entered, answered, System, goto}
use useless.Lamlock.Threads.View.{
  role_of, claim_of, view, ledger, view-goto, ledger-goto, put_role-Inv,
}
use useless.Lamlock.Threads.Words.{goto-Words}
use useless.Lamlock.Threads.Good.{Good, agree}
use useless.Base.{List}
use useless.Lamlock.Atomic.{Event, AtomicRun, idle_lock}
use useless.Lamlock.Threads.{new}
use useless.Lamlock.Protocol.Invariant.{Queue}
use useless.Lamlock.Threads.Good.Wait.{interrupt-Next}
use useless.Lamlock.Threads.Good.Step.{act-Next}
use useless.Lamlock.Threads.Run.{Run}

unfoldable no_queue : Queue
no_queue = record {
  attached = 0;
  detached = 0;
  order = λ k. 0;
  ticket = λ j. 0;
  holder = 0;
  server = 0;
  keeper = λ c. 0;
}

module _ {T : Type 0} (R F : Type 0) (std : Bool) where
  new-Inv : (t : T) → Inv no_queue (view (new {T = T} {R = R} {F = F} t))
  unfolding no_queue
  new-Inv t = record {
    some_queue = ground arith;
    one_holder = λ j h. ground arith;
    held = λ h. ground arith;
    one_server = λ j c h. ground arith;
    served = λ h. ground arith;
    tail_last = λ h. ground arith;
    tail_none = λ h. refl;
    numbered = λ k l h. ground arith;
    members = λ k l h. ground arith;
    linking = λ j prev h. ground arith;
    linked = λ k l h. ground arith;
    last_unlinked = λ h. ground arith;
    known = λ j n h. ground arith;
    owing = λ j c h. ground arith;
    waiting = λ j h. ground arith;
    fresh = λ j h. ground arith;
    poison = λ j h. ground arith;
  }

  new-Good : (t : T) → Good std (new {T = T} {R = R} {F = F} t) (idle_lock t)
  unfolding no_queue
  new-Good t = record {
    queue = no_queue;
    waker = λ j. 0;
    inv = new-Inv t;
    nodes = record {
      contents = refl;
      requested = λ j f h. ground arith;
      reading = λ j d h. ground arith;
      running = λ j c f d h. ground arith;
      replied = λ j x h. ground arith;
      out_phase = λ j. refl;
      unrun_own = λ j h. ground arith;
      ran_own = λ j h. ground arith;
      spoilt_own = λ j h. ground arith;
      queued = λ k l h. ground arith;
      called = λ j c h. ground arith;
      has_run = λ j c h. ground arith;
      drained = λ j c h. ground arith;
      foreign = λ j c h. ground arith;
      defined = λ j. refl;
      poisoned_disabled = λ h. ground arith;
      disabled_lock = λ h. ground arith;
      std_enabled = λ h. refl;
    };
    words = record { own_word = λ j. refl; called_up = λ j h. ground arith };
  }

module _ {T R F : Type 0} {std : Bool} {s : System T R F} {a : Atomic T R F} (good : Good std s a)
    (i : ℕ) where
  open good use {queue, waker, inv, nodes, words}

  call-Good :
      (f : F)
      → s.pc i ≡ idle
      → Good std (goto s i (entered f)) (record a { phase = put a.phase i (asked f) })
  call-Good f e = record {
    queue = queue;
    waker = waker;
    inv = subst (Inv queue) (view-goto s i (entered f)) (put_role-Inv inv (ap role_of e));
    nodes =
        subst
          (λ p.
            Nodes std queue (record a { phase = put a.phase i (asked f) }) p
              (ledger (goto s i (entered f))))
          (view-goto s i (entered f))
          (subst (Nodes std queue (record a { phase = put a.phase i (asked f) }) _)
            (ledger-goto s i (entered f))
            (is_called-Nodes inv (agree good i) nodes i _ f refl (λ j. refl) (ap claim_of e)));
    words = goto-Words words i (entered f) refl (ground arith);
  }

  reply-Good :
      (x : Answer R)
      → s.pc i ≡ answered x
      → Good std (goto s i idle) (record a { phase = put a.phase i out })
  reply-Good x e = record {
    queue = queue;
    waker = waker;
    inv = subst (Inv queue) (view-goto s i idle) (put_role-Inv inv (ap role_of e));
    nodes =
        subst
          (λ p. Nodes std queue (record a { phase = put a.phase i out }) p (ledger (goto s i idle)))
          (view-goto s i idle)
          (subst (Nodes std queue (record a { phase = put a.phase i out }) _) (ledger-goto s i idle)
            (goes_out-Nodes inv (agree good i) nodes i _ x refl (λ j. refl) (ap claim_of e)));
    words = goto-Words words i idle refl (ground arith);
  }

module _ {T R F : Type 0} (call : F → T → Outcome T R) (std : Bool) (t : T) where
  -- A run with what it is for an atomic lock.
  pub record Linear (l : List (Event R F)) (s : System T R F) : Type 0 where
    pub atomic : Atomic T R F
    pub history : AtomicRun call std t l atomic
    pub good : Good std s atomic

  pub run-Linear : (l : List (Event R F)) (s : System T R F) → Run call std t l s → Linear l s
  run-Linear _ _ Run.starts = record {
    atomic = _;
    history = AtomicRun.starts;
    good = new-Good R F std t;
  }
  run-Linear _ _ (Run.is_called i f run e) =
      let m = run-Linear _ _ run in
      record {
        atomic = _;
        history = AtomicRun.is_called i f m.history (ground (arith, m.good.nodes.out_phase i, e));
        good = call-Good m.good i f e;
      }
  run-Linear _ _ (Run.acts i run) =
      let m = run-Linear _ _ run in
      let n = act-Next {call = call} m.good i in
      record { atomic = n.atomic; history = AtomicRun.works m.history n.internal; good = n.good }
  run-Linear _ _ (Run.is_interrupted i run e) =
      let m = run-Linear _ _ run in
      let n = interrupt-Next {call = call} m.good i e in
      record { atomic = n.atomic; history = AtomicRun.works m.history n.internal; good = n.good }
  run-Linear _ _ (Run.replies i x run e) =
      let m = run-Linear _ _ run in
      record {
        atomic = _;
        history =
            AtomicRun.replies i x m.history
              (m.good.nodes.replied i x (ap (λ p. reply (claim_of p)) e));
        good = reply-Good m.good i x e;
      }

  -- Every run of threads on a new lock, in any order of their steps, is a run of the atomic lock with the
  -- same events: the calls and answers are those of calls that run one at a time, each in one step between
  -- its call and its answer, and the lock's data is what those calls leave.
  pub run-AtomicRun :
      (l : List (Event R F)) (s : System T R F)
      → Run call std t l s
      → (a : Atomic T R F) × AtomicRun call std t l a × (s.data_cell ≡ a.contents)
  run-AtomicRun l s run = let m = run-Linear l s run in (m.atomic, m.history, m.good.nodes.contents)
