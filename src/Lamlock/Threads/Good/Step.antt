-- ===== src/Lamlock/Threads/Good/Step.antt =====
-- Every step of a thread keeps the invariant and is a step of the atomic lock.
use useless.Base.{ℕ, ◌≡◌, refl, subst, Bool, Option, none, some, put, arith}
use useless.Lamlock.Solo.{Outcome}
use useless.Lamlock.Atomic.{Atomic, Internal}
use useless.Lamlock.Ledger.Quiet.{stays-Nodes}
use useless.Lamlock.Threads.{
  Pc, idle, entered, tested, guarded, slow, running_fast, unlocking, answered, attaching, parking,
  checking, entering, parked, awake, acquiring, pausing, linking, spinning, woken, calling, called,
  closing, freeing, handing, leaving, running, passing, heading, releasing, bombing, draining,
  drain_closing, drain_telling, drain_spinning, drain_passing, returning, failing, undefined,
  System,
}
use useless.Lamlock.Threads.Futex.{roused, futex_wake}
use useless.Lamlock.Threads.Call.{step, act}
use useless.Lamlock.Threads.View.{
  role_of, claim_of, view-goto, ledger-goto, put_role-Inv, put_claim-Nodes,
}
use useless.Lamlock.Threads.Words.{Words}
use useless.Lamlock.Threads.Good.{Good, Next, next, agree}
use useless.Lamlock.Threads.Words.{futex_wake-Words}
use useless.Lamlock.Threads.Good.Call.{
  test_tail-Next, enter-Next, guarded-Next, finish_fast-Next, unlock-Next, new_node-Next,
  resume-Next, cancel-Next,
}
use useless.Lamlock.Threads.Good.Wait.{
  attach-Next, store_next-Next, spin-Next, wait-Next, check-Next, futex_wait-Next, load-Next,
  receive-Next,
}
use useless.Lamlock.Threads.Good.Combine.{acquire-Next, pause-Next, execute-Next, finish-Next}
use useless.Lamlock.Threads.Good.Hand.{
  load_next-Next, hand_over-Next, close-Next, release-Next, wake_as_done-Next, free-Next,
  leave-Next, wake_as_head-Next,
}
use useless.Lamlock.Threads.Good.Drain.{
  drop_poison-Next, drop_load-Next, drop_spin-Next, drop_close-Next, drop_pass-Next, drop_tell-Next,
}

module _ {T R F : Type 0} where
  roused-role : (p q : Pc T R F) → q ≡ p → role_of q ≡ role_of (roused p)
  unfolding roused
  roused-role p q e = ground arith

  roused-claim : (p q : Pc T R F) → q ≡ p → claim_of q ≡ claim_of (roused p)
  unfolding roused
  roused-claim p q e = ground arith

module _ {T R F : Type 0} {call : F → T → Outcome T R} {std : Bool} {s : System T R F}
    {a : Atomic T R F} (good : Good std s a) (i : ℕ) where
  open good use {queue, waker, inv, nodes, words}

  stay : Next call std a s
  stay = record { atomic = a; internal = Internal.nothing; good = good }

  step-Next : (p : Pc T R F) → s.wake i ≡ none → s.pc i ≡ p → Next call std a (step call std s i p)
  unfolding step
  step-Next idle q e = stay
  step-Next (entered f) q e = test_tail-Next good i f e
  step-Next (tested f) q e = enter-Next good i f e
  step-Next (guarded f) q e = guarded-Next good i f e
  step-Next (running_fast f d) q e = finish_fast-Next good i f d e
  step-Next (unlocking x) q e = unlock-Next good i x e
  step-Next (slow f) q e = new_node-Next good i f e
  step-Next attaching q e = attach-Next good i e
  step-Next (linking prev) q e = store_next-Next good i prev e
  step-Next (spinning left) q e = spin-Next good i left e
  step-Next parking q e = wait-Next good i e
  step-Next checking q e = check-Next good i e
  step-Next entering q e = futex_wait-Next good i e
  step-Next parked q e = stay
  step-Next awake q e = load-Next good i e
  step-Next (woken m) q e = receive-Next good i m e
  step-Next acquiring q e = acquire-Next good i e
  step-Next pausing q e = pause-Next good i e
  step-Next (calling c) q e = execute-Next good i c e
  step-Next (running c f d) q e = finish-Next good i c f d e
  step-Next (called c) q e = load_next-Next good i c e
  step-Next (passing c n) q e = wake_as_done-Next good i q c n e
  step-Next (closing c) q e = close-Next good i c e
  step-Next (freeing c) q e = free-Next good i q c e
  step-Next releasing q e = release-Next good i e
  step-Next (handing c) q e = hand_over-Next good i c e
  step-Next (heading c n) q e = wake_as_head-Next good i q c n e
  step-Next (leaving c) q e = leave-Next good i q c e
  step-Next returning q e = resume-Next good i e
  step-Next (bombing x c) q e = drop_poison-Next good i x c e
  step-Next (draining x c) q e = drop_load-Next good i x c e
  step-Next (drain_passing x c n) q e = drop_pass-Next good i q x c n e
  step-Next (drain_closing x c) q e = drop_close-Next good i x c e
  step-Next (drain_telling x c) q e = drop_tell-Next good i q x c e
  step-Next (drain_spinning x c) q e = drop_spin-Next good i x c e
  step-Next failing q e = cancel-Next good i e
  step-Next (answered x) q e = stay
  step-Next undefined q e = stay

  futex_wake-Next : (c : ℕ) → s.wake i ≡ some c → Next call std a (futex_wake s i c)
  unfolding futex_wake roused
  futex_wake-Next c q = by_pc (s.pc c) refl
    where
      by_pc :
          (p : Pc T R F)
          → s.pc c ≡ p
          → Next call std a (record s { wake = put s.wake i none; pc = put s.pc c (roused p) })
      by_pc p e =
          next (view-goto s c (roused p)) (ledger-goto s c (roused p))
            (put_role-Inv inv (roused-role p (s.pc c) e))
            (put_claim-Nodes (stays-Nodes inv (agree good i) nodes i _ refl (λ j. refl))
              (roused-claim p (s.pc c) e))
            (subst (λ x. Words (put s.pc c (roused x)) s.word (put s.wake i none) waker) e
              (futex_wake-Words words i c q))
            Internal.nothing

  -- Every step of a thread is a step of the atomic lock, or none of it.
  pub act-Next : Next call std a (act call std s i)
  unfolding act
  act-Next = by_wake (s.wake i) refl
    where
      by_wake :
          (o : Option ℕ)
          → s.wake i ≡ o
          → Next call std a
              (elim o [ none ↦ step call std s i (s.pc i) | some c ↦ futex_wake s i c ])
      by_wake none q = step-Next (s.pc i) q refl
      by_wake (some c) q = futex_wake-Next c q
