-- ===== src/Lamlock/Threads/Poisoned.antt =====
-- A lock of crates/lamlock that a panic poisoned, without `std`.
use useless.Base.{ℕ, ◌≡◌, refl, Bool, false, Option, none, some, arith}
use useless.Lamlock.RawLock.{
  Status, acquire_status, try_acquire, has_tail, release, swap_tail, close_tail, try_close, poison,
}
use useless.Lamlock.Solo.{Outcome}
use useless.Lamlock.Atomic.{Atomic}
use useless.Lamlock.Threads.{Pc, System}
use useless.Lamlock.Threads.Futex.{
  exchange_waiting, wait, loop_test, check, kernel_test, futex_wait, wake_for, notify, futex_wake,
}
use useless.Lamlock.Threads.Attach.{
  attach_to, attach, store_next, spin_on, spin, receive, cancelled_waiter, acquire_with, acquire,
  paused, pause, combine_to, load_next, wake_as_done, close_with, close, unlock, hand_to, hand_over,
  wake_as_head,
}
use useless.Lamlock.Threads.Bomb.{
  drop_poison, drain_to, drop_load, drop_pass, drain_closed, drop_close, dropped, drop_tell,
  drain_again, drop_spin,
}
use useless.Lamlock.Threads.Call.{
  test_tail, enter_with, finish_fast, new_node, execute, finish, resume, cancel_with, step, act,
}
use useless.Lamlock.Threads.View.{message_of}
use useless.Lamlock.Threads.Good.{Good}
use useless.Base.{List}
use useless.Lamlock.Atomic.{Event}
use useless.Lamlock.Threads.Run.{Run}
use useless.Lamlock.Threads.Linear.{run-Linear}
use useless.Lamlock.Threads.Safety.{with_data, with_data-has_lock}

module _ {T R F : Type 0} (call : F → T → Outcome T R) {std : Bool} {s : System T R F}
    {a : Atomic T R F} (good : Good std s a) (i : ℕ) where
  open good use {inv}

  step-poisoned :
      (p : Pc T R F)
      → s.pc i ≡ p
      → s.raw.status ≡ Status.poisoned
      → (step call std s i p).raw.status ≡ Status.poisoned
  unfolding step test_tail enter_with finish_fast new_node execute finish resume cancel_with
      has_tail try_acquire acquire_status wait exchange_waiting check loop_test futex_wait
      kernel_test drop_poison drop_load drain_to drop_pass drop_close drain_closed drop_tell dropped
      drop_spin drain_again attach attach_to store_next spin spin_on receive cancelled_waiter
      acquire acquire_with pause paused load_next combine_to wake_as_done close close_with unlock
      hand_over hand_to wake_as_head notify wake_for swap_tail try_close close_tail poison release
  step-poisoned p e h = ground (arith, inv.one_holder i, e)

  act-poisoned : s.raw.status ≡ Status.poisoned → (act call std s i).raw.status ≡ Status.poisoned
  unfolding act futex_wake
  act-poisoned h = by_wake (s.wake i)
    where
      by_wake :
          (o : Option ℕ)
          → (elim o as (λ x. System T R F) [
            | none ↦ step call std s i (s.pc i)
            | some c ↦ futex_wake s i c
          ]).raw.status
            ≡ Status.poisoned
      by_wake none = step-poisoned (s.pc i) refl h
      by_wake (some c) = h

-- In every state that a run reaches in which the lock is poisoned, it stays poisoned with every step of
-- a thread, and no thread runs a closure on its data.
pub poisoned_forever :
    {T R F : Type 0} (call : F → T → Outcome T R) (std : Bool) (t : T) (l : List (Event R F))
    (s : System T R F) (i : ℕ)
    → Run call std t l s
    → s.raw.status ≡ Status.poisoned
    → ((act call std s i).raw.status ≡ Status.poisoned) × (with_data (s.pc i) ≡ false)
poisoned_forever call std t l s i run h =
    let m = run-Linear call std t l s run in
    (
      act-poisoned call m.good i h,
      ground (arith, m.good.inv.one_holder i, with_data-has_lock (message_of (s.word i)) (s.pc i)),
    )
