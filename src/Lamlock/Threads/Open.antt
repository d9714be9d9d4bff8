-- ===== src/Lamlock/Threads/Open.antt =====
-- A combiner or a bomb waits for a link only where one comes.
use useless.Base.{ℕ, ◌≡◌, ◌≢◌, refl, Bool, Option, none, some, arith, ℕ_discrete, ◌⊎◌}
use useless.Lamlock.RawLock.{
  acquire_status, try_acquire, has_tail, release, swap_tail, close_tail, try_close, poison,
}
use useless.Lamlock.Solo.{Outcome}
use useless.Lamlock.Atomic.{Atomic}
use useless.Lamlock.Threads.{
  Pc, idle, entered, attaching, checking, handing, drain_spinning, System, goto,
}
use useless.Lamlock.Threads.Futex.{
  exchange_waiting, wait, loop_test, check, kernel_test, futex_wait, wake_for, notify, roused,
  futex_wake,
}
use useless.Lamlock.Threads.Attach.{
  attach_to, attach, store_next, spin_on, spin, receive, cancelled_waiter, acquire_with, acquire,
  paused, pause, combine_to, load_next, wake_as_done, close_with, close, unlock, hand_to, hand_over,
  wake_as_head,
}
use useless.Lamlock.Threads.Bomb.{
  drop_poison, drain_to, drop_load, drop_pass, drain_closed, drop_close, dropped, drop_tell,
  drain_again, drop_spin,
}
use useless.Lamlock.Threads.Call.{
  test_tail, enter_with, finish_fast, new_node, execute, finish, resume, cancel_with, step, act,
}
use useless.Lamlock.Threads.Good.{Good, told}
use useless.Base.{List}
use useless.Lamlock.Atomic.{Event}
use useless.Lamlock.Threads.Run.{Run}
use useless.Lamlock.Threads.Linear.{run-Linear}

module _ {T R F : Type 0} where
  -- The node after which a thread waits for a link.
  abbrev pub open_at : Pc T R F → Option ℕ
  open_at (handing c) = some c
  open_at (drain_spinning e c) = some c
  open_at p = none

  -- A thread waits for a link only at a node that is not the tail.
  abbrev pub Open : System T R F → Type 0
  Open s = (j c : ℕ) → open_at (s.pc j) ≡ some c → s.raw.tail ≢ some c

module _ {T R F : Type 0} (call : F → T → Outcome T R) {std : Bool} {s : System T R F}
    {a : Atomic T R F} (good : Good std s a) (linked : Open s) (i : ℕ) where
  -- The step leaves the tail, empties the queue, or attaches the node of the thread.
  step-tail :
      (p : Pc T R F)
      → s.pc i ≡ p
      → ((step call std s i p).raw.tail ≡ s.raw.tail)
        ⊎ ((step call std s i p).raw.tail ≡ none)
        ⊎ ((p ≡ attaching) × ((step call std s i p).raw.tail ≡ some i))
  unfolding step test_tail enter_with finish_fast new_node execute finish resume cancel_with
      has_tail try_acquire acquire_status wait exchange_waiting check loop_test futex_wait
      kernel_test drop_poison drop_load drain_to drop_pass drop_close drain_closed drop_tell dropped
      drop_spin drain_again attach attach_to store_next spin spin_on receive cancelled_waiter
      acquire acquire_with pause paused load_next combine_to wake_as_done close close_with unlock
      hand_over hand_to wake_as_head notify wake_for swap_tail try_close close_tail poison release
  step-tail p e = ground (arith, e)

  -- The thread waits for a link only after a look at the tail.
  step-open :
      (p : Pc T R F) (c : ℕ)
      → s.pc i ≡ p
      → open_at ((step call std s i p).pc i) ≡ some c
      → (step call std s i p).raw.tail ≢ some c
  unfolding step test_tail enter_with finish_fast new_node execute finish resume cancel_with
      has_tail try_acquire acquire_status wait exchange_waiting check loop_test futex_wait
      kernel_test drop_poison drop_load drain_to drop_pass drop_close drain_closed drop_tell dropped
      drop_spin drain_again attach attach_to store_next spin spin_on receive cancelled_waiter
      acquire acquire_with pause paused load_next combine_to wake_as_done close close_with unlock
      hand_over hand_to wake_as_head notify wake_for swap_tail try_close close_tail poison release
  step-open p c e h = ground (arith, linked i c, e)

  step-others : (p : Pc T R F) (j : ℕ) → s.pc i ≡ p → i ≢ j → (step call std s i p).pc j ≡ s.pc j
  unfolding step test_tail enter_with finish_fast new_node execute finish resume cancel_with
      has_tail try_acquire acquire_status wait exchange_waiting check loop_test futex_wait
      kernel_test drop_poison drop_load drain_to drop_pass drop_close drain_closed drop_tell dropped
      drop_spin drain_again attach attach_to store_next spin spin_on receive cancelled_waiter
      acquire acquire_with pause paused load_next combine_to wake_as_done close close_with unlock
      hand_over hand_to wake_as_head notify wake_for swap_tail try_close close_tail poison release
  step-others p j e n = ground (arith, e)

  step-Open : (p : Pc T R F) → s.pc i ≡ p → Open (step call std s i p)
  step-Open p e j c h = elim (ℕ_discrete i j) [
    | yes q ↦ ground (arith, step-open p c e, q, h)
    | no n ↦ ground (arith, linked j c, told good j c, step-tail p e, step-others p j e n, h, e)
  ]

  futex_wake-Open : (c : ℕ) → Open (futex_wake s i c)
  unfolding futex_wake roused
  futex_wake-Open c j d h = ground (arith, linked j d)

  act-Open : Open (act call std s i)
  unfolding act
  act-Open = by_wake (s.wake i)
    where
      by_wake :
          (o : Option ℕ)
          → Open (elim o [ none ↦ step call std s i (s.pc i) | some c ↦ futex_wake s i c ])
      by_wake none = step-Open (s.pc i) refl
      by_wake (some c) = futex_wake-Open c

  pub goto-Open : (p : Pc T R F) → open_at p ≡ none → Open (goto s i p)
  goto-Open p e j c h = ground (arith, linked j c, e)

pub run-Open :
    {T R F : Type 0} (call : F → T → Outcome T R) (std : Bool) (t : T) (l : List (Event R F))
    (s : System T R F)
    → Run call std t l s
    → Open s
run-Open call std t _ _ Run.starts = λ j c h. ground arith
run-Open call std t _ _ (Run.is_called i f run e) =
    goto-Open call (run-Linear call std t _ _ run).good (run-Open call std t _ _ run) i (entered f)
      refl
run-Open call std t _ _ (Run.acts i run) =
    act-Open call (run-Linear call std t _ _ run).good (run-Open call std t _ _ run) i
run-Open call std t _ _ (Run.is_interrupted i run e) =
    goto-Open call (run-Linear call std t _ _ run).good (run-Open call std t _ _ run) i checking
      refl
run-Open call std t _ _ (Run.replies i x run e) =
    goto-Open call (run-Linear call std t _ _ run).good (run-Open call std t _ _ run) i idle refl
