-- ===== src/Lamlock/Threads/Progress.antt =====
-- No deadlock: while a call goes on, some thread can make a step that is not a wait for another.
use useless.Base.{
  refl, sym, ap, ◌∙◌, zero, suc, ℕ, ◌≡◌, ◌≢◌, ◌⊎◌, inl, inr, Bool, true, false, Bool-cases, none,
  some, Option-cases, List, arith,
}
use useless.Lamlock.RawLock.{
  acquire_status, try_acquire, has_tail, release, swap_tail, close_tail, try_close, poison,
}
use useless.Lamlock.Solo.{Outcome, Answer}
use useless.Lamlock.Atomic.{Event}
use useless.Lamlock.Threads.{
  answered, Pc, idle, parking, checking, entering, parked, acquiring, pausing, spinning, handing,
  drain_spinning, System,
}
use useless.Lamlock.Threads.Futex.{
  exchange_waiting, wait, loop_test, check, kernel_test, futex_wait, notify, futex_wake,
}
use useless.Lamlock.Threads.Attach.{
  attach_to, attach, store_next, spin_on, spin, receive, cancelled_waiter, acquire_with, acquire,
  paused, pause, combine_to, load_next, wake_as_done, close_with, close, unlock, hand_to, hand_over,
  wake_as_head,
}
use useless.Lamlock.Threads.Bomb.{
  drop_poison, drain_to, drop_load, drop_pass, drain_closed, drop_close, dropped, drop_tell,
  drain_again, drop_spin,
}
use useless.Lamlock.Threads.Call.{
  test_tail, enter_with, finish_fast, new_node, execute, finish, resume, cancel_with, step, act,
}
use useless.Lamlock.Threads.Run.{Run}
use useless.Lamlock.Threads.Linear.{run-Linear}
use useless.Lamlock.Threads.Open.{run-Open}
use useless.Lamlock.Threads.Blocked.{blocked_at, blocked, moves-Good}

module _ {T R F : Type 0} where
  -- The places in the loops that wait for a store of another thread.
  unfoldable pub in_loop : Pc T R F → Bool
  in_loop parking = true
  in_loop checking = true
  in_loop entering = true
  in_loop parked = true
  in_loop acquiring = true
  in_loop pausing = true
  in_loop (spinning left) = true
  in_loop (handing c) = true
  in_loop (drain_spinning e c) = true
  in_loop p = false

module _ {T R F : Type 0} (call : F → T → Outcome T R) (std : Bool) where
  -- The thread `j` gets on by itself: it has an answer to give; or it makes a wake-up call; or, outside the
  -- waiting loops, its step takes it to another place; or, in one, its next step or the one after it
  -- takes it out of the loop.
  unfoldable pub Moves : System T R F → ℕ → Type 0
  Moves s j =
      ((x : Answer R) × (s.pc j ≡ answered x))
      ⊎ ((c : ℕ) × (s.wake j ≡ some c) × ((act call std s j).wake j ≡ none))
      ⊎ ((in_loop (s.pc j) ≡ false) × ((act call std s j).pc j ≢ s.pc j))
      ⊎ ((in_loop (s.pc j) ≡ true)
          × ((in_loop ((act call std s j).pc j) ≡ false)
              ⊎ (in_loop ((act call std (act call std s j) j).pc j) ≡ false)))

  act-step :
      (s : System T R F) (j : ℕ) (p : Pc T R F)
      → s.wake j ≡ none
      → s.pc j ≡ p
      → act call std s j ≡ step call std s j p
  unfolding act
  act-step s j p w e = rw (w, act) (ap (step call std s j) e)

  leaves_place :
      (s : System T R F) (j : ℕ) (p : Pc T R F)
      → in_loop p ≡ false
      → blocked_at s j p ≡ false
      → ((x : Answer R) × (p ≡ answered x)) ⊎ ((step call std s j p).pc j ≢ p)
  unfolding step test_tail enter_with finish_fast new_node execute finish resume cancel_with
      has_tail try_acquire acquire_status wait exchange_waiting check loop_test futex_wait
      kernel_test drop_poison drop_load drain_to drop_pass drop_close drain_closed drop_tell dropped
      drop_spin drain_again attach attach_to store_next spin spin_on receive cancelled_waiter
      acquire acquire_with pause paused load_next combine_to wake_as_done close close_with unlock
      hand_over hand_to wake_as_head notify swap_tail try_close close_tail poison release in_loop
      blocked_at
  leaves_place s j (answered x) o b = inl (x, refl)
  leaves_place s j p o b = inr (λ q. ground (arith, q, o, b))

  one_step :
      (s : System T R F) (j : ℕ) (p : Pc T R F)
      → in_loop p ≡ true
      → blocked_at s j p ≡ false
      → s.wake j ≡ none
      → (in_loop ((step call std s j p).pc j) ≡ false)
        ⊎ ((p' : Pc T R F) × ((step call std s j p).pc j ≡ p')
            × ((step call std s j p).wake j ≡ none)
            × (in_loop p' ≡ true)
            × (in_loop ((step call std (step call std s j p) j p').pc j) ≡ false))
  unfolding step test_tail enter_with finish_fast new_node execute finish resume cancel_with
      has_tail try_acquire acquire_status wait exchange_waiting check loop_test futex_wait
      kernel_test drop_poison drop_load drain_to drop_pass drop_close drain_closed drop_tell dropped
      drop_spin drain_again attach attach_to store_next spin spin_on receive cancelled_waiter
      acquire acquire_with pause paused load_next combine_to wake_as_done close close_with unlock
      hand_over hand_to wake_as_head notify swap_tail try_close close_tail poison release in_loop
      blocked_at
  one_step s j parking o b w = inl (ground (arith, o, b))
  one_step s j acquiring o b w = inl (ground (arith, o, b))
  one_step s j (handing c) o b w = inl (ground (arith, o, b))
  one_step s j (drain_spinning e c) o b w = inl (ground (arith, o, b))
  one_step s j checking o b w = inl (ground (arith, o, b))
  one_step s j (spinning zero) o b w = inr (parking, ground arith, w, refl, ground (arith, o, b))
  one_step s j (spinning (suc left)) o b w = inl (ground (arith, o, b))
  one_step s j entering o b w = inr (checking, ground (arith, b), w, refl, ground (arith, o, b))
  one_step s j pausing o b w = inr (acquiring, ground (arith, b), w, refl, ground (arith, o, b))
  one_step s j p o b w = ground (arith, o, b)

  step-Moves :
      (s : System T R F) (j : ℕ) → s.wake j ≡ none → blocked_at s j (s.pc j) ≡ false → Moves s j
  unfolding Moves
  step-Moves s j w b =
      let first = act-step s j (s.pc j) w refl in
      let pc_after = ap (λ s'. s'.pc j) first in
      elim (Bool-cases (in_loop (s.pc j))) [
        | inr o ↦ elim (leaves_place s j (s.pc j) o b) [
          | inl x ↦ inl x
          | inr d ↦ inr (inr (inl (o, λ q. d (sym pc_after ∙ q))))
        ]
        | inl o ↦ elim (one_step s j (s.pc j) o b w) [
          | inl out ↦ inr (inr (inr (o, inl (ap in_loop pc_after ∙ out))))
          | inr (p', at, w', o', out) ↦
              let second = act-step (step call std s j (s.pc j)) j p' w' at in
              inr (
                inr (
                  inr (
                    o,
                    inr (
                        ap (λ s'. in_loop ((act call std s' j).pc j)) first
                        ∙ ap (λ s'. in_loop (s'.pc j)) second
                        ∙ out),
                  )))
        ]
      ]

  called_up : (s : System T R F) (j c : ℕ) → s.wake j ≡ some c → (act call std s j).wake j ≡ none
  unfolding act futex_wake
  called_up s j c w = ground (arith, w)

  unblocked-Moves : (s : System T R F) (j : ℕ) → blocked s j ≡ false → Moves s j
  unfolding blocked Moves
  unblocked-Moves s j b = elim (Option-cases (s.wake j)) [
    | inl w ↦ step-Moves s j w (ground (arith, b, w))
    | inr (c, w) ↦ inr (inl (c, w, called_up s j c w))
  ]

-- No deadlock: in every state that a run reaches, while some thread is in a call, there is a thread that
-- gets on by itself: it has an answer to give; or its step makes a wake-up call; or it is in none of the
-- loops that wait for a store of another thread, and its step takes it to another place; or it is in one,
-- and its next step, or the one after it, takes it out.
pub no_deadlock :
    {T R F : Type 0} (call : F → T → Outcome T R) (std : Bool) (t : T) (l : List (Event R F))
    (s : System T R F) (i : ℕ)
    → Run call std t l s
    → s.pc i ≢ idle
    → (j : ℕ) × Moves call std s j
no_deadlock call std t l s i run n =
    let m = moves-Good (run-Linear call std t l s run).good (run-Open call std t l s run) i n in
    (m.0, unblocked-Moves call std s m.0 m.1)
