-- ===== src/Lamlock/Threads/Memory.antt =====
-- Which steps touch the memory of a node, and that no step touches that of a call that has returned.
use useless.Base.{
  refl, sym, ap, ◌∙◌, ℕ, ◌≡◌, ◌⊎◌, inl, inr, Bool, true, false, Bool-cases, ◌==◌, Option, none,
  some, List, put, Result, arith,
}
use useless.Lamlock.RawLock.{
  acquire_status, try_acquire, has_tail, release, swap_tail, close_tail, try_close, poison,
}
use useless.Lamlock.Solo.{Outcome}
use useless.Lamlock.Atomic.{Atomic, Event}
use useless.Lamlock.Threads.{
  Word, Pc, idle, entered, tested, guarded, slow, running_fast, unlocking, answered, parking,
  checking, entering, awake, spinning, returning, failing, undefined, System,
}
use useless.Lamlock.Threads.Futex.{
  exchange_waiting, wait, loop_test, check, kernel_test, futex_wait, notify, futex_wake,
}
use useless.Lamlock.Threads.Attach.{
  attach_to, attach, store_next, spin_on, spin, receive, cancelled_waiter, acquire_with, acquire,
  paused, pause, combine_to, load_next, wake_as_done, close_with, close, unlock, hand_to, hand_over,
  wake_as_head,
}
use useless.Lamlock.Threads.Bomb.{
  drop_poison, drain_to, drop_load, drop_pass, drain_closed, drop_close, dropped, drop_tell,
  drain_again, drop_spin,
}
use useless.Lamlock.Threads.Call.{
  test_tail, enter_with, finish_fast, new_node, execute, finish, resume, cancel_with, step, act,
}
use useless.Lamlock.Threads.Good.{Good}
use useless.Lamlock.Threads.Run.{Run}
use useless.Lamlock.Threads.Linear.{run-Linear}
use useless.Lamlock.Threads.Safety.{accesses, in_attach, accesses-Good}

-- The fields of a node.
pub record Fields (R F : Type 0) : Type 0 where
  pub word : Word
  pub next : Option ℕ
  pub closure : Option F
  pub started : Bool
  pub result : Option (Result ℕ R)

module _ {T R F : Type 0} where
  -- Other contents in the memory of the node `x`.
  unfoldable pub scribble : System T R F → ℕ → Fields R F → System T R F
  scribble s x v = record s {
    word = put s.word x v.word;
    next = put s.next x v.next;
    closure = put s.closure x v.closure;
    started = put s.started x v.started;
    result = put s.result x v.result;
  }

  -- Whether the thread's node is alive: it is in `run_slowly`, from the making of the node on.
  unfoldable pub alive : Pc T R F → Bool
  alive idle = false
  alive (entered f) = false
  alive (tested f) = false
  alive (guarded f) = false
  alive (running_fast f d) = false
  alive (unlocking a) = false
  alive (answered a) = false
  alive undefined = false
  alive p = true

  -- Two states that agree in all memory and in the places of the threads.
  pub record Same (s s' : System T R F) : Type 0 where
    pub same_raw : s.raw ≡ s'.raw
    pub same_data : s.data_cell ≡ s'.data_cell
    pub same_pc : (j : ℕ) → s.pc j ≡ s'.pc j
    pub same_wake : (j : ℕ) → s.wake j ≡ s'.wake j
    pub same_word : (y : ℕ) → s.word y ≡ s'.word y
    pub same_next : (y : ℕ) → s.next y ≡ s'.next y
    pub same_closure : (y : ℕ) → s.closure y ≡ s'.closure y
    pub same_started : (y : ℕ) → s.started y ≡ s'.started y
    pub same_result : (y : ℕ) → s.result y ≡ s'.result y

  touches : ℕ → Pc T R F → ℕ → Bool
  unfolding accesses
  touches i (slow f) x = i == x
  touches i (spinning left) x = i == x
  touches i parking x = i == x
  touches i checking x = i == x
  touches i entering x = i == x
  touches i awake x = i == x
  touches i returning x = i == x
  touches i failing x = i == x
  touches i p x = accesses p x

module _ {T R F : Type 0} (call : F → T → Outcome T R) (std : Bool) (s : System T R F) (x : ℕ)
    (v : Fields R F) (i : ℕ) where
  step-Same :
      (p : Pc T R F)
      → touches i p x ≡ false
      → Same (step call std (scribble s x v) i p) (scribble (step call std s i p) x v)
  unfolding step test_tail enter_with finish_fast new_node execute finish resume cancel_with
      has_tail try_acquire acquire_status wait exchange_waiting check loop_test futex_wait
      kernel_test drop_poison drop_load drain_to drop_pass drop_close drain_closed drop_tell dropped
      drop_spin drain_again attach attach_to store_next spin spin_on receive cancelled_waiter
      acquire acquire_with pause paused load_next combine_to wake_as_done close close_with unlock
      hand_over hand_to wake_as_head notify swap_tail try_close close_tail poison release touches
      scribble
  step-Same p h = record {
    same_raw = ground (arith, h);
    same_data = ground (arith, h);
    same_pc = λ j. ground (arith, h);
    same_wake = λ j. ground (arith, h);
    same_word = λ y. ground (arith, h);
    same_next = λ y. ground (arith, h);
    same_closure = λ y. ground (arith, h);
    same_started = λ y. ground (arith, h);
    same_result = λ y. ground (arith, h);
  }

  act-Same :
      (o : Option ℕ)
      → s.wake i ≡ o
      → touches i (s.pc i) x ≡ false
      → Same (act call std (scribble s x v) i) (scribble (act call std s i) x v)
  unfolding act futex_wake scribble
  act-Same none w h = rw (w, act) (step-Same (s.pc i) h)
  act-Same (some c) w h =
      rw (w, act)
        (record {
          same_raw = refl;
          same_data = refl;
          same_pc = λ j. refl;
          same_wake = λ j. refl;
          same_word = λ y. refl;
          same_next = λ y. refl;
          same_closure = λ y. refl;
          same_started = λ y. refl;
          same_result = λ y. refl;
        })

module _ {T R F : Type 0} {std : Bool} {s : System T R F} {a : Atomic T R F}
    (good : Good std s a) where
  in_attach-alive : (p : Pc T R F) → in_attach p ≡ true → alive p ≡ true
  unfolding in_attach alive
  in_attach-alive p h = ground (arith, h)

  touches_cases :
      (i : ℕ) (p : Pc T R F) (x : ℕ)
      → touches i p x ≡ true
      → ((i ≡ x) × (alive p ≡ true)) ⊎ (accesses p x ≡ true)
  unfolding touches accesses alive
  touches_cases i p x h = ground (arith, h)

  touches-alive : (i x : ℕ) → touches i (s.pc i) x ≡ true → alive (s.pc x) ≡ true
  touches-alive i x h = elim (touches_cases i (s.pc i) x h) [
    | inl own ↦ ap (λ j. alive (s.pc j)) (sym own.0) ∙ own.1
    | inr other ↦ in_attach-alive (s.pc x) (accesses-Good good i x other)
  ]

  untouched : (i x : ℕ) → alive (s.pc x) ≡ false → touches i (s.pc i) x ≡ false
  untouched i x dead = elim (Bool-cases (touches i (s.pc i) x)) [
    | inl t ↦ ground (arith, touches-alive i x t, dead)
    | inr t ↦ t
  ]

-- No use after free: in every state that a run reaches, if the thread `x` is not in `run_slowly`, so that
-- its node is not alive, then the next step of any thread neither reads nor writes the memory of
-- that node, the wake-up call included: with any other contents `v` in it, the step leaves these
-- contents and does everywhere else what it does without them.
pub dead-untouched :
    {T R F : Type 0} (call : F → T → Outcome T R) (std : Bool) (t : T) (l : List (Event R F))
    (s : System T R F) (i x : ℕ) (v : Fields R F)
    → Run call std t l s
    → alive (s.pc x) ≡ false
    → Same (act call std (scribble s x v) i) (scribble (act call std s i) x v)
dead-untouched call std t l s i x v run dead =
    act-Same call std s x v i (s.wake i) refl
      (untouched (run-Linear call std t l s run).good i x dead)
