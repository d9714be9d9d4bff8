-- ===== src/Lamlock/Threads/Good/Wait.antt =====
-- The steps of a waiter keep the invariant.
use useless.Base.{ℕ, zero, suc, ◌≡◌, refl, ap, Bool, true, false, Option, none, some, put, arith}
use useless.Lamlock.RawLock.{swap_tail}
use useless.Lamlock.Solo.{Outcome}
use useless.Lamlock.Protocol.Attaching.{attaches_first-Inv, attaches_behind-Inv, links_to-Inv}
use useless.Lamlock.Protocol.Waiting.{sees_head-Inv, sees_done-Inv, sees_cancel-Inv}
use useless.Lamlock.Atomic.{Atomic, Internal}
use useless.Lamlock.Ledger.Quiet.{stays-Nodes, attaches-Nodes, attaches_first-Nodes}
use useless.Lamlock.Ledger.Waking.{sees_done-Nodes, sees_cancel-Nodes, sees_head-Nodes, links-Nodes}
use useless.Lamlock.Threads.{
  Word, waiting, done, head, sleeping, poisoned, attaching, parking, checking, entering, parked,
  awake, acquiring, linking, spinning, woken, calling, returning, failing, System, goto,
}
use useless.Lamlock.Threads.Futex.{
  exchange_waiting, wait, loop_test, check, kernel_test, futex_wait,
}
use useless.Lamlock.Threads.Attach.{
  attach_to, attach, store_next, spin_limit, spin_on, spin, receive, cancelled_waiter,
}
use useless.Lamlock.Threads.View.{
  message_of, role_of, claim_of, view, view-goto, ledger-goto, view-notify, put_role-Inv,
  put_claim-Nodes, put_message-Inv, put_at,
}
use useless.Lamlock.Threads.Words.{word_ok, goto-Words, sleeps-Words}
use useless.Lamlock.Threads.Good.{Good, Next, next, agree, still}

module _ {T R F : Type 0} {call : F → T → Outcome T R} {std : Bool} {s : System T R F}
    {a : Atomic T R F} (good : Good std s a) (i : ℕ) where
  open good use {queue, waker, inv, nodes, words}

  pub attach-Next : s.pc i ≡ attaching → Next call std a (attach s i)
  unfolding attach swap_tail attach_to
  attach-Next e = by_tail s.raw.tail refl
    where
      by_tail :
          (t : Option ℕ)
          → s.raw.tail ≡ t
          → Next call std a (attach_to s i (record s.raw { tail = some i }, t))
      by_tail none t =
          next (view-goto (record s { raw = record s.raw { tail = some i } }) i acquiring)
            (ledger-goto s i acquiring) (attaches_first-Inv inv i (ap role_of e) t)
            (put_claim-Nodes
              (attaches_first-Nodes inv (agree good i) nodes i _ refl (λ j. refl) (ap claim_of e)
                inv.some_queue)
              (ap claim_of e))
            (goto-Words words i acquiring refl (ground arith)) Internal.nothing
      by_tail (some prev) t =
          next (view-goto (record s { raw = record s.raw { tail = some i } }) i (linking prev))
            (ledger-goto s i (linking prev)) (attaches_behind-Inv inv i prev (ap role_of e) t)
            (put_claim-Nodes
              (attaches-Nodes inv (agree good i) nodes i _ refl (λ j. refl) (ap claim_of e)
                inv.some_queue)
              (ap claim_of e))
            (goto-Words words i (linking prev) (ground (arith, words.own_word i)) (ground arith))
            Internal.nothing

  pub store_next-Next : (prev : ℕ) → s.pc i ≡ linking prev → Next call std a (store_next s i prev)
  unfolding store_next
  store_next-Next prev e =
      next (view-goto (record s { next = put s.next prev (some i) }) i (spinning spin_limit))
        (ledger-goto s i (spinning spin_limit)) (links_to-Inv inv i prev (ap role_of e))
        (links-Nodes inv (agree good i) nodes i _ refl (λ j. refl) (ap claim_of e)
          (ground (arith, words.own_word i)))
        (goto-Words words i (spinning spin_limit) (ground (arith, words.own_word i)) (ground arith))
        Internal.nothing

  pub spin-Next : (left : ℕ) → s.pc i ≡ spinning left → Next call std a (spin s i left)
  unfolding spin spin_on
  spin-Next zero e =
      still good i parking (ap role_of e) (ap claim_of e) (ground (arith, words.own_word i))
        (ground arith)
  spin-Next (suc left) e = by_word left (s.word i) refl
    where
      by_word : (n : ℕ) (v : Word) → s.word i ≡ v → Next call std a (goto s i (spin_on v n))
      by_word zero waiting v =
          still good i parking (ap role_of e) (ap claim_of e) (ground arith) (ground arith)
      by_word (suc n) waiting v =
          still good i (spinning (suc n)) (ap role_of e) (ap claim_of e) (ground arith)
            (ground arith)
      by_word n done v =
          still good i (woken done) (ap role_of e) (ap claim_of e) (ground arith) (ground arith)
      by_word n head v =
          still good i (woken head) (ap role_of e) (ap claim_of e) (ground arith) (ground arith)
      by_word n poisoned v =
          still good i (woken poisoned) (ap role_of e) (ap claim_of e) (ground arith) (ground arith)
      by_word n sleeping v = ground (arith, words.own_word i)

  pub wait-Next : s.pc i ≡ parking → Next call std a (wait s i)
  unfolding wait exchange_waiting
  wait-Next e = by_word (s.word i) refl
    where
      by_word : (v : Word) → s.word i ≡ v → Next call std a (exchange_waiting s i v)
      by_word waiting v =
          next (view-notify s i checking i sleeping) (ledger-goto s i checking)
            (put_role-Inv (put_message-Inv inv (ap message_of v)) (ap role_of e))
            (put_claim-Nodes
              (stays-Nodes inv (agree good i) nodes i _ refl
                (λ j. put_at (view s).message i j (ap message_of v)))
              (ap claim_of e))
            (sleeps-Words words i e) Internal.nothing
      by_word done v =
          still good i (woken done) (ap role_of e) (ap claim_of e) (ground arith) (ground arith)
      by_word head v =
          still good i (woken head) (ap role_of e) (ap claim_of e) (ground arith) (ground arith)
      by_word poisoned v =
          still good i (woken poisoned) (ap role_of e) (ap claim_of e) (ground arith) (ground arith)
      by_word sleeping v = ground (arith, words.own_word i)

  pub check-Next : s.pc i ≡ checking → Next call std a (check s i)
  unfolding check loop_test
  check-Next e = by_word (s.word i) refl
    where
      by_word : (v : Word) → s.word i ≡ v → Next call std a (goto s i (loop_test v))
      by_word waiting v = ground (arith, words.own_word i)
      by_word done v =
          still good i awake (ap role_of e) (ap claim_of e) (ground arith) (ground arith)
      by_word head v =
          still good i awake (ap role_of e) (ap claim_of e) (ground arith) (ground arith)
      by_word poisoned v =
          still good i awake (ap role_of e) (ap claim_of e) (ground arith) (ground arith)
      by_word sleeping v =
          still good i entering (ap role_of e) (ap claim_of e) (ground arith) (ground arith)

  pub futex_wait-Next : s.pc i ≡ entering → Next call std a (futex_wait s i)
  unfolding futex_wait kernel_test
  futex_wait-Next e = by_word (s.word i) refl
    where
      by_word : (v : Word) → s.word i ≡ v → Next call std a (goto s i (kernel_test v))
      by_word waiting v = ground (arith, words.own_word i)
      by_word done v =
          still good i checking (ap role_of e) (ap claim_of e) (ground arith) (ground arith)
      by_word head v =
          still good i checking (ap role_of e) (ap claim_of e) (ground arith) (ground arith)
      by_word poisoned v =
          still good i checking (ap role_of e) (ap claim_of e) (ground arith) (ground arith)
      by_word sleeping v =
          still good i parked (ap role_of e) (ap claim_of e) (ground arith) (λ h. v)

  pub load-Next : s.pc i ≡ awake → Next call std a (goto s i (woken (s.word i)))
  load-Next e =
      still good i (woken (s.word i)) (ap role_of e) (ap claim_of e)
        (ground (arith, words.own_word i)) (ground arith)

  -- A sleeper that wakes up by itself.
  pub interrupt-Next : s.pc i ≡ parked → Next call std a (goto s i checking)
  interrupt-Next e =
      still good i checking (ap role_of e) (ap claim_of e) (ground (arith, words.own_word i))
        (ground arith)

  pub receive-Next : (m : Word) → s.pc i ≡ woken m → Next call std a (goto s i (receive std i m))
  unfolding receive cancelled_waiter
  receive-Next m e = by_word std m refl e (ground (arith, words.own_word i))
    where
      by_word :
          (b : Bool) (v : Word)
          → std ≡ b
          → s.pc i ≡ woken v
          → word_ok {T = T} {R = R} {F = F} (woken v) (s.word i) ≡ true
          → Next call std a (goto s i (receive b i v))
      by_word b done c e fine =
          next (view-goto s i returning) (ledger-goto s i returning)
            (sees_done-Inv inv i (ap role_of e) (ground arith))
            (sees_done-Nodes inv (agree good i) nodes i _ refl (λ j. refl) (ap claim_of e)
              (ground arith))
            (goto-Words words i returning refl (ground arith)) Internal.nothing
      by_word false poisoned c e fine =
          next (view-goto s i failing) (ledger-goto s i failing)
            (sees_cancel-Inv inv i (ap role_of e) (ground arith))
            (sees_cancel-Nodes inv (agree good i) nodes i _ refl (λ j. refl) (ap claim_of e)
              (ground arith))
            (goto-Words words i failing refl (ground arith)) Internal.nothing
      by_word true poisoned c e fine = ground (arith, nodes.spoilt_own i, nodes.std_enabled)
      by_word b head c e fine =
          next (view-goto s i (calling i)) (ledger-goto s i (calling i))
            (sees_head-Inv inv i (ap role_of e) (ground arith))
            (sees_head-Nodes inv (agree good i) nodes i _ refl (λ j. refl) (ap claim_of e)
              (ground arith))
            (goto-Words words i (calling i) refl (ground arith)) Internal.nothing
      by_word b waiting c e fine = ground arith
      by_word b sleeping c e fine = ground arith
