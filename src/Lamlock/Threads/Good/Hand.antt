-- ===== src/Lamlock/Threads/Good/Hand.antt =====
-- The steps of a combiner that goes on, closes the queue or hands it over keep the invariant.
use useless.Base.{
  ℕ, ◌≡◌, refl, inr, sym, ap, subst, ◌∙◌, Bool, true, false, ◌==◌, ==_iff, Option, none, some, put,
  if◌then◌else◌, arith,
}
use useless.Lamlock.RawLock.{release, close_tail, try_close}
use useless.Lamlock.Solo.{Outcome}
use useless.Lamlock.Protocol.{Role}
use useless.Lamlock.Protocol.Invariant.{Inv}
use useless.Lamlock.Protocol.Members.{successor-waits}
use useless.Lamlock.Protocol.Locking.{releases-Inv}
use useless.Lamlock.Protocol.Finding.{finds_next-Inv}
use useless.Lamlock.Protocol.Passing.{passes-Inv}
use useless.Lamlock.Protocol.Leaving.{hands_over-Inv, closes-Inv, frees_last-Inv, leaves_queue-Inv}
use useless.Lamlock.Atomic.{Atomic, Internal}
use useless.Lamlock.Ledger.Quiet.{stays-Nodes, empties-Nodes, gives_back-Nodes}
use useless.Lamlock.Ledger.Passing.{passes-Nodes, hands_over-Nodes, tells-Nodes}
use useless.Lamlock.Threads.{
  Word, done, head, Pc, calling, called, closing, freeing, handing, leaving, passing, heading,
  releasing, returning, System, goto,
}
use useless.Lamlock.Threads.Futex.{notify}
use useless.Lamlock.Threads.Attach.{
  combine_to, load_next, wake_as_done, close_with, close, unlock, hand_to, hand_over, wake_as_head,
}
use useless.Lamlock.Threads.View.{
  role_of, claim_of, view, view-goto, ledger-goto, view-notify, put_claim-Nodes,
}
use useless.Lamlock.Threads.Words.{word_ok, is_parked, goto-Words, notify-Words}
use useless.Lamlock.Threads.Good.{Good, Next, next, agree, told, still}

module _ {T R F : Type 0} {call : F → T → Outcome T R} {std : Bool} {s : System T R F}
    {a : Atomic T R F} (good : Good std s a) (i : ℕ) where
  open good use {queue, waker, inv, nodes, words}

  -- A combiner that finds a successor keeps its claim.
  found :
      (c n : ℕ) (p : Pc T R F)
      → s.next c ≡ some n
      → role_of (s.pc i) ≡ Role.serves c
      → role_of p ≡ Role.gives c n
      → claim_of (s.pc i) ≡ claim_of p
      → ((w : Word) → word_ok p w ≡ true)
      → is_parked p ≡ false
      → Next call std a (goto s i p)
  found c n p h r r' cl fine np =
      next (view-goto s i p) (ledger-goto s i p)
        (subst (λ q. Inv queue (record (view s) { role = put (view s).role i q })) (sym r')
          (finds_next-Inv inv i c n r h))
        (put_claim-Nodes (stays-Nodes inv (agree good i) nodes i _ refl (λ j. refl)) cl)
        (goto-Words words i p (fine (s.word i)) (ground (arith, np))) Internal.nothing

  pub load_next-Next : (c : ℕ) → s.pc i ≡ called c → Next call std a (load_next s i c)
  unfolding load_next combine_to
  load_next-Next c e = by_next (s.next c) refl
    where
      by_next : (o : Option ℕ) → s.next c ≡ o → Next call std a (goto s i (combine_to c o))
      by_next (some n) h =
          found c n (passing c n) h (ap role_of e) refl (ap claim_of e) (λ v. refl) refl
      by_next none h = still good i (closing c) (ap role_of e) (ap claim_of e) refl (ground arith)

  pub hand_over-Next : (c : ℕ) → s.pc i ≡ handing c → Next call std a (hand_over s i c)
  unfolding hand_over hand_to
  hand_over-Next c e = by_next (s.next c) refl
    where
      by_next : (o : Option ℕ) → s.next c ≡ o → Next call std a (goto s i (hand_to c o))
      by_next (some n) h =
          found c n (heading c n) h (ap role_of e) refl (ap claim_of e) (λ v. refl) refl
      by_next none h = still good i (handing c) (ap role_of e) (ap claim_of e) refl (ground arith)

  pub close-Next : (c : ℕ) → s.pc i ≡ closing c → Next call std a (close s i c)
  unfolding close close_with try_close close_tail
  close-Next c e = by_tail s.raw.tail refl
    where
      open_still : Next call std a (goto s i (handing c))
      open_still = still good i (handing c) (ap role_of e) (ap claim_of e) refl (ground arith)

      by_match :
          (t : ℕ) (b : Bool)
          → s.raw.tail ≡ some t
          → (t == c) ≡ b
          → Next call std a (
              close_with s i c (if b then (record s.raw { tail = none }, true) else (s.raw, false)))
      by_match t true h m =
          next (view-goto (record s { raw = record s.raw { tail = none } }) i (freeing c))
            (ledger-goto s i (freeing c))
            (closes-Inv inv i c (ap role_of e) (h ∙ ap some ((==_iff t c).0 m)))
            (put_claim-Nodes (empties-Nodes inv (agree good i) nodes i _ c refl (λ j. refl))
              (ap claim_of e))
            (goto-Words words i (freeing c) refl (ground arith)) Internal.nothing
      by_match t false h m = open_still

      by_tail :
          (o : Option ℕ)
          → s.raw.tail ≡ o
          → Next call std a (close_with s i c (close_tail s.raw c o))
      by_tail none h = open_still
      by_tail (some t) h = by_match t (t == c) h refl

  pub release-Next : s.pc i ≡ releasing → Next call std a (unlock s i returning)
  unfolding unlock release
  release-Next e =
      next (view-goto (record s { raw = release s.raw }) i returning) (ledger-goto s i returning)
        (releases-Inv inv i (ap role_of e))
        (put_claim-Nodes
          (gives_back-Nodes inv (agree good i) nodes i _ refl (λ j. refl) (rw e refl) (rw e refl))
          (ap claim_of e))
        (goto-Words words i returning refl (ground arith)) Internal.nothing

  module _ (quiet : s.wake i ≡ none) where
    pub wake_as_done-Next :
        (c n : ℕ) → s.pc i ≡ passing c n → Next call std a (wake_as_done s i c (calling n))
    unfolding wake_as_done notify
    wake_as_done-Next c n e =
        next (view-notify s i (calling n) c done) (ledger-goto s i (calling n))
          (passes-Inv inv i c n (ap role_of e))
          (passes-Nodes inv (agree good i) nodes i _ c n refl (λ j. refl) (ap claim_of e)
            (ap role_of e))
          (notify-Words words i c done (calling n) (told good i c (rw e refl)) refl (λ v. refl) refl
            quiet)
          Internal.nothing

    pub free-Next : (c : ℕ) → s.pc i ≡ freeing c → Next call std a (wake_as_done s i c releasing)
    unfolding wake_as_done notify
    free-Next c e =
        next (view-notify s i releasing c done) (ledger-goto s i releasing)
          (frees_last-Inv inv i c (ap role_of e))
          (tells-Nodes inv (agree good i) nodes i _ c refl (λ j. refl) (ap claim_of e))
          (notify-Words words i c done releasing (told good i c (rw e refl)) refl (λ v. refl) refl
            quiet)
          Internal.nothing

    pub leave-Next : (c : ℕ) → s.pc i ≡ leaving c → Next call std a (wake_as_done s i c returning)
    unfolding wake_as_done notify
    leave-Next c e =
        next (view-notify s i returning c done) (ledger-goto s i returning)
          (leaves_queue-Inv inv i c (ap role_of e))
          (tells-Nodes inv (agree good i) nodes i _ c refl (λ j. refl) (ap claim_of e))
          (notify-Words words i c done returning (told good i c (rw e refl)) refl (λ v. refl) refl
            quiet)
          Internal.nothing

    pub wake_as_head-Next :
        (c n : ℕ) → s.pc i ≡ heading c n → Next call std a (wake_as_head s i c n)
    unfolding wake_as_head notify
    wake_as_head-Next c n e =
        next (view-notify s i (leaving c) n head) (ledger-goto s i (leaving c))
          (hands_over-Inv inv i c n (ap role_of e))
          (put_claim-Nodes
            (hands_over-Nodes inv (agree good i) nodes i _ c n refl (λ j. refl) (ap claim_of e)
              (ap role_of e))
            (ap claim_of e))
          (notify-Words words i n head (leaving c) (inr (successor-waits inv i n (rw e refl))) refl
            (λ v. refl) refl quiet)
          Internal.nothing
