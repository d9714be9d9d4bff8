-- ===== src/Lamlock/Threads/Safety.antt =====
-- What holds of the threads in every state that a run reaches.
use useless.Base.{
  ℕ, ◌-◌, ◌≡◌, ◌≢◌, ◌⊎◌, refl, inl, inr, ap, Bool, true, false, ◌||◌, ◌==◌, some, List, arith,
}
use useless.Lamlock.RawLock.{Status, has_tail}
use useless.Lamlock.Solo.{Outcome, cancelled}
use useless.Lamlock.Protocol.{Message}
use useless.Lamlock.Protocol.Invariant.{has_lock, successor}
use useless.Lamlock.Protocol.Members.{successor-waits, first-ticket}
use useless.Lamlock.Atomic.{ran, Atomic, Internal, Event, AtomicRun}
use useless.Lamlock.Ledger.{node_of, reply}
use useless.Lamlock.Threads.{
  Word, done, head, poisoned, Pc, idle, entered, tested, guarded, slow, running_fast, unlocking,
  answered, parked, linking, woken, calling, called, closing, freeing, handing, leaving, running,
  passing, heading, returning, failing, bombing, draining, drain_closing, drain_telling,
  drain_spinning, drain_passing, undefined, System,
}
use useless.Lamlock.Threads.View.{role_of, claim_of}
use useless.Lamlock.Threads.Words.{is_final}
use useless.Lamlock.Threads.Good.{Good, told}
use useless.Lamlock.Threads.Run.{Run}
use useless.Lamlock.Threads.Linear.{run-Linear}

module _ {T R F : Type 0} where
  -- A thread that runs a closure on the lock's data.
  unfoldable pub with_data : Pc T R F → Bool
  with_data (running_fast f d) = true
  with_data (running c f d) = true
  with_data p = false

  -- Whether a step at this place accesses the node `x` as one of the queue.
  unfoldable pub accesses : Pc T R F → ℕ → Bool
  accesses (linking prev) x = prev == x
  accesses (calling c) x = c == x
  accesses (running c f d) x = c == x
  accesses (called c) x = c == x
  accesses (passing c n) x = (c == x) || (n == x)
  accesses (closing c) x = c == x
  accesses (freeing c) x = c == x
  accesses (handing c) x = c == x
  accesses (heading c n) x = (c == x) || (n == x)
  accesses (leaving c) x = c == x
  accesses (bombing e c) x = c == x
  accesses (draining e c) x = c == x
  accesses (drain_passing e c n) x = (c == x) || (n == x)
  accesses (drain_closing e c) x = c == x
  accesses (drain_telling e c) x = c == x
  accesses (drain_spinning e c) x = c == x
  accesses p x = false

  -- Whether the thread is in `attach`, where its node is alive.
  unfoldable pub in_attach : Pc T R F → Bool
  in_attach idle = false
  in_attach (entered f) = false
  in_attach (tested f) = false
  in_attach (guarded f) = false
  in_attach (slow f) = false
  in_attach (running_fast f d) = false
  in_attach (unlocking x) = false
  in_attach (answered x) = false
  in_attach returning = false
  in_attach failing = false
  in_attach undefined = false
  in_attach p = true

  pub with_data-has_lock :
      (m : Message) (p : Pc T R F) → with_data p ≡ true → has_lock m (role_of p) ≡ true
  unfolding with_data
  with_data-has_lock m p h = ground arith

  accesses_cases :
      (p : Pc T R F) (x : ℕ)
      → accesses p x ≡ true
      → (node_of (claim_of p) ≡ some x) ⊎ (p ≡ linking x) ⊎ (successor (role_of p) ≡ some x)
  unfolding accesses
  accesses_cases p x h = ground arith

module _ {T R F : Type 0} {std : Bool} {s : System T R F} {a : Atomic T R F}
    (good : Good std s a) where
  open good use {queue, waker, inv, nodes, words}

  told-in_attach : (i c : ℕ) → node_of (claim_of (s.pc i)) ≡ some c → in_attach (s.pc c) ≡ true
  unfolding in_attach
  told-in_attach i c h = ground (arith, told good i c h)

  linking-in_attach : (i prev : ℕ) → s.pc i ≡ linking prev → in_attach (s.pc prev) ≡ true
  unfolding in_attach
  linking-in_attach i prev e =
      ground (arith, e, inv.linking i prev, inv.members (queue.ticket i - 1), inv.served)

  successor-in_attach :
      (i n : ℕ) → successor (role_of (s.pc i)) ≡ some n → in_attach (s.pc n) ≡ true
  unfolding in_attach
  successor-in_attach i n h = ground (arith, successor-waits inv i n h)

  pub accesses-Good : (i x : ℕ) → accesses (s.pc i) x ≡ true → in_attach (s.pc x) ≡ true
  accesses-Good i x h = elim (accesses_cases (s.pc i) x h) [
    | inl e ↦ told-in_attach i x e
    | inr q ↦ elim q [ inl e ↦ linking-in_attach i x e | inr e ↦ successor-in_attach i x e ]
  ]

module _ {T R F : Type 0} (call : F → T → Outcome T R) (std : Bool) (t : T) (l : List (Event R F))
    (s : System T R F) (run : Run call std t l s) where
  -- In every state that a run reaches, two threads that run a closure on the lock's data are the same
  -- thread.
  pub with_data_unique : (i j : ℕ) → with_data (s.pc i) ≡ true → with_data (s.pc j) ≡ true → i ≡ j
  with_data_unique i j h h' =
      let m = run-Linear call std t l s run in
      ground (
        arith,
        m.good.inv.one_holder i (with_data-has_lock _ _ h),
        m.good.inv.one_holder j (with_data-has_lock _ _ h'),
      )

  -- In no state that a run reaches has a thread read a closure or a result that is not initialised.
  pub undefined-unreached : (i : ℕ) → s.pc i ≢ undefined
  undefined-unreached i e =
      let m = run-Linear call std t l s run in ground (arith, m.good.nodes.defined i, e)

  -- No wake-up is lost: if a thread sleeps in the kernel and its word has its message, some thread is
  -- about to make the wake-up call for it.
  pub sleeper-woken :
      (i : ℕ) → s.pc i ≡ parked → is_final (s.word i) ≡ true → (j : ℕ) × (s.wake j ≡ some i)
  sleeper-woken i e f =
      let m = run-Linear call std t l s run in
      (m.good.waker i, ground (arith, m.good.words.called_up i, e))

  -- The first debug assertion of `attach` holds: in every state that a run reaches, the message of a
  -- waiter that acts on it is DONE, HEAD or, without `std`, POISONED.
  pub woken-message :
      (i : ℕ) (m : Word)
      → s.pc i ≡ woken m
      → (m ≡ done) ⊎ (m ≡ head) ⊎ ((m ≡ poisoned) × (std ≡ false))
  woken-message i m e =
      let k = run-Linear call std t l s run in
      ground
        (arith, k.good.words.own_word i, k.good.nodes.spoilt_own i, k.good.nodes.std_enabled, e)

  -- The second debug assertion of `attach` holds: in every state that a run reaches, the tail is not null
  -- while a combiner waits for the link of a successor.
  pub handing-has_tail : (i c : ℕ) → s.pc i ≡ handing c → has_tail s.raw ≡ true
  unfolding has_tail
  handing-has_tail i c e =
      let k = run-Linear call std t l s run in
      ground (arith, first-ticket k.good.inv i c, k.good.inv.tail_last, e)

module _ {T R F : Type 0} (call : F → T → Outcome T R) (t : T) where
  -- With `std` the atomic lock stays enabled, and no call of it is cancelled.
  atomic_std :
      (l : List (Event R F)) (a : Atomic T R F)
      → AtomicRun call true t l a
      → (a.disabled ≡ false) × ((i : ℕ) → a.phase i ≢ ran cancelled)
  atomic_std _ _ AtomicRun.starts = (refl, λ i h. ground arith)
  atomic_std _ _ (AtomicRun.works run step) = internal (atomic_std _ _ run) step
    where
      internal :
          {a a' : Atomic T R F}
          → (a.disabled ≡ false) × ((i : ℕ) → a.phase i ≢ ran cancelled)
          → Internal call true a a'
          → (a'.disabled ≡ false) × ((i : ℕ) → a'.phase i ≢ ran cancelled)
      internal h Internal.nothing = h
      internal h (Internal.runs i f r t' e d c) = (h.0, λ j k. ground (arith, h.1 j, k))
      internal h (Internal.panics i f p t' e d c) = (h.0, λ j k. ground (arith, h.1 j, k))
      internal h (Internal.disables i f p t' b e d c) = ground (arith, b)
      internal h (Internal.fails i d n) = ground (arith, h.0, d)
      internal h (Internal.unwinds_with i p d n) = ground (arith, h.0, d)
  atomic_std _ _ (AtomicRun.is_called i f run e) =
      let h = atomic_std _ _ run in (h.0, λ j k. ground (arith, h.1 j, k))
  atomic_std _ _ (AtomicRun.replies i x run e) =
      let h = atomic_std _ _ run in (h.0, λ j k. ground (arith, h.1 j, k))

  -- With `std`, in every state that a run reaches, the lock is not poisoned and no call ends with the
  -- error of a disabled queue.
  pub std-answered :
      (l : List (Event R F)) (s : System T R F) (i : ℕ)
      → Run call true t l s
      → (s.raw.status ≢ Status.poisoned) × (s.pc i ≢ answered cancelled)
  std-answered l s i run =
      let m = run-Linear call true t l s run in
      let h = atomic_std l m.atomic m.history in
      (
        λ e. ground (arith, m.good.nodes.poisoned_disabled e, h.0),
        λ e. h.1 i (m.good.nodes.replied i cancelled (ap (λ p. reply (claim_of p)) e)),
      )
