-- ===== src/Lamlock/Threads/Blocked.antt =====
-- Threads that wait for another, and that not all do.
use useless.Base.{
  ℕ, ◌+◌, ◌<◌, ◌≡◌, ◌≢◌, ◌⊎◌, inl, inr, Bool, true, false, Bool-cases, Option, none, some,
  Option-cases, arith,
}
use useless.Lamlock.RawLock.{Status, locked}
use useless.Lamlock.Protocol.{Message, Role}
use useless.Lamlock.Protocol.Invariant.{is_waiting}
use useless.Lamlock.Protocol.Members.{first-ticket}
use useless.Lamlock.Atomic.{Atomic}
use useless.Lamlock.Threads.{
  Word, sleeping, Pc, idle, parking, checking, entering, parked, acquiring, pausing, spinning,
  handing, drain_spinning, undefined, System,
}
use useless.Lamlock.Threads.View.{message_of, role_of}
use useless.Lamlock.Threads.Words.{is_parked, is_waiting_word}
use useless.Lamlock.Threads.Good.{Good}
use useless.Lamlock.Threads.Open.{open_at, Open}

abbrev pub is_none : Option ℕ → Bool
is_none none = true
is_none (some x) = false

abbrev pub is_locked : Status → Bool
is_locked locked = true
is_locked w = false

abbrev pub is_sleeping : Word → Bool
is_sleeping sleeping = true
is_sleeping w = false

module _ {T R F : Type 0} where
  -- A thread that is not in a call, or whose next step at this place only waits for another thread: it
  -- sleeps, its word or the lock word has the value that it waits for to change, or a link is missing.
  unfoldable pub blocked_at : System T R F → ℕ → Pc T R F → Bool
  blocked_at s i idle = true
  blocked_at s i parked = true
  blocked_at s i checking = is_sleeping (s.word i)
  blocked_at s i entering = is_sleeping (s.word i)
  blocked_at s i parking = is_waiting_word (s.word i)
  blocked_at s i (spinning left) = is_waiting_word (s.word i)
  blocked_at s i acquiring = is_locked s.raw.status
  blocked_at s i pausing = is_locked s.raw.status
  blocked_at s i (handing c) = is_none (s.next c)
  blocked_at s i (drain_spinning e c) = is_none (s.next c)
  blocked_at s i undefined = true
  blocked_at s i p = false

  -- A thread with a wake-up call to make is not blocked.
  unfoldable pub blocked : System T R F → ℕ → Bool
  unfolding blocked_at
  blocked s i = elim (s.wake i) [ none ↦ blocked_at s i (s.pc i) | some c ↦ false ]

module _ {T R F : Type 0} {std : Bool} {s : System T R F} {a : Atomic T R F} (good : Good std s a)
    (open_tail : Open s) where
  open good use {queue, waker, inv, nodes, words}

  link-moves :
      (j c : ℕ) → open_at (s.pc j) ≡ some c → s.next c ≡ none → (k : ℕ) × (blocked s k ≡ false)
  unfolding blocked blocked_at
  link-moves j c h n = (
    queue.order (queue.detached + 1),
    ground (arith, open_tail j c h, first-ticket inv j c, inv.tail_last, inv.linked queue.detached),
  )

  sleeper-moves :
      (i : ℕ) → is_parked (s.pc i) ≡ true → s.word i ≢ sleeping → (k : ℕ) × (blocked s k ≡ false)
  unfolding blocked blocked_at
  sleeper-moves i p w = (waker i, ground (arith, words.called_up i))

  -- A blocked thread waits for a link, sleeps with a message, waits for the lock, or waits for a message.
  blocked_cases :
      (i : ℕ)
      → blocked s i ≡ true
      → s.pc i ≢ idle
      → (open_at (s.pc i) ≡ none)
      → ((is_parked (s.pc i) ≡ true) × (s.word i ≢ sleeping))
        ⊎ ((role_of (s.pc i) ≡ Role.acquires) × (s.raw.status ≡ locked))
        ⊎ ((role_of (s.pc i) ≡ Role.waits) × (message_of (s.word i) ≡ Message.nothing))
  unfolding blocked blocked_at
  blocked_cases i b n o = ground (arith, words.own_word i, nodes.defined i)

  open-unlinked : (i c : ℕ) → blocked s i ≡ true → open_at (s.pc i) ≡ some c → s.next c ≡ none
  unfolding blocked blocked_at
  open-unlinked i c b o = ground arith

  -- Unless it waits for the lock or for a message, a thread in a call leads to one that is not blocked.
  moves_or_waits :
      (i : ℕ)
      → s.pc i ≢ idle
      → ((k : ℕ) × (blocked s k ≡ false))
        ⊎ ((role_of (s.pc i) ≡ Role.acquires) × (s.raw.status ≡ locked))
        ⊎ ((role_of (s.pc i) ≡ Role.waits) × (message_of (s.word i) ≡ Message.nothing))
  moves_or_waits i n = elim (Bool-cases (blocked s i)) [
    | inl b ↦ elim (Option-cases (open_at (s.pc i))) [
      | inl o ↦ elim (blocked_cases i b n o) [
        | inl w ↦ inl (sleeper-moves i w.0 w.1)
        | inr w ↦ inr w
      ]
      | inr o ↦ inl (link-moves i o.0 o.1 (open-unlinked i o.0 b o.1))
    ]
    | inr b ↦ inl (i, b)
  ]

  holder-moves : s.raw.status ≡ locked → (k : ℕ) × (blocked s k ≡ false)
  holder-moves e = elim (moves_or_waits queue.holder (ground (arith, inv.held))) [
    | inl m ↦ m
    | inr w ↦ ground (arith, inv.held)
  ]

  server-moves : queue.detached < queue.attached → (k : ℕ) × (blocked s k ≡ false)
  server-moves q = elim (moves_or_waits queue.server (ground (arith, inv.served))) [
    | inl m ↦ m
    | inr w ↦ elim w [ inl x ↦ holder-moves x.1 | inr x ↦ ground (arith, inv.served) ]
  ]

  waiter-moves :
      (i : ℕ)
      → is_waiting (message_of (s.word i)) (role_of (s.pc i)) ≡ true
      → (k : ℕ) × (blocked s k ≡ false)
  waiter-moves i w = elim (inv.waiting i w) [
    | inl q ↦ server-moves (ground arith)
    | inr o ↦ elim (moves_or_waits (queue.keeper i) (ground (arith, o))) [
      | inl m ↦ m
      | inr x ↦ ground (arith, o)
    ]
  ]

  pub moves-Good : (i : ℕ) → s.pc i ≢ idle → (k : ℕ) × (blocked s k ≡ false)
  moves-Good i n = elim (moves_or_waits i n) [
    | inl m ↦ m
    | inr w ↦ elim w [ inl x ↦ holder-moves x.1 | inr x ↦ waiter-moves i (ground arith) ]
  ]
