-- ===== src/Lamlock/Threads/Words.antt =====
-- The invariant of the futex words: what a waiter knows of its own word, and that a sleeper whose word
-- has its message is about to be woken.
use useless.Base.{
  ℕ, ◌≡◌, ◌⊎◌, inl, inr, Bool, true, false, Option, none, some, put, arith, if◌then◌else◌, ◌==◌,
  Bool-cases, ==_iff, subst,
}
use useless.Lamlock.Protocol.{Message, Role}
use useless.Lamlock.Threads.{
  Word, waiting, done, head, sleeping, poisoned, Pc, attaching, parking, checking, entering, parked,
  awake, linking, spinning, woken,
}
use useless.Lamlock.Threads.Futex.{wake_for, roused}
use useless.Lamlock.Threads.View.{message_of, role_of}

abbrev pub is_final : Word → Bool
is_final waiting = false
is_final sleeping = false
is_final w = true

abbrev pub is_waiting_word : Word → Bool
is_waiting_word waiting = true
is_waiting_word w = false

module _ {T R F : Type 0} where
  -- Whether a thread at this place can have this word.
  abbrev pub word_ok : Pc T R F → Word → Bool
  word_ok attaching w = is_waiting_word w
  word_ok (linking prev) w = is_waiting_word w
  word_ok (spinning left) sleeping = false
  word_ok parking sleeping = false
  word_ok checking waiting = false
  word_ok entering waiting = false
  word_ok parked waiting = false
  word_ok awake w = is_final w
  word_ok (woken done) done = true
  word_ok (woken head) head = true
  word_ok (woken poisoned) poisoned = true
  word_ok (woken m) w = false
  word_ok p w = true

  abbrev pub is_parked : Pc T R F → Bool
  is_parked parked = true
  is_parked p = false

  -- A message for a waiter leaves it at a place that is right for the new word.
  told_ok :
      (q : Pc T R F) (w m : Word)
      → role_of q ≡ Role.waits
      → message_of w ≡ Message.nothing
      → is_final m ≡ true
      → word_ok q w ≡ true
      → word_ok q m ≡ true
  told_ok q w m r e f ok = ground arith

  told_at :
      (q p : Pc T R F) (w m : Word) (mine : Bool)
      → (mine ≡ true) ⊎ ((role_of q ≡ Role.waits) × (message_of w ≡ Message.nothing))
      → is_final m ≡ true
      → word_ok q w ≡ true
      → word_ok p m ≡ true
      → word_ok (if mine then p else q) m ≡ true
  told_at q p w m true h f ok okp = okp
  told_at q p w m false (inl e) f ok okp = ground arith
  told_at q p w m false (inr r) f ok okp = told_ok q w m r.0 r.1 f ok

  pub record Words (pc : ℕ → Pc T R F) (word : ℕ → Word) (wake : ℕ → Option ℕ) (waker : ℕ → ℕ)
      : Type 0 where
    pub own_word : (j : ℕ) → word_ok (pc j) (word j) ≡ true
    pub called_up :
        (j : ℕ) → is_parked (pc j) ≡ true → (word j ≡ sleeping) ⊎ (wake (waker j) ≡ some j)

  module _ {pc : ℕ → Pc T R F} {word : ℕ → Word} {wake : ℕ → Option ℕ} {waker : ℕ → ℕ}
      (words : Words pc word wake waker) (i : ℕ) where
    open words use {own_word, called_up}

    pub goto-Words :
        (p : Pc T R F)
        → word_ok p (word i) ≡ true
        → (is_parked p ≡ true → word i ≡ sleeping)
        → Words (put pc i p) word wake waker
    goto-Words p ok h = record {
      own_word = λ j. ground (arith, own_word j);
      called_up = λ j k. ground (arith, called_up j);
    }

    pub sleeps-Words : pc i ≡ parking → Words (put pc i checking) (put word i sleeping) wake waker
    sleeps-Words e = record {
      own_word = λ j. ground (arith, own_word j);
      called_up = λ j k. ground (arith, called_up j);
    }

    pub makes_node-Words : Words (put pc i attaching) (put word i waiting) wake waker
    makes_node-Words = record {
      own_word = λ j. ground (arith, own_word j);
      called_up = λ j k. ground (arith, called_up j);
    }

    own_or_waits :
        (c : ℕ)
        → (c ≡ i) ⊎ ((role_of (pc c) ≡ Role.waits) × (message_of (word c) ≡ Message.nothing))
        → ((i == c) ≡ true)
          ⊎ ((role_of (pc c) ≡ Role.waits) × (message_of (word c) ≡ Message.nothing))
    own_or_waits c (inl e) = inl (ground arith)
    own_or_waits c (inr w) = inr w

    pub notify-Words :
        (c : ℕ) (m : Word) (p : Pc T R F)
        → (c ≡ i) ⊎ ((role_of (pc c) ≡ Role.waits) × (message_of (word c) ≡ Message.nothing))
        → is_final m ≡ true
        → ((w : Word) → word_ok p w ≡ true)
        → is_parked p ≡ false
        → wake i ≡ none
        → Words (put pc i p) (put word c m) (put wake i (wake_for c (word c))) (put waker c i)
    unfolding wake_for
    notify-Words c m p h e ok np w = record {
      own_word = λ j. elim (Bool-cases (c == j)) [
        | inl t ↦ rw t (
            subst (λ k. word_ok (put pc i p k) m ≡ true) ((==_iff c j).0 t)
              (told_at (pc c) p (word c) m (i == c) (own_or_waits c h) e (own_word c) (ok m)))
        | inr t ↦
            rw t (elim (Bool-cases (i == j)) [
              | inl u ↦ rw u (ok (word j))
              | inr u ↦ rw u (own_word j)
            ])
      ];
      called_up = λ j k. ground (arith, called_up j, own_word j);
    }

    pub futex_wake-Words :
        (c : ℕ) → wake i ≡ some c → Words (put pc c (roused (pc c))) word (put wake i none) waker
    unfolding roused
    futex_wake-Words c e = record {
      own_word = λ j. ground (arith, own_word j, own_word c);
      called_up = λ j k. ground (arith, called_up j);
    }
