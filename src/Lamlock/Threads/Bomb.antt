-- ===== src/Lamlock/Threads/Bomb.antt =====
-- crates/lamlock/src/bomb.rs: the drop of a bomb, for a thread that unwinds or that leaves `attach`
-- with an error.
use useless.Base.{ℕ, Bool, true, false, Option, none, some}
use useless.Lamlock.RawLock.{RawLock, poison, try_close}
use useless.Lamlock.Solo.{unwinds}
use useless.Lamlock.Threads.{
  Word, Pc, draining, drain_passing, drain_closing, drain_telling, drain_spinning, failing,
  answered, System, goto,
}
use useless.Lamlock.Threads.Futex.{notify}

module _ {T R F : Type 0} where
  unfoldable pub drop_poison : System T R F → ℕ → Option ℕ → ℕ → System T R F
  unfolding poison
  drop_poison s i e c = goto (record s { raw = poison s.raw }) i (draining e c)

  unfoldable pub drain_to : Option ℕ → ℕ → Option ℕ → Pc T R F
  drain_to e c (some n) = drain_passing e c n
  drain_to e c none = drain_closing e c

  unfoldable pub drop_load : System T R F → ℕ → Option ℕ → ℕ → System T R F
  unfolding drain_to
  drop_load s i e c = goto s i (drain_to e c (s.next c))

  unfoldable pub drop_pass : System T R F → ℕ → Option ℕ → ℕ → ℕ → System T R F
  unfolding notify
  drop_pass s i e c n = notify s i c Word.poisoned (draining e n)

  unfoldable pub drain_closed : System T R F → ℕ → Option ℕ → ℕ → RawLock × Bool → System T R F
  drain_closed s i e c (raw, true) = goto (record s { raw = raw }) i (drain_telling e c)
  drain_closed s i e c (raw, false) = goto (record s { raw = raw }) i (drain_spinning e c)

  unfoldable pub drop_close : System T R F → ℕ → Option ℕ → ℕ → System T R F
  unfolding drain_closed try_close
  drop_close s i e c = drain_closed s i e c (try_close s.raw c)

  -- After the drop: `attach` returns its error, or the panic goes on.
  unfoldable pub dropped : Option ℕ → Pc T R F
  dropped none = failing
  dropped (some p) = answered (unwinds p)

  unfoldable pub drop_tell : System T R F → ℕ → Option ℕ → ℕ → System T R F
  unfolding notify dropped
  drop_tell s i e c = notify s i c Word.poisoned (dropped e)

  unfoldable pub drain_again : Option ℕ → ℕ → Option ℕ → Pc T R F
  drain_again e c (some n) = draining e c
  drain_again e c none = drain_spinning e c

  unfoldable pub drop_spin : System T R F → ℕ → Option ℕ → ℕ → System T R F
  unfolding drain_again
  drop_spin s i e c = goto s i (drain_again e c (s.next c))
