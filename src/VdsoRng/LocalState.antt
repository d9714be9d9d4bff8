-- ===== src/VdsoRng/LocalState.antt =====
-- crates/vdso-rng/src/lib.rs: `LocalState` in a debug build. The function of the vDSO is a parameter. A
-- buffer is the list of its bytes.
pub mod Promises
pub mod Rounds
pub mod Fill
use useless.Base.{
  ℕ, zero, suc, ◌+◌, ◌^◌, ◌≤◌, ◌<◌, ◌≡◌, ◌⊎◌, Bool, true, false, ◌||◌, List, [], ◌∷◌, ◌++◌, Option,
  none, some, Result, ok, err, if◌then◌else◌, ltb, ◌==◌, length, take, drop, ℤ, pos, negsuc,
}
use useless.VdsoRng.Os.{Run, done, panics, unfinished, Error, errno, Kernel, SegQueue}
use useless.VdsoRng.Config.{Config}
use useless.VdsoRng.Pool.{Pool}
use useless.VdsoRng.Pool

pub record LocalState : Type 0 where
  pub state : ℕ
  pub inflight : Bool

-- `VdsoFunc`: from the buffer, the flags, the state and its length, the buffer after the call and the
-- result. The world is all memory that the function reads and writes besides.
pub record VdsoFunc : Type 1 where
  pub World : Type 0
  pub call : World → (buf : List ℕ) → (flags state state_length : ℕ) → World × List ℕ × ℤ

module _ (k : Kernel) (q : SegQueue) where
  rented :
      Option (k.World × Pool q × Result Error ℕ)
      → Option (k.World × Pool q × Result Error LocalState)
  rented none = none
  rented (some (w, p, ok ptr)) = some (w, p, ok (record { state = ptr; inflight = false }))
  rented (some (w, p, err e)) = some (w, p, err e)

  -- `LocalState::new`.
  unfoldable pub new : ℕ → k.World → Pool q → Option (k.World × Pool q × Result Error LocalState)
  unfolding rented
  new fuel w p = rented (Pool.get k q fuel w p)

  -- `LocalState::drop`.
  unfoldable pub drop_state : Pool q → LocalState → Pool q
  drop_state p l = Pool.recycle k q p l.state

abbrev pub eagain : ℕ
eagain = 11

abbrev pub eintr : ℕ
eintr = 4

module _ (f : VdsoFunc) where
  abbrev pub Filling : Type 0 → Type 0
  Filling A = Run (f.World × LocalState × List ℕ × Result Error A)

  -- A negative result is an errno; the negation of the least 32-bit number overflows.
  answer : LocalState → f.World × List ℕ × ℤ → Filling ℕ
  answer l (w, buf, pos n) = done (w, l, buf, ok n)
  answer l (w, buf, negsuc n) =
      if n + 1 == 2 ^ 31 then panics else done (w, l, buf, err (errno (n + 1)))

  -- `LocalState::try_fill`.
  unfoldable pub try_fill : Config → f.World → LocalState → List ℕ → ℕ → Filling ℕ
  unfolding answer
  try_fill c w l buf flag =
      if l.inflight
      then panics
      else answer (record l { inflight = false })
          (f.call w buf flag l.state c.params.size_of_opaque_states)

  behind : List ℕ → Filling (Unit {0}) → Filling (Unit {0})
  behind xs (done (w, l, buf, r)) = done (w, l, xs ++ buf, r)
  behind xs panics = panics
  behind xs unfinished = unfinished

  -- `LocalState::fill`. A round of the loop can move on by less than the buffer's length, or retry.
  unfoldable pub fill : ℕ → Config → f.World → LocalState → List ℕ → ℕ → Filling (Unit {0})
  unfolding try_fill behind
  fill fuel c w l [] flag = done (w, l, [], ok tt)
  fill zero c w l (x ∷ xs) flag = unfinished
  fill (suc fuel) c w l (x ∷ xs) flag = elim (try_fill c w l (x ∷ xs) flag) [
    | panics ↦ panics
    | unfinished ↦ unfinished
    | done (w', l', buf, ok filled) ↦
        if ltb (length buf) filled
        then panics
        else behind (take filled buf) (fill fuel c w' l' (drop filled buf) flag)
    | done (w', l', buf, err (errno e)) ↦
        if e == eagain || e == eintr
        then fill fuel c w' l' buf flag
        else done (w', l', buf, err (errno e))
    | done (w', l', buf, err e) ↦ done (w', l', buf, err e)
  ]
