-- ===== src/VdsoRng/LocalState/Fill.antt =====
-- The loop of `LocalState::fill` in crates/vdso-rng/src/lib.rs.
use useless.Base.{
  ℕ, zero, suc, ◌+◌, ◌≤◌, ◌<◌, ◌≡◌, ◌≢◌, ◌⊎◌, inl, inr, refl, ◌∙◌, List, [], ◌∷◌, ◌++◌, Result, ok,
  err, length, length-append, length-take, length-take-drop, take, drop, ℤ, pos, negsuc, All,
  All-append, arith,
}
use useless.VdsoRng.Os.{Error, errno, done}
use useless.VdsoRng.Config.{Config}
use useless.VdsoRng.LocalState.{VdsoFunc, fill, eagain, eintr}
use useless.VdsoRng.LocalState.Promises.{VdsoFuncLaws}
use useless.VdsoRng.LocalState.Rounds.{
  ℤ-cases, retry-cases, held, called, fill_error, fill_retry, fill_written,
}

-- What `fill` leaves: a buffer that the function wrote, or an errno that is not retried.
abbrev pub Filled : (ℕ → Type 0) → List ℕ → Result Error (Unit {0}) → Type 0
Filled P buf (ok _) = All P buf
Filled P buf (err e) = (n : ℕ) × (e ≡ errno n) × (n ≢ eagain) × (n ≢ eintr)

Filled-append :
    (P : ℕ → Type 0) (xs ys : List ℕ) (r : Result Error (Unit {0}))
    → All P xs
    → Filled P ys r
    → Filled P (xs ++ ys) r
Filled-append P xs ys (ok _) hx hy = All-append P xs ys hx hy
Filled-append P xs ys (err e) hx hy = hy

module _ (f : VdsoFunc) (P : ℕ → Type 0) where
  pub record Fills (fuel : ℕ) (c : Config) (w : f.World) (state : ℕ) (buf : List ℕ) (flag : ℕ)
      : Type 0 where
    pub world_after : f.World
    pub buf_after : List ℕ
    pub result : Result Error (Unit {0})
    pub returns :
        fill f fuel c w (held state) buf flag ≡ done (world_after, held state, buf_after, result)
    pub length_kept : length buf_after ≡ length buf
    pub filled : Filled P buf_after result

  module _ (c : Config) (w : f.World) (state x : ℕ) (xs : List ℕ) (flag fuel : ℕ) where
    abbrev after_call : f.World × List ℕ × ℤ
    after_call = called f c w state x xs flag fuel

    abbrev Round : Type 0
    Round = Fills (suc fuel) c w state (x ∷ xs) flag

    Fills_retry :
        (n : ℕ)
        → after_call.2 ≡ negsuc n
        → n < 4095
        → (n + 1 ≡ eagain) ⊎ (n + 1 ≡ eintr)
        → length after_call.1 ≡ length (x ∷ xs)
        → Fills fuel c after_call.0 state after_call.1 flag
        → Round
    Fills_retry n e small again same t = record {
      world_after = t.world_after;
      buf_after = t.buf_after;
      result = t.result;
      returns = fill_retry f c w state x xs flag fuel n e small again ∙ t.returns;
      length_kept = t.length_kept ∙ same;
      filled = t.filled;
    }

    Fills_written :
        (n : ℕ)
        → after_call.2 ≡ pos n
        → n ≤ length after_call.1
        → All P (take n after_call.1)
        → length after_call.1 ≡ length (x ∷ xs)
        → Fills fuel c after_call.0 state (drop n after_call.1) flag
        → Round
    Fills_written n e le written same t = record {
      world_after = t.world_after;
      buf_after = take n after_call.1 ++ t.buf_after;
      result = t.result;
      returns =
          fill_written f c w state x xs flag fuel n t.world_after t.buf_after t.result e le
            t.returns;
      length_kept = omega (
        arith,
        same,
        length-append (take n after_call.1) t.buf_after,
        t.length_kept,
        length-take-drop n after_call.1,
      );
      filled = Filled-append P (take n after_call.1) t.buf_after t.result written t.filled;
    }

  module _ (retries : f.World → ℕ) (laws : VdsoFuncLaws f P retries) where
    -- If the function keeps its promises, then `fill` on a `LocalState` that is not in use returns, in
    -- as many rounds as the buffer has bytes and the function retries. It leaves the length of the
    -- buffer and the `LocalState`, and either every byte of the buffer was written by the function, or
    -- the result is an errno other than `EAGAIN` and `EINTR`.
    pub fill-Filled :
        (fuel : ℕ) (c : Config) (w : f.World) (state : ℕ) (buf : List ℕ) (flag : ℕ)
        → length buf + retries w ≤ fuel
        → Fills fuel c w state buf flag
    unfolding fill
    fill-Filled fuel c w state [] flag enough = record {
      world_after = w;
      buf_after = [];
      result = ok tt;
      returns = refl;
      length_kept = refl;
      filled = tt;
    }
    fill-Filled zero c w state (x ∷ xs) flag enough = absurd (omega arith)
    fill-Filled (suc fuel) c w state (x ∷ xs) flag enough =
        let size : ℕ = c.params.size_of_opaque_states in
        let r : f.World × List ℕ × ℤ = f.call w (x ∷ xs) flag state size in
        let same = laws.length-call w (x ∷ xs) flag state size in
        elim (ℤ-cases r.2) [
          | inl (n, e) ↦
              let written = laws.writes w (x ∷ xs) flag state size n e in
              let le : n ≤ length r.1 = omega (arith, same, written.0) in
              Fills_written c w state x xs flag fuel n e le written.1 same (
                fill-Filled fuel c r.0 state (drop n r.1) flag (
                  omega (
                    arith,
                    same,
                    length-take n r.1 le,
                    length-take-drop n r.1,
                    laws.moves_on w (x ∷ xs) flag state size n e (omega arith),
                    laws.retries_le w (x ∷ xs) flag state size,
                  )))
          | inr (n, e) ↦
              let small = laws.small_errno w (x ∷ xs) flag state size n e in
              elim (retry-cases (n + 1)) [
                | inl again ↦ Fills_retry c w state x xs flag fuel n e small again same (
                    fill-Filled fuel c r.0 state r.1 flag
                      (omega (arith, same, laws.retries_lt w (x ∷ xs) flag state size n e again)))
                | inr (no_again, no_intr) ↦ record {
                  world_after = r.0;
                  buf_after = r.1;
                  result = err (errno (n + 1));
                  returns = fill_error f c w state x xs flag fuel n e small no_again no_intr;
                  length_kept = same;
                  filled = (n + 1, refl, no_again, no_intr);
                }
              ]
        ]
