-- ===== src/Lamlock/Tests.antt =====
-- Calls on the locks of crates/lamlock, as its tests make them.
use useless.Base.{ℕ, ◌+◌, ◌≡◌, refl, Bool, true, false, some, [], ◌∷◌}
use useless.Lamlock.RawLock
use useless.Lamlock.Solo.{
  Outcome, returned, panicked, value, unwinds, cancelled, run_slowly, try_run,
}
use useless.Lamlock.Panics.{disabled, try_run-settled, run_slowly-try_run, run_slowly_disables}
use useless.Lamlock.Poison
use useless.Lamlock.Poison.History.{
  free, runs, poisons, all_rejected, run_panic_poisons, try_unpoison-recovery,
}

abbrev add_one : ℕ → Outcome ℕ ℕ
add_one t = returned (t + 1) (t + 1)

abbrev fail : ℕ → Outcome ℕ ℕ
fail t = panicked 7 (t + 10)

abbrev repair : ℕ → Outcome ℕ Bool
repair t = returned true 3

try_run-settled_example :
    try_run false 1 (record { raw = RawLock.new; contents = 1 }) fail
    ≡ some (record { raw = RawLock.new; contents = 11 }, unwinds 7)
try_run-settled_example = try_run-settled 1 1 fail false

run_slowly-try_run_example :
    run_slowly true 1 (record { raw = RawLock.new; contents = 1 }) fail
    ≡ try_run true 1 (record { raw = RawLock.new; contents = 1 }) fail
run_slowly-try_run_example = run_slowly-try_run 1 1 fail

run_slowly_disables_example :
    (run_slowly false 1 (record { raw = RawLock.new; contents = 1 }) fail
      ≡ some (record { raw = disabled; contents = 11 }, unwinds 7))
    × (try_run false 2 (record { raw = disabled; contents = 11 }) add_one
        ≡ some (record { raw = disabled; contents = 11 }, cancelled))
run_slowly_disables_example = run_slowly_disables 1 1 fail 7 11 add_one 2 refl

run_panic_poisons_example :
    (Poison.run true 1 (free false 1) fail ≡ some (free true 11, unwinds 7))
    × (all_rejected true 1 (free true 11) (runs add_one ∷ poisons ∷ runs fail ∷ [])
        ≡ some (free true 11, true))
run_panic_poisons_example =
    run_panic_poisons true 1 1 11 7 fail (runs add_one ∷ poisons ∷ runs fail ∷ []) refl

try_unpoison-recovery_example :
    (Poison.try_unpoison true 1 (free true 2) repair ≡ some (free false 3, value true))
    × (Poison.try_unpoison true 1 (free false 2) repair ≡ some (free false 2, value false))
try_unpoison-recovery_example = try_unpoison-recovery true 1 2 repair
