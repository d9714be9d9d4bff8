-- ===== src/VdsoRng/Create.antt =====
-- `Pool::new` of crates/vdso-rng/src/pool.rs from its start: the search in the vDSO, `Config::new` with the
-- guess of the processors, and the empty pool. What the function at an address writes when it is asked
-- for its parameters is a parameter.
use useless.Base.{
  ℕ, ◌^◌, ◌≤◌, ◌<◌, ◌≡◌, refl, ap, ◌∙◌, List, Option, none, some, Result, ok, err, length,
}
use useless.VdsoRng.Os.{
  Error, not_supported, Run, done, panics, unfinished, Kernel, SegQueue, guess_cpu_count,
}
use useless.VdsoRng.Config
use useless.VdsoRng.Config.{Params, Config, IsUsable}
use useless.VdsoRng.Processors.{new-guess_cpu_count}
use useless.VdsoRng.Pool
use useless.VdsoRng.Pool.{Pool}
use useless.VdsoRng.Vdso.Image.{Image}
use useless.VdsoRng.Vdso.Symbols.{Arch}
use useless.VdsoRng.Vdso.Search.{
  AuxvEntry, at_pagesz, auxv_iter, Prctl, new_auxv, get_function_and_page_size,
}
use useless.VdsoRng.Vdso.Vector.{
  last_value, AllReadable, Answers, get_function_and_page_size-Answers,
}

module _ (k : Kernel) (q : SegQueue) (mem : Image) (fuel : ℕ) (arch : Arch) (prctl : Prctl)
    (query : ℕ → Params) (res : ℕ) (cpu_set : List ℕ) where
  with_config : Option Config → Run (Result Error (Pool q))
  with_config none = panics
  with_config (some c) = done (ok (Pool.new k q c))

  with_function : Run (Option (ℕ × ℕ)) → Run (Result Error (Pool q))
  unfolding with_config
  with_function (done none) = done (err not_supported)
  with_function (done (some (function, page_size))) =
      with_config (Config.new (query function) (guess_cpu_count res cpu_set) page_size)
  with_function panics = panics
  with_function unfinished = unfinished

  -- `Pool::new`.
  unfoldable pub create : Run (Result Error (Pool q))
  unfolding with_function get_function_and_page_size
  create = with_function (get_function_and_page_size mem fuel arch prctl)

  -- What `create` gives, where the search gives `Answers`.
  unfoldable pub Created : List AuxvEntry → Result Error (Pool q) → Type 0
  Created es (err e) = (e ≡ not_supported) × Answers mem fuel arch es none
  Created es (ok p) =
      (f : ℕ) × (page_size : ℕ) × Answers mem fuel arch es (some (f, page_size))
      × (Config.new (query f) (guess_cpu_count res cpu_set) page_size ≡ some p.config)
      × IsUsable p.config
      × (p.config.pages_per_block ≤ 1026)
      × (p ≡ Pool.new k q p.config)

  -- For an auxiliary vector whose images can be read as for `get_function_and_page_size`, with a page size
  -- of at most 2 ^ 48 bytes, a set of 128 bytes for the processors, and state sizes from 1 to the page size:
  -- `Pool::new` returns and does not panic. It gives `NotSupported`, if the search gives none; or an
  -- empty pool whose configuration is that of the function and the page size that are found, and is
  -- usable, with 1026 pages at most in a block.
  pub create-Created :
      (auxv : List AuxvEntry)
      → new_auxv prctl ≡ some auxv
      → AllReadable mem fuel arch (auxv_iter auxv)
      → length cpu_set ≡ 128
      → ((f page_size : ℕ)
          → last_value at_pagesz (auxv_iter auxv) ≡ some page_size
          → (0 < (query f).size_of_opaque_states)
            × ((query f).size_of_opaque_states ≤ page_size)
            × (page_size ≤ 2 ^ 48))
      → (r : Result Error (Pool q)) × (create ≡ done r) × Created (auxv_iter auxv) r
  unfolding with_function with_config Answers create get_function_and_page_size Created Pool.new
  create-Created auxv written h bytes sizes =
      by_answer (get_function_and_page_size-Answers mem fuel arch prctl auxv written h)
    where
      by_answer :
          (r : Option (ℕ × ℕ)) × (get_function_and_page_size mem fuel arch prctl ≡ done r)
            × Answers mem fuel arch (auxv_iter auxv) r
          → (r : Result Error (Pool q)) × (create ≡ done r) × Created (auxv_iter auxv) r
      by_answer (none, e, a) = (err not_supported, ap with_function e, (refl, a))
      by_answer (some (f, page_size), e, a) =
          let size = sizes f page_size a.0 in
          let (c, run, usable, pages) =
            new-guess_cpu_count (query f) res page_size cpu_set bytes size.0 size.1 size.2 in
          (
            ok (Pool.new k q c),
            ap with_function e ∙ ap with_config run,
            (f, page_size, a, run, usable, pages, refl),
          )
