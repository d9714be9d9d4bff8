-- ===== src/VdsoRng/Vdso/Search.antt =====
-- `get_function_and_page_size` of crates/vdso-rng/src/vdso.rs, with the iterator of auxv.rs.
use useless.Base.{ℕ, ◌+◌, ◌*◌, replicate, List, [], ◌∷◌, Option, none, some, if◌then◌else◌, ◌==◌}
use useless.VdsoRng.Os.{Run, done, panics, unfinished}
use useless.VdsoRng.Vdso.Image.{Image, ◌>>=◌, non_null}
use useless.VdsoRng.Vdso.Symbols.{Arch, get_name_and_version, find_symbol}
use useless.VdsoRng.Vdso.Headers.{load_phdr, symbol_count, load_table}

-- A missing symbol does not end the search through the auxiliary vector.
abbrev pub some_or_none : Run (Option ℕ) → Run (Option (Option ℕ))
some_or_none (done o) = done (some o)
some_or_none panics = panics
some_or_none unfinished = unfinished

-- `AuxvEntry` of auxv.rs.
pub record AuxvEntry : Type 0 where
  pub key : ℕ
  pub value : ℕ

abbrev pub at_null : ℕ
at_null = 0

abbrev pub at_pagesz : ℕ
at_pagesz = 6

abbrev pub at_sysinfo_ehdr : ℕ
at_sysinfo_ehdr = 33

-- `MAX_AUXV_ENTRIES`, and `MMAP_SIZE` in bytes.
abbrev pub max_auxv_entries : ℕ
max_auxv_entries = 64

abbrev pub mmap_size : ℕ
mmap_size = max_auxv_entries * 16

-- `prctl` with `PR_GET_AUXV` on a buffer and its size in bytes: the buffer after it, or an error.
abbrev pub Prctl : Type 0
Prctl = List AuxvEntry → ℕ → Option (List AuxvEntry)

-- `Auxv::new`.
unfoldable pub new_auxv : Prctl → Option (List AuxvEntry)
new_auxv prctl =
    prctl (replicate max_auxv_entries (record { key = at_null; value = at_null })) mmap_size

-- The items of `AuxvIter`: `next` ends at `AT_NULL` and at the end of the vector.
unfoldable pub auxv_iter : List AuxvEntry → List AuxvEntry
auxv_iter [] = []
auxv_iter (current ∷ auxv) = if current.key == at_null then [] else current ∷ auxv_iter auxv

module _ (mem : Image) where
  -- What `get_function_and_page_size` does at the entry `AT_SYSINFO_EHDR`.
  unfoldable pub function_at : ℕ → Option (List ℕ × List ℕ) → ℕ → Run (Option (Option ℕ))
  unfolding load_phdr symbol_count load_table find_symbol
  function_at fuel names value = do
    ehdr ← done (non_null value)
    count ← symbol_count mem (mem.ehdr ehdr).e_shnum (ehdr + (mem.ehdr ehdr).e_shoff)
    phdr ← load_phdr mem ehdr
    table ← load_table mem fuel phdr count
    some_or_none (find_symbol mem fuel table names)

module _ (mem : Image) (fuel : ℕ) (arch : Arch) where
  -- The loop over the auxiliary vector.
  unfoldable pub auxv_loop :
      List AuxvEntry → (func page_size : Option ℕ) → Run (Option (Option ℕ × Option ℕ))
  unfolding function_at
  auxv_loop [] func page_size = done (some (func, page_size))
  auxv_loop (entry ∷ auxv) func page_size = do
    func' ←
        if entry.key == at_sysinfo_ehdr
        then function_at mem fuel (get_name_and_version arch) entry.value
        else done (some func)
    auxv_loop auxv func' (if entry.key == at_pagesz then some entry.value else page_size)

  unfoldable pub get_function_and_page_size : Prctl → Run (Option (ℕ × ℕ))
  unfolding new_auxv auxv_loop auxv_iter
  get_function_and_page_size prctl = do
    auxv ← done (new_auxv prctl)
    found ← auxv_loop (auxv_iter auxv) none none
    function ← done found.0
    page_size ← done found.1
    done (some (function, page_size))
