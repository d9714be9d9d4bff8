-- ===== src/VdsoRng/Vdso/Headers.antt =====
-- `SymbolTable::load`, `PhdrInfo::load` and `ElfShdrArray` of crates/vdso-rng/src/vdso.rs.
use mathlib.Core.Option
use useless.Base.{
  ℕ, zero, suc, ◌+◌, ◌/◌, ◌%◌, ◌^◌, not, ◌&&◌, Option, none, some, if◌then◌else◌, ◌==◌, add64,
  sub64,
}
use useless.VdsoRng.Os.{Run, done, panics, unfinished}
use useless.VdsoRng.Vdso.Image.{
  Phdr, Shdr, Dyn, Image, PhdrInfo, SymbolTable, Tables, ◌>>=◌, non_null,
}

abbrev pub dt_strtab : ℕ
dt_strtab = 5

abbrev pub dt_symtab : ℕ
dt_symtab = 6

abbrev pub dt_versym : ℕ
dt_versym = 1879048176

abbrev pub dt_verdef : ℕ
dt_verdef = 1879048188

abbrev pub pt_load : ℕ
pt_load = 1

abbrev pub pt_dynamic : ℕ
pt_dynamic = 2

abbrev pub sht_dynsym : ℕ
sht_dynsym = 11

module _ (mem : Image) where
  -- One round of the loop over the dynamic section; `none` is the return of a null pointer's `?`.
  unfoldable pub dyn_entry : ℕ → Dyn → Tables → Option Tables
  dyn_entry vdso_addr d ts =
      let tag : ℕ = d.d_tag % 2 ^ 32 in
      let address : Option ℕ = non_null (add64 vdso_addr d.d_val) in
      if tag == dt_strtab
      then Option.map (λ a. record ts { strtab = some a }) address
      else if tag == dt_symtab
      then Option.map (λ a. record ts { symtab = some a }) address
      else if tag == dt_versym
      then Option.map (λ a. record ts { versym = some a }) address
      else if tag == dt_verdef
      then Option.map (λ a. record ts { verdef = some a }) address
      else some ts

  -- `DynIter::next`: the rest of the iterator behind `at`; the entry `DT_NULL` ends it.
  unfoldable pub next_dyn : ℕ → Option ℕ
  next_dyn at = if (mem.dyn at).d_tag == 0 then none else some (at + mem.size_of_dyn)

  -- The loop over the dynamic section.
  unfoldable pub dyn_loop : ℕ → (vdso_addr at : ℕ) → Tables → Run (Option Tables)
  unfolding next_dyn dyn_entry
  dyn_loop zero vdso_addr at ts = unfinished
  dyn_loop (suc fuel) vdso_addr at ts = elim (next_dyn at) [
    | none ↦ done (some ts)
    | some rest ↦ elim (dyn_entry vdso_addr (mem.dyn at) ts) [
      | none ↦ done none
      | some ts' ↦ dyn_loop fuel vdso_addr rest ts'
    ]
  ]

  -- The end of `SymbolTable::load`.
  unfoldable pub table : PhdrInfo → ℕ → Tables → Run (Option SymbolTable)
  table phdr count ts = do
    strtab ← done ts.strtab
    symtab ← done ts.symtab
    versym ← done ts.versym
    verdef ← done ts.verdef
    done (
        some (record {
          strtab = strtab;
          symtab = symtab;
          versym = versym;
          symbol_count = count;
          verdef = verdef;
          vdso_addr = phdr.vdso_addr;
        }))

  -- `SymbolTable::load`.
  unfoldable pub load_table : ℕ → PhdrInfo → ℕ → Run (Option SymbolTable)
  unfolding dyn_loop table
  load_table fuel phdr count = do
    ts ←
        dyn_loop fuel phdr.vdso_addr phdr.vdso_dyn
          (record { strtab = none; symtab = none; versym = none; verdef = none })
    table phdr count ts

  -- The loop of `PhdrInfo::load` over the program headers from `at` on, `n` of them: the address of
  -- the dynamic section and the load address, as far as they were found.
  unfoldable pub phdr_loop : (ehdr n at : ℕ) → (vdso_dyn vdso_addr : Option ℕ) → Option ℕ × Option ℕ
  phdr_loop ehdr zero at vdso_dyn vdso_addr = (vdso_dyn, vdso_addr)
  phdr_loop ehdr (suc n) at vdso_dyn vdso_addr =
      let ph : Phdr = mem.phdr at in
      let rest : Option ℕ → Option ℕ → Option ℕ × Option ℕ =
        phdr_loop ehdr n (at + mem.size_of_phdr) in
      if ph.p_type == pt_dynamic
      then rest (some (ehdr + ph.p_offset)) vdso_addr
      else if (ph.p_type == pt_load) && not (ph.p_flags % 2 == 0)
      then rest vdso_dyn (some (sub64 (add64 ehdr ph.p_offset) ph.p_vaddr))
      else rest vdso_dyn vdso_addr

  -- `PhdrInfo::load`.
  unfoldable pub load_phdr : ℕ → Run (Option PhdrInfo)
  unfolding phdr_loop
  load_phdr ehdr =
      let found : Option ℕ × Option ℕ =
        phdr_loop ehdr (mem.ehdr ehdr).e_phnum (ehdr + (mem.ehdr ehdr).e_phoff) none none in
      do
        vdso_addr ← done found.1
        vdso_dyn ← done found.0
        done (some (record { vdso_addr = vdso_addr; vdso_dyn = vdso_dyn }))

  -- `ElfShdrArray::symbol_count`, with the section headers from `at` on, `n` of them.
  unfoldable pub symbol_count : (n at : ℕ) → Run (Option ℕ)
  symbol_count zero at = done (some 0)
  symbol_count (suc n) at =
      let sh : Shdr = mem.shdr at in
      let rest : Run (Option ℕ) = symbol_count n (at + mem.size_of_shdr) in
      if sh.sh_type == sht_dynsym
      then if sh.sh_entsize == 0 then panics else done (some (sh.sh_size / sh.sh_entsize))
      else rest
