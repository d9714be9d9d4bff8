-- ===== src/VdsoRng/Vdso/Symbols.antt =====
-- `SymbolTable` of crates/vdso-rng/src/vdso.rs: the version of a symbol, and the search for the symbol.
use useless.Base.{
  ℕ, zero, suc, ◌+◌, ◌*◌, ◌%◌, ◌^◌, not, List, [], ◌∷◌, Option, none, some, if◌then◌else◌, ◌==◌,
}
use useless.VdsoRng.Os.{Run, done, unfinished}
use useless.VdsoRng.Vdso.Image.{Sym, Verdef, Image, SymbolTable, ◌>>=◌, text_eq}

-- `cfg!(target_arch)`.
pub data Arch : Type 0 where
  aarch64 x86_64 other_arch : Arch

-- `__kernel_getrandom`, `LINUX_2.6.39`, `__vdso_getrandom` and `LINUX_2.6`.
abbrev pub kernel_getrandom : List ℕ
kernel_getrandom =
    b'_' ∷ b'_' ∷ b'k' ∷ b'e' ∷ b'r' ∷ b'n' ∷ b'e' ∷ b'l' ∷ b'_' ∷ b'g' ∷ b'e' ∷ b't' ∷ b'r' ∷ b'a'
    ∷ b'n' ∷ b'd' ∷ b'o' ∷ b'm' ∷ []

abbrev pub linux_2_6_39 : List ℕ
linux_2_6_39 =
    b'L' ∷ b'I' ∷ b'N' ∷ b'U' ∷ b'X' ∷ b'_' ∷ b'2' ∷ b'.' ∷ b'6' ∷ b'.' ∷ b'3' ∷ b'9' ∷ []

abbrev pub vdso_getrandom : List ℕ
vdso_getrandom =
    b'_' ∷ b'_' ∷ b'v' ∷ b'd' ∷ b's' ∷ b'o' ∷ b'_' ∷ b'g' ∷ b'e' ∷ b't' ∷ b'r' ∷ b'a' ∷ b'n' ∷ b'd'
    ∷ b'o' ∷ b'm' ∷ []

abbrev pub linux_2_6 : List ℕ
linux_2_6 = b'L' ∷ b'I' ∷ b'N' ∷ b'U' ∷ b'X' ∷ b'_' ∷ b'2' ∷ b'.' ∷ b'6' ∷ []

abbrev pub get_name_and_version : Arch → Option (List ℕ × List ℕ)
get_name_and_version aarch64 = some (kernel_getrandom, linux_2_6_39)
get_name_and_version x86_64 = some (vdso_getrandom, linux_2_6)
get_name_and_version other_arch = none

module _ (mem : Image) where
  -- `VerdefRef::aux`: the address of the auxiliary entry.
  unfoldable pub aux : ℕ → Option ℕ
  aux at =
      let offset : ℕ = (mem.verdef at).vd_aux in if offset == 0 then none else some (at + offset)

  -- `VerdefIter::next`: the rest of the iterator behind `at`.
  unfoldable pub next_verdef : ℕ → Option ℕ
  next_verdef at =
      let offset : ℕ = (mem.verdef at).vd_next in if offset == 0 then none else some (at + offset)

  unfoldable pub version_name : SymbolTable → Option ℕ → Option (List ℕ)
  version_name t none = none
  version_name t (some a) = some (mem.cstr (t.strtab + mem.vda_name a))

  -- The loop of `find_version`, from the iterator's position.
  unfoldable pub version_loop :
      ℕ → SymbolTable → (identifier : ℕ) → Option ℕ → Run (Option (List ℕ))
  unfolding aux next_verdef version_name
  version_loop fuel t identifier none = done none
  version_loop zero t identifier (some at) = unfinished
  version_loop (suc fuel) t identifier (some at) =
      let d : Verdef = mem.verdef at in
      let rest : Run (Option (List ℕ)) = version_loop fuel t identifier (next_verdef at) in
      if not (d.vd_flags % 2 == 0)
      then rest
      else if d.vd_ndx % 2 ^ 15 == identifier
      then done (version_name t (aux at))
      else rest

  -- `SymbolTable::find_version`, for an index of a symbol: the slices have the same length.
  unfoldable pub find_version : ℕ → SymbolTable → ℕ → Run (Option (List ℕ))
  unfolding version_loop
  find_version fuel t index =
      version_loop fuel t (mem.versym (t.versym + index * 2) % 2 ^ 15) (some t.verdef)

  -- The loop of `find_symbol`: the symbols from `i` on, `n` of them.
  unfoldable pub symbol_loop :
      ℕ → SymbolTable → (target_name target_version : List ℕ) → (n i : ℕ) → Run (Option ℕ)
  unfolding find_version
  symbol_loop fuel t target_name target_version zero i = done none
  symbol_loop fuel t target_name target_version (suc n) i =
      let s : Sym = mem.sym (t.symtab + i * mem.size_of_sym) in
      let rest : Run (Option ℕ) = symbol_loop fuel t target_name target_version n (i + 1) in
      if text_eq (mem.cstr (t.strtab + s.st_name)) target_name
      then (do
        version ← find_version fuel t i
        if text_eq version target_version then done (some (t.vdso_addr + s.st_value)) else rest)
      else rest

  -- `SymbolTable::find_symbol`, with the result of `get_name_and_version`.
  unfoldable pub find_symbol : ℕ → SymbolTable → Option (List ℕ × List ℕ) → Run (Option ℕ)
  unfolding symbol_loop
  find_symbol fuel t none = done none
  find_symbol fuel t (some (target_name, target_version)) =
      symbol_loop fuel t target_name target_version t.symbol_count 0
