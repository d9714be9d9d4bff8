-- ===== src/VdsoRng/Vdso/Versions.antt =====
-- `find_version` of crates/vdso-rng/src/vdso.rs on a chain of version definitions that ends.
use useless.Base.{
  Bool-cases, inl, inr, ℕ, zero, suc, ◌+◌, ◌*◌, ◌%◌, ◌^◌, ◌<◌, ◌≡◌, refl, ap, ◌∙◌, length, arith,
  Bool, true, false, not, List, [], ◌∷◌, Option, none, some, if◌then◌else◌, ◌==◌,
}
use useless.VdsoRng.Os.{Run, done}
use useless.VdsoRng.Vdso.Image.{Image, SymbolTable}
use useless.VdsoRng.Vdso.Symbols.{aux, next_verdef, version_name, version_loop, find_version}

module _ (mem : Image) where
  -- The chain of version definitions from `at` on, and the addresses of its members: each is `vd_next`
  -- bytes behind the one before it, and the last has 0 there.
  pub data Chain : ℕ → List ℕ → Type 0 where
    ends : (at : ℕ) → (mem.verdef at).vd_next ≡ 0 → Chain at (at ∷ [])
    links :
        (at : ℕ) (rest : List ℕ)
        → ¬ ((mem.verdef at).vd_next ≡ 0)
        → Chain (at + (mem.verdef at).vd_next) rest
        → Chain at (at ∷ rest)

  -- The version that a definition at `at` names: with an auxiliary entry, `vd_aux` bytes behind it, the
  -- text at the entry's offset in the string table.
  unfoldable pub named_version : SymbolTable → ℕ → Option (List ℕ)
  named_version t at =
      if (mem.verdef at).vd_aux == 0
      then none
      else some (mem.cstr (t.strtab + mem.vda_name (at + (mem.verdef at).vd_aux)))

  -- The name of the first member that is no base definition and has the identifier.
  unfoldable pub version_in : SymbolTable → (identifier : ℕ) → List ℕ → Option (List ℕ)
  unfolding named_version
  version_in t identifier [] = none
  version_in t identifier (at ∷ rest) =
      if not ((mem.verdef at).vd_flags % 2 == 0)
      then version_in t identifier rest
      else if (mem.verdef at).vd_ndx % 2 ^ 15 == identifier
      then named_version t at
      else version_in t identifier rest

  -- What the version with an identifier is on a chain: that of the first definition that is no base
  -- definition and has the identifier, if that one has an auxiliary entry; and none without one.
  pub data VersionOf (t : SymbolTable) (identifier : ℕ) : List ℕ → Option (List ℕ) → Type 0 where
    not_listed : VersionOf t identifier [] none
    is_base :
        (at : ℕ) (rest : List ℕ) (r : Option (List ℕ))
        → (mem.verdef at).vd_flags % 2 ≡ 1
        → VersionOf t identifier rest r
        → VersionOf t identifier (at ∷ rest) r
    is_another :
        (at : ℕ) (rest : List ℕ) (r : Option (List ℕ))
        → ¬ ((mem.verdef at).vd_ndx % 2 ^ 15 ≡ identifier)
        → VersionOf t identifier rest r
        → VersionOf t identifier (at ∷ rest) r
    has_name :
        (at : ℕ) (rest : List ℕ)
        → (mem.verdef at).vd_flags % 2 ≡ 0
        → (mem.verdef at).vd_ndx % 2 ^ 15 ≡ identifier
        → ¬ ((mem.verdef at).vd_aux ≡ 0)
        → VersionOf t identifier
            (at ∷ rest)
            (some (mem.cstr (t.strtab + mem.vda_name (at + (mem.verdef at).vd_aux))))
    has_no_name :
        (at : ℕ) (rest : List ℕ)
        → (mem.verdef at).vd_flags % 2 ≡ 0
        → (mem.verdef at).vd_ndx % 2 ^ 15 ≡ identifier
        → (mem.verdef at).vd_aux ≡ 0
        → VersionOf t identifier (at ∷ rest) none

  named_version_lem :
      (t : SymbolTable) (at : ℕ) → version_name mem t (aux mem at) ≡ named_version t at
  unfolding version_name aux named_version
  named_version_lem t at = elim (Bool-cases ((mem.verdef at).vd_aux == 0)) [
    | inl e ↦ rw e refl
    | inr e ↦ rw e refl
  ]

  one_round :
      (base hit : Bool) (rest : Run (Option (List ℕ))) (name name' found : Option (List ℕ))
      → name ≡ name'
      → rest ≡ done found
      → (if base then rest else if hit then done name else rest)
        ≡ done (if base then found else if hit then name' else found)
  one_round true hit rest name name' found n e = e
  one_round false true rest name name' found n e = ap done n
  one_round false false rest name name' found n e = e

  next_ends : (at : ℕ) → (mem.verdef at).vd_next ≡ 0 → next_verdef mem at ≡ none
  unfolding next_verdef
  next_ends at e = ground (arith, e)

  next_links :
      (at : ℕ)
      → ¬ ((mem.verdef at).vd_next ≡ 0)
      → next_verdef mem at ≡ some (at + (mem.verdef at).vd_next)
  unfolding next_verdef
  next_links at e = ground (arith, e)

  version_loop-none :
      (fuel : ℕ) (t : SymbolTable) (identifier : ℕ) (o : Option ℕ)
      → o ≡ none
      → version_loop mem fuel t identifier o ≡ done none
  unfolding version_loop
  version_loop-none fuel t identifier o e = rw e refl

  version_loop-Chain :
      (fuel : ℕ) (t : SymbolTable) (identifier at : ℕ) (chain : List ℕ)
      → Chain at chain
      → length chain < fuel
      → version_loop mem fuel t identifier (some at) ≡ done (version_in t identifier chain)
  unfolding version_loop version_in
  version_loop-Chain zero t identifier at chain h enough = absurd (omega arith)
  version_loop-Chain (suc fuel) t identifier at chain (ends at' e) enough =
      one_round (not ((mem.verdef at).vd_flags % 2 == 0))
        ((mem.verdef at).vd_ndx % 2 ^ 15 == identifier) _ _ _ none (named_version_lem t at)
        (version_loop-none fuel t identifier (next_verdef mem at) (next_ends at e))
  version_loop-Chain (suc fuel) t identifier at chain (links at' rest e h) enough =
      one_round (not ((mem.verdef at).vd_flags % 2 == 0))
        ((mem.verdef at).vd_ndx % 2 ^ 15 == identifier) _ _ _ (version_in t identifier rest)
        (named_version_lem t at)
        (ap (version_loop mem fuel t identifier) (next_links at e)
          ∙ version_loop-Chain fuel t identifier (at + (mem.verdef at).vd_next) rest h
              (omega arith))

  pub find_version_lem :
      (fuel : ℕ) (t : SymbolTable) (index : ℕ) (chain : List ℕ)
      → Chain t.verdef chain
      → length chain < fuel
      → find_version mem fuel t index
        ≡ done (version_in t (mem.versym (t.versym + index * 2) % 2 ^ 15) chain)
  unfolding find_version
  find_version_lem fuel t index chain h enough = version_loop-Chain fuel t _ t.verdef chain h enough
