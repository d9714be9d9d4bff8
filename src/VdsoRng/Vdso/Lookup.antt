-- ===== src/VdsoRng/Vdso/Lookup.antt =====
-- `find_symbol` of crates/vdso-rng/src/vdso.rs on an image whose version definitions are a chain.
use mathlib.Core.Option.{some-injective}
use useless.Base.{
  ℕ, ℕ_discrete, zero, suc, ◌+◌, ◌*◌, ◌%◌, ◌^◌, ◌≤◌, ◌<◌, ◌≡◌, ◌≢◌, ◌⊎◌, inl, inr, refl, sym, ap,
  ◌∙◌, subst, Bool, true, false, ◌&&◌, List, [], ◌∷◌, Option, none, some, Option-cases, Bool-cases,
  length, if◌then◌else◌, ==_iff, arith,
}
use useless.VdsoRng.Os.{Run, done}
use useless.VdsoRng.Vdso.Image.{Image, SymbolTable, text_eq, ◌>>=◌}
use useless.VdsoRng.Vdso.Symbols.{symbol_loop, find_symbol}
use useless.VdsoRng.Vdso.Versions.{Chain, version_in, find_version_lem}

and_true : (b c : Bool) → (b && c) ≡ true → (b ≡ true) × (c ≡ true)
and_true true c e = (refl, e)
and_true false c e = (e, cc e)

text_eq_sound : (xs ys : List ℕ) → text_eq xs ys ≡ true → xs ≡ ys
text_eq_sound [] [] e = refl
text_eq_sound [] (y ∷ ys) e = cc e
text_eq_sound (x ∷ xs) [] e = cc e
text_eq_sound (x ∷ xs) (y ∷ ys) e =
    let h = and_true _ _ e in rw ((==_iff x y).0 h.0, text_eq_sound xs ys h.1) refl

text_eq_refl : (xs : List ℕ) → text_eq xs xs ≡ true
text_eq_refl [] = refl
text_eq_refl (x ∷ xs) = rw ((==_iff x x).1 refl) (text_eq_refl xs)

module _ (mem : Image) (t : SymbolTable) (target_name target_version : List ℕ)
    (chain : List ℕ) where
  -- The name and the version of the symbol with an index.
  abbrev pub name_of : ℕ → List ℕ
  name_of i = mem.cstr (t.strtab + (mem.sym (t.symtab + i * mem.size_of_sym)).st_name)

  abbrev pub version_of : ℕ → Option (List ℕ)
  version_of i = version_in mem t (mem.versym (t.versym + i * 2) % 2 ^ 15) chain

  abbrev pub address_of : ℕ → ℕ
  address_of i = t.vdso_addr + (mem.sym (t.symtab + i * mem.size_of_sym)).st_value

  -- What the search is for, and a symbol that it passes over.
  abbrev pub Matches : ℕ → Type 0
  Matches i = (name_of i ≡ target_name) × (version_of i ≡ some target_version)

  -- A result of the search among the symbols from `low` on and below `high`: the address of the first
  -- that matches, or none where none matches, or where a symbol of the name has no version and stands
  -- before any that matches.
  abbrev pub Found : ℕ → ℕ → Option ℕ → Type 0
  Found low high (some a) =
      (i : ℕ) × (low ≤ i)
      × (i < high)
      × Matches i
      × (a ≡ address_of i)
      × ((j : ℕ) → low ≤ j → j < i → ¬ Matches j)
  Found low high none =
      ((j : ℕ) → low ≤ j → j < high → ¬ Matches j)
      ⊎ ((i : ℕ) × (low ≤ i)
          × (i < high)
          × (name_of i ≡ target_name)
          × (version_of i ≡ none)
          × ((j : ℕ) → low ≤ j → j < i → ¬ Matches j))

  at_or_later :
      (P : ℕ → Type 0) (low high : ℕ)
      → P low
      → ((j : ℕ) → low + 1 ≤ j → j < high → P j)
      → (j : ℕ) → low ≤ j
      → j < high
      → P j
  at_or_later P low high here later j hl hh = elim (ℕ_discrete low j) [
    | yes e ↦ subst P e here
    | no n ↦ later j (omega arith) hh
  ]

  Found-later :
      (low high : ℕ) (r : Option ℕ) → ¬ Matches low → Found (low + 1) high r → Found low high r
  Found-later low high (some a) skip (i, hl, hh, m, e, first) =
      (i, omega arith, hh, m, e, at_or_later _ low i skip first)
  Found-later low high none skip (inl no_match) = inl (at_or_later _ low high skip no_match)
  Found-later low high none skip (inr (i, hl, hh, n, v, first)) =
      inr (i, omega arith, hh, n, v, at_or_later _ low i skip first)

  module _ (fuel : ℕ) (h : Chain mem t.verdef chain) (enough : length chain < fuel) where
    abbrev search : ℕ → ℕ → Run (Option ℕ)
    search n i = symbol_loop mem fuel t target_name target_version n i

    differ : (xs ys : List ℕ) → text_eq xs ys ≡ false → xs ≢ ys
    differ xs ys e same = cc (e, text_eq_refl xs, same)

    other_name :
        (n i : ℕ) → text_eq (name_of i) target_name ≡ false → search (suc n) i ≡ search n (i + 1)
    unfolding symbol_loop
    other_name n i e = rw e refl

    same_name :
        (n i : ℕ)
        → text_eq (name_of i) target_name ≡ true
        → search (suc n) i ≡ (
            done (version_of i) >>= λ v.
            if text_eq v target_version then done (some (address_of i)) else search n (i + 1))
    unfolding symbol_loop
    same_name n i e = rw (e, find_version_lem mem fuel t i chain h enough) refl

    search-Found :
        (n i high : ℕ) → i + n ≡ high → (r : Option ℕ) × (search n i ≡ done r) × Found i high r
    unfolding symbol_loop
    search-Found zero i high e = (none, refl, inl (λ j hl hh. absurd (omega arith)))
    search-Found (suc n) i high e =
        let (r, run, found) = search-Found n (i + 1) high (omega arith) in
        elim (Bool-cases (text_eq (name_of i) target_name)) [
          | inr other ↦ (
            r,
            other_name n i other ∙ run,
            Found-later i high r (λ m. differ _ _ other m.0) found,
          )
          | inl named ↦
              let same : name_of i ≡ target_name = text_eq_sound _ _ named in
              elim (Option-cases (version_of i)) [
                | inl v ↦ (
                  none,
                  same_name n i named ∙ rw v refl,
                  inr (i, omega arith, omega arith, same, v, λ j hl hh. absurd (omega arith)),
                )
                | inr (v, ve) ↦ elim (Bool-cases (text_eq v target_version)) [
                  | inl hit ↦ (
                    some (address_of i),
                    same_name n i named ∙ rw (ve, hit) refl,
                    (
                      i,
                      omega arith,
                      omega arith,
                      (same, ve ∙ ap some (text_eq_sound _ _ hit)),
                      refl,
                      λ j hl hh. absurd (omega arith),
                    ),
                  )
                  | inr miss ↦ (
                    r,
                    same_name n i named ∙ rw (ve, miss) run,
                    Found-later i high r (λ m. differ _ _ miss (some-injective _ _ (sym ve ∙ m.1)))
                        found,
                  )
                ]
              ]
        ]

    -- If the version definitions are a chain that ends, `find_symbol` returns, in as many rounds of
    -- `find_version` as the chain has members. It gives the address of the first symbol that has the
    -- name and the version that are searched for; or none, if no symbol has both, or if a symbol of
    -- that name stands before it that has no version.
    pub find_symbol-Found :
        (r : Option ℕ) × (find_symbol mem fuel t (some (target_name, target_version)) ≡ done r)
        × Found 0 t.symbol_count r
    unfolding find_symbol
    find_symbol-Found = search-Found t.symbol_count 0 t.symbol_count (omega arith)
