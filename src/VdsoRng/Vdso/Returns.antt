-- ===== src/VdsoRng/Vdso/Returns.antt =====
-- The search of crates/vdso-rng/src/vdso.rs returns on an image whose chains end.
use useless.Base.{
  ℕ, zero, suc, ◌+◌, ◌/◌, ◌<◌, ◌≡◌, ◌≢◌, ◌⊎◌, refl, inl, inr, Bool-cases, Option-cases, Option,
  none, some, ◌==◌, arith,
}
use useless.VdsoRng.Os.{Run, done, panics, unfinished}
use useless.VdsoRng.Vdso.Image.{Image, Tables, PhdrInfo, ◌>>=◌}
use useless.VdsoRng.Vdso.Headers.{
  sht_dynsym, next_dyn, dyn_entry, dyn_loop, table, load_table, load_phdr, phdr_loop, symbol_count,
}

abbrev pub Returns : {A : Type 0} → Run (Option A) → Type 0
Returns {A} x = (r : Option A) × (x ≡ done r)

pub bind-Returns :
    {A B : Type 0} (x : Run (Option A)) (f : A → Run (Option B))
    → Returns x
    → ((a : A) → x ≡ done (some a) → Returns (f a))
    → Returns (x >>= f)
bind-Returns x f (none, e) h = (none, rw e refl)
bind-Returns x f (some a, e) h = let r = h a e in (r.0, rw e r.1)

-- A chain of `?` that gives a value gives one at its first step.
pub bind_some :
    {A B : Type 0} (x : Run (Option A)) (f : A → Run (Option B)) (b : B)
    → (x >>= f) ≡ done (some b)
    → (a : A) × (x ≡ done (some a)) × (f a ≡ done (some b))
bind_some (done none) f b e = ground (arith, e)
bind_some (done (some a)) f b e = (a, refl, e)
bind_some panics f b e = ground (arith, e)
bind_some unfinished f b e = ground (arith, e)

module _ (mem : Image) where
  -- The dynamic section from `at` on has `n` entries before `DT_NULL`.
  pub data Dynamic : (at n : ℕ) → Type 0 where
    ends : (at : ℕ) → next_dyn mem at ≡ none → Dynamic at 0
    links : (at rest n : ℕ) → next_dyn mem at ≡ some rest → Dynamic rest n → Dynamic at (suc n)

  -- No section header of the kind that counts the symbols has entries of 0 bytes.
  unfoldable pub Sized : (n at : ℕ) → Type 0
  Sized zero at = Unit {0}
  Sized (suc n) at =
      (((mem.shdr at).sh_type ≢ sht_dynsym) ⊎ (0 < (mem.shdr at).sh_entsize))
      × Sized n (at + mem.size_of_shdr)

  pub symbol_count-Returns : (n at : ℕ) → Sized n at → Returns (symbol_count mem n at)
  unfolding symbol_count Sized
  symbol_count-Returns zero at h = (some 0, refl)
  symbol_count-Returns (suc n) at h =
      let rest = symbol_count-Returns n (at + mem.size_of_shdr) h.1 in
      elim (Bool-cases ((mem.shdr at).sh_type == sht_dynsym)) [
        | inl e ↦ elim (Bool-cases ((mem.shdr at).sh_entsize == 0)) [
          | inl e' ↦ absurd (ground (arith, h.0, e, e'))
          | inr e' ↦ (some ((mem.shdr at).sh_size / (mem.shdr at).sh_entsize), rw (e, e') refl)
        ]
        | inr e ↦ (rest.0, rw e rest.1)
      ]

  dyn_loop-Returns :
      (fuel n vdso_addr at : ℕ) (ts : Tables)
      → Dynamic at n
      → n < fuel
      → Returns (dyn_loop mem fuel vdso_addr at ts)
  unfolding dyn_loop
  dyn_loop-Returns zero n vdso_addr at ts h enough = absurd (omega arith)
  dyn_loop-Returns (suc fuel) _ vdso_addr at ts (Dynamic.ends _ e) enough =
      (some ts, rw (e, dyn_loop) refl)
  dyn_loop-Returns (suc fuel) _ vdso_addr at ts (Dynamic.links _ rest n e h) enough =
      elim (Option-cases (dyn_entry mem vdso_addr (mem.dyn at) ts)) [
        | inl none_left ↦ (none, rw (e, dyn_loop, none_left) refl)
        | inr (ts', full) ↦
            let later = dyn_loop-Returns fuel n vdso_addr rest ts' h (omega arith) in
            (later.0, rw (e, dyn_loop, full) later.1)
      ]

  table-Returns : (phdr : PhdrInfo) (count : ℕ) (ts : Tables) → Returns (table mem phdr count ts)
  unfolding table
  table-Returns phdr count ts =
      bind-Returns (done ts.strtab) _ (ts.strtab, refl)
        (λ strtab same.
          bind-Returns (done ts.symtab) _ (ts.symtab, refl)
            (λ symtab same.
              bind-Returns (done ts.versym) _ (ts.versym, refl)
                (λ versym same.
                  bind-Returns (done ts.verdef) _ (ts.verdef, refl) (λ verdef same. (_, refl)))))

  pub load_table-Returns :
      (fuel n : ℕ) (phdr : PhdrInfo) (count : ℕ)
      → Dynamic phdr.vdso_dyn n
      → n < fuel
      → Returns (load_table mem fuel phdr count)
  unfolding load_table
  load_table-Returns fuel n phdr count h enough =
      bind-Returns (dyn_loop mem fuel phdr.vdso_addr phdr.vdso_dyn _) (table mem phdr count)
        (dyn_loop-Returns fuel n phdr.vdso_addr phdr.vdso_dyn _ h enough)
        (λ ts e. table-Returns phdr count ts)

  both_found :
      (vdso_addr vdso_dyn : Option ℕ)
      → Returns {A = PhdrInfo} (
          done vdso_addr >>= λ a.
          done vdso_dyn >>= λ d. done (some (record { vdso_addr = a; vdso_dyn = d })))
  both_found none d = (none, refl)
  both_found (some a) none = (none, refl)
  both_found (some a) (some d) = (some (record { vdso_addr = a; vdso_dyn = d }), refl)

  pub load_phdr-Returns : (ehdr : ℕ) → Returns (load_phdr mem ehdr)
  unfolding load_phdr
  load_phdr-Returns ehdr =
      let found : Option ℕ × Option ℕ =
        phdr_loop mem ehdr (mem.ehdr ehdr).e_phnum (ehdr + (mem.ehdr ehdr).e_phoff) none none in
      both_found found.1 found.0
