-- ===== src/VdsoRng/Vdso/Vector.antt =====
-- The loop of `get_function_and_page_size` of crates/vdso-rng/src/vdso.rs over the auxiliary vector.
use mathlib.Core.List.{Mem, mem-cons_self, mem-cons_of_mem}
use useless.Base.{
  ℕ, ◌≡◌, ◌≢◌, ◌⊎◌, refl, sym, ap, ◌∙◌, Bool, true, false, inl, inr, Bool-cases, Option-cases, List,
  [], ◌∷◌, Option, none, some, if◌then◌else◌, ◌==◌, All, arith,
}
use useless.VdsoRng.Os.{Run, done}
use useless.VdsoRng.Vdso.Image.{Image, ◌>>=◌}
use useless.VdsoRng.Vdso.Symbols.{Arch, get_name_and_version}
use useless.VdsoRng.Vdso.Provides.{IsReadable, Provides, function_at-Returns, function_at-Provides}
use useless.VdsoRng.Vdso.Search.{
  AuxvEntry, at_pagesz, at_sysinfo_ehdr, function_at, auxv_loop, auxv_iter, Prctl, new_auxv,
  get_function_and_page_size,
}

abbrev pub or_else : Option ℕ → Option ℕ → Option ℕ
or_else none o = o
or_else (some a) o = some a

-- The value of the last entry with a key.
unfoldable pub last_value : ℕ → List AuxvEntry → Option ℕ
last_value key [] = none
last_value key (e ∷ es) = or_else (last_value key es) (if e.key == key then some e.value else none)

or_else_assoc :
    (o page : Option ℕ) (hit : Bool) (value : ℕ)
    → or_else (or_else o (if hit then some value else none)) page
      ≡ or_else o (if hit then some value else page)
or_else_assoc none page true value = refl
or_else_assoc none page false value = refl
or_else_assoc (some a) page hit value = refl

module _ (mem : Image) (fuel : ℕ) (arch : Arch) where
  abbrev names : Option (List ℕ × List ℕ)
  names = get_name_and_version arch

  -- The result of the loop, from the variables that it starts with.
  Ends : List AuxvEntry → (func page_size : Option ℕ) → Option (Option ℕ × Option ℕ) → Type 0
  unfolding last_value
  Ends es func page_size none =
      (e : AuxvEntry) × Mem e es
      × (e.key ≡ at_sysinfo_ehdr)
      × (function_at mem fuel names e.value ≡ done none)
  Ends es func page_size (some (func', page_size')) =
      (page_size' ≡ or_else (last_value at_pagesz es) page_size)
      × (((last_value at_sysinfo_ehdr es ≡ none) × (func' ≡ func))
          ⊎ ((v : ℕ) × (last_value at_sysinfo_ehdr es ≡ some v)
              × IsReadable mem fuel v
              × (function_at mem fuel names v ≡ done (some func'))))

  Ends-later :
      (e : AuxvEntry) (es : List AuxvEntry) (func page_size : Option ℕ)
      → (e.key == at_sysinfo_ehdr) ≡ false
      → (r : Option (Option ℕ × Option ℕ))
      → Ends es func (if e.key == at_pagesz then some e.value else page_size) r
      → Ends (e ∷ es) func page_size r
  unfolding Ends last_value
  Ends-later e es func page_size k none (e', m, k', fails) = (e', mem-cons_of_mem e m, k', fails)
  Ends-later e es func page_size k (some (func', page_size')) (pages, inl (absent, same)) = (
    pages ∙ sym (or_else_assoc (last_value at_pagesz es) page_size (e.key == at_pagesz) e.value),
    inl (rw (absent, k) refl, same),
  )
  Ends-later e es func page_size k (some (func', page_size')) (pages, inr (v, last, h, found)) = (
    pages ∙ sym (or_else_assoc (last_value at_pagesz es) page_size (e.key == at_pagesz) e.value),
    inr (v, rw last refl, h, found),
  )

  Ends-here :
      (e : AuxvEntry) (es : List AuxvEntry) (func o page_size : Option ℕ)
      → (e.key == at_sysinfo_ehdr) ≡ true
      → IsReadable mem fuel e.value
      → function_at mem fuel names e.value ≡ done (some o)
      → (r : Option (Option ℕ × Option ℕ))
      → Ends es o (if e.key == at_pagesz then some e.value else page_size) r
      → Ends (e ∷ es) func page_size r
  unfolding Ends last_value
  Ends-here e es func o page_size k h here none (e', m, k', fails) =
      (e', mem-cons_of_mem e m, k', fails)
  Ends-here e es func o page_size k h here (some (func', page_size')) (pages, inl (absent, same)) =
      (
        pages
            ∙ sym (or_else_assoc (last_value at_pagesz es) page_size (e.key == at_pagesz) e.value),
        inr (e.value, rw (absent, k) refl, h, here ∙ ap (λ f. done (some f)) (sym same)),
      )
  Ends-here e es func o page_size k h here (some (func', page_size'))
        (pages, inr (v, last, h', found)) =
      (
        pages
            ∙ sym (or_else_assoc (last_value at_pagesz es) page_size (e.key == at_pagesz) e.value),
        inr (v, rw last refl, h', found),
      )

  -- Each entry for the image of the vDSO is the address of one that can be read.
  abbrev pub AllReadable : List AuxvEntry → Type 0
  AllReadable es = All (λ e. (e.key ≢ at_sysinfo_ehdr) ⊎ IsReadable mem fuel e.value) es

  IsReadable-at :
      (e : AuxvEntry)
      → (e.key ≢ at_sysinfo_ehdr) ⊎ IsReadable mem fuel e.value
      → (e.key == at_sysinfo_ehdr) ≡ true
      → IsReadable mem fuel e.value
  IsReadable-at e (inl other) k = absurd (other (ground (arith, k)))
  IsReadable-at e (inr h) k = h

  loop-Ends :
      (es : List AuxvEntry) (func page_size : Option ℕ)
      → AllReadable es
      → (r : Option (Option ℕ × Option ℕ)) × (auxv_loop mem fuel arch es func page_size ≡ done r)
        × Ends es func page_size r
  unfolding auxv_loop Ends last_value
  loop-Ends [] func page_size h = (some (func, page_size), refl, (refl, inl (refl, refl)))
  loop-Ends (e ∷ es) func page_size h =
      let page' : Option ℕ = if e.key == at_pagesz then some e.value else page_size in
      elim (Bool-cases (e.key == at_sysinfo_ehdr)) [
        | inr k ↦
            let rest = loop-Ends es func page' h.1 in
            (rest.0, rw k rest.1, Ends-later e es func page_size k rest.0 rest.2)
        | inl k ↦
            let readable = IsReadable-at e h.0 k in
            let here = function_at-Returns mem fuel names e.value readable in
            elim (Option-cases here.0) [
              | inl absent ↦ (
                none,
                rw (k, here.1, absent) refl,
                (e, mem-cons_self, ground (arith, k), here.1 ∙ ap done absent),
              )
              | inr (o, found) ↦
                  let rest = loop-Ends es o page' h.1 in
                  (
                    rest.0,
                    rw (k, here.1, found) rest.1,
                    Ends-here e es func o page_size k readable (here.1 ∙ ap done found) rest.0
                        rest.2,
                  )
            ]
      ]

  -- What the search gives: the last page size, and the symbol of the image at the last address; or
  -- none, if there is no page size or no address, if an image has no table that can be loaded, or if the
  -- last image has no such symbol.
  unfoldable pub Answers : List AuxvEntry → Option (ℕ × ℕ) → Type 0
  Answers es (some (f, page_size)) =
      (last_value at_pagesz es ≡ some page_size)
      × (v : ℕ) × (last_value at_sysinfo_ehdr es ≡ some v)
      × Provides mem fuel names v f
  Answers es none =
      (last_value at_pagesz es ≡ none)
      ⊎ (last_value at_sysinfo_ehdr es ≡ none)
      ⊎ ((e : AuxvEntry) × Mem e es
          × (e.key ≡ at_sysinfo_ehdr)
          × (function_at mem fuel names e.value ≡ done none))
      ⊎ ((v : ℕ) × (last_value at_sysinfo_ehdr es ≡ some v)
          × (function_at mem fuel names v ≡ done (some none)))

  or_else-none : (o : Option ℕ) → or_else o none ≡ o
  or_else-none none = refl
  or_else-none (some a) = refl

  -- The two `?` at the end.
  both : Option (Option ℕ × Option ℕ) → Run (Option (ℕ × ℕ))
  both found = do
    r ← done found
    function ← done r.0
    page_size ← done r.1
    done (some (function, page_size))

  Ends-Answers :
      (es : List AuxvEntry) (r : Option (Option ℕ × Option ℕ))
      → Ends es none none r
      → (r' : Option (ℕ × ℕ)) × (both r ≡ done r') × Answers es r'
  unfolding Ends both Answers
  Ends-Answers es none fails = (none, refl, inr (inr (inl fails)))
  Ends-Answers es (some (none, p)) (pages, inl (absent, same)) = (none, refl, inr (inl absent))
  Ends-Answers es (some (none, p)) (pages, inr (v, last, h, found)) =
      (none, refl, inr (inr (inr (v, last, found))))
  Ends-Answers es (some (some f, none)) (pages, found) =
      (none, refl, inl (sym (pages ∙ or_else-none (last_value at_pagesz es))))
  Ends-Answers es (some (some f, some p)) (pages, inl (absent, same)) =
      absurd (ground (arith, same))
  Ends-Answers es (some (some f, some p)) (pages, inr (v, last, h, found)) = (
    some (f, p),
    refl,
    (
      sym (pages ∙ or_else-none (last_value at_pagesz es)),
      v,
      last,
      function_at-Provides mem fuel names v f h found,
    ),
  )

  -- If every address of an image of the vDSO in the auxiliary vector, up to `AT_NULL`, is that of one whose
  -- dynamic section and version definitions end within the fuel, and whose section headers of symbols
  -- have no entries of 0 bytes, then `get_function_and_page_size` returns. It gives the value of the last
  -- `AT_PAGESZ` and the address of the first symbol with the name and the version that it looks for, in
  -- the table that is loaded from the last address. It gives none only if there is no `AT_PAGESZ`, no
  -- address, an address whose table cannot be loaded, or if the search in the last table gives none.
  pub get_function_and_page_size-Answers :
      (prctl : Prctl) (auxv : List AuxvEntry)
      → new_auxv prctl ≡ some auxv
      → AllReadable (auxv_iter auxv)
      → (r : Option (ℕ × ℕ)) × (get_function_and_page_size mem fuel arch prctl ≡ done r)
        × Answers (auxv_iter auxv) r
  unfolding get_function_and_page_size both
  get_function_and_page_size-Answers prctl auxv written h =
      let ends = loop-Ends (auxv_iter auxv) none none h in
      let answer = Ends-Answers (auxv_iter auxv) ends.0 ends.2 in
      (answer.0, rw (written, ends.1) answer.1, answer.2)
