-- ===== src/VdsoRng/Vdso/Provides.antt =====
-- The table and the symbol that the search of crates/vdso-rng/src/vdso.rs finds in one image.
use useless.Base.{
  ℕ, ◌+◌, ◌<◌, ◌≡◌, refl, sym, ap, ◌∙◌, subst, List, Option, none, some, length, arith,
}
use useless.VdsoRng.Os.{Run, done, panics, unfinished}
use useless.VdsoRng.Vdso.Image.{Image, PhdrInfo, SymbolTable, ◌>>=◌, non_null}
use useless.VdsoRng.Vdso.Symbols.{find_symbol}
use useless.VdsoRng.Vdso.Headers.{load_table, load_phdr, symbol_count}
use useless.VdsoRng.Vdso.Versions.{Chain}
use useless.VdsoRng.Vdso.Lookup.{Found, find_symbol-Found}
use useless.VdsoRng.Vdso.Search.{some_or_none, function_at}
use useless.VdsoRng.Vdso.Returns.{
  Returns, bind-Returns, bind_some, Dynamic, Sized, symbol_count-Returns, load_table-Returns,
  load_phdr-Returns,
}

module _ (mem : Image) (fuel : ℕ) where
  -- The table that is loaded from the header at an address.
  pub record Loaded (value : ℕ) (t : SymbolTable) : Type 0 where
    pub phdr : PhdrInfo
    pub count : ℕ
    pub phdr_loaded : load_phdr mem value ≡ done (some phdr)
    pub table_loaded : load_table mem fuel phdr count ≡ done (some t)
    pub counted :
        symbol_count mem (mem.ehdr value).e_shnum (value + (mem.ehdr value).e_shoff)
        ≡ done (some count)

  -- The image at an address: its dynamic section and its version definitions end within the fuel, and
  -- its section headers can be read.
  pub record IsReadable (value : ℕ) : Type 0 where
    pub sized : Sized mem (mem.ehdr value).e_shnum (value + (mem.ehdr value).e_shoff)
    pub dynamic :
        (phdr : PhdrInfo)
        → load_phdr mem value ≡ done (some phdr)
        → (n : ℕ) × Dynamic mem phdr.vdso_dyn n × (n < fuel)
    pub versions :
        (t : SymbolTable)
        → Loaded value t
        → (chain : List ℕ) × Chain mem t.verdef chain × (length chain < fuel)

  -- The address of the first symbol of the names in the table that is loaded from `value`.
  unfoldable pub Provides : Option (List ℕ × List ℕ) → (value f : ℕ) → Type 0
  Provides none value f = ⊥
  Provides (some (name, version)) value f =
      (t : SymbolTable) × Loaded value t
      × (chain : List ℕ) × Chain mem t.verdef chain
      × Found mem t name version chain 0 t.symbol_count (some f)

  find_symbol-Returns :
      (value : ℕ) (t : SymbolTable) (names : Option (List ℕ × List ℕ))
      → IsReadable value
      → Loaded value t
      → Returns (find_symbol mem fuel t names)
  unfolding find_symbol
  find_symbol-Returns value t none h l = (none, refl)
  find_symbol-Returns value t (some (name, version)) h l =
      let chain = h.versions t l in
      let found = find_symbol-Found mem t name version chain.0 fuel chain.1 chain.2 in
      (found.0, found.1)

  some_or_none-Returns : (x : Run (Option ℕ)) → Returns x → Returns (some_or_none x)
  some_or_none-Returns x (r, e) = (some r, ap some_or_none e)

  non_null-Returns : (value : ℕ) → Returns (done (non_null value))
  non_null-Returns value = (non_null value, refl)

  same_address : (value ehdr : ℕ) → done (non_null value) ≡ done (some ehdr) → ehdr ≡ value
  same_address value ehdr e = ground (arith, e)

  some_or_none-some :
      (x : Run (Option ℕ)) (f : ℕ) → some_or_none x ≡ done (some (some f)) → x ≡ done (some f)
  some_or_none-some (done o) f e = ground (arith, e)
  some_or_none-some panics f e = ground (arith, e)
  some_or_none-some unfinished f e = ground (arith, e)

  done_same : {A : Type 0} (r r' : Option A) → done r ≡ done r' → r ≡ r'
  done_same {A} r r' e =
      ap (λ (x : Run (Option A)). elim x [ done o ↦ o | panics ↦ r | unfinished ↦ r ]) e

  pub function_at-Returns :
      (names : Option (List ℕ × List ℕ)) (value : ℕ)
      → IsReadable value
      → Returns (function_at mem fuel names value)
  unfolding function_at
  function_at-Returns names value h =
      bind-Returns (done (non_null value)) _ (non_null-Returns value) (λ ehdr e.
        subst
          (λ a. Returns (
            symbol_count mem (mem.ehdr a).e_shnum (a + (mem.ehdr a).e_shoff) >>= λ count.
            load_phdr mem a >>= λ phdr. load_table mem fuel phdr count >>= λ table.
            some_or_none (find_symbol mem fuel table names)))
          (sym (same_address value ehdr e))
          (bind-Returns _ _ (symbol_count-Returns mem _ _ h.sized) (λ count counted.
            bind-Returns _ _ (load_phdr-Returns mem value) (λ phdr phdr_loaded.
              let section = h.dynamic phdr phdr_loaded in
              bind-Returns _ _
                (load_table-Returns mem fuel section.0 phdr count section.1 section.2)
                (λ t table_loaded. some_or_none-Returns _ (
                  find_symbol-Returns value t names h (record {
                    phdr = phdr;
                    count = count;
                    phdr_loaded = phdr_loaded;
                    table_loaded = table_loaded;
                    counted = counted;
                  })))))))

  find_symbol-Provides :
      (names : Option (List ℕ × List ℕ)) (value f : ℕ) (t : SymbolTable)
      → IsReadable value
      → Loaded value t
      → find_symbol mem fuel t names ≡ done (some f)
      → Provides names value f
  unfolding find_symbol Provides
  find_symbol-Provides none value f t h l e = ground (arith, e)
  find_symbol-Provides (some (name, version)) value f t h l e =
      let chain = h.versions t l in
      let found = find_symbol-Found mem t name version chain.0 fuel chain.1 chain.2 in
      (
        t,
        l,
        chain.0,
        chain.1,
        subst (Found mem t name version chain.0 0 t.symbol_count)
            (done_same found.0 (some f) (sym found.1 ∙ e)) found.2,
      )

  pub function_at-Provides :
      (names : Option (List ℕ × List ℕ)) (value f : ℕ)
      → IsReadable value
      → function_at mem fuel names value ≡ done (some (some f))
      → Provides names value f
  unfolding function_at
  function_at-Provides names value f h e =
      let at_header = bind_some (done (non_null value)) _ (some f) e in
      let same = same_address value at_header.0 at_header.1 in
      let at_count =
        bind_some
          (symbol_count mem (mem.ehdr at_header.0).e_shnum
            (at_header.0 + (mem.ehdr at_header.0).e_shoff))
          _ (some f) at_header.2 in
      let at_phdr = bind_some (load_phdr mem at_header.0) _ (some f) at_count.2 in
      let at_table = bind_some (load_table mem fuel at_phdr.0 at_count.0) _ (some f) at_phdr.2 in
      find_symbol-Provides names value f at_table.0 h
        (subst (λ a. Loaded a at_table.0) same
          (record {
            phdr = at_phdr.0;
            count = at_count.0;
            phdr_loaded = at_phdr.1;
            table_loaded = at_table.1;
            counted = at_count.1;
          }))
        (some_or_none-some _ f at_table.2)
