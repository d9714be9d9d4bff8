-- ===== src/VdsoRng/Vdso/Image.antt =====
-- What crates/vdso-rng/src/vdso.rs reads in the image of the vDSO, and its own structures.
use useless.Base.{
  ℕ, Bool, true, false, ◌&&◌, List, [], ◌∷◌, Option, none, some, if◌then◌else◌, ◌==◌,
}
use useless.VdsoRng.Os.{Run, done, panics, unfinished}

pub record Ehdr : Type 0 where
  pub e_phoff : ℕ
  pub e_phnum : ℕ
  pub e_shoff : ℕ
  pub e_shnum : ℕ

pub record Phdr : Type 0 where
  pub p_type : ℕ
  pub p_flags : ℕ
  pub p_offset : ℕ
  pub p_vaddr : ℕ

pub record Shdr : Type 0 where
  pub sh_type : ℕ
  pub sh_size : ℕ
  pub sh_entsize : ℕ

pub record Dyn : Type 0 where
  pub d_tag : ℕ
  pub d_val : ℕ

pub record Sym : Type 0 where
  pub st_name : ℕ
  pub st_value : ℕ

pub record Verdef : Type 0 where
  pub vd_flags : ℕ
  pub vd_ndx : ℕ
  pub vd_aux : ℕ
  pub vd_next : ℕ

-- The memory, read as each of the types of linux_raw_sys, with their sizes in bytes; `cstr` is the text
-- up to the next 0.
pub record Image : Type 0 where
  pub ehdr : ℕ → Ehdr
  pub phdr : ℕ → Phdr
  pub shdr : ℕ → Shdr
  pub dyn : ℕ → Dyn
  pub sym : ℕ → Sym
  pub versym : ℕ → ℕ
  pub verdef : ℕ → Verdef
  pub vda_name : ℕ → ℕ
  pub cstr : ℕ → List ℕ
  pub size_of_phdr : ℕ
  pub size_of_shdr : ℕ
  pub size_of_dyn : ℕ
  pub size_of_sym : ℕ

-- `PhdrInfo`, and `SymbolTable` with the number of its symbols.
pub record PhdrInfo : Type 0 where
  pub vdso_addr : ℕ
  pub vdso_dyn : ℕ

pub record SymbolTable : Type 0 where
  pub strtab : ℕ
  pub symtab : ℕ
  pub versym : ℕ
  pub symbol_count : ℕ
  pub verdef : ℕ
  pub vdso_addr : ℕ

-- The variables of the loop over the dynamic section.
pub record Tables : Type 0 where
  pub strtab : Option ℕ
  pub symtab : Option ℕ
  pub versym : Option ℕ
  pub verdef : Option ℕ

-- `?` on an option within a run.
infixl 1 ◌>>=◌
abbrev pub ◌>>=◌ : {A B : Type 0} → Run (Option A) → (A → Run (Option B)) → Run (Option B)
done none >>= f = done none
done (some a) >>= f = f a
panics >>= f = panics
unfinished >>= f = unfinished

-- `NonNull::new`.
abbrev pub non_null : ℕ → Option ℕ
non_null a = if a == 0 then none else some a

-- Equality of texts.
abbrev pub text_eq : List ℕ → List ℕ → Bool
text_eq [] [] = true
text_eq [] (y ∷ ys) = false
text_eq (x ∷ xs) [] = false
text_eq (x ∷ xs) (y ∷ ys) = x == y && text_eq xs ys
