-- ===== src/VdsoRng/Vdso/Tests.antt =====
-- The search of crates/vdso-rng/src/vdso.rs in a small image at the address 500: two symbols, and two
-- version definitions, the first of which is the base.
use mathlib.Core.Option.{some-injective}
use useless.Base.{
  ℕ, suc, length-replicate, Result, List, none, inl, inr, ap, sym, subst, length, replicate, ◌<◌,
  ◌≡◌, add64, sub64, refl, [], ◌∷◌, drop, Option, some, if◌then◌else◌, ◌==◌, arith,
}
use useless.VdsoRng.Create.{create, Created, create-Created}
use useless.VdsoRng.Pool.{Pool}
use useless.VdsoRng.Tests.{params, kernel, list_queue}
use useless.VdsoRng.Os.{Error, Run, done, panics, unfinished}
use useless.VdsoRng.Vdso.Image.{Dyn, Image, PhdrInfo, SymbolTable}
use useless.VdsoRng.Vdso.Headers.{load_phdr, load_table, next_dyn}
use useless.VdsoRng.Vdso.Returns.{Dynamic, Sized}
use useless.VdsoRng.Vdso.Provides.{IsReadable}
use useless.VdsoRng.Vdso.Vector.{
  AllReadable, last_value, Answers, get_function_and_page_size-Answers,
}
use useless.VdsoRng.Vdso.Symbols.{x86_64, vdso_getrandom, linux_2_6, find_version, find_symbol}
use useless.VdsoRng.Vdso.Search.{AuxvEntry, Prctl, new_auxv, auxv_iter, get_function_and_page_size}
use useless.VdsoRng.Vdso.Versions.{Chain}
use useless.VdsoRng.Vdso.Lookup.{Found, find_symbol-Found}

abbrev dyn_at : ℕ → Dyn
dyn_at a =
    if a == 1100
    then record { d_tag = 5; d_val = 500 }
    else if a == 1116
    then record { d_tag = 6; d_val = 1500 }
    else if a == 1132
    then record { d_tag = 1879048176; d_val = 2500 }
    else if a == 1148
    then record { d_tag = 1879048188; d_val = 3500 }
    else record { d_tag = 0; d_val = 0 }

abbrev image : Image
image = record {
  ehdr = λ a. record { e_phoff = 64; e_phnum = 2; e_shoff = 200; e_shnum = 1 };
  phdr = λ a.
      if a == 564
      then record { p_type = 1; p_flags = 5; p_offset = 0; p_vaddr = 0 }
      else record { p_type = 2; p_flags = 4; p_offset = 600; p_vaddr = 600 };
  shdr = λ a. record { sh_type = 11; sh_size = 48; sh_entsize = 24 };
  dyn = dyn_at;
  sym = λ a.
      if a == 2024
      then record { st_name = 1; st_value = 64 }
      else record { st_name = 5; st_value = 0 };
  versym = λ a. 2;
  verdef = λ a.
      if a == 4000
      then record { vd_flags = 1; vd_ndx = 2; vd_aux = 20; vd_next = 28 }
      else record { vd_flags = 0; vd_ndx = 2; vd_aux = 20; vd_next = 0 };
  vda_name = λ a. if a == 4048 then 10 else 5;
  cstr = λ a. if a == 1001 then vdso_getrandom else if a == 1010 then linux_2_6 else b'x' ∷ [];
  size_of_phdr = 56;
  size_of_shdr = 64;
  size_of_dyn = 16;
  size_of_sym = 24;
}

abbrev small_table : SymbolTable
small_table = record {
  strtab = 1000;
  symtab = 2000;
  versym = 3000;
  symbol_count = 2;
  verdef = 4000;
  vdso_addr = 500;
}

chain : Chain image 4000 (4000 ∷ 4028 ∷ [])
chain = Chain.links 4000 (4028 ∷ []) (λ e. omega (arith, e)) (Chain.ends 4028 refl)

second_version : find_version image 3 small_table 1 ≡ done (some linux_2_6)
unfolding find_version
second_version = refl

find_symbol-Found_example :
    (r : Option ℕ) × (find_symbol image 3 small_table (some (vdso_getrandom, linux_2_6)) ≡ done r)
    × Found image small_table (vdso_getrandom) (linux_2_6) (4000 ∷ 4028 ∷ []) 0 2 r
find_symbol-Found_example =
    find_symbol-Found image small_table (vdso_getrandom) (linux_2_6) (4000 ∷ 4028 ∷ []) 3 chain
      (omega arith)

-- The kernel writes the page size behind the address of the image.
abbrev prctl : Prctl
prctl = λ buf size.
    some (record { key = 33; value = 500 } ∷ record { key = 6; value = 4096 } ∷ drop 2 buf)

-- The whole search.
search : get_function_and_page_size image 5 x86_64 prctl ≡ done (some (564, 4096))
unfolding get_function_and_page_size new_auxv add64 sub64
search = refl

-- The image is readable.
abbrev image_phdr : PhdrInfo
image_phdr = record { vdso_addr = 500; vdso_dyn = 1100 }

abbrev contents_of : {A : Type 0} → A → Run (Option A) → A
contents_of a (done (some b)) = b
contents_of a (done none) = a
contents_of a panics = a
contents_of a unfinished = a

image_phdr-loaded : (phdr : PhdrInfo) → load_phdr image 500 ≡ done (some phdr) → image_phdr ≡ phdr
unfolding load_phdr add64 sub64
image_phdr-loaded phdr e = ap (contents_of image_phdr) e

Dynamic-section : Dynamic image 1100 4
unfolding next_dyn
Dynamic-section = Dynamic.links 1100 1116 3 refl (
    Dynamic.links 1116 1132 2 refl
      (Dynamic.links 1132 1148 1 refl (Dynamic.links 1148 1164 0 refl (Dynamic.ends 1164 refl))))

image_table-verdef :
    (count : ℕ) (t : SymbolTable)
    → load_table image 5 image_phdr count ≡ done (some t)
    → 4000 ≡ t.verdef
unfolding load_table add64
image_table-verdef count t e = ap (λ r. (contents_of small_table r).verdef) e

image-IsReadable : IsReadable image 5 500
unfolding Sized
image-IsReadable = record {
  sized = (inr (omega arith), tt);
  dynamic = λ phdr e.
      subst (λ p. (n : ℕ) × Dynamic image p.vdso_dyn n × (n < 5)) (image_phdr-loaded phdr e)
        (4, Dynamic-section, omega arith);
  versions = λ t l.
      let same = image_phdr-loaded l.phdr l.phdr_loaded in
      let loaded =
        subst (λ p. load_table image 5 p l.count ≡ done (some t)) (sym same) l.table_loaded in
      subst (λ (a : ℕ). (c : List ℕ) × Chain image a c × (length c < 5))
        (image_table-verdef l.count t loaded) (4000 ∷ 4028 ∷ [], chain, omega arith);
}

-- What the kernel writes, and its entries up to `AT_NULL`.
abbrev written : List AuxvEntry
written =
    record { key = 33; value = 500 }
    ∷ record { key = 6; value = 4096 }
    ∷ replicate 62 (record { key = 0; value = 0 })

abbrev vector : List AuxvEntry
vector = record { key = 33; value = 500 } ∷ record { key = 6; value = 4096 } ∷ []

vector-AllReadable : AllReadable image 5 x86_64 vector
vector-AllReadable = (inr image-IsReadable, (inl (λ e. omega (arith, e)), tt))

get_function_and_page_size-Answers_example :
    (r : Option (ℕ × ℕ)) × (get_function_and_page_size image 5 x86_64 prctl ≡ done r)
    × Answers image 5 x86_64 vector r
unfolding new_auxv auxv_iter
get_function_and_page_size-Answers_example =
    get_function_and_page_size-Answers image 5 x86_64 prctl written refl vector-AllReadable

vector_page_size : (p : ℕ) → last_value 6 vector ≡ some p → 4096 ≡ p
unfolding last_value
vector_page_size p e = some-injective _ _ e

-- The four processors of a set, with states of 2048 bytes.
abbrev cpu_set : List ℕ
cpu_set = 15 ∷ replicate 127 0

create-Created_example :
    (r : Result Error (Pool list_queue)) × (create kernel list_queue image 5 x86_64 prctl
        (λ f. params)
        128
        cpu_set
      ≡ done r)
    × Created kernel list_queue image 5 x86_64 prctl (λ f. params) 128 cpu_set vector r
unfolding new_auxv auxv_iter
create-Created_example =
    create-Created kernel list_queue image 5 x86_64 prctl (λ f. params) 128 cpu_set written refl
      vector-AllReadable (ap suc (length-replicate {A = ℕ} 127 0))
      (λ f p e.
        let page = vector_page_size p e in (omega arith, omega (arith, page), omega (arith, page)))
