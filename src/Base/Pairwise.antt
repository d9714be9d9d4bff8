-- ===== src/Base/Pairwise.antt =====
-- Lists whose members are related pairwise, from `All`.
use mathlib.Core.Path.{sym, subst}
use mathlib.Core.Logic.{∥∥₁_elim}
use mathlib.Core.List.{List, [], ◌∷◌, ◌++◌, Mem, Memᴰ, Pairwise, Pairwise-append}
use useless.Base.Lists.{All}

module _ {ℓ κ} {A : Type ℓ} (P : A → Type κ) where
  all_of_member : (l : List A) → All P l → (a : A) → Memᴰ a l → P a
  all_of_member [] h a m = elim m [ ]
  all_of_member (x ∷ xs) h a (Memᴰ.head e) = subst P (sym e) h.0
  all_of_member (x ∷ xs) h a (Memᴰ.tail m) = all_of_member xs h.1 a m

  member : ((a : A) → IsProp (P a)) → (l : List A) → All P l → (a : A) → Mem a l → P a
  member prop l h a m = ∥∥₁_elim m (prop a) (all_of_member l h a)

  pub All-map {ρ} : {Q : A → Type ρ} → ((a : A) → P a → Q a) → (l : List A) → All P l → All Q l
  All-map f [] h = tt
  All-map f (x ∷ xs) h = (f x h.0, All-map f xs h.1)

module _ {ℓ κ} {A : Type ℓ} (R : A → A → Type κ) (prop : (a b : A) → IsProp (R a b)) where
  pub Pairwise-cons_All : (x : A) (l : List A) → All (R x) l → Pairwise R l → Pairwise R (x ∷ l)
  Pairwise-cons_All x l h p = Pairwise.cons (member (R x) (prop x) l h) p

  pub Pairwise-append_All :
      (xs ys : List A)
      → Pairwise R xs
      → Pairwise R ys
      → All (λ x. All (R x) ys) xs
      → Pairwise R (xs ++ ys)
  Pairwise-append_All xs ys hx hy h = (Pairwise-append prop {l₁ = xs} {l₂ = ys}).1 (
    hx,
    hy,
    member (λ a. (b : A) → Mem b ys → R a b) (hlevel prop) xs
        (All-map (λ a. All (R a) ys) (λ a. member (R a) (prop a) ys) xs h),
  )
