-- ===== src/Sum.antt =====
-- Sums of integers over lists, for the loops that add something up.
use mathlib.Core.List.{Perm, Permᴰ}
use mathlib.Core.Logic.{∥∥₁_elim}
use terminal_army_go.Base.{◌≡◌, refl, ap, ◌∙◌, List, [], ◌∷◌, ◌++◌, All, arith}
use terminal_army_go.Int.{ℤ, pos, ◌+ℤ◌, ◌≤ℤ◌, int_laws}

pub ℤ-set : IsSet ℤ
ℤ-set = hlevel

module _ {ℓ} {A : Type ℓ} where
  abbrev pub sum_of : (A → ℤ) → List A → ℤ
  sum_of f [] = pos 0
  sum_of f (x ∷ xs) = f x +ℤ sum_of f xs

  sum_of-Permᴰ : (f : A → ℤ) {xs ys : List A} → Permᴰ xs ys → sum_of f xs ≡ sum_of f ys
  sum_of-Permᴰ f Permᴰ.nil = refl
  sum_of-Permᴰ f (Permᴰ.cons e p) = cc (ap f e, sum_of-Permᴰ f p)
  sum_of-Permᴰ f (Permᴰ.swap {l = l} e d) = grind (int_laws, ap f e, ap f d)
  sum_of-Permᴰ f (Permᴰ.trans p q) = sum_of-Permᴰ f p ∙ sum_of-Permᴰ f q

  pub sum_of-Perm : (f : A → ℤ) (xs ys : List A) → Perm xs ys → sum_of f xs ≡ sum_of f ys
  sum_of-Perm f xs ys p = ∥∥₁_elim p (ℤ-set _ _) (sum_of-Permᴰ f)

  pub sum_of-append :
      (f : A → ℤ) (xs ys : List A) → sum_of f (xs ++ ys) ≡ sum_of f xs +ℤ sum_of f ys
  sum_of-append f [] ys = omega int_laws
  sum_of-append f (x ∷ xs) ys = rw (sum_of-append f xs ys) (omega int_laws)

  pub sum_of_nonneg : (f : A → ℤ) (xs : List A) → All (λ x. pos 0 ≤ℤ f x) xs → pos 0 ≤ℤ sum_of f xs
  sum_of_nonneg f [] h = omega arith
  sum_of_nonneg f (x ∷ xs) h = omega (int_laws, sum_of_nonneg f xs h.1)
