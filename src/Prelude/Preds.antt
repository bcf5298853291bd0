-- ===== src/Prelude/Preds.antt =====
-- Predicates on all elements of a list, by recursion, and their behaviour under permutation.
use mathlib.Core.Path.{refl, subst}
use mathlib.Core.Logic.{∥∥₁_elim}
use mathlib.Core.HLevel.{×_prop}
use mathlib.Core.List.{List, [], ◌∷◌, ◌++◌, Perm, Permᴰ}

abbrev pub All {ℓ κ} : {A : Type ℓ} → (A → Type κ) → List A → Type κ
All P [] = Unit
All P (x ∷ xs) = P x × All P xs

module _ {ℓ κ} {A : Type ℓ} (P : A → Type κ) where
  pub All-append : (xs ys : List A) → All P xs → All P ys → All P (xs ++ ys)
  All-append [] ys h k = k
  All-append (x ∷ xs) ys h k = (h.0, All-append xs ys h.1 k)

  pub All-append_left : (xs ys : List A) → All P (xs ++ ys) → All P xs
  All-append_left [] ys h = tt
  All-append_left (x ∷ xs) ys h = (h.0, All-append_left xs ys h.1)

  pub All-append_right : (xs ys : List A) → All P (xs ++ ys) → All P ys
  All-append_right [] ys h = h
  All-append_right (x ∷ xs) ys h = All-append_right xs ys h.1

  pub All-imp {μ} : {Q : A → Type μ} (xs : List A) → ((x : A) → P x → Q x) → All P xs → All Q xs
  All-imp [] f h = tt
  All-imp (x ∷ xs) f h = (f x h.0, All-imp xs f h.1)

  pub All-of : (xs : List A) → ((x : A) → P x) → All P xs
  All-of [] f = tt
  All-of (x ∷ xs) f = (f x, All-of xs f)

  module _ (prop : (x : A) → IsProp (P x)) where
    pub All-prop : (xs : List A) → IsProp (All P xs)
    All-prop [] = λ a b. refl
    All-prop (x ∷ xs) = ×_prop (prop x) (All-prop xs)

    All-permᴰ : {xs ys : List A} → Permᴰ xs ys → All P xs → All P ys
    All-permᴰ Permᴰ.nil h = tt
    All-permᴰ (Permᴰ.cons e d) h = (subst P e h.0, All-permᴰ d h.1)
    All-permᴰ (Permᴰ.swap e f) h = (subst P f h.1.0, (subst P e h.0, h.1.1))
    All-permᴰ (Permᴰ.trans d e) h = All-permᴰ e (All-permᴰ d h)

    pub All-perm : {xs ys : List A} → Perm xs ys → All P xs → All P ys
    All-perm {xs} {ys} p h = ∥∥₁_elim p (All-prop ys) (λ d. All-permᴰ d h)
