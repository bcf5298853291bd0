-- ===== src/Prelude/Order.antt =====
-- What the sorter relies on of the comparator `Cfg::less`: a strict weak order.
-- `Le comp a b` is `!comp(b, a)`, and a list is sorted if each element is so below all later ones.
use mathlib.Core.Path.{◌≡◌}
use mathlib.Core.Logic.{◌⊎◌}
use mathlib.Core.Bool.{Bool, true, false}
use mathlib.Core.List.{List, [], ◌∷◌, ◌++◌, reverse, reverse-cons}
use native.Mathlib.Omega.{arith}
use ips4o.Prelude.Preds.{All, All-append, All-append_left, All-imp}

module _ {ℓ} {A : Type ℓ} (comp : A → A → Bool) where
  pub record IsStrictWeak : Type ℓ where
    pub irrefl : (a : A) → comp a a ≡ false
    pub trans : (a b c : A) → comp a b ≡ true → comp b c ≡ true → comp a c ≡ true
    pub split : (a b c : A) → comp a c ≡ true → (comp a b ≡ true) ⊎ (comp b c ≡ true)

  abbrev pub Le : A → A → Type 0
  Le a b = comp b a ≡ false

  abbrev pub IsSorted : List A → Type 0
  IsSorted [] = Unit
  IsSorted (x ∷ xs) = All (Le x) xs × IsSorted xs

  -- The order of the elements read from right to left.
  abbrev pub IsDescending : List A → Type 0
  IsDescending [] = Unit
  IsDescending (x ∷ xs) = All (λ y. Le y x) xs × IsDescending xs

  -- Every element of the first list is below every element of the second.
  abbrev pub AllLe : List A → List A → Type 0
  AllLe xs ys = All (λ x. All (Le x) ys) xs

  pub IsSorted-append :
      (xs ys : List A) → IsSorted xs → IsSorted ys → AllLe xs ys → IsSorted (xs ++ ys)
  IsSorted-append [] ys h k c = k
  IsSorted-append (x ∷ xs) ys h k c =
      (All-append (Le x) xs ys h.0 c.0, IsSorted-append xs ys h.1 k c.1)

  pub IsSorted-append_left : (xs ys : List A) → IsSorted (xs ++ ys) → IsSorted xs
  IsSorted-append_left [] ys h = tt
  IsSorted-append_left (x ∷ xs) ys h =
      (All-append_left (Le x) xs ys h.0, IsSorted-append_left xs ys h.1)

  AllLe-cons : (xs ys : List A) (x : A) → All (λ y. Le y x) xs → AllLe xs ys → AllLe xs (x ∷ ys)
  AllLe-cons [] ys x h k = tt
  AllLe-cons (y ∷ xs) ys x h k = ((h.0, k.0), AllLe-cons xs ys x h.1 k.1)

  pub AllLe-nil : (xs : List A) → AllLe xs []
  AllLe-nil [] = tt
  AllLe-nil (x ∷ xs) = (tt, AllLe-nil xs)

  pub All-reverse {κ} : (P : A → Type κ) (xs : List A) → All P xs → All P (reverse xs)
  All-reverse P [] h = tt
  All-reverse P (x ∷ xs) h =
      rw (reverse-cons x xs) (All-append P (reverse xs) (x ∷ []) (All-reverse P xs h.1) (h.0, tt))

  pub reverse-IsSorted : (xs : List A) → IsDescending xs → IsSorted (reverse xs)
  reverse-IsSorted [] h = tt
  reverse-IsSorted (x ∷ xs) h = rw (reverse-cons x xs) (
      IsSorted-append (reverse xs) (x ∷ []) (reverse-IsSorted xs h.1) (tt, tt)
        (AllLe-cons (reverse xs) [] x (All-reverse (λ y. Le y x) xs h.0) (AllLe-nil (reverse xs))))

  module _ (w : IsStrictWeak) where
    pub lt_asymm : (a b : A) → comp a b ≡ true → comp b a ≡ false
    lt_asymm a b h = ground (arith, w.trans a b a h, w.irrefl a)

    pub le_trans : (a b c : A) → Le a b → Le b c → Le a c
    le_trans a b c h k = ground (arith, w.split c b a)

    pub lt_of_le_lt : (a b c : A) → Le a b → comp b c ≡ true → comp a c ≡ true
    lt_of_le_lt a b c h k = ground (arith, w.split b a c)

    pub lt_of_lt_le : (a b c : A) → comp a b ≡ true → Le b c → comp a c ≡ true
    lt_of_lt_le a b c h k = ground (arith, w.split a c b)

    pub All-le_trans : (a b : A) (xs : List A) → Le a b → All (Le b) xs → All (Le a) xs
    All-le_trans a b xs h = All-imp (Le b) xs (λ x k. le_trans a b x h k)

    pub All-ge_trans :
        (a b : A) (xs : List A) → Le b a → All (λ y. Le y b) xs → All (λ y. Le y a) xs
    All-ge_trans a b xs h = All-imp (λ y. Le y b) xs (λ x k. le_trans x b a k h)
