-- ===== src/Prelude/Sums.antt =====
-- Sums over the numbers below a bound, and over lists.
use ips4o.Prelude.Lists.{length, update, update_self, update_ne}
use Prim.Native.Nat.{ℕ, zero, suc, ◌+◌, ◌≤◌, ◌<◌}
use mathlib.Core.Path.{◌≡◌, refl, ap, ◌∙◌}
use mathlib.Core.List.{List, [], ◌∷◌, ◌++◌, Perm, Permᴰ}
use mathlib.Core.Logic.{∥∥₁_elim}
use native.Mathlib.Decide.{ℕ_discrete}
use native.Mathlib.Nat.{ℕ_set}
use native.Mathlib.Omega.{arith}

abbrev pub sum : ℕ → (ℕ → ℕ) → ℕ
sum zero f = 0
sum (suc k) f = sum k f + f k

pub sum-add : (k : ℕ) (f g : ℕ → ℕ) → sum k (λ i. f i + g i) ≡ sum k f + sum k g
sum-add zero f g = refl
sum-add (suc k) f g = omega (arith, sum-add k f g)

pub sum-zero : (k : ℕ) → sum k (λ i. 0) ≡ 0
sum-zero zero = refl
sum-zero (suc k) = omega (arith, sum-zero k)

pub sum-ext : (k : ℕ) (f g : ℕ → ℕ) → ((i : ℕ) → i < k → f i ≡ g i) → sum k f ≡ sum k g
sum-ext zero f g h = refl
sum-ext (suc k) f g h = omega (arith, sum-ext k f g (λ i l. h i (omega arith)), h k (omega arith))

-- No summand is above the sum.
pub le-sum : (k : ℕ) (f : ℕ → ℕ) (i : ℕ) → i < k → f i ≤ sum k f
le-sum zero f i h = absurd (omega arith)
le-sum (suc k) f i h = elim (ℕ_discrete i k) [
  | yes e ↦ let same : f i ≡ f k = ap f e in omega (arith, same)
  | no ne ↦ omega (arith, le-sum k f i (omega arith))
]

-- A sum in which one summand has changed.
pub sum-update {ℓ} :
    {X : Type ℓ} (k : ℕ) (g : X → ℕ) (f : ℕ → X) (i : ℕ) (v : X)
    → i < k
    → sum k (λ j. g (update f i v j)) + g (f i) ≡ sum k (λ j. g (f j)) + g v
sum-update zero g f i v h = absurd (omega arith)
sum-update (suc k) g f i v h = elim (ℕ_discrete i k) [
  | yes e ↦
      let now : g (update f i v k) ≡ g v = ap g (update_self f i v k e) in
      let was : g (f i) ≡ g (f k) = ap (λ j. g (f j)) e in
      let rest =
        sum-ext k (λ j. g (update f i v j)) (λ j. g (f j))
          (λ j l. ap g (update_ne f i v j (λ q. omega arith))) in
      omega (arith, now, was, rest)
  | no ne ↦
      let same : g (update f i v k) ≡ g (f k) = ap g (update_ne f i v k ne) in
      omega (arith, same, sum-update k g f i v (omega arith))
]

-- The weights of the elements of a list.
abbrev pub total {ℓ} : {X : Type ℓ} → (X → ℕ) → List X → ℕ
total f [] = 0
total f (x ∷ xs) = f x + total f xs

pub total-append {ℓ} :
    {X : Type ℓ} (f : X → ℕ) (xs ys : List X) → total f (xs ++ ys) ≡ total f xs + total f ys
total-append f [] ys = omega arith
total-append f (x ∷ xs) ys = omega (arith, total-append f xs ys)

total-permᴰ {ℓ} : {X : Type ℓ} (f : X → ℕ) {xs ys : List X} → Permᴰ xs ys → total f xs ≡ total f ys
total-permᴰ f Permᴰ.nil = refl
total-permᴰ f (Permᴰ.cons e d) = omega (arith, ap f e, total-permᴰ f d)
total-permᴰ f (Permᴰ.swap e g) = omega (arith, ap f e, ap f g)
total-permᴰ f (Permᴰ.trans d e) = total-permᴰ f d ∙ total-permᴰ f e

pub total-perm {ℓ} :
    {X : Type ℓ} (f : X → ℕ) {xs ys : List X} → Perm xs ys → total f xs ≡ total f ys
total-perm f p = ∥∥₁_elim p (ℕ_set _ _) (total-permᴰ f)

pub total-one {ℓ} : {X : Type ℓ} (xs : List X) → total (λ x. 1) xs ≡ length xs
total-one [] = refl
total-one (x ∷ xs) = omega (arith, total-one xs)
