-- ===== src/Prelude/Gets.antt =====
-- Reading at an index of a list, with what holds of all its elements.
use mathlib.Core.Option.{some-injective}
use Prim.Native.Nat.{ℕ, zero, suc, ◌≤◌}
use native.Mathlib.Omega.{arith}
use mathlib.Core.Path.{◌≡◌, ◌∙◌, sym, subst}
use mathlib.Core.Bool.{Bool}
use mathlib.Core.Option.{some}
use mathlib.Core.List.{List, [], ◌∷◌}
use ips4o.Prelude.Lists.{get_elem?}
use ips4o.Prelude.Preds.{All}
use ips4o.Prelude.Order.{IsStrictWeak, Le, IsSorted}

module _ {ℓ} {A : Type ℓ} (comp : A → A → Bool) where
  pub All-get {κ} :
      (P : A → Type κ) (xs : List A) (i : ℕ) {a : A} → All P xs → get_elem? xs i ≡ some a → P a
  All-get P [] i h e = absurd (cc)
  All-get P (x ∷ xs) zero h e = subst P (some-injective _ _ e) h.0
  All-get P (x ∷ xs) (suc i) h e = All-get P xs i h.1 e

  module _ (w : IsStrictWeak comp) where
    pub IsSorted-get :
        (xs : List A) (i j : ℕ) {a b : A}
        → IsSorted comp xs
        → i ≤ j
        → get_elem? xs i ≡ some a
        → get_elem? xs j ≡ some b
        → Le comp a b
    IsSorted-get [] i j s h e f = absurd (cc)
    IsSorted-get (x ∷ xs) zero zero {a} s h e f =
        subst (λ b. Le comp a b) (some-injective _ _ (sym e ∙ f)) (w.irrefl a)
    IsSorted-get (x ∷ xs) zero (suc j) {a} {b} s h e f =
        subst (λ z. Le comp z b) (some-injective _ _ e) (All-get (Le comp x) xs j s.0 f)
    IsSorted-get (x ∷ xs) (suc i) zero s h e f = absurd (omega arith)
    IsSorted-get (x ∷ xs) (suc i) (suc j) s h e f = IsSorted-get xs i j s.1 (omega arith) e f
