-- ===== src/StateMachine/Distinct.antt =====
-- Ranges without equivalent elements, as `handle_partition` of ips4o_state_machine.hpp splits
-- them.
use mathlib.Core.List.{Permᴰ}
use mathlib.Core.Logic.{∥∥₁_elim}
use mathlib.Core.HLevel.{×_prop}
use mathlib.Core.Bool.{Bool-set}
use mathlib.Core.Option.{some-injective}
use native.Mathlib.Nat.{ℕ_set}
use ips4o.Prelude.{
  ℕ, zero, suc, ◌<◌, ◌≡◌, refl, subst, arith, Bool, true, ◌||◌, some, List, [], ◌∷◌, ◌++◌,
  append_assoc, Perm, length, length-append, length-perm, get_elem?, All-get, All, All-append_left,
  All-perm, IsStrictWeak, Le, IsSorted, dec_lt, append-nil,
}
use ips4o.StateMachine.{lower_bound, written}
use ips4o.StateMachine.Buckets.{IsClassified}

module _ {ℓ} {A : Type ℓ} (comp : A → A → Bool) where
  -- One of the two is less than the other.
  abbrev pub Apart : A → A → Type 0
  Apart a b = (comp a b || comp b a) ≡ true

  abbrev pub Distinct : List A → Type 0
  Distinct [] = Unit
  Distinct (x ∷ xs) = All (Apart x) xs × Distinct xs

  Apart-comm : (a b : A) → Apart a b → Apart b a
  Apart-comm a b h = ground arith

  All-Apart_prop : (x : A) (xs : List A) → IsProp (All (Apart x) xs)
  All-Apart_prop x [] = λ a b. refl
  All-Apart_prop x (y ∷ xs) = ×_prop (Bool-set _ _) (All-Apart_prop x xs)

  Distinct-prop : (xs : List A) → IsProp (Distinct xs)
  Distinct-prop [] = λ a b. refl
  Distinct-prop (x ∷ xs) = ×_prop (All-Apart_prop x xs) (Distinct-prop xs)

  Distinct-permᴰ : {xs ys : List A} → Permᴰ xs ys → Distinct xs → Distinct ys
  Distinct-permᴰ Permᴰ.nil h = tt
  Distinct-permᴰ (Permᴰ.cons {b = b} {l₁ = xs} {l₂ = ys} e d) h = (
    All-perm (Apart b) (λ z. Bool-set _ _) ∣ d ∣₁ (subst (λ z. All (Apart z) xs) e h.0),
    Distinct-permᴰ d h.1,
  )
  Distinct-permᴰ (Permᴰ.swap {a = a} {b = b} {b' = b'} {l = l} e f) h = (
    (
      subst (λ z. Apart z b') f (subst (λ z. Apart b z) e (Apart-comm a b h.0.0)),
      subst (λ z. All (Apart z) l) f h.1.0,
    ),
    (subst (λ z. All (Apart z) l) e h.0.1, h.1.1),
  )
  Distinct-permᴰ (Permᴰ.trans d e) h = Distinct-permᴰ e (Distinct-permᴰ d h)

  pub Distinct-perm : {xs ys : List A} → Perm xs ys → Distinct xs → Distinct ys
  Distinct-perm {xs} {ys} p h = ∥∥₁_elim p (Distinct-prop ys) (λ d. Distinct-permᴰ d h)

  pub Distinct-append_left : (xs ys : List A) → Distinct (xs ++ ys) → Distinct xs
  Distinct-append_left [] ys h = tt
  Distinct-append_left (x ∷ xs) ys h =
      (All-append_left (Apart x) xs ys h.0, Distinct-append_left xs ys h.1)

  pub Distinct-append_right : (xs ys : List A) → Distinct (xs ++ ys) → Distinct ys
  Distinct-append_right [] ys h = h
  Distinct-append_right (x ∷ xs) ys h = Distinct-append_right xs ys h.1

  -- A sorted range without equivalent elements ascends strictly.
  pub Distinct-get :
      (xs : List A) (i j : ℕ) {a b : A}
      → IsSorted comp xs
      → Distinct xs
      → i < j
      → get_elem? xs i ≡ some a
      → get_elem? xs j ≡ some b
      → comp a b ≡ true
  Distinct-get [] i j s d h e f = absurd (cc)
  Distinct-get (x ∷ xs) i zero s d h e f = absurd (omega arith)
  Distinct-get (x ∷ xs) zero (suc j) {a} {b} s d h e f =
      let le = All-get comp (Le comp x) xs j s.0 f in
      let ne = All-get comp (Apart x) xs j d.0 f in
      subst (λ z. comp z b ≡ true) (some-injective _ _ e) (ground arith)
  Distinct-get (x ∷ xs) (suc i) (suc j) s d h e f = Distinct-get xs i j s.1 d.1 (omega arith) e f

  -- No bucket takes the whole range.
  abbrev pub Splits : List A → List A → Type 0
  Splits splitters seg = (j : ℕ) → ¬ All (λ v. lower_bound comp splitters v ≡ j) seg

  abbrev pub AllShort : ℕ → List (List A) → Type 0
  AllShort n [] = Unit
  AllShort n (b ∷ buckets) = (length b < n) × AllShort n buckets

  nil_of_length : (xs : List A) → length xs ≡ 0 → xs ≡ []
  nil_of_length [] h = refl
  nil_of_length (x ∷ xs) h = absurd (omega arith)

  pub buckets-AllShort :
      (splitters seg : List A) (i : ℕ) (before : List A) (buckets : List (List A))
      → Splits splitters seg
      → IsClassified comp splitters i buckets
      → Perm (before ++ written buckets) seg
      → AllShort (length seg) buckets
  unfolding written
  buckets-AllShort splitters seg i before [] sp c p = tt
  buckets-AllShort splitters seg i before (b ∷ buckets) sp c p = (
    elim (dec_lt (length b) (length seg)) [
      | yes lt ↦ lt
      | no ge ↦
          let len = length-perm p in
          let e = length-append before (b ++ written buckets) in
          let f = length-append b (written buckets) in
          let no_before = nil_of_length before (omega (arith, len, e, f)) in
          let no_after = nil_of_length (written buckets) (omega (arith, len, e, f)) in
          let all : Perm b seg = rw append-nil at (
            subst (λ z. Perm (b ++ z) seg) no_after
              (subst (λ z. Perm (z ++ (b ++ written buckets)) seg) no_before p)) in
          absurd (sp i (All-perm (λ v. lower_bound comp splitters v ≡ i) (λ v. ℕ_set _ _) all c.0))
    ],
    buckets-AllShort splitters seg (suc i) (before ++ b) buckets sp c.1 (rw append_assoc p),
  )

  -- The first splitter is in the first bucket, and what is above it is in another.
  pub Splits-of :
      IsStrictWeak comp
      → (s : A) (splitters seg : List A) (i j : ℕ) {b : A} → get_elem? seg i ≡ some s
      → get_elem? seg j ≡ some b
      → comp s b ≡ true
      → Splits (s ∷ splitters) seg
  unfolding lower_bound
  Splits-of w s splitters seg i j e f lt k all =
      let first = All-get comp (λ v. lower_bound comp (s ∷ splitters) v ≡ k) seg i all e in
      let other = All-get comp (λ v. lower_bound comp (s ∷ splitters) v ≡ k) seg j all f in
      ground (arith, w.irrefl s)
