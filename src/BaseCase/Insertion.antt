-- ===== src/BaseCase/Insertion.antt =====
-- `insertionSort` and `baseCaseSort` of include/ips4o/base_case.hpp.
use mathlib.Core.List.Perm
use mathlib.Core.List.{perm_append_singleton, reverse_perm, perm_middle}
use mathlib.Core.Option.{some-injective}
use mathlib.Core.Bool.{Bool-set}
use ips4o.Prelude.{
  ◌≡◌, refl, inl, inr, Bool, true, Option, some, List, [], ◌∷◌, ◌++◌, reverse, Perm, arith,
  Bool-cases, get_last?, All, All-append, All-perm, IsStrictWeak, Le, IsSorted, IsDescending,
  lt_asymm, All-ge_trans, reverse-IsSorted, subst, lt_of_lt_le, length, length-perm, ◌≢◌, last-some,
}
use ips4o.BaseCase.{shift_right, place, sort_rest, base_case_sort}

module _ {ℓ} {A : Type ℓ} (comp : A → A → Bool) (w : IsStrictWeak comp) where
  -- A result that is defined, descending, and a rearrangement of `xs`.
  abbrev Placed : Option (List A) → List A → Type ℓ
  Placed o xs = (r : List A) × (o ≡ some r) × IsDescending comp r × Perm r xs

  -- With a smaller or equal element at `begin`, the inner loop stops inside the range.
  shift_right-Placed :
      (val : A) (left : List A) {first : A}
      → get_last? left ≡ some first
      → Le comp first val
      → IsDescending comp left
      → Placed (shift_right comp val left) (val ∷ left)
  unfolding shift_right
  shift_right-Placed val [] e le d = cc
  shift_right-Placed val (next ∷ []) e le d = elim (Bool-cases (comp val next)) [
    | inl lt ↦ cc
    | inr ge ↦ rw ge (val ∷ next ∷ [], refl, ((ge, tt), (tt, tt)), Perm.rfl)
  ]
  shift_right-Placed val (next ∷ y ∷ left) {first} e le d = elim (Bool-cases (comp val next)) [
    | inl lt ↦
        let (r, eq, desc, perm) = shift_right-Placed val (y ∷ left) e le d.1 in
        rw (lt, eq)
          (
            next ∷ r,
            refl,
            (
              All-perm (λ z. Le comp z next) (λ z. Bool-set _ _) (Perm.symm perm)
                  (lt_asymm comp w val next lt, d.0),
              desc,
            ),
            Perm.trans (Perm.cons next perm) (Perm.swap val next (y ∷ left)),
          )
    | inr ge ↦ rw ge (
      val ∷ next ∷ y ∷ left,
      refl,
      ((ge, All-ge_trans comp w val next (y ∷ left) ge d.0), d),
      Perm.rfl,
    )
  ]

  -- The `move_backward` case: `val` is below the first element, hence below all.
  IsDescending-snoc :
      (val : A) (done : List A) {first : A}
      → get_last? done ≡ some first
      → comp val first ≡ true
      → IsDescending comp done
      → IsDescending comp (done ++ val ∷ [])
  IsDescending-snoc val [] e lt d = (tt, tt)
  IsDescending-snoc val (x ∷ []) e lt d = ((ground (arith, lt_asymm comp w val x), tt), (tt, tt))
  IsDescending-snoc val (x ∷ y ∷ done) {first} e lt d =
      let rest = IsDescending-snoc val (y ∷ done) e lt d.1 in
      (
        All-append (λ z. Le comp z x) (y ∷ done) (val ∷ []) d.0
            (
              lt_asymm comp w val x (lt_of_lt_le comp w val first x lt (le_last x y done e d.0)),
              tt,
            ),
        rest,
      )
    where
      le_last :
          (x y : A) (done : List A) {first : A}
          → get_last? (y ∷ done) ≡ some first
          → All (λ z. Le comp z x) (y ∷ done)
          → Le comp first x
      le_last x y [] e h = subst (λ z. Le comp z x) (some-injective _ _ e) h.0
      le_last x y (z ∷ done) e h = le_last x z done e h.1

  place-Placed :
      (val x : A) (done : List A)
      → IsDescending comp (x ∷ done)
      → Placed (place comp val (x ∷ done)) (val ∷ x ∷ done)
  unfolding place
  place-Placed val x done d =
      let (first, e) = last-some x done in
      elim (Bool-cases (comp val first)) [
        | inl lt ↦
            rw (e, lt)
              (
                x ∷ done ++ val ∷ [],
                refl,
                IsDescending-snoc val (x ∷ done) e lt d,
                perm_append_singleton val (x ∷ done),
              )
        | inr ge ↦ rw (e, ge) (shift_right-Placed val (x ∷ done) e ge d)
      ]

  Placed-perm : (o : Option (List A)) {xs ys : List A} → Perm xs ys → Placed o xs → Placed o ys
  Placed-perm o p (r, e, d, q) = (r, e, d, Perm.trans q p)

  -- The outer loop keeps a descending list that rearranges what it has consumed.
  sort_rest-Placed :
      (rest done : List A)
      → length done ≢ 0
      → IsDescending comp done
      → Placed (sort_rest comp done rest) (rest ++ done)
  unfolding sort_rest
  sort_rest-Placed [] done ne d = (done, refl, d, Perm.rfl)
  sort_rest-Placed (val ∷ rest) [] ne d = absurd (ne refl)
  sort_rest-Placed (val ∷ rest) (x ∷ done) ne d =
      let (r, e, desc, perm) = place-Placed val x done d in
      rw e (
        Placed-perm (sort_rest comp r rest)
          (Perm.trans (Perm.append_left rest perm) (perm_middle rest (x ∷ done)))
          (sort_rest-Placed rest r (omega (arith, length-perm perm)) desc))

  -- For a strict weak order, on every range, `baseCaseSort` runs without an access outside the
  -- range (its inner loop has no bound of its own), and leaves a sorted rearrangement of the range.
  pub base_case_sort-IsSorted :
      (xs : List A) → (r : List A) × (base_case_sort comp xs ≡ some r) × IsSorted comp r × Perm r xs
  unfolding base_case_sort
  base_case_sort-IsSorted [] = ([], refl, tt, Perm.rfl)
  base_case_sort-IsSorted (x ∷ xs) =
      let (r, e, desc, perm) = sort_rest-Placed xs (x ∷ []) (omega arith) (tt, tt) in
      rw e (
        reverse r,
        refl,
        reverse-IsSorted comp r desc,
        Perm.trans (reverse_perm r) (Perm.trans perm (perm_append_singleton x xs)),
      )
