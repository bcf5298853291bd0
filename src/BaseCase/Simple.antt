-- ===== src/BaseCase/Simple.antt =====
-- `sortSimpleCases` of include/ips4o/base_case.hpp.
use mathlib.Core.List.Perm
use mathlib.Core.List.{reverse_perm}
use ips4o.Prelude.{
  ◌≡◌, refl, inl, inr, Bool, true, false, some, List, [], ◌∷◌, Perm, arith, Bool-cases, get_last?,
  IsStrictWeak, Le, IsSorted, IsDescending, All-le_trans, All-ge_trans, reverse-IsSorted, subst,
  ◌↔◌, last-some,
}
use mathlib.Core.Option.{some-injective}
use ips4o.BaseCase.{is_sorted, has_ascent, sort_simple_cases}

module _ {ℓ} {A : Type ℓ} (comp : A → A → Bool) (w : IsStrictWeak comp) where
  is_sorted_sound : (xs : List A) → is_sorted comp xs ≡ true → IsSorted comp xs
  unfolding is_sorted
  is_sorted_sound [] h = tt
  is_sorted_sound (x ∷ []) h = (tt, tt)
  is_sorted_sound (x ∷ y ∷ xs) h =
      let le : Le comp x y = ground arith in
      let rest = is_sorted_sound (y ∷ xs) (ground arith) in
      ((le, All-le_trans comp w x y xs le rest.0), rest)

  is_sorted_complete : (xs : List A) → IsSorted comp xs → is_sorted comp xs ≡ true
  unfolding is_sorted
  is_sorted_complete [] h = refl
  is_sorted_complete (x ∷ []) h = refl
  is_sorted_complete (x ∷ y ∷ xs) h = ground (arith, is_sorted_complete (y ∷ xs) h.1)

  -- `std::is_sorted` looks at neighbours only, and so decides the order of the whole range.
  pub is_sorted_iff : (xs : List A) → (is_sorted comp xs ≡ true) ↔ IsSorted comp xs
  is_sorted_iff xs = (is_sorted_sound xs, is_sorted_complete xs)

  has_ascent-IsDescending : (xs : List A) → has_ascent comp xs ≡ false → IsDescending comp xs
  unfolding has_ascent
  has_ascent-IsDescending [] h = tt
  has_ascent-IsDescending (x ∷ []) h = (tt, tt)
  has_ascent-IsDescending (x ∷ y ∷ xs) h =
      let le : Le comp y x = ground arith in
      let rest = has_ascent-IsDescending (y ∷ xs) (ground arith) in
      ((le, All-ge_trans comp w x y xs le rest.0), rest)

  -- A sorted range does not end below its first element.
  IsSorted-last :
      (x : A) (xs : List A) {last : A}
      → get_last? (x ∷ xs) ≡ some last
      → IsSorted comp (x ∷ xs)
      → comp last x ≡ false
  IsSorted-last x [] e h = subst (λ z. comp z x ≡ false) (some-injective _ _ e) (w.irrefl x)
  IsSorted-last x (y ∷ []) e h = subst (λ z. comp z x ≡ false) (some-injective _ _ e) h.0.0
  IsSorted-last x (y ∷ z ∷ xs) e h = IsSorted-last x (z ∷ xs) e ((h.0.1), h.1.1)

  -- For a strict weak order, `sortSimpleCases` rearranges the range. If it answers true, the range
  -- is sorted; if it answers false, the range is as it was, and was not sorted.
  pub sort_simple_cases_lem :
      (xs : List A)
      → let (done, ys) = sort_simple_cases comp xs in
        Perm ys xs
        × (done ≡ true → IsSorted comp ys)
        × (done ≡ false → (ys ≡ xs) × ¬ IsSorted comp xs)
  unfolding sort_simple_cases
  sort_simple_cases_lem [] = (Perm.rfl, λ _. tt, λ e. absurd (cc))
  sort_simple_cases_lem (x ∷ xs) =
      let (last, e) = last-some x xs in
      elim (Bool-cases (comp last x)) [
        | inl lt ↦ elim (Bool-cases (has_ascent comp (x ∷ xs))) [
          | inl up ↦
              rw (e, lt, up, sort_simple_cases)
                (Perm.rfl, λ f. absurd (cc), λ _. (refl, λ s. absurd (cc (IsSorted-last x xs e s))))
          | inr down ↦
              rw (e, lt, down, sort_simple_cases)
                (
                  reverse_perm (x ∷ xs),
                  λ _. reverse-IsSorted comp (x ∷ xs) (has_ascent-IsDescending (x ∷ xs) down),
                  λ f. absurd (cc),
                )
        ]
        | inr ge ↦
            rw (e, ge, sort_simple_cases)
              (
                Perm.rfl,
                is_sorted_sound (x ∷ xs),
                λ f. (refl, λ s. absurd (cc (is_sorted_complete (x ∷ xs) s))),
              )
      ]
