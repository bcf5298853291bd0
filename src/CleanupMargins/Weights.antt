-- ===== src/CleanupMargins/Weights.antt =====
-- The weight of the elements in a range of an array, for the cleanup of
-- include/ips4o/cleanup_margins.hpp.
use ips4o.Prelude.{
  ℕ, zero, suc, ◌+◌, ◌-◌, ◌*◌, ◌≤◌, ◌≡◌, refl, ap, ◌∙◌, arith, some, List, [], ◌∷◌, length, take,
  drop, get_elem?, range, total, total-append, range-append,
}

module _ {ℓ} {A : Type ℓ} where
  module _ (w : A → ℕ) where
    abbrev pub weight : List A → ℕ → ℕ → ℕ
    weight xs a b = total w (range xs a b)

    pub weight-add :
        (xs : List A) (a b c : ℕ) → a ≤ b → b ≤ c → weight xs a c ≡ weight xs a b + weight xs b c
    weight-add xs a b c h k =
        ap (total w) (range-append xs a b c h k) ∙ total-append w (range xs a b) (range xs b c)

    pub total-take-drop :
        (n : ℕ) (xs : List A) → total w (take n xs) + total w (drop n xs) ≡ total w xs
    total-take-drop zero xs = omega arith
    total-take-drop (suc n) [] = omega arith
    total-take-drop (suc n) (x ∷ xs) = omega (arith, total-take-drop n xs)

    -- Blocks in consecutive slots.
    pub weight-slots :
        (B f : ℕ) (xs : List A) (blocks : List (List A))
        → ((i : ℕ) (y : List A)
            → get_elem? blocks i ≡ some y
            → range xs ((f + i) * B) ((f + i) * B + B) ≡ y)
        → weight xs (f * B) ((f + length blocks) * B) ≡ total (total w) blocks
    weight-slots B f xs [] h =
        let n : (f + 0) * B - f * B ≡ 0 = omega arith in
        ap (λ z. total w (take z (drop (f * B) xs))) n
    weight-slots B f xs (y ∷ blocks) h =
        let end : (f + length (y ∷ blocks)) * B ≡ (suc f + length blocks) * B =
          ap (λ z. z * B) (omega arith) in
        let first_end : suc f * B ≡ f * B + B = omega arith in
        let first = h 0 y refl in
        let here : weight xs (f * B) (suc f * B) ≡ total w y =
          ap (weight xs (f * B)) first_end
          ∙ ap (λ z. weight xs (z * B) (z * B + B)) f_zero
          ∙ ap (total w) first in
        ap (weight xs (f * B)) end
        ∙ weight-add xs (f * B) (suc f * B) ((suc f + length blocks) * B) (omega arith)
            (omega arith)
        ∙ omega (
          arith,
          here,
          weight-slots B (suc f) xs blocks
              (λ i z e. ap (λ j. range xs (j * B) (j * B + B)) (shift i) ∙ h (suc i) z e),
        )
      where
        f_zero : f ≡ f + 0
        f_zero = omega arith

        shift : (i : ℕ) → suc f + i ≡ f + suc i
        shift i = omega arith
