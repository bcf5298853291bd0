-- ===== src/Classifier/Rank.antt =====
-- The walk of `classify` (include/ips4o/classifier.hpp) down the tree, and the rank of a value among the
-- splitters.
use ips4o.Prelude.{
  ℕ, zero, suc, ◌+◌, ◌-◌, ◌*◌, ◌^◌, ◌≤◌, ◌<◌, ◌≡◌, refl, sym, ap, ◌∙◌, arith, Bool, true,
  Bool-cases, inl, inr, ltb, ltb→lt, ltb→le, lt→ltb, le→ltb, to_int, pow2-suc, pow2-pos,
  IsStrictWeak, Le, lt_of_le_lt, dec_lt,
}
use ips4o.Classifier.{descend}

module _ {ℓ} {A : Type ℓ} (comp : A → A → Bool) where
  -- The number of the first `n` splitters that are less than `v`: the reference for the classifier.
  abbrev pub count_less : (ℕ → A) → ℕ → A → ℕ
  count_less s zero v = 0
  count_less s (suc n) v = count_less s n v + to_int (comp (s n) v)

  -- The first `n` splitters ascend.
  abbrev pub IsAscending : (ℕ → A) → ℕ → Type 0
  IsAscending s n = (i j : ℕ) → i ≤ j → j < n → Le comp (s i) (s j)

  pub count_less-le : (s : ℕ → A) (n : ℕ) (v : A) → count_less s n v ≤ n
  count_less-le s zero v = omega arith
  count_less-le s (suc n) v = ground (arith, count_less-le s n v)

  count_less-all :
      (s : ℕ → A) (n : ℕ) (v : A) → ((j : ℕ) → j < n → comp (s j) v ≡ true) → count_less s n v ≡ n
  count_less-all s zero v all = refl
  count_less-all s (suc n) v all =
      rw (all n (omega arith)) (omega (arith, count_less-all s n v (λ j h. all j (omega arith))))

  -- From node `i` of level `l`, with `m` levels to go.
  pub descend-rank :
      (t s : ℕ → A) (k r : ℕ) (v : A)
      → ((l m i : ℕ) → l + suc m ≡ k → i < 2 ^ l → t (2 ^ l + i) ≡ s ((2 * i + 1) * 2 ^ m - 1))
      → ((j : ℕ) → j < 2 ^ k - 1 → comp (s j) v ≡ ltb j r)
      → (m l i : ℕ) → l + m ≡ k
      → i < 2 ^ l
      → suc i * 2 ^ m ≤ 2 ^ k
      → i * 2 ^ m ≤ r
      → r < suc i * 2 ^ m
      → descend comp t v m (2 ^ l + i) ≡ 2 ^ k + r
  unfolding descend
  descend-rank t s k r v tree rank zero l i hk hi top lo up =
      let e : l ≡ k = omega arith in omega (arith, ap (λ (n : ℕ). 2 ^ n) e)
  descend-rank t s k r v tree rank (suc m) l i hk hi top lo up =
      let twice = ap (λ (x : ℕ). i * x) (pow2-suc m) in
      let here = tree l m i hk hi ∙ refl in
      let test = rank ((2 * i + 1) * 2 ^ m - 1) (omega (arith, pow2-pos m, pow2-suc m, twice)) in
      elim (Bool-cases (ltb ((2 * i + 1) * 2 ^ m - 1) r)) [
        | inl less ↦
            let e : 2 * (2 ^ l + i) + 1 ≡ 2 ^ suc l + (2 * i + 1) = omega (arith, pow2-suc l) in
            let bound = ltb→lt _ _ less in
            rw (here, test, less)
              (rw e (
                descend-rank t s k r v tree rank m (suc l) (2 * i + 1) (omega arith)
                  (omega (arith, pow2-suc l)) (omega (arith, pow2-suc m, twice))
                  (omega (arith, bound)) (omega (arith, pow2-suc m, twice))))
        | inr more ↦
            let e : 2 * (2 ^ l + i) + 0 ≡ 2 ^ suc l + 2 * i = omega (arith, pow2-suc l) in
            let bound = ltb→le _ _ more in
            rw (here, test, more)
              (rw e (
                descend-rank t s k r v tree rank m (suc l) (2 * i) (omega arith)
                  (omega (arith, pow2-suc l)) (omega (arith, pow2-suc m, twice))
                  (omega (arith, pow2-suc m, twice)) (omega (arith, bound, pow2-pos m))))
      ]

  module _ (w : IsStrictWeak comp) where
    -- Exactly the splitters below the rank are less than the value.
    pub less-iff_rank :
        (s : ℕ → A) (n : ℕ) (v : A)
        → IsAscending s n
        → (j : ℕ) → j < n
        → comp (s j) v ≡ ltb j (count_less s n v)
    less-iff_rank s zero v asc j h = absurd (omega arith)
    less-iff_rank s (suc n) v asc j h = elim (Bool-cases (comp (s n) v)) [
      | inl less ↦
          let all = λ (i : ℕ) (b : i < suc n).
            lt_of_le_lt comp w (s i) (s n) v (asc i n (omega arith) (omega arith)) less in
          rw (less, count_less-all s n v (λ i b. all i (omega arith)), all j h)
            (sym (lt→ltb j (n + 1) (omega arith)))
      | inr more ↦ elim (dec_lt j n) [
        | yes lt ↦ rw more (
            less-iff_rank s n v (λ a b p q. asc a b p (omega arith)) j lt
            ∙ ap (ltb j) (omega arith))
        | no ge ↦
            let e : j ≡ n = omega arith in
            rw (e, more)
              (sym (le→ltb n (count_less s n v + 0) (omega (arith, count_less-le s n v))))
      ]
    ]
