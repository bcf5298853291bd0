-- ===== src/SequentialSorter/Splits.antt =====
-- What the classifier of `buildClassifier` (include/ips4o/sampling.hpp) does for the recursion: no bucket
-- into which it goes holds the whole range, and the other buckets hold equivalent elements only.
use ips4o.Prelude.{
  ℕ, zero, suc, ◌+◌, ◌-◌, ◌*◌, ◌^◌, ◌≤◌, ◌<◌, ◌≡◌, ◌≢◌, inl, inr, refl, sym, ap, ◌∙◌, arith, subst,
  Bool, true, false, Bool-cases, some, List, get_elem?, ltb, ltb→lt, ltb→le, lt→ltb, le→leb, to_int,
  if◌then◌else◌, IsStrictWeak, Le, le_trans, pow2-le, ℕ_discrete,
}
use ips4o.Config.{Config}
use ips4o.Classifier.{Classifier, build, classify}
use ips4o.Classifier.Rank.{count_less, less-iff_rank}
use ips4o.Classifier.Buckets.{same, bucket_of, classify_lem}
use ips4o.Sampling.Built.{IsBuilt, uses_equal_buckets}
use ips4o.SequentialSorter.Whole.{Recursed}

ltb-zero : (r : ℕ) → ltb 0 r ≡ false → r ≡ 0
ltb-zero zero e = refl
ltb-zero (suc r) e = absurd (ground arith)

-- An odd bucket with equality buckets: its half, and the test.
odd_half : (r j : ℕ) (x : Bool) → 2 * r + to_int x ≡ 2 * j + 1 → (r ≡ j) × (x ≡ true)
odd_half r j true e = (omega arith, refl)
odd_half r j false e = absurd (omega arith)

module _ {ℓ} {A : Type ℓ} (comp : A → A → Bool) (w : IsStrictWeak comp) (c : Config)
    {sample : List A} {step lb : ℕ} {classifier : Classifier A}
    (b : IsBuilt comp w c sample step lb classifier) where
  abbrev pub tree : Classifier A
  tree = build (record classifier { sorted_storage = b.sorted }) b.levels

  abbrev pub equal : Bool
  equal = uses_equal_buckets comp w c lb b.last

  abbrev pub used : ℕ
  used = 2 ^ b.levels * (1 + to_int equal)

  n : ℕ
  n = 2 ^ b.levels - 1

  some_splitter : 1 ≤ n
  unfolding n
  some_splitter = omega (arith, pow2-le 1 b.levels b.some_levels)

  bucket : (e : Bool) (v : A) → classify comp tree e v ≡ bucket_of comp w b.sorted n e v
  unfolding n
  bucket e v =
      classify_lem comp w (record classifier { sorted_storage = b.sorted }) b.levels b.some_levels
        b.ascending v e

  first-rank : count_less comp b.sorted n (b.sorted 0) ≡ 0
  unfolding n
  first-rank = ltb-zero (count_less comp b.sorted n (b.sorted 0)) (
      sym (less-iff_rank comp w b.sorted n (b.sorted 0) b.ascending 0 some_splitter)
      ∙ w.irrefl (b.sorted 0))

  first-plain : classify comp tree false (b.sorted 0) ≡ 0
  first-plain = bucket false (b.sorted 0) ∙ first-rank

  first-equal : classify comp tree true (b.sorted 0) ≡ 1
  first-equal =
      bucket true (b.sorted 0)
      ∙ rw (first-rank, lt→ltb 0 n some_splitter, w.irrefl (b.sorted 0)) refl

  second-plain : comp (b.sorted 0) (b.sorted 1) ≡ true → 1 ≤ classify comp tree false (b.sorted 1)
  unfolding n
  second-plain above =
      let r : 0 < count_less comp b.sorted n (b.sorted 1) =
        ltb→lt 0 (count_less comp b.sorted n (b.sorted 1)) (
          sym (less-iff_rank comp w b.sorted n (b.sorted 1) b.ascending 0 some_splitter) ∙ above) in
      omega (arith, r, bucket false (b.sorted 1))

  -- For every bucket into which the recursion goes, the sample has an element of another one.
  pub Splits :
      c.allow_equal_buckets ≡ true
      → c.equal_buckets_threshold ≤ 2 ^ lb - 2
      → (i : ℕ) → Recursed used equal i
      → (place : ℕ) × (v : A) × (get_elem? sample place ≡ some v) × (classify comp tree equal v ≢ i)
  Splits allow few i r = by_kind equal refl r
    where
      not_one : (i : ℕ) → Recursed (2 ^ b.levels * 2) true i → i ≢ 1
      not_one i (inl z) e = absurd (cc)
      not_one i (inr (inl (j, q))) e = absurd (omega arith)
      not_one i (inr (inr q)) e = absurd (omega (arith, pow2-le 1 b.levels b.some_levels))

      two_splitters : (last : ℕ) → uses_equal_buckets comp w c lb last ≡ false → 1 ≤ last
      two_splitters (suc last) e = omega arith
      two_splitters zero e =
          let at : 2 ^ lb - 1 - (0 + 1) ≡ 2 ^ lb - 2 = omega arith in
          let is : uses_equal_buckets comp w c lb 0 ≡ true =
            rw (allow, at, le→leb c.equal_buckets_threshold (2 ^ lb - 2) few) refl in
          absurd (ground arith)

      by_kind :
          (e : Bool)
          → equal ≡ e
          → Recursed used equal i
          → (place : ℕ) × (v : A) × (get_elem? sample place ≡ some v)
            × (classify comp tree equal v ≢ i)
      by_kind true q r = (
        b.ends.0.0,
        b.sorted 0,
        b.ends.0.1,
        λ z.
            not_one i (subst (λ e. Recursed (2 ^ b.levels * (1 + to_int e)) e i) q r)
              (sym z ∙ ap (λ e. classify comp tree e (b.sorted 0)) q ∙ first-equal),
      )
      by_kind false q r = elim (ℕ_discrete i 0) [
        | yes z ↦
            let (place, at, above) = b.ends.1 (two_splitters b.last q) in
            (
              place,
              b.sorted 1,
              at,
              λ p.
                  omega (
                    arith,
                    second-plain above,
                    ap (λ e. classify comp tree e (b.sorted 1)) q,
                    p,
                    z,
                  ),
            )
        | no ne ↦ (
          b.ends.0.0,
          b.sorted 0,
          b.ends.0.1,
          λ p. ne (sym p ∙ ap (λ e. classify comp tree e (b.sorted 0)) q ∙ first-plain),
        )
      ]

  pub odd-alike :
      (u v : A) (j : ℕ)
      → suc (2 * j + 1) < 2 ^ b.levels * 2
      → classify comp tree true u ≡ 2 * j + 1
      → classify comp tree true v ≡ 2 * j + 1
      → Le comp u v
  unfolding n
  odd-alike u v j h p q =
      let (below, above) = at_splitter u p in
      let (below', above') = at_splitter v q in le_trans comp w u (b.sorted j) v above below'
    where
      -- The value is not below the splitter, and the splitter not below the value.
      at_splitter :
          (v : A)
          → classify comp tree true v ≡ 2 * j + 1
          → Le comp (b.sorted j) v × Le comp v (b.sorted j)
      at_splitter v p =
          let r = count_less comp b.sorted n v in
          elim (Bool-cases (ltb r n)) [
            | inl low ↦
                let half : 2 * r + (if ltb r n then to_int (same comp w v (b.sorted r)) else 1)
                    ≡ 2 * j + 1 =
                  sym (bucket true v) ∙ p in
                let (at, alike) = odd_half r j (same comp w v (b.sorted r)) (
                  ap (λ z. 2 * r + (if z then to_int (same comp w v (b.sorted r)) else 1)) (sym low)
                  ∙ half) in
                both (subst (λ z. same comp w v (b.sorted z) ≡ true) at alike)
            | inr high ↦
                let half : 2 * r + (if ltb r n then to_int (same comp w v (b.sorted r)) else 1)
                    ≡ 2 * j + 1 =
                  sym (bucket true v) ∙ p in
                let half' : 2 * r + 1 ≡ 2 * j + 1 =
                  ap (λ z. 2 * r + (if z then to_int (same comp w v (b.sorted r)) else 1))
                    (sym high)
                  ∙ half in
                absurd (omega (arith, half', h, ltb→le r n high))
          ]
        where
          both : same comp w v (b.sorted j) ≡ true → Le comp (b.sorted j) v × Le comp v (b.sorted j)
          both e = (ground arith, ground arith)
