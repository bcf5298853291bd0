-- ===== src/Classifier/Unrolled.antt =====
-- `classifyUnrolled` of include/ips4o/classifier.hpp.
use mathlib.Core.Path.{ap₂}
use mathlib.Core.List.{map-append}
use ips4o.Prelude.{
  ℕ, zero, suc, ◌+◌, ◌*◌, ◌/◌, ◌<◌, ◌≤◌, ◌≡◌, refl, ap, ◌∙◌, arith, Bool, true, false, Bool-cases,
  inl, inr, ◌^◌, some, bind-some, ◌>>=◌, pow2-add, leb→le, length-drop, List, [], ◌∷◌, ◌++◌, map,
  leb, length, take, drop, take-append-drop, to_int, le→leb, lt→leb,
}
use ips4o.Classifier.{
  Classifier, descend, classify, level, levels, unrolled_round, rest_step, unrolled_loops,
  classify_unrolled, classify_all,
}

module _ {ℓ} {A : Type ℓ} (comp : A → A → Bool) where
  levels-nil : (tree : ℕ → A) (l : ℕ) → levels comp tree l [] ≡ []
  unfolding levels level
  levels-nil tree zero = refl
  levels-nil tree (suc l) = levels-nil tree l

  levels-cons :
      (tree : ℕ → A) (l b : ℕ) (v : A) (r : List (ℕ × A))
      → levels comp tree l ((b, v) ∷ r) ≡ (descend comp tree v l b, v) ∷ levels comp tree l r
  unfolding levels level descend
  levels-cons tree zero b v r = refl
  levels-cons tree (suc l) b v r =
      levels-cons tree l (2 * b + to_int (comp (tree b) v)) v (level comp tree r)

  rest_step-classify :
      (c : Classifier A) (equal_buckets : Bool) (v : A)
      → c.num_buckets ≡ 2 ^ c.log_buckets
      → rest_step comp c equal_buckets c.log_buckets v ≡ (classify comp c equal_buckets v, v)
  unfolding rest_step classify
  rest_step-classify c true v e =
      let twice : 2 ^ (c.log_buckets + 1) ≡ 2 * c.num_buckets =
        omega (arith, e, pow2-add c.log_buckets 1) in
      let half : 2 * c.num_buckets / 2 ≡ c.num_buckets = omega arith in rw (twice, half) refl
  rest_step-classify c false v e =
      let same : 2 ^ (c.log_buckets + 0) ≡ c.num_buckets =
        omega (arith, e, ap (λ n. 2 ^ n) (plus_zero c.log_buckets)) in
      rw same refl
    where
      plus_zero : (n : ℕ) → n + 0 ≡ n
      plus_zero n = omega arith

  unrolled_round-map :
      (c : Classifier A) (equal_buckets : Bool) (l : ℕ) (values : List A)
      → unrolled_round comp c equal_buckets l values ≡ map (rest_step comp c equal_buckets l) values
  unfolding unrolled_round rest_step
  unrolled_round-map c equal_buckets l [] = rw (levels-nil c.storage l, unrolled_round)
  unrolled_round-map c equal_buckets l (v ∷ values) =
      rw (levels-cons c.storage l 1 v (map (λ u. (1, u)) values), unrolled_round)
        (ap (◌∷◌ (rest_step comp c equal_buckets l v))
          (unrolled_round-map c equal_buckets l values))

  module _ (c : Classifier A) (equal_buckets : Bool) (l unroll : ℕ) (some_unroll : 1 ≤ unroll) where
    unrolled_loops-full :
        (fuel : ℕ) (values : List A)
        → leb unroll (length values) ≡ true
        → unrolled_loops comp c equal_buckets l unroll (suc fuel) values ≡ (
            unrolled_loops comp c equal_buckets l unroll fuel (drop unroll values)
            >>= (λ r. some (unrolled_round comp c equal_buckets l (take unroll values) ++ r)))
    unfolding unrolled_loops
    unrolled_loops-full fuel values h = rw (h, unrolled_loops) refl

    unrolled_loops-rest :
        (fuel : ℕ) (values : List A)
        → leb unroll (length values) ≡ false
        → unrolled_loops comp c equal_buckets l unroll (suc fuel) values
          ≡ some (map (rest_step comp c equal_buckets l) values)
    unfolding unrolled_loops
    unrolled_loops-rest fuel values h = rw (h, unrolled_loops) refl

    unrolled_loops-map :
        (fuel : ℕ) (values : List A)
        → length values < fuel
        → unrolled_loops comp c equal_buckets l unroll fuel values
          ≡ some (map (rest_step comp c equal_buckets l) values)
    unrolled_loops-map zero values h = absurd (omega arith)
    unrolled_loops-map (suc fuel) values h = elim (Bool-cases (leb unroll (length values))) [
      | inr rest ↦ unrolled_loops-rest fuel values rest
      | inl full ↦
          let le = leb→le unroll (length values) full in
          unrolled_loops-full fuel values full
          ∙ bind-some (λ r. some (unrolled_round comp c equal_buckets l (take unroll values) ++ r))
              (unrolled_loops-map fuel (drop unroll values)
                (omega (arith, le, length-drop unroll values)))
              (ap some (
                rw
                  (
                    unrolled_round-map c equal_buckets l (take unroll values),
                    ← map-append,
                    take-append-drop,
                  )
                  refl))
    ]

  map-classify :
      (c : Classifier A) (equal_buckets : Bool) (values : List A)
      → c.num_buckets ≡ 2 ^ c.log_buckets
      → map (rest_step comp c equal_buckets c.log_buckets) values
        ≡ map (λ v. (classify comp c equal_buckets v, v)) values
  map-classify c equal_buckets [] e = refl
  map-classify c equal_buckets (v ∷ values) e =
      ap₂ ◌∷◌ (rest_step-classify c equal_buckets v e) (map-classify c equal_buckets values e)

  -- Of a range of at least `kUnroll` elements, where `kUnroll` is at least one, for a classifier that has
  -- been built, so that it has 2 ^ log_buckets buckets and at least one level: with at most
  -- `kLogBuckets` levels, the unrolled loop and the loop for the rest come to an end, and call `yield`
  -- once for each element, in order, with the bucket of the single-element classifier. With more levels
  -- the dispatch finds no case, and nothing is yielded.
  pub classify_all-map :
      (c : Classifier A) (equal_buckets : Bool) (max_log unroll : ℕ) (values : List A)
      → c.num_buckets ≡ 2 ^ c.log_buckets
      → 1 ≤ c.log_buckets
      → 1 ≤ unroll
      → unroll ≤ length values
      → (c.log_buckets ≤ max_log
          → classify_all comp c equal_buckets max_log unroll values
            ≡ some (map (λ v. (classify comp c equal_buckets v, v)) values))
        × (max_log < c.log_buckets
            → classify_all comp c equal_buckets max_log unroll values ≡ some [])
  unfolding classify_all classify_unrolled
  classify_all-map c equal_buckets max_log unroll values e pos some_unroll enough = (
    λ h.
        rw
          (
            le→leb c.log_buckets max_log h,
            le→leb 1 unroll some_unroll,
            le→leb unroll (length values) enough,
          )
          (unrolled_loops-map c equal_buckets c.log_buckets unroll some_unroll (suc (length values))
              values (omega arith)
            ∙ ap some (map-classify c equal_buckets values e)),
    λ h. rw (lt→leb c.log_buckets max_log h) refl,
  )
