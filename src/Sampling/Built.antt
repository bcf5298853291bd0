-- ===== src/Sampling/Built.antt =====
-- `buildClassifier` of include/ips4o/sampling.hpp, from the sorted sample on.
use ips4o.Prelude.{
  ℕ, suc, ◌+◌, ◌-◌, ◌*◌, ◌^◌, ◌≤◌, ◌<◌, ◌≡◌, refl, sym, ap, ◌∙◌, subst, arith, Bool, true, false,
  ◌&&◌, some, List, bind-some, length, update, update_self, leb, to_int, if◌then◌else◌,
  IsStrictWeak, Le, IsSorted, IsSorted-get, pow2-le, le_of_pow2-lt, le→leb,
}
use ips4o.Config.{Config, log2}
use ips4o.Config.Log.{log2_bounds}
use ips4o.Classifier.{Classifier, storage_size, build, classify}
use ips4o.Classifier.Rank.{IsAscending}
use ips4o.Classifier.Buckets.{classify-separates}
use ips4o.Sampling.{Chosen, fill_splitters, build_classifier}
use ips4o.Sampling.Sample.{get_elem?-some}
use ips4o.Sampling.Splitters.{
  Ends, fill_splitters-low, fill_splitters-IsAscending, choose_splitters-Good,
}

-- The number of buckets after the removal of duplicates.
fewer_buckets :
    (d lb : ℕ) → 1 ≤ d → d < 2 ^ lb → lb ≤ 63 → (d < 2 ^ (log2 d + 1)) × (2 ^ (log2 d + 1) ≤ 2 ^ lb)
fewer_buckets d lb pos less small =
    let (lo, hi) = log2_bounds d pos (omega (arith, pow2-le lb 63 small)) in
    let e = le_of_pow2-lt (log2 d) lb (omega (arith, lo)) in
    let s : log2 d + 1 ≡ suc (log2 d) = omega arith in rw s (hi, pow2-le (suc (log2 d)) lb e)

step_back : (n step : ℕ) → 2 ≤ n → (n - 1) * step ≡ (n - 2) * step + step
step_back n step h = let e : n - 1 ≡ suc (n - 2) = omega arith in rw e (omega arith)

pub used-le :
    (nb most : ℕ) (allow few : Bool)
    → nb ≤ most
    → nb * (1 + to_int (allow && few)) ≤ most * (1 + to_int allow)
used-le nb most true true h = omega arith
used-le nb most true false h = omega arith
used-le nb most false few h = omega arith

pub used-if : (nb : ℕ) (equal : Bool) → (if equal then 2 * nb else nb) ≡ nb * (1 + to_int equal)
used-if nb true = omega arith
used-if nb false = omega arith

module _ {ℓ} {A : Type ℓ} (comp : A → A → Bool) (w : IsStrictWeak comp) (c : Config) where
  one-IsAscending : (s : ℕ → A) → IsAscending comp s 1
  one-IsAscending s i j h k =
      let e : i ≡ j = omega arith in subst (λ n. Le comp (s i) (s n)) e (w.irrefl (s i))

  abbrev pub uses_equal_buckets : ℕ → ℕ → Bool
  uses_equal_buckets lb last =
      c.allow_equal_buckets && leb c.equal_buckets_threshold (2 ^ lb - 1 - (last + 1))

  -- The classifier that is built: `last + 1` different splitters, filled up to the next power of two.
  pub record IsBuilt (sample : List A) (step lb : ℕ) (classifier : Classifier A) : Type ℓ where
    pub sorted : ℕ → A
    pub last : ℕ
    pub levels : ℕ
    pub some_levels : 1 ≤ levels
    pub fewer : 2 ^ levels ≤ 2 ^ lb
    pub ascending : IsAscending comp sorted (2 ^ levels - 1)
    pub ends : Ends comp w sample sorted last
    pub run :
        build_classifier comp c sample step (2 ^ lb) classifier
        ≡ some (
          build (record classifier { sorted_storage = sorted }) levels,
          2 ^ levels * (1 + to_int (uses_equal_buckets lb last)),
          uses_equal_buckets lb last,
        )

  pub build_classifier-IsBuilt :
      (sample : List A) (step lb : ℕ) (classifier : Classifier A)
      → IsSorted comp sample
      → 1 ≤ step
      → 1 ≤ lb
      → lb ≤ 63
      → (2 ^ lb - 1) * step ≤ length sample
      → 2 ^ lb ≤ storage_size c
      → IsBuilt sample step lb classifier
  unfolding build_classifier
  build_classifier-IsBuilt sample step lb classifier sorted pos one small enough fits =
      let two = pow2-le 1 lb one in
      let split = step_back (2 ^ lb) step two in
      let (first, at_first) = get_elem?-some sample (step - 1) (omega (arith, split)) in
      let start : Chosen A = record {
        sorted = update classifier.sorted_storage 0 first;
        last = 0;
        splitter = step - 1;
      } in
      let (s, e, good, few, inside) =
        choose_splitters-Good comp w sample sorted step (2 ^ lb - 2) start
          (record {
            ascending = one-IsAscending start.sorted;
            place = step - 1;
            reached = omega arith;
            read = at_first ∙ ap some (sym (update_self classifier.sorted_storage 0 first 0 refl));
            ends = (
              (
                step - 1,
                at_first ∙ ap some (sym (update_self classifier.sorted_storage 0 first 0 refl)),
              ),
              λ h. absurd (omega (arith, h)),
            );
          })
          (omega (arith, split)) in
      let (x, at_x) = get_elem?-some sample s.splitter inside in
      let d = s.last + 1 in
      let k = log2 d + 1 in
      let (more, fewer) = fewer_buckets d lb (omega arith) (omega arith) small in
      let equal = c.allow_equal_buckets && leb c.equal_buckets_threshold (2 ^ lb - 1 - d) in
      let all = fill_splitters (2 ^ k - 1 - d) s.last x s.sorted in
      let whole : suc s.last + (2 ^ k - 1 - d) ≡ 2 ^ k - 1 = omega (arith, more) in
      let asc : IsAscending comp all (2 ^ k - 1) =
        subst (λ n. IsAscending comp all n) whole
          (fill_splitters-IsAscending comp w (2 ^ k - 1 - d) s.last x s.sorted good.ascending (
            IsSorted-get comp w sample good.place s.splitter sorted good.reached good.read at_x)) in
      let low : (j : ℕ) → j ≤ s.last → all j ≡ s.sorted j =
        λ j h. fill_splitters-low comp w (2 ^ k - 1 - d) s.last j x s.sorted h in
      record {
        sorted = all;
        last = s.last;
        levels = k;
        some_levels = omega arith;
        fewer = fewer;
        ascending = asc;
        ends = (
          (good.ends.0.0, good.ends.0.1 ∙ ap some (sym (low 0 (omega arith)))),
          λ h.
              let (place, at, above) = good.ends.1 h in
              (
                place,
                at ∙ ap some (sym (low 1 h)),
                ap (λ z. comp z (all 1)) (low 0 (omega arith))
                    ∙ ap (comp (s.sorted 0)) (low 1 h)
                    ∙ above,
              ),
        );
        run = bind-some _ at_first (
            bind-some _ e (
              bind-some _ at_x
                (rw (le→leb (2 ^ k) (storage_size c) (omega (arith, fewer, fits))) refl)));
      }

  -- From a sorted sample that has the elements at each of the 2^lb - 1 steps, for lb from 1 to 63,
  -- and storages of at least 2^lb entries, the classifier is built without an access outside the sample
  -- or the storages; it uses at most 2^lb buckets, doubled
  -- where the configuration allows equality buckets; each value is classified as one of the buckets used,
  -- and a value in a lower bucket is less than every value in a higher one. The comparison is
  -- a strict weak order.
  pub build_classifier_lem :
      (sample : List A) (step lb : ℕ) (classifier : Classifier A)
      → IsSorted comp sample
      → 1 ≤ step
      → 1 ≤ lb
      → lb ≤ 63
      → (2 ^ lb - 1) * step ≤ length sample
      → 2 ^ lb ≤ storage_size c
      → (built : Classifier A) × (used_buckets : ℕ) × (equal : Bool) × (build_classifier comp c
            sample step
            (2 ^ lb)
            classifier
          ≡ some (built, used_buckets, equal))
        × (used_buckets ≤ 2 ^ lb * (1 + to_int c.allow_equal_buckets))
        × ((a b : A)
            → (classify comp built equal a < used_buckets)
              × (classify comp built equal a < classify comp built equal b → comp a b ≡ true))
  build_classifier_lem sample step lb classifier sorted pos one small enough fits =
      let b = build_classifier-IsBuilt sample step lb classifier sorted pos one small enough fits in
      let equal = uses_equal_buckets lb b.last in
      let tree = record classifier { sorted_storage = b.sorted } in
      (
        build tree b.levels,
        2 ^ b.levels * (1 + to_int equal),
        equal,
        b.run,
        used-le (2 ^ b.levels) (2 ^ lb) c.allow_equal_buckets _ b.fewer,
        λ v v'.
            let (range, apart) =
              classify-separates comp w tree b.levels b.some_levels b.ascending equal v v' in
            (
              subst (λ n. classify comp (build tree b.levels) equal v < n)
                  (used-if (2 ^ b.levels) equal) range,
              apart,
            ),
      )
