-- ===== src/SequentialSorter/Sampled.antt =====
-- `buildClassifier` of include/ips4o/sampling.hpp as a whole, when the function that sorts the sample does
-- sort it.
use ips4o.Prelude.{
  ℕ, ◌+◌, ◌-◌, ◌*◌, ◌/◌, ◌^◌, min, max, ◌≤◌, ◌<◌, ◌≡◌, refl, ap, ◌∙◌, arith, Bool, true, some, List,
  ◌++◌, length, take, drop, length-take, total, total-append, total-perm, to_int, IsStrictWeak,
  bind-some, length-perm,
}
use ips4o.CleanupMargins.Weights.{total-take-drop}
use ips4o.Classifier.{storage_size}
use ips4o.Config.{Config, block_size, log_buckets_for, oversampling_factor, single_level_threshold}
use ips4o.Sampling.{RandomGen}
use ips4o.Sampling.Sample.{select_sample-perm}
use ips4o.Sampling.Longer.{build_classifier-append}
use ips4o.Sampling.Built.{IsBuilt, build_classifier-IsBuilt}
use ips4o.SequentialSorter.{LocalData, Sort, sample_and_build}
use ips4o.SequentialSorter.Ranges.{Clean, SortedOf-length, SortsBelow}
use ips4o.SequentialSorter.Splits.{tree, equal, used}

-- What the configuration must provide for ranges of up to `bound` elements: the sizes fit into the machine's
-- words and the splitters into the storages of the classifier, the base case is no smaller than a round of
-- the unrolled classifier, the sample reaches to the last splitter, and above a single level there are equality
-- buckets and enough splitters for them to be used.
pub record Suits (c : Config) (bound : ℕ) : Type 0 where
  pub unroll : (1 ≤ c.unroll_classifier) × (c.unroll_classifier ≤ c.base_case_size)
  pub size : bound + 2 * block_size c ≤ 2 ^ 63
  pub levels :
      (n : ℕ)
      → 2 * c.base_case_size < n
      → n ≤ bound
      → (1 ≤ log_buckets_for c n)
        × (log_buckets_for c n ≤ 63)
        × (2 ^ log_buckets_for c n ≤ storage_size c)
        × ((2 ^ log_buckets_for c n * (1 + to_int c.allow_equal_buckets) + 2) * block_size c
            ≤ 2 ^ 63)
  pub reach :
      (n : ℕ)
      → 2 * c.base_case_size < n
      → n ≤ bound
      → let step = max 1 (oversampling_factor c n) in
        let num_buckets = 2 ^ log_buckets_for c n in
        (num_buckets - 1) * step ≤ min (step * num_buckets - 1) (n / 2)
  pub split :
      (n : ℕ)
      → single_level_threshold c < n
      → n ≤ bound
      → (c.allow_equal_buckets ≡ true) × (c.equal_buckets_threshold ≤ 2 ^ log_buckets_for c n - 2)

module _ {ℓ} {A : Type ℓ} {G : Type 0} (random : RandomGen G) (c : Config) (comp : A → A → Bool)
    (w : IsStrictWeak comp) where
  -- The classifier is built, from a sample of the range.
  pub record Sampled (xs : List A) (sort : Sort A G) (d : LocalData A G) : Type ℓ where
    pub sample : List A
    pub rest : List A
    pub local : LocalData A G
    pub step : ℕ
    pub built : IsBuilt comp w c sample step (log_buckets_for c (length xs)) local.classifier
    pub run :
        sample_and_build random c comp sort xs d
        ≡ some (record {
          array = sample ++ rest;
          local = record local { classifier = tree comp w c built };
          num_buckets = used comp w c built;
          equal_buckets = equal comp w c built;
        })
    pub same : (f : A → ℕ) → total f (sample ++ rest) ≡ total f xs
    pub clean : Clean local

  pub sample_and_build-Sampled :
      (bound : ℕ) (xs : List A) (sort : Sort A G) (d : LocalData A G)
      → Suits c bound
      → 2 * c.base_case_size < length xs
      → length xs ≤ bound
      → SortsBelow comp sort (length xs)
      → Clean d
      → Sampled xs sort d
  unfolding sample_and_build
  sample_and_build-Sampled bound xs sort d suits large small sorts clean =
      let n = length xs in
      let lb = log_buckets_for c n in
      let step = max 1 (oversampling_factor c n) in
      let num_samples = min (step * 2 ^ lb - 1) (n / 2) in
      let (some_levels, levels, room, few) = suits.levels n large small in
      let (ys, g, drawn, perm) =
        select_sample-perm random num_samples n xs d.random_generator refl (omega arith) in
      let d1 : LocalData A G = record d { random_generator = g } in
      let len : length (take num_samples ys) ≡ num_samples =
        omega (arith, length-take num_samples ys, length-perm perm) in
      let (zs, d2, sorted, is, clean') =
        sorts (take num_samples ys) d1 clean (omega (arith, len)) in
      let size : length zs ≡ num_samples = SortedOf-length comp (take num_samples ys) zs is ∙ len in
      let b =
        build_classifier-IsBuilt comp w c zs step lb d2.classifier is.0 (omega arith) some_levels
          levels (omega (arith, size, suits.reach n large small)) room in
      let at : 0 + length zs ≡ num_samples = omega (arith, size) in
      record {
        sample = zs;
        rest = drop (0 + length zs) ys;
        local = d2;
        step = step;
        built = b;
        run = bind-some _ drawn (
            bind-some _ sorted (
              bind-some _
                (build_classifier-append comp c step (2 ^ lb) d2.classifier zs
                  (drop (0 + length zs) ys) b.run)
                refl));
        same = λ f. omega (
          arith,
          total-append f zs (drop (0 + length zs) ys),
          is.1 f,
          ap (λ z. total f (drop z ys)) at,
          total-take-drop f num_samples ys,
          total-perm f perm,
        );
        clean = clean';
      }
