-- ===== src/SequentialSorter.antt =====
-- include/ips4o/sequential.hpp: `sequential(begin, end)` and `sequential_rec`, with the whole of
-- `buildClassifier` (include/ips4o/sampling.hpp), which sorts its sample by the same function, and the
-- reusable `SequentialSorter`. A range is the list of its elements. `sort` stands for the
-- recursive call; the fuel bounds the depth of the recursion.
pub mod Splits
pub mod Sampled
pub mod Divided
pub mod Ranges
pub mod Whole
pub mod Sorts
pub mod Default
use ips4o.Prelude.{
  ℕ, zero, suc, ◌+◌, ◌-◌, ◌*◌, ◌/◌, ◌^◌, min, max, Bool, true, false, Option, none, some, List, [],
  ◌∷◌, ◌>>=◌, if◌then◌else◌, leb, length, take, range, write_range,
}
use ips4o.BaseCase.{base_case_sort, sort_simple_cases}
use ips4o.Config.{Config, log_buckets_for, oversampling_factor}
use ips4o.Classifier.{Classifier, classify, reset}
use ips4o.Sampling.{RandomGen, select_sample, build_classifier}
use ips4o.Partitioning.{partition}
use ips4o.Sequential.{Task, recursion_ranges}

-- What of `LocalData` (include/ips4o/memory.hpp) outlives a call.
pub record LocalData {ℓ} (A : Type ℓ) (G : Type 0) : Type ℓ where
  pub classifier : Classifier A
  pub random_generator : G
  pub buffers : ℕ → List A
  pub bucket_size : ℕ → ℕ
  pub swap : Bool → List A

-- What `buildClassifier` returns: the range, and `num_buckets_` and `use_equal_buckets`.
pub record Built {ℓ} (A : Type ℓ) (G : Type 0) : Type ℓ where
  pub array : List A
  pub local : LocalData A G
  pub num_buckets : ℕ
  pub equal_buckets : Bool

-- The result of `partition` with the classifier built.
pub record Parted {ℓ} (A : Type ℓ) (G : Type 0) : Type ℓ where
  pub array : List A
  pub local : LocalData A G
  pub bucket_start : ℕ → ℕ
  pub num_buckets : ℕ
  pub equal_buckets : Bool

abbrev pub Sort {ℓ} : (A : Type ℓ) (G : Type 0) → Type ℓ
Sort A G = List A → LocalData A G → Option (List A × LocalData A G)

-- The buffers of the one thread.
abbrev pub own {ℓ} : {A : Type ℓ} → List (ℕ → List A) → ℕ → List A
own [] i = []
own (b ∷ buffers) i = b i

module _ {ℓ} {A : Type ℓ} {G : Type 0} where
  -- `local_.reset()`; the sizes are 0 in what `partition` returns.
  unfoldable pub reset_data : LocalData A G → LocalData A G
  unfolding reset
  reset_data d = record d { classifier = reset d.classifier }

  -- The calls of `sequential` for the buckets, in their order.
  unfoldable pub sort_ranges :
      Sort A G → List Task → List A → LocalData A G → Option (List A × LocalData A G)
  sort_ranges sort [] array d = some (array, d)
  sort_ranges sort (t ∷ tasks) array d =
      if leb t.stop (length array)
      then sort (range array t.begin t.stop) d
        >>= (λ r. sort_ranges sort tasks (write_range array t.begin r.0) r.1)
      else none

module _ {ℓ} {A : Type ℓ} {G : Type 0} (random : RandomGen G) (c : Config)
    (comp : A → A → Bool) where
  -- The whole of `buildClassifier`.
  unfoldable pub sample_and_build : Sort A G → List A → LocalData A G → Option (Built A G)
  sample_and_build sort array d =
      let n = length array in
      let num_buckets = 2 ^ log_buckets_for c n in
      let step = max 1 (oversampling_factor c n) in
      let num_samples = min (step * num_buckets - 1) (n / 2) in
      select_sample random num_samples n array d.random_generator >>= (λ s.
        sort (take num_samples s.0) (record d { random_generator = s.1 }) >>= (λ r.
          let array' = write_range s.0 0 r.0 in
          build_classifier comp c array' step num_buckets r.1.classifier >>= (λ b. some (record {
            array = array';
            local = record (r.1) { classifier = b.0 };
            num_buckets = b.1;
            equal_buckets = b.2;
          }))))

  -- The whole of `partition`.
  unfoldable pub sample_and_partition : Sort A G → List A → LocalData A G → Option (Parted A G)
  unfolding sample_and_build reset_data
  sample_and_partition sort array d = sample_and_build sort array d >>= (λ b.
      partition c comp (classify comp b.local.classifier b.equal_buckets) b.num_buckets
        (record {
          array = b.array;
          write = 0;
          buffers = b.local.buffers;
          bucket_size = b.local.bucket_size;
        })
        b.local.swap
      >>= (λ r. some (record {
        array = r.array;
        local = reset_data (record (b.local) {
          buffers = own r.buffers;
          bucket_size = r.bucket_size;
          swap = r.swap;
        });
        bucket_start = r.bucket_start;
        num_buckets = b.num_buckets;
        equal_buckets = b.equal_buckets;
      })))

  unfoldable pub sequential_rec :
      Sort A G → List A → LocalData A G → Option (List A × LocalData A G)
  unfolding sample_and_partition recursion_ranges sort_ranges
  sequential_rec sort array d = sample_and_partition sort array d >>= (λ p.
      sort_ranges sort
        (recursion_ranges c p.bucket_start (length array) p.num_buckets p.equal_buckets) p.array
        p.local)

  unfoldable pub sequential : ℕ → List A → LocalData A G → Option (List A × LocalData A G)
  unfolding sequential_rec
  sequential zero array d = none
  sequential (suc fuel) array d =
      if leb (length array) (2 * c.base_case_size)
      then base_case_sort comp array >>= (λ sorted. some (sorted, d))
      else sequential_rec (sequential fuel) array d

  -- `operator()` of `SequentialSorter`.
  unfoldable pub sequential_sorter :
      (fuel : ℕ) (check_sorted : Bool) → List A → LocalData A G → Option (List A × LocalData A G)
  unfolding sequential
  sequential_sorter fuel false array d = sequential fuel array d
  sequential_sorter fuel true array d =
      let (is_sorted, array') = sort_simple_cases comp array in
      if is_sorted then some (array', d) else sequential fuel array' d
