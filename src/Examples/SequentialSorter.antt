-- ===== src/Examples/SequentialSorter.antt =====
-- The sequential sorter on the numbers from 4999 down to 0, with the default configuration, and on forty
-- numbers with a small one.
use ips4o.Prelude.{
  ℕ, zero, suc, ◌^◌, ◌≡◌, refl, ap, arith, true, false, some, List, [], ◌∷◌, length, total,
  IsSorted, ◌>>=◌,
}
use ips4o.BaseCase.{base_case_sort, sort_simple_cases}
use ips4o.BlockPermutation.{permute_blocks, compute_overflow_bucket}
use ips4o.Classifier.{build, classify, reset}
use ips4o.CleanupMargins.{write_margins}
use ips4o.LocalClassification.{sequential_classification}
use ips4o.Partitioning.{partition}
use ips4o.Sampling.{select_sample, build_classifier}
use ips4o.Sequential.{recursion_ranges}
use ips4o.Config.{
  Config, default_config, block_size, log2, log_buckets_for, oversampling_factor,
  align_to_next_block,
}
use ips4o.SequentialSorter.{
  LocalData, sequential_sorter, sequential, sequential_rec, sample_and_partition, sample_and_build,
  sort_ranges, reset_data,
}
use ips4o.SequentialSorter.Ranges.{Clean}
use ips4o.SequentialSorter.Default.{default_config-Suits}
use ips4o.SequentialSorter.Sorts.{sequential_sorter_lem}
use ips4o.Examples.Order.{less, less-IsStrictWeak}
use ips4o.Examples.Sampling.{draw_last, no_classifier}

abbrev down : ℕ → List ℕ
down zero = []
down (suc n) = n ∷ down n

length-down : (n : ℕ) → length (down n) ≡ n
length-down zero = refl
length-down (suc n) = ap suc (length-down n)

abbrev fresh : LocalData ℕ ℕ
fresh = record {
  classifier = no_classifier;
  random_generator = 0;
  buffers = λ i. [];
  bucket_size = λ i. 0;
  swap = λ cur. [];
}

sequential_sorter_lem_example :
    (ys : List ℕ) × (d' : LocalData ℕ ℕ) × (sequential_sorter draw_last default_config less 5001
        false
        (down 5000)
        fresh
      ≡ some (ys, d'))
    × IsSorted less ys
    × ((f : ℕ → ℕ) → total f ys ≡ total f (down 5000))
    × Clean d'
sequential_sorter_lem_example =
    sequential_sorter_lem draw_last default_config less less-IsStrictWeak (2 ^ 62)
      default_config-Suits 5001 false (down 5000) fresh (λ i. refl, λ i. refl)
      (omega (arith, length-down 5000)) (omega (arith, length-down 5000))

-- Blocks of two, base cases of two and up to four buckets, so that the sorter recurs.
abbrev small_config : Config
small_config = record default_config {
  block_size_in_bytes = 8;
  base_case_size = 1;
  unroll_classifier = 1;
  log_buckets = 2;
  equal_buckets_threshold = 1;
}

abbrev twelve : List ℕ
twelve = 7 ∷ 3 ∷ 11 ∷ 0 ∷ 5 ∷ 5 ∷ 9 ∷ 1 ∷ 10 ∷ 2 ∷ 8 ∷ 5 ∷ []

sequential_sorter_run :
    (sequential_sorter draw_last small_config less 13 true twelve fresh >>= (λ r. some (r.0)))
    ≡ some (0 ∷ 1 ∷ 2 ∷ 3 ∷ 5 ∷ 5 ∷ 5 ∷ 7 ∷ 8 ∷ 9 ∷ 10 ∷ 11 ∷ [])
unfolding sequential_sorter sequential sequential_rec sample_and_partition sample_and_build
    sort_ranges reset_data base_case_sort sort_simple_cases block_size log2 log_buckets_for
    oversampling_factor align_to_next_block select_sample build_classifier classify build reset
    partition recursion_ranges sequential_classification permute_blocks write_margins
    compute_overflow_bucket
sequential_sorter_run = refl
