-- ===== src/Examples/Partitioning.antt =====
-- A partition of seven numbers into those below five and the others, in blocks of two.
use ips4o.Prelude.{
  ℕ, ◌<◌, ◌≡◌, refl, arith, Bool, true, false, some, List, [], ◌∷◌, length, leb, to_int, ◌>>=◌,
}
use ips4o.Config.{block_size, log2, align_to_next_block}
use ips4o.BaseCase.{base_case_sort}
use ips4o.BlockPermutation.{permute_blocks, compute_overflow_bucket}
use ips4o.CleanupMargins.{write_margins}
use ips4o.LocalClassification.{Local, sequential_classification}
use ips4o.Partitioning.{Partition, partition}
use ips4o.Partitioning.Buckets.{InPlace, partition_lem}
use ips4o.Examples.Order.{less, less-IsStrictWeak}
use ips4o.Examples.BlockPermutation.{small_blocks}

abbrev by_five : ℕ → ℕ
by_five v = to_int (leb 5 v)

by_five-lt : (v : ℕ) → by_five v < 2
by_five-lt v = small (leb 5 v)
  where
    small : (b : Bool) → to_int b < 2
    small true = omega arith
    small false = omega arith

abbrev unsorted : Local ℕ
unsorted = record {
  array = 9 ∷ 1 ∷ 7 ∷ 4 ∷ 8 ∷ 6 ∷ 5 ∷ [];
  write = 0;
  buffers = λ i. [];
  bucket_size = λ i. 0;
}

partition_lem_example :
    (r : Partition ℕ) × (partition small_blocks less by_five 2 unsorted (λ cur. []) ≡ some r)
    × (length r.array ≡ 7)
    × (r.bucket_start 0 ≡ 0)
    × (r.bucket_start 2 ≡ 7)
    × ((b : ℕ)
        → b < 2
        → InPlace small_blocks less less-IsStrictWeak by_five 2 by_five-lt unsorted.array r b)
    × (b : ℕ → List ℕ) × (r.buffers ≡ b ∷ [])
    × ((i : ℕ) → b i ≡ [])
    × ((i : ℕ) → r.bucket_size i ≡ 0)
unfolding block_size log2
partition_lem_example =
    partition_lem small_blocks less less-IsStrictWeak by_five 2 by_five-lt unsorted (λ cur. [])
      (λ i. refl) (λ i. refl) (omega arith) (omega arith) (omega arith) (omega arith) (omega arith)

partition_run :
    (partition small_blocks less by_five 2 unsorted (λ cur. []) >>= (λ r. some (r.array)))
    ≡ some (1 ∷ 4 ∷ 5 ∷ 6 ∷ 7 ∷ 8 ∷ 9 ∷ [])
unfolding partition align_to_next_block block_size log2 sequential_classification permute_blocks
    write_margins compute_overflow_bucket base_case_sort
partition_run = refl
