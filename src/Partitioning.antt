-- ===== src/Partitioning.antt =====
-- include/ips4o/partitioning.hpp: `partition` by one thread (`kIsParallel` is false), from where
-- `buildClassifier` has returned: `classify` is the classifier that it built, and `num_buckets` the
-- number of its buckets.
pub mod Counts
pub mod Waiting
pub mod Buckets
use ips4o.Config.{Config, block_size}
use ips4o.LocalClassification.{Local, sequential_classification}
use ips4o.BlockPermutation.{Sorter, compute_overflow_bucket, permute_blocks}
use ips4o.CleanupMargins.{Margins, write_margins}
use ips4o.Prelude.{
  ℕ, zero, suc, ◌+◌, ◌-◌, ◌*◌, ◌/◌, min, Bool, true, false, Option, none, some, List, [], ◌∷◌,
  ◌>>=◌, length,
}

-- The buckets that a thread cleans up, from the first to before the last.
unfoldable pub my_buckets : (num_buckets my_id num_threads : ℕ) → ℕ × ℕ
my_buckets num_buckets my_id num_threads =
    let buckets_per_thread = (num_buckets + num_threads - 1) / num_threads in
    (
      min num_buckets (my_id * buckets_per_thread),
      min num_buckets ((my_id + 1) * buckets_per_thread),
    )

-- What `partition` leaves: the array, the boundaries of the buckets, and the local data.
pub record Partition {ℓ} (A : Type ℓ) : Type ℓ where
  pub array : List A
  pub bucket_start : ℕ → ℕ
  pub buffers : List (ℕ → List A)
  pub bucket_size : ℕ → ℕ
  pub swap : Bool → List A

-- The block permutation has fuel for the blocks of the array.
unfoldable pub partition {ℓ} :
    {A : Type ℓ} (c : Config) (comp : A → A → Bool) (classify : A → ℕ) (num_buckets : ℕ)
    → Local A
    → (swap : Bool → List A) → Option (Partition A)
unfolding my_buckets
partition c comp classify num_buckets l swap =
    sequential_classification c classify num_buckets l >>= (λ r.
      let (l', bucket_start, pointers) = r in
      let overflow_bucket = compute_overflow_bucket (block_size c) bucket_start num_buckets in
      permute_blocks c classify (suc (length l.array / block_size c)) num_buckets 0 1
        (record { array = l'.array; bucket_pointers = pointers; swap = swap; overflow = none })
      >>= (λ s.
          let (my_first_bucket, my_last_bucket) = my_buckets num_buckets 0 1 in
          write_margins c overflow_bucket none 0 comp false bucket_start s.bucket_pointers
            (my_last_bucket - my_first_bucket) my_first_bucket
            (record {
              array = s.array;
              overflow = s.overflow;
              swap = s.swap false;
              buffers = l'.buffers ∷ [];
            })
          >>= (λ m. some (record {
            array = m.array;
            bucket_start = bucket_start;
            buffers = m.buffers;
            bucket_size = λ i. 0;
            swap = s.swap;
          }))))
