-- ===== src/LocalClassification.antt =====
-- include/ips4o/local_classification.hpp: the local classification phase, and the buffers of
-- include/ips4o/buffers.hpp. A buffer is the list of the elements before its `ptr`; `B` is
-- `kBlockSize`. Offsets are from `begin_`, and `none` stands for undefined behaviour: a push to a full
-- buffer, the flush of a buffer that is not full, a block that does not fit into the array.
pub mod Contents
pub mod Blocks
pub mod Classify
pub mod Lazy
pub mod Boundaries
use ips4o.Config.{Config, block_size, align_to_next_block}
use ips4o.Classifier.{is_unrollable}
use ips4o.BucketPointers.{BucketPointers, new_pointers}
use ips4o.Prelude.{
  ◌%◌, ◌^◌, ℕ, zero, suc, ◌+◌, ◌-◌, Bool, Option, none, some, List, [], ◌∷◌, ◌++◌, ◌>>=◌,
  if◌then◌else◌, ltb, leb, ◌==◌, get_elem?, length, update, write_range,
}

pub record Local {ℓ} (A : Type ℓ) : Type ℓ where
  pub array : List A
  pub write : ℕ
  pub buffers : ℕ → List A
  pub bucket_size : ℕ → ℕ

module _ {ℓ} {A : Type ℓ} (B : ℕ) where
  pub is_full : (ℕ → List A) → ℕ → Bool
  is_full buffers i = length (buffers i) == B

  pub size : (ℕ → List A) → ℕ → ℕ
  size buffers i = B - (B - length (buffers i))

  -- `Buffers::push`.
  pub push : (ℕ → List A) → ℕ → A → Option (ℕ → List A)
  push buffers i value =
      if ltb (length (buffers i)) B then some (update buffers i (buffers i ++ value ∷ [])) else none

  -- `buffers.writeTo(bucket, write)` and the two additions after it.
  pub flush : ℕ → Local A → Option (Local A)
  flush i l =
      if (length (l.buffers i) == B)
      then if leb (l.write + B) (length l.array)
        then some (record {
          array = write_range l.array l.write (l.buffers i);
          write = l.write + B;
          buffers = update l.buffers i [];
          bucket_size = update l.bucket_size i (l.bucket_size i + B);
        })
        else none
      else none

  -- The callback of `classifyLocally`.
  pub yield : ℕ → A → Local A → Option (Local A)
  unfolding is_full push flush
  yield bucket value l =
      (if is_full l.buffers bucket then flush bucket l else some l)
      >>= (λ l'. push l'.buffers bucket value >>= (λ bs. some (record l' { buffers = bs })))

  -- `local_.bucket_size[i] += local_.buffers.size(i)` for all buckets.
  pub add_sizes : ℕ → Local A → ℕ → ℕ
  unfolding size
  add_sizes num_buckets l i =
      if ltb i num_buckets then l.bucket_size i + size l.buffers i else l.bucket_size i

  module _ (classify : A → ℕ) where
    -- The elements from `it` on, `n` of them.
    pub classify_range : ℕ → ℕ → Local A → Option (Local A)
    unfolding yield
    classify_range zero it l = some l
    classify_range (suc n) it l = elim (get_elem? l.array it) [
      | none ↦ none
      | some value ↦ yield (classify value) value l >>= (λ l'. classify_range n (suc it) l')
    ]

    -- The result `write - begin_` is the field `write`. `classify` of the classifier, which calls `yield`,
    -- wants a range of at least `kUnroll` elements.
    unfoldable pub classify_locally : (unroll : ℕ) → ℕ → ℕ → ℕ → Local A → Option (Local A)
    unfolding classify_range add_sizes
    classify_locally unroll num_buckets my_begin my_end l =
        if is_unrollable unroll (my_end - my_begin)
        then classify_range (my_end - my_begin) my_begin (record l { write = my_begin })
          >>= (λ l'. some (record l' { bucket_size = add_sizes num_buckets l' }))
        else none

-- `sequentialClassification`: the loop over the bucket boundaries, for the `n` buckets from `i` on.
unfoldable pub bucket_boundaries : (n i sum : ℕ) → (bucket_size bucket_start : ℕ → ℕ) → ℕ → ℕ
bucket_boundaries zero i sum bucket_size bucket_start = bucket_start
bucket_boundaries (suc n) i sum bucket_size bucket_start =
    let sum' = sum + bucket_size i in
    bucket_boundaries n (suc i) sum' bucket_size (update bucket_start (suc i) sum')

module _ (c : Config) where
  -- The write and read pointers of one bucket.
  unfoldable pub bucket_pointer :
      (bucket_start : ℕ → ℕ) (my_first_empty_block bucket : ℕ) → BucketPointers
  bucket_pointer bucket_start my_first_empty_block bucket =
      let start = align_to_next_block c (bucket_start bucket) in
      let stop = align_to_next_block c (bucket_start (suc bucket)) in
      let read =
        if leb my_first_empty_block start
        then start
        else if leb stop my_first_empty_block
        then stop
        else my_first_empty_block in
      new_pointers start ((read + (2 ^ 64 - block_size c)) % 2 ^ 64)

  -- The classification of the whole range, the boundaries and the pointers.
  unfoldable pub sequential_classification {ℓ} :
      {A : Type ℓ} (classify : A → ℕ) (num_buckets : ℕ)
      → Local A
      → Option (Local A × (ℕ → ℕ) × (ℕ → BucketPointers))
  unfolding classify_locally bucket_boundaries bucket_pointer
  sequential_classification classify num_buckets l =
      classify_locally (block_size c) classify c.unroll_classifier num_buckets 0 (length l.array) l
      >>= (λ l'.
          let bucket_start =
            bucket_boundaries num_buckets 0 0 l'.bucket_size (update (λ i. 0) 0 0) in
          some (l', bucket_start, bucket_pointer bucket_start l'.write))
