-- ===== src/BlockPermutation.antt =====
-- include/ips4o/block_permutation.hpp: the block permutation phase of one thread (`kIsParallel` is
-- false). `B` is `kBlockSize`, and offsets are from `begin_`, 64-bit words in two's complement. An `int`
-- that is -1 or a bucket is an `Option`; the outer `none` stands for undefined behaviour, a read or a
-- write outside of the array, and for loops that have not ended on the fuel given.
pub mod Slots
pub mod Invariant
pub mod Steps
pub mod Branches
pub mod State
pub mod Swapping
pub mod Displacing
pub mod Reading
pub mod Loops
pub mod Permutes
pub mod Layout
pub mod Classified
pub mod Composed
pub mod Overflow
use ips4o.Config.{Config, block_size, align_to_next_block}
use ips4o.BucketPointers.{BucketPointers, inc_write, dec_read}
use ips4o.Prelude.{
  ℕ, zero, suc, ◌+◌, ◌-◌, ◌*◌, ◌/◌, ◌%◌, ◌^◌, Bool, true, false, not, Option, none, some, List,
  ◌>>=◌, if◌then◌else◌, ltb, leb, ◌==◌, get_elem?, length, update, range, write_range,
}

-- The loop of `computeOverflowBucket`, from below bucket `bucket` on.
unfoldable pub compute_overflow_bucket : (B : ℕ) (bucket_start : ℕ → ℕ) (bucket : ℕ) → Option ℕ
compute_overflow_bucket B bucket_start zero = none
compute_overflow_bucket B bucket_start (suc bucket) =
    let rest = compute_overflow_bucket B bucket_start bucket in
    if leb (bucket_start (suc bucket) - bucket_start bucket) B then rest else some bucket

-- `<` on `diff_t`.
unfoldable pub signed_lt : ℕ → ℕ → Bool
signed_lt a b = ltb ((a + 2 ^ 63) % 2 ^ 64) ((b + 2 ^ 63) % 2 ^ 64)

-- What the phase works on: `overflow` is `local_.overflow` once `overflow_` points to it.
pub record Sorter {ℓ} (A : Type ℓ) : Type ℓ where
  pub array : List A
  pub bucket_pointers : ℕ → BucketPointers
  pub swap : Bool → List A
  pub overflow : Option (List A)

abbrev pub update_swap {ℓ} : {X : Type ℓ} → (Bool → X) → Bool → X → Bool → X
update_swap swap true block true = block
update_swap swap true block false = swap false
update_swap swap false block false = block
update_swap swap false block true = swap true

module _ {ℓ} {A : Type ℓ} (B : ℕ) where
  -- `Block::readFrom(begin_ + off)`.
  unfoldable pub read_from : List A → ℕ → Option (List A)
  read_from array off =
      if leb (off + B) (length array) then some (range array off (off + B)) else none

  -- `Block::writeTo(begin_ + off)`.
  unfoldable pub write_to : List A → ℕ → List A → Option (List A)
  write_to array off block =
      if leb (off + B) (length array) then some (write_range array off block) else none

  module _ (classify : A → ℕ) where
    unfoldable pub classify_and_read_block : ℕ → Sorter A → Option (Option ℕ × Sorter A)
    unfolding dec_read signed_lt read_from
    classify_and_read_block read_bucket s =
        let (old, bp) = dec_read B false (s.bucket_pointers read_bucket) in
        let s' = record s { bucket_pointers = update s.bucket_pointers read_bucket bp } in
        if signed_lt old.most old.least
        then some (none, s')
        else read_from s.array old.most >>= (λ block. get_elem? block 0 >>= (λ head.
          some (some (classify head), record s' { swap = update_swap s.swap false block })))

    -- `fuel` bounds the rounds of the loop over the blocks that are in place.
    unfoldable pub swap_block :
        (fuel max_off dest_bucket : ℕ) (current_swap : Bool)
        → Sorter A
        → Option (Option ℕ × Sorter A)
    unfolding inc_write signed_lt read_from write_to
    swap_block zero max_off dest_bucket current_swap s = none
    swap_block (suc fuel) max_off dest_bucket current_swap s =
        let (old, bp) = inc_write B false (s.bucket_pointers dest_bucket) in
        let s' = record s { bucket_pointers = update s.bucket_pointers dest_bucket bp } in
        let again = swap_block fuel max_off dest_bucket current_swap s' in
        if signed_lt old.most old.least
        then if not (signed_lt old.least max_off)
          then some (none, record s' { overflow = some (s.swap current_swap) })
          else write_to s.array old.least (s.swap current_swap)
            >>= (λ array. some (none, record s' { array = array }))
        else get_elem? s.array old.least >>= (λ value.
          if classify value == dest_bucket
          then again
          else read_from s.array old.least >>= (λ block.
            write_to s.array old.least (s.swap current_swap) >>= (λ array. some (
              some (classify value),
              record s' { array = array; swap = update_swap s.swap (not current_swap) block },
            ))))

    -- The inner loop of `permuteBlocks`: the block in hand, and each that it displaces.
    unfoldable pub write_blocks :
        (fuel max_off dest_bucket : ℕ) (current_swap : Bool) → Sorter A → Option (Sorter A)
    unfolding swap_block
    write_blocks zero max_off dest_bucket current_swap s = none
    write_blocks (suc fuel) max_off dest_bucket current_swap s =
        swap_block (suc fuel) max_off dest_bucket current_swap s >>= (λ r. elim r.0 [
          | none ↦ some r.1
          | some dest_bucket' ↦ write_blocks fuel max_off dest_bucket' (not current_swap) r.1
        ])

    -- The loop around it: the blocks of `read_bucket` that are to be read.
    unfoldable pub read_blocks : (fuel max_off read_bucket : ℕ) → Sorter A → Option (Sorter A)
    unfolding classify_and_read_block write_blocks
    read_blocks zero max_off read_bucket s = none
    read_blocks (suc fuel) max_off read_bucket s = classify_and_read_block read_bucket s >>= (λ r.
        elim r.0 [
          | none ↦ some r.1
          | some dest_bucket ↦
              write_blocks (suc fuel) max_off dest_bucket false r.1
              >>= (λ s'. read_blocks fuel max_off read_bucket s')
        ])

    -- `count` buckets from `read_bucket` on, around the end.
    unfoldable pub permute_buckets :
        (fuel max_off num_buckets count read_bucket : ℕ) → Sorter A → Option (Sorter A)
    unfolding read_blocks
    permute_buckets fuel max_off num_buckets zero read_bucket s = some s
    permute_buckets fuel max_off num_buckets (suc count) read_bucket s =
        read_blocks fuel max_off read_bucket s >>= (λ s'.
          permute_buckets fuel max_off num_buckets count ((read_bucket + 1) % num_buckets) s')

-- `permuteBlocks`.
unfoldable pub permute_blocks {ℓ} :
    {A : Type ℓ} (c : Config) (classify : A → ℕ) (fuel num_buckets my_id num_threads : ℕ)
    → Sorter A
    → Option (Sorter A)
unfolding permute_buckets
permute_blocks c classify fuel num_buckets my_id num_threads s =
    let read_bucket = my_id * num_buckets / num_threads % num_buckets in
    let max_off = align_to_next_block c (length s.array + 1) - block_size c in
    permute_buckets (block_size c) classify fuel max_off num_buckets num_buckets read_bucket s
