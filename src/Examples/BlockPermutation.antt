-- ===== src/Examples/BlockPermutation.antt =====
-- The permutation of seven numbers, even ones first, in blocks of two: the last block of the odd numbers
-- goes to the overflow buffer.
use ips4o.Prelude.{
  ℕ, zero, suc, ◌+◌, ◌-◌, ◌*◌, ◌%◌, ◌^◌, ◌≤◌, ◌<◌, ◌≡◌, ◌⊎◌, refl, arith, none, some, List, [], ◌∷◌,
  length, range, get_elem?, All, sum, total, ◌>>=◌,
}
use ips4o.Config.{Config, default_config, block_size, log2, align_to_next_block}
use ips4o.BucketPointers.{new_pointers}
use ips4o.LocalClassification.{Local, bucket_pointer, sequential_classification}
use ips4o.LocalClassification.Contents.{contents}
use ips4o.BlockPermutation.{Sorter, permute_blocks, compute_overflow_bucket}
use ips4o.BlockPermutation.Permutes.{Laid, Permuted, permute_blocks_lem}
use mathlib.Core.Option.{some-injective}
use ips4o.BlockPermutation.Invariant.{InBucket}
use ips4o.BlockPermutation.State.{weigh}
use ips4o.BlockPermutation.Layout.{slot_of}
use ips4o.BlockPermutation.Composed.{sorter, sequential_classification-permute_blocks}
use ips4o.BlockPermutation.Overflow.{compute_overflow_bucket_lem}

abbrev pub small_blocks : Config
small_blocks = record default_config { block_size_in_bytes = 8 }

abbrev parity : ℕ → ℕ
parity v = v % 2

parity-lt : (v : ℕ) → parity v < 2
parity-lt v = omega arith

abbrev first : ℕ → ℕ
first b = 2 * b

abbrev first_starts : ℕ → ℕ
first_starts zero = 0
first_starts (suc zero) = 1
first_starts (suc (suc zero)) = 4
first_starts (suc (suc (suc b))) = 6

abbrev blocks : ℕ → List (List ℕ)
blocks zero = (1 ∷ 3 ∷ []) ∷ (2 ∷ 4 ∷ []) ∷ []
blocks (suc zero) = (5 ∷ 7 ∷ []) ∷ []
blocks (suc (suc b)) = []

abbrev before : Sorter ℕ
before = record {
  array = 1 ∷ 3 ∷ 2 ∷ 4 ∷ 5 ∷ 7 ∷ 9 ∷ [];
  bucket_pointers =
      λ b. new_pointers (first b * 2) (((first b + length (blocks b)) * 2 + (2 ^ 64 - 2)) % 2 ^ 64);
  swap = λ cur. [];
  overflow = none;
}

block_size_small : block_size small_blocks ≡ 2
unfolding block_size log2
block_size_small = refl

slots_of :
    (b : ℕ)
    → b < 2
    → (i : ℕ) {y : List ℕ} → get_elem? (blocks b) i ≡ some y
    → range before.array ((first b + i) * 2) ((first b + i) * 2 + 2) ≡ y
slots_of zero h zero e = some-injective _ _ e
slots_of zero h (suc zero) e = some-injective _ _ e
slots_of zero h (suc (suc i)) e = absurd (cc)
slots_of (suc zero) h zero e = some-injective _ _ e
slots_of (suc zero) h (suc i) e = absurd (cc)
slots_of (suc (suc b)) h i e = absurd (omega arith)

-- A statement on each of the two buckets.
each : (P : ℕ → Type 0) → P 0 → P 1 → (b : ℕ) → b < 2 → P b
each P p q zero h = p
each P p q (suc zero) h = q
each P p q (suc (suc b)) h = absurd (omega arith)

laid : Laid small_blocks parity 2 first before blocks
unfolding block_size log2
laid = record {
  ascending = λ b h. omega arith;
  last = omega arith;
  slots = λ b i {y} hb e. slots_of b hb i e;
  fits = each (λ b. first b + length (blocks b) ≤ first (suc b)) (omega arith) (omega arith);
  inside = λ b i hb.
      each (λ b. i < length (blocks b) → first b + i < 3) (λ l. omega arith) (λ l. omega arith) b
        hb;
  full =
      each (λ b. All (λ y. (c : ℕ) × (c < 2) × InBucket 2 parity c y) (blocks b))
        (
          (1, omega arith, (refl, (refl, (refl, tt)))),
          ((0, omega arith, (refl, (refl, (refl, tt)))), tt),
        )
        ((1, omega arith, (refl, (refl, (refl, tt)))), tt);
  room =
      each (λ b. first b + sum 2 (λ c. total (weigh 2 parity b) (blocks c)) ≤ first (suc b))
        (omega arith) (omega arith);
  unused = refl;
  pointers = λ b h. refl;
}

permute_blocks_lem_example :
    (s' : Sorter ℕ) × (moved : ℕ → List (List ℕ)) × (permute_blocks small_blocks parity 4 2 0 1
        before
      ≡ some s')
    × Permuted small_blocks parity 2 first before s' blocks moved
unfolding block_size log2
permute_blocks_lem_example =
    permute_blocks_lem small_blocks parity 2 first 4 0 1 before blocks laid (omega arith)
      (omega arith) (omega arith) (omega arith)

-- The run itself: the even numbers in front, then one block of odd ones, and another aside.
permute_blocks_run :
    (permute_blocks small_blocks parity 4 2 0 1 before >>= (λ s. some (s.array)))
    ≡ some (2 ∷ 4 ∷ 2 ∷ 4 ∷ 5 ∷ 7 ∷ 9 ∷ [])
unfolding permute_blocks align_to_next_block block_size log2
permute_blocks_run = refl

permute_blocks-overflow_run :
    (permute_blocks small_blocks parity 4 2 0 1 before >>= (λ s. s.overflow)) ≡ some (1 ∷ 3 ∷ [])
unfolding permute_blocks align_to_next_block block_size log2
permute_blocks-overflow_run = refl

abbrev unsorted : Local ℕ
unsorted = record {
  array = 1 ∷ 2 ∷ 3 ∷ 4 ∷ 5 ∷ 7 ∷ 9 ∷ [];
  write = 0;
  buffers = λ i. [];
  bucket_size = λ i. 0;
}

sequential_classification-permute_blocks_example :
    (l' : Local ℕ) × (starts : ℕ → ℕ) × (s' : Sorter ℕ) × (blocks moved : ℕ → List (List ℕ))
    × (sequential_classification small_blocks parity 2 unsorted
        ≡ some (l', starts, bucket_pointer small_blocks starts l'.write))
    × (permute_blocks small_blocks parity 4 2 0 1
          (sorter small_blocks parity 2 parity-lt l' starts (λ cur. []))
        ≡ some s')
    × Permuted small_blocks parity 2
        (λ b. slot_of small_blocks (starts b))
        (sorter small_blocks parity 2 parity-lt l' starts (λ cur. []))
        s'
        blocks
        moved
    × ((w : ℕ → ℕ)
        → sum 2 (λ b. total (total w) (moved b)) + total w (contents 2 l'.buffers)
          ≡ total w unsorted.array)
unfolding block_size log2
sequential_classification-permute_blocks_example =
    sequential_classification-permute_blocks small_blocks parity 2 parity-lt unsorted (λ cur. []) 4
      0 1 (λ i. refl) (λ i. refl) (omega arith) (omega arith) (omega arith) (omega arith)
      (omega arith) (omega arith)

-- Three buckets of one, three and two elements, in blocks of two.
compute_overflow_bucket_lem_example :
    ((compute_overflow_bucket 2 first_starts 3 ≡ none)
      × ((b : ℕ) → b < 3 → first_starts (suc b) - first_starts b ≤ 2))
    ⊎ ((o : ℕ) × (compute_overflow_bucket 2 first_starts 3 ≡ some o)
        × (o < 3)
        × (2 < first_starts (suc o) - first_starts o)
        × ((b : ℕ) → o < b → b < 3 → first_starts (suc b) - first_starts b ≤ 2))
compute_overflow_bucket_lem_example = compute_overflow_bucket_lem 2 first_starts 3

compute_overflow_bucket_run : compute_overflow_bucket 2 first_starts 3 ≡ some 1
unfolding compute_overflow_bucket
compute_overflow_bucket_run = refl
