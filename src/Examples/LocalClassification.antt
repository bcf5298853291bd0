-- ===== src/Examples/LocalClassification.antt =====
-- The local classification of seven numbers by their remainder, in blocks of two.
use ips4o.Prelude.{
  suc, ℕ, ◌+◌, ◌%◌, ◌≤◌, ◌<◌, ◌≡◌, refl, arith, some, List, [], ◌∷◌, ◌++◌, Perm, All, length,
}
use ips4o.Config.{default_config, block_size}
use ips4o.BucketPointers.{BucketPointers}
use ips4o.LocalClassification.{Local, classify_locally, sequential_classification}
use ips4o.LocalClassification.Boundaries.{sequential_classification_lem}
use ips4o.LocalClassification.Contents.{contents, flatten}
use ips4o.LocalClassification.Blocks.{count, IsBlock}
use ips4o.LocalClassification.Classify.{classify_locally_lem}

abbrev remainder : ℕ → ℕ
remainder v = v % 3

remainder-lt : (v : ℕ) → remainder v < 3
remainder-lt v = omega arith

abbrev values : List ℕ
values = 3 ∷ 4 ∷ 6 ∷ 9 ∷ 7 ∷ 1 ∷ 2 ∷ []

abbrev start : Local ℕ
start = record {
  array = 100 ∷ (values ++ 200 ∷ []);
  write = 0;
  buffers = λ i. [];
  bucket_size = λ i. 0;
}

classify_locally_lem_example :
    (l' : Local ℕ) × (blocks : List (List ℕ)) × (gap : List ℕ) × (classify_locally 2 remainder 7 3 1
        8 start
      ≡ some l')
    × (l'.array ≡ 100 ∷ (flatten blocks ++ (gap ++ 200 ∷ [])))
    × (l'.write ≡ 1 + length (flatten blocks))
    × All (IsBlock 2 3 remainder) blocks
    × (length gap ≡ length (contents 3 l'.buffers))
    × ((i : ℕ) → All (λ v. remainder v ≡ i) (l'.buffers i) × (length (l'.buffers i) ≤ 2))
    × Perm (flatten blocks ++ contents 3 l'.buffers) values
    × ((i : ℕ) → i < 3 → l'.bucket_size i ≡ count remainder i values)
classify_locally_lem_example =
    classify_locally_lem 2 3 (omega arith) remainder remainder-lt (100 ∷ []) values (200 ∷ []) 7
      start 1 8 (omega arith) (omega arith) refl refl refl (λ i. refl) (λ i. refl)

-- The whole array, in blocks of the default configuration, which are larger than the array.
abbrev whole : Local ℕ
whole = record { array = values; write = 0; buffers = λ i. []; bucket_size = λ i. 0 }

sequential_classification_lem_example :
    (l' : Local ℕ) × (bucket_start : ℕ → ℕ) × (pointers : ℕ → BucketPointers) × (blocks : List
      (List ℕ))
    × (gap : List ℕ) × (sequential_classification default_config remainder 3 whole
        ≡ some (l', bucket_start, pointers))
    × (l'.array ≡ flatten blocks ++ gap)
    × (l'.write ≡ length (flatten blocks))
    × All (IsBlock (block_size default_config) 3 remainder) blocks
    × Perm (flatten blocks ++ contents 3 l'.buffers) values
    × (bucket_start 0 ≡ 0)
    × (bucket_start 3 ≡ 7)
    × ((i : ℕ) → i < 3 → bucket_start (suc i) ≡ bucket_start i + count remainder i values)
sequential_classification_lem_example =
    sequential_classification_lem default_config remainder 3 remainder-lt whole (λ i. refl)
      (λ i. refl) (omega arith) (omega arith)
