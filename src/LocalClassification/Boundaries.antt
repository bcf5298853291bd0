-- ===== src/LocalClassification/Boundaries.antt =====
-- The bucket boundaries of `sequentialClassification` of include/ips4o/local_classification.hpp.
use ips4o.Prelude.{
  ℕ, zero, suc, ◌+◌, ◌≤◌, ◌<◌, ◌≡◌, ◌≢◌, refl, sym, ap, ◌∙◌, subst, arith, some, List, [], ◌∷◌,
  ◌++◌, append-nil, length, update, update_self, update_ne, ◌==◌, to_int, ℕ_discrete, All, Perm,
  bind-some, sum, sum-add, sum-zero, sum-ext,
}
use ips4o.Config.{Config, block_size}
use ips4o.Config.Sizes.{block_size-pos}
use ips4o.BucketPointers.{BucketPointers}
use ips4o.LocalClassification.{Local, bucket_boundaries, bucket_pointer, sequential_classification}
use ips4o.LocalClassification.Contents.{contents, flatten}
use ips4o.LocalClassification.Blocks.{count, IsBlock}
use ips4o.LocalClassification.Classify.{classify_locally_lem}
use ips4o.LocalClassification.Lazy.{classify_locally-Lazy}

-- An element counts once.
sum_above : (k b : ℕ) → k ≤ b → sum k (λ i. to_int (b == i)) ≡ 0
sum_above zero b h = refl
sum_above (suc k) b h =
    let other : to_int (b == k) ≡ 0 = ground arith in
    omega (arith, sum_above k b (omega arith), other)

sum_once : (k b : ℕ) → b < k → sum k (λ i. to_int (b == i)) ≡ 1
sum_once zero b h = absurd (omega arith)
sum_once (suc k) b h = elim (ℕ_discrete b k) [
  | yes e ↦
      let self : to_int (b == k) ≡ 1 = ground arith in
      omega (arith, sum_above k b (omega arith), self)
  | no ne ↦
      let other : to_int (b == k) ≡ 0 = ground arith in
      omega (arith, sum_once k b (omega arith), other)
]

sum-count {ℓ} :
    {A : Type ℓ} (classify : A → ℕ) (k : ℕ)
    → ((v : A) → classify v < k)
    → (xs : List A) → sum k (λ i. count classify i xs) ≡ length xs
sum-count classify k h [] = sum-zero k
sum-count classify k h (x ∷ xs) = omega (
  arith,
  sum-add k (λ i. to_int (classify x == i)) (λ i. count classify i xs),
  sum_once k (classify x) (h x),
  sum-count classify k h xs,
)

bucket_boundaries-before :
    (n i s : ℕ) (size start : ℕ → ℕ) (j : ℕ)
    → j ≤ i
    → bucket_boundaries n i s size start j ≡ start j
unfolding bucket_boundaries
bucket_boundaries-before zero i s size start j h = refl
bucket_boundaries-before (suc n) i s size start j h =
    bucket_boundaries-before n (suc i) (s + size i) size (update start (suc i) (s + size i)) j
      (omega arith)
    ∙ update_ne start (suc i) (s + size i) j (λ e. omega (arith, e))

bucket_boundaries-step :
    (n i s : ℕ) (size start : ℕ → ℕ)
    → start i ≡ s
    → (j : ℕ) → i ≤ j
    → j < i + n
    → bucket_boundaries n i s size start (suc j) ≡ bucket_boundaries n i s size start j + size j
unfolding bucket_boundaries
bucket_boundaries-step zero i s size start e j h k = absurd (omega arith)
bucket_boundaries-step (suc n) i s size start e j h k =
    let s' = s + size i in
    let start' = update start (suc i) s' in
    elim (ℕ_discrete i j) [
      | yes q ↦
          let now =
            bucket_boundaries-before n (suc i) s' size start' (suc i) (omega arith)
            ∙ update_self start (suc i) s' (suc i) refl in
          let was =
            bucket_boundaries-before n (suc i) s' size start' i (omega arith)
            ∙ update_ne start (suc i) s' i (λ z. omega (arith, z))
            ∙ e in
          subst
            (λ m.
              bucket_boundaries n (suc i) s' size start' (suc m)
              ≡ bucket_boundaries n (suc i) s' size start' m + size m)
            q (omega (arith, now, was))
      | no ne ↦
          bucket_boundaries-step n (suc i) s' size start'
            (update_self start (suc i) s' (suc i) refl) j (later i j h ne) (omega arith)
    ]
  where
    later : (i j : ℕ) → i ≤ j → i ≢ j → suc i ≤ j
    later i j h ne = ground arith

-- The boundaries are the sums of the sizes.
bucket_boundaries-sum :
    (k : ℕ) (size start : ℕ → ℕ)
    → start 0 ≡ 0
    → (i : ℕ) → i ≤ k
    → bucket_boundaries k 0 0 size start i ≡ sum i size
bucket_boundaries-sum k size start e zero h =
    bucket_boundaries-before k 0 0 size start 0 (omega arith) ∙ e
bucket_boundaries-sum k size start e (suc i) h = omega (
  arith,
  bucket_boundaries-step k 0 0 size start e i (omega arith) (omega arith),
  bucket_boundaries-sum k size start e i (omega arith),
)

module _ {ℓ} {A : Type ℓ} (c : Config) (classify : A → ℕ) (k : ℕ)
    (in_range : (v : A) → classify v < k) where
  -- What the classification of the whole array leaves.
  pub record Boundaries (l l' : Local A) (bucket_start : ℕ → ℕ) (blocks : List (List A))
      (gap : List A) : Type ℓ where
    pub run :
        sequential_classification c classify k l
        ≡ some (l', bucket_start, bucket_pointer c bucket_start l'.write)
    pub array : l'.array ≡ flatten blocks ++ gap
    pub write : l'.write ≡ length (flatten blocks)
    pub full : All (IsBlock (block_size c) k classify) blocks
    pub room : length gap ≡ length (contents k l'.buffers)
    pub buffered :
        (i : ℕ) → All (λ v. classify v ≡ i) (l'.buffers i) × (length (l'.buffers i) ≤ block_size c)
    pub lazy : (i : ℕ) → i < k → 1 ≤ count classify i l.array → 1 ≤ length (l'.buffers i)
    pub same : Perm (flatten blocks ++ contents k l'.buffers) l.array
    pub from_zero : bucket_start 0 ≡ 0
    pub to_end : bucket_start k ≡ length l.array
    pub apart : (i : ℕ) → i < k → bucket_start (suc i) ≡ bucket_start i + count classify i l.array

  pub sequential_classification-Boundaries :
      (l : Local A)
      → ((i : ℕ) → l.buffers i ≡ [])
      → ((i : ℕ) → l.bucket_size i ≡ 0)
      → 1 ≤ c.unroll_classifier
      → c.unroll_classifier ≤ length l.array
      → (l' : Local A) × (bucket_start : ℕ → ℕ) × (blocks : List (List A)) × (gap : List A)
        × Boundaries l l' bucket_start blocks gap
  unfolding sequential_classification
  sequential_classification-Boundaries l empty zeros some_unroll enough =
      let (l', blocks, gap, e, array, write, full, room, buffered, perm, sizes) =
        classify_locally_lem (block_size c) k (block_size-pos c) classify in_range [] l.array []
          c.unroll_classifier l 0 (length l.array) some_unroll enough (sym (append-nil l.array))
          refl (omega arith) empty zeros in
      let none : ℕ → ℕ = update (λ i. 0) 0 0 in
      let starts = bucket_boundaries k 0 0 l'.bucket_size none in
      let total = bucket_boundaries-sum k l'.bucket_size none refl in
      (
        l',
        starts,
        blocks,
        gap,
        record {
          run = bind-some _ e refl;
          array = array ∙ ap (λ z. flatten blocks ++ z) (append-nil gap);
          write = omega (arith, write);
          full = full;
          room = room;
          buffered = buffered;
          lazy = λ i h more.
              classify_locally-Lazy (block_size c) classify c.unroll_classifier k 0 (length l.array)
                l l' e zeros i (omega (arith, sizes i h, more));
          same = perm;
          from_zero = total 0 (omega arith);
          to_end = omega (
            arith,
            total k (omega arith),
            sum-ext k l'.bucket_size (λ i. count classify i l.array) sizes,
            sum-count classify k in_range l.array,
          );
          apart = λ i h. omega (
            arith,
            bucket_boundaries-step k 0 0 l'.bucket_size none refl i (omega arith) (omega arith),
            sizes i h,
          );
        },
      )

  -- When every value is classified as one of the k buckets, the sequential classification of an array
  -- of at least `kUnroll` elements, which is at least one, with empty buffers and zero sizes, is defined. It leaves full blocks of one bucket each in front, which
  -- together with the buffers hold the elements of the array; the boundaries start at 0, end at the length
  -- of the array, and are as far apart as each bucket has elements.
  pub sequential_classification_lem :
      (l : Local A)
      → ((i : ℕ) → l.buffers i ≡ [])
      → ((i : ℕ) → l.bucket_size i ≡ 0)
      → 1 ≤ c.unroll_classifier
      → c.unroll_classifier ≤ length l.array
      → (l' : Local A) × (bucket_start : ℕ → ℕ) × (pointers : ℕ → BucketPointers) × (blocks : List
          (List A))
        × (gap : List A) × (sequential_classification c classify k l
            ≡ some (l', bucket_start, pointers))
        × (l'.array ≡ flatten blocks ++ gap)
        × (l'.write ≡ length (flatten blocks))
        × All (IsBlock (block_size c) k classify) blocks
        × Perm (flatten blocks ++ contents k l'.buffers) l.array
        × (bucket_start 0 ≡ 0)
        × (bucket_start k ≡ length l.array)
        × ((i : ℕ) → i < k → bucket_start (suc i) ≡ bucket_start i + count classify i l.array)
  sequential_classification_lem l empty zeros some_unroll enough =
      let (l', starts, blocks, gap, b) =
        sequential_classification-Boundaries l empty zeros some_unroll enough in
      (
        l',
        starts,
        bucket_pointer c starts l'.write,
        blocks,
        gap,
        b.run,
        b.array,
        b.write,
        b.full,
        b.same,
        b.from_zero,
        b.to_end,
        b.apart,
      )
