-- ===== src/Partitioning/Buckets.antt =====
-- `partition` of include/ips4o/partitioning.hpp by one thread.
use ips4o.Prelude.{
  ◌∷◌, ℕ, zero, suc, ◌+◌, ◌-◌, ◌*◌, ◌/◌, ◌^◌, ◌≤◌, ◌<◌, ◌≡◌, ◌⊎◌, refl, ap, ◌∙◌, arith, subst, Bool,
  true, false, none, some, List, [], ◌∷◌, length, range, All, total, bind-some, IsStrictWeak,
  IsSorted, min, append-nil, update, update_self, update_ne, ℕ_discrete, dec_lt, ◌==◌, to_int, not,
}
use ips4o.Config.{Config, block_size}
use ips4o.LocalClassification.{Local}
use ips4o.LocalClassification.Blocks.{count}
use ips4o.LocalClassification.Boundaries.{sequential_classification-Boundaries}
use ips4o.BlockPermutation.{compute_overflow_bucket}
use ips4o.BlockPermutation.Composed.{permute_blocks-classified}
use ips4o.CleanupMargins.{write_margins}
use ips4o.CleanupMargins.Loop.{write_margins-Cleaned, cleared, Sorted, sorts}
use ips4o.Partitioning.{Partition, partition, my_buckets}
use ips4o.BlockPermutation.Classified
use ips4o.Partitioning.Counts.{of_bucket, bucket-weight, All-weightless, weightless}
use ips4o.Partitioning.Waiting.{margins, Ready-bucket, Overflow-bucket}

module _ {ℓ} {A : Type ℓ} (c : Config) (comp : A → A → Bool) (w : IsStrictWeak comp)
    (classify : A → ℕ) (k : ℕ) (in_range : (v : A) → classify v < k) where
  -- Bucket `b` after the partition: its range holds the elements of the input that are of that bucket,
  -- sorted where the cleanup sorts it.
  pub record InPlace (array : List A) (r : Partition A) (b : ℕ) : Type ℓ where
    pub order : r.bucket_start b ≤ r.bucket_start (suc b)
    pub size : r.bucket_start (suc b) ≡ r.bucket_start b + count classify b array
    pub of_bucket_only :
        All (λ v. classify v ≡ b) (range r.array (r.bucket_start b) (r.bucket_start (suc b)))
    pub same :
        (f : A → ℕ)
        → total f (range r.array (r.bucket_start b) (r.bucket_start (suc b)))
          ≡ total (of_bucket classify b f) array
    pub sorted :
        (IsSorted comp (range r.array (r.bucket_start b) (r.bucket_start (suc b)))
          × (sorts c false (length array) (r.bucket_start (suc b) - r.bucket_start b) ≡ true))
        ⊎ (sorts c false (length array) (r.bucket_start (suc b) - r.bucket_start b) ≡ false)

  buckets_all : (k : ℕ) → min k ((0 + 1) * ((k + 1 - 1) / 1)) - min k (0 * ((k + 1 - 1) / 1)) ≡ k
  buckets_all k = omega arith

  buckets_first : (k : ℕ) → min k (0 * ((k + 1 - 1) / 1)) ≡ 0
  buckets_first k = omega arith

  -- Every buffer that held something is reset.
  cleared-empty :
      (n i : ℕ) (b : ℕ → List A)
      → ((j : ℕ) → i + n ≤ j → b j ≡ [])
      → ((j : ℕ) → j < i → b j ≡ [])
      → (b' : ℕ → List A) × (cleared n i (b ∷ []) ≡ b' ∷ []) × ((j : ℕ) → b' j ≡ [])
  cleared-empty zero i b above below =
      (b, refl, λ j. elim (dec_lt j i) [ yes lt ↦ below j lt | no ge ↦ above j (omega arith) ])
  cleared-empty (suc n) i b above below =
      cleared-empty n (suc i) (update b i []) (λ j le. untouched i j b (above j (omega arith)))
        (λ j lt. elim (dec_lt j i) [
          | yes lower ↦ untouched i j b (below j lower)
          | no ge ↦ update_self b i [] j (omega arith)
        ])
    where
      untouched : (i j : ℕ) (b : ℕ → List A) → b j ≡ [] → update b i [] j ≡ []
      untouched i j b e = elim (ℕ_discrete i j) [
        | yes q ↦ update_self b i [] j q
        | no ne ↦ update_ne b i [] j ne ∙ e
      ]

  no_element : (b : ℕ) (xs : List A) → k ≤ b → All (λ v. classify v ≡ b) xs → xs ≡ []
  no_element b [] le h = refl
  no_element b (x ∷ xs) le h = absurd (omega (arith, in_range x, h.0))

  -- The comparison is a strict weak order, `classify` gives each element one of k buckets, there is at least
  -- one, the buffers are empty and the sizes 0, and for n elements in blocks of B, n is at least `kUnroll`,
  -- which is at least one, and n + 2B and (k + 2)B are at most 2 ^ 63. Then `partition` returns, nothing in it is undefined, the array still holds n elements, and the
  -- boundaries go from 0 to n. Between two neighbours lie exactly the elements of the input that
  -- `classify` gives that bucket: as many, of no other bucket, and with the same sum for every weight of
  -- elements. They are sorted if n is at most the threshold of a single level or there are at most
  -- 2 * base_case_size of them. All buffers are empty and the sizes 0 again.
  pub partition_lem :
      (l : Local A) (swap : Bool → List A)
      → ((i : ℕ) → l.buffers i ≡ [])
      → ((i : ℕ) → l.bucket_size i ≡ 0)
      → 1 ≤ c.unroll_classifier
      → c.unroll_classifier ≤ length l.array
      → 1 ≤ k
      → length l.array + 2 * block_size c ≤ 2 ^ 63
      → (k + 2) * block_size c ≤ 2 ^ 63
      → (r : Partition A) × (partition c comp classify k l swap ≡ some r)
        × (length r.array ≡ length l.array)
        × (r.bucket_start 0 ≡ 0)
        × (r.bucket_start k ≡ length l.array)
        × ((b : ℕ) → b < k → InPlace l.array r b)
        × (b : ℕ → List A) × (r.buffers ≡ b ∷ [])
        × ((i : ℕ) → b i ≡ [])
        × ((i : ℕ) → r.bucket_size i ≡ 0)
  unfolding partition my_buckets
  partition_lem l swap empty zeros some_unroll unrolls some_buckets small few =
      let (l', starts, blocks, gap, h) =
        sequential_classification-Boundaries c classify k in_range l empty zeros some_unroll
          unrolls in
      let (s, moved, run, p, weights) =
        permute_blocks-classified c classify k in_range h swap (suc (length l.array / block_size c))
          0 1 some_buckets small few (omega arith) in
      let ob = compute_overflow_bucket (block_size c) starts k in
      let start = margins c classify k in_range h swap s p weights small in
      let (m, run', size, cleaned', within, reset) =
        write_margins-Cleaned c ob comp w false starts s.bucket_pointers k 0 start moved (λ b lo hi.
          (
            Ready-bucket c classify k in_range h swap s p weights small ob b (omega arith),
            Overflow-bucket c classify k in_range h swap s p weights small b (omega arith),
          )) in
      let cleaning : write_margins c ob none 0 comp false starts s.bucket_pointers
            (min k ((0 + 1) * ((k + 1 - 1) / 1)) - min k (0 * ((k + 1 - 1) / 1)))
            (min k (0 * ((k + 1 - 1) / 1))) start
          ≡ some m =
        rw (buckets_all k, buckets_first k) run' in
      let len : length s.array ≡ length l.array =
        p.size ∙ Classified.size c classify k in_range h in
      let r : Partition A = record {
        array = m.array;
        bucket_start = starts;
        buffers = m.buffers;
        bucket_size = λ i. 0;
        swap = s.swap;
      } in
      let weigh : (b : ℕ)
          → b < k
          → (f : A → ℕ)
          → total f (range m.array (starts b) (starts (suc b)))
            ≡ total (of_bucket classify b f) l.array =
        λ b hb f. omega (
          arith,
          (cleaned' b (omega arith) (omega arith)).0 f,
          bucket-weight classify b (block_size c) k moved l'.buffers l.array hb p.placed
              (λ i. (h.buffered i).0) weights f,
          ap (total f) (append-nil (l'.buffers b)),
        ) in
      let (b, own, empty') =
        cleared-empty k 0 l'.buffers
          (λ j le. no_element j (l'.buffers j) (omega arith) (h.buffered j).0)
          (λ j lt. absurd (omega arith)) in
      (
        r,
        bind-some _ h.run (bind-some _ run (bind-some _ cleaning refl)),
        size ∙ len,
        h.from_zero,
        h.to_end,
        λ b hb. record {
          order = omega (arith, h.apart b hb);
          size = h.apart b hb;
          of_bucket_only =
              All-weightless classify b (range m.array (starts b) (starts (suc b)))
                (weigh b hb (λ v. to_int (not (classify v == b))) ∙ weightless classify b l.array);
          same = weigh b hb;
          sorted =
              subst (λ z. Sorted c ob comp w false starts s.bucket_pointers z b m.array) len
                (cleaned' b (omega arith) (omega arith)).1;
        },
        b,
        reset ∙ own,
        empty',
        λ i. refl,
      )
