-- ===== src/SequentialSorter/Divided.antt =====
-- `partition` of include/ips4o/partitioning.hpp as a whole, by one thread, before the recursion.
use ips4o.Prelude.{
  ℕ, zero, suc, ◌+◌, ◌-◌, ◌*◌, ◌^◌, ◌≤◌, ◌<◌, ◌≡◌, ◌≢◌, ◌⊎◌, inl, inr, refl, sym, ap, ◌∙◌, arith,
  subst, Bool, true, false, ◌&&◌, ◌||◌, Bool-cases, some, List, [], ◌∷◌, ◌++◌, length, range, total,
  total-one, get_elem?, ltb, leb, ltb→le, le→leb, leb→lt, to_int, ◌==◌, ==-true, IsStrictWeak,
  IsSorted, Le, lt_asymm, pow2-le, bind-some,
}
use mathlib.Core.Option.{some-injective}
use ips4o.Config.{Config, block_size, log_buckets_for, single_level_threshold}
use ips4o.Classifier.{classify}
use ips4o.Classifier.Buckets.{classify-separates}
use ips4o.LocalClassification.Blocks.{count}
use ips4o.Sampling.{RandomGen}
use ips4o.Sampling.Longer.{get_elem?-append}
use ips4o.Sampling.Built.{used-if, used-le}
use ips4o.Partitioning.Buckets.{partition_lem}
use ips4o.Partitioning.Counts.{of_bucket}
use ips4o.SequentialSorter.{LocalData, Sort, Parted, own, reset_data, sample_and_partition}
use ips4o.SequentialSorter.Ranges.{Clean, SortsBelow}
use ips4o.SequentialSorter.Splits.{tree, equal, used, Splits, odd-alike}
use ips4o.SequentialSorter.Whole.{Recursed}
use ips4o.SequentialSorter.Sampled.{Suits, sample_and_build-Sampled}

module _ {ℓ} {A : Type ℓ} (classify : A → ℕ) where
  count-le : (i : ℕ) (xs : List A) → count classify i xs ≤ length xs
  count-le i [] = omega arith
  count-le i (x ∷ xs) = omega (arith, count-le i xs, at_most (classify x == i))
    where
      at_most : (b : Bool) → to_int b ≤ 1
      at_most true = omega arith
      at_most false = omega arith

  -- With an element of another bucket in it, a range is longer than the bucket.
  pub count-lt :
      (i : ℕ) (xs : List A) (place : ℕ) {v : A}
      → get_elem? xs place ≡ some v
      → classify v ≢ i
      → count classify i xs < length xs
  count-lt i [] place e ne = absurd (cc)
  count-lt i (x ∷ xs) zero {v} e ne = omega (arith, count-le i xs, ap to_int other)
    where
      other : (classify x == i) ≡ false
      other = elim (Bool-cases (classify x == i)) [
        | inl is ↦
            absurd (ne (ap classify (sym (some-injective _ _ e)) ∙ ==-true (classify x) i is))
        | inr isnt ↦ isnt
      ]
  count-lt i (x ∷ xs) (suc place) e ne =
      omega (arith, count-lt i xs place e ne, at_most (classify x == i))
    where
      at_most : (b : Bool) → to_int b ≤ 1
      at_most true = omega arith
      at_most false = omega arith

module _ {ℓ} {A : Type ℓ} {G : Type 0} (random : RandomGen G) (c : Config) (comp : A → A → Bool)
    (w : IsStrictWeak comp) where
  -- After the partition of a range into buckets, before the recursion.
  pub record IsParted (xs : List A) (p : Parted A G) : Type ℓ where
    pub classes : A → ℕ
    pub in_range : (v : A) → classes v < p.num_buckets
    pub separates : (u v : A) → classes u < classes v → Le comp u v
    pub stride : ℕ
    pub strides : p.num_buckets ≡ (1 + to_int p.equal_buckets) * stride
    pub some_buckets : 1 ≤ p.num_buckets
    pub alike :
        p.equal_buckets ≡ true
        → (u v : A) (j : ℕ) → suc (2 * j + 1) < p.num_buckets
        → classes u ≡ 2 * j + 1
        → classes v ≡ 2 * j + 1
        → Le comp u v
    pub from_zero : p.bucket_start 0 ≡ 0
    pub top : p.bucket_start p.num_buckets ≡ length p.array
    pub order : (i : ℕ) → i < p.num_buckets → p.bucket_start i ≤ p.bucket_start (suc i)
    pub weight :
        (i : ℕ)
        → i < p.num_buckets
        → (f : A → ℕ)
        → total f (range p.array (p.bucket_start i) (p.bucket_start (suc i)))
          ≡ total (of_bucket classes i f) xs
    pub leaf_sorted :
        leb (length xs) (single_level_threshold c) ≡ true
        → (i : ℕ) → i < p.num_buckets
        → IsSorted comp (range p.array (p.bucket_start i) (p.bucket_start (suc i)))
    pub small_sorted :
        (i : ℕ)
        → i < p.num_buckets
        → ltb (2 * c.base_case_size) (p.bucket_start (suc i) - p.bucket_start i) ≡ false
        → IsSorted comp (range p.array (p.bucket_start i) (p.bucket_start (suc i)))
    pub shrinks :
        leb (length xs) (single_level_threshold c) ≡ false
        → (i : ℕ) → i < p.num_buckets
        → Recursed p.num_buckets p.equal_buckets i
        → p.bucket_start (suc i) - p.bucket_start i < length xs
    pub clean : Clean p.local

  pub sample_and_partition-IsParted :
      (bound : ℕ) (xs : List A) (sort : Sort A G) (d : LocalData A G)
      → Suits c bound
      → 2 * c.base_case_size < length xs
      → length xs ≤ bound
      → SortsBelow comp sort (length xs)
      → Clean d
      → (p : Parted A G) × (sample_and_partition random c comp sort xs d ≡ some p) × IsParted xs p
  unfolding sample_and_partition reset_data
  sample_and_partition-IsParted bound xs sort d suits large small sorts clean =
      let s =
        sample_and_build-Sampled random c comp w bound xs sort d suits large small sorts clean in
      let b = s.built in
      let lb = log_buckets_for c (length xs) in
      let array = s.sample ++ s.rest in
      let e = equal comp w c b in
      let k = used comp w c b in
      let t = tree comp w c b in
      let classes : A → ℕ = classify comp t e in
      let apart = λ (u v : A).
        classify-separates comp w (record (s.local.classifier) { sorted_storage = b.sorted })
          b.levels b.some_levels b.ascending e u v in
      let in_range : (v : A) → classes v < k =
        λ v. subst (λ n. classes v < n) (used-if (2 ^ b.levels) e) (apart v v).0 in
      let len : length array ≡ length xs = sym (total-one array) ∙ s.same (λ v. 1) ∙ total-one xs in
      let (some_levels, levels, room, few) = suits.levels (length xs) large small in
      let fewer : k ≤ 2 ^ lb * (1 + to_int c.allow_equal_buckets) =
        used-le (2 ^ b.levels) (2 ^ lb) c.allow_equal_buckets _ b.fewer in
      let some_buckets : 1 ≤ k = some_used (2 ^ b.levels) e (pow2-le 0 b.levels (omega arith)) in
      let (r, run, size, from_zero, to_end, in_place, buffers, own_buffers, empty, zeros) =
        partition_lem c comp w classes k in_range
          (record {
            array = array;
            write = 0;
            buffers = s.local.buffers;
            bucket_size = s.local.bucket_size;
          })
          s.local.swap s.clean.0 s.clean.1 suits.unroll.0
          (omega (arith, suits.unroll.1, large, len)) some_buckets (omega (arith, suits.size, len))
          (omega (
            arith,
            mul_mono k (2 ^ lb * (1 + to_int c.allow_equal_buckets)) (block_size c) fewer,
            few,
          )) in
      (
        record {
          array = r.array;
          local = reset_data (record (s.local) {
            classifier = t;
            buffers = own r.buffers;
            bucket_size = r.bucket_size;
            swap = r.swap;
          });
          bucket_start = r.bucket_start;
          num_buckets = k;
          equal_buckets = e;
        },
        bind-some _ s.run (bind-some _ run refl),
        record {
          classes = classes;
          in_range = in_range;
          separates = λ u v h. lt_asymm comp w u v ((apart u v).1 h);
          stride = 2 ^ b.levels;
          strides = swapped (2 ^ b.levels) e;
          some_buckets = some_buckets;
          alike = λ q u v j h p p'.
              odd-alike comp w c b u v j
                (subst (λ z. suc (2 * j + 1) < 2 ^ b.levels * (1 + to_int z)) q h)
                (ap (λ z. classify comp t z u) (sym q) ∙ p)
                (ap (λ z. classify comp t z v) (sym q) ∙ p');
          from_zero = from_zero;
          top = to_end ∙ sym size;
          order = λ i h. (in_place i h).order;
          weight = λ i h f. (in_place i h).same f ∙ s.same (of_bucket classes i f);
          leaf_sorted = λ leaf i h.
              from_cases (rw (ap (λ z. leb z (single_level_threshold c)) len ∙ leaf) refl)
                (in_place i h).sorted;
          small_sorted = λ i h few.
              from_cases
                (small_sorts (leb (length array) (single_level_threshold c)) (
                  le→leb (r.bucket_start (suc i) - r.bucket_start i) (2 * c.base_case_size) (
                    ltb→le (2 * c.base_case_size) (r.bucket_start (suc i) - r.bucket_start i) few)))
                (in_place i h).sorted;
          shrinks = λ inner i h rec.
              let (allow, many) =
                suits.split (length xs) (leb→lt (length xs) (single_level_threshold c) inner)
                  small in
              let (place, v, at, other) = Splits comp w c b allow many i rec in
              let less =
                count-lt classes i array place (get_elem?-append s.sample s.rest place at) other in
              omega (arith, less, len, (in_place i h).size);
          clean = (λ i. ap (λ z. own z i) own_buffers ∙ empty i, zeros);
        },
      )
    where
      swapped : (a : ℕ) (e : Bool) → a * (1 + to_int e) ≡ (1 + to_int e) * a
      swapped a true = omega arith
      swapped a false = omega arith

      small_sorts : (a : Bool) {x : Bool} → x ≡ true → (a || (x && true)) ≡ true
      small_sorts true e = refl
      small_sorts false e = rw e refl

      from_cases : {P : Type 0} {x : Bool} → x ≡ true → (P × (x ≡ true)) ⊎ (x ≡ false) → P
      from_cases e (inl h) = h.0
      from_cases e (inr h) = absurd (ground arith)

      mul_mono : (a b B : ℕ) → a ≤ b → (a + 2) * B ≤ (b + 2) * B
      mul_mono a b B h = grind arith

      some_used : (n : ℕ) (e : Bool) → 1 ≤ n → 1 ≤ n * (1 + to_int e)
      some_used n true h = omega arith
      some_used n false h = omega arith
