-- ===== src/SequentialSorter/Sorts.antt =====
-- `sequential` and `SequentialSorter` of include/ips4o/sequential.hpp.
use ips4o.Prelude.{
  ℕ, zero, suc, ◌*◌, ◌≤◌, ◌<◌, ◌≡◌, inl, inr, refl, ◌∙◌, arith, Bool, true, false, Bool-cases, some,
  List, length, total, total-perm, length-perm, leb, leb→lt, bind-some, IsStrictWeak, IsSorted,
}
use ips4o.BaseCase.{sort_simple_cases}
use ips4o.BaseCase.Insertion.{base_case_sort-IsSorted}
use ips4o.BaseCase.Simple.{sort_simple_cases_lem}
use ips4o.Config.{Config}
use ips4o.Sampling.{RandomGen}
use ips4o.SequentialSorter.{LocalData, Sort, sequential_rec, sequential, sequential_sorter}
use ips4o.SequentialSorter.Ranges.{Clean, SortedOf, SortsBelow}
use ips4o.SequentialSorter.Sampled.{Suits}
use ips4o.SequentialSorter.Divided.{sample_and_partition-IsParted}
use ips4o.SequentialSorter.Whole.{recursion-SortedOf}

module _ {ℓ} {A : Type ℓ} {G : Type 0} (random : RandomGen G) (c : Config) (comp : A → A → Bool)
    (w : IsStrictWeak comp) (bound : ℕ) (suits : Suits c bound) where
  sequential_rec-SortedOf :
      (xs : List A) (sort : Sort A G) (d : LocalData A G)
      → 2 * c.base_case_size < length xs
      → length xs ≤ bound
      → SortsBelow comp sort (length xs)
      → Clean d
      → (ys : List A) × (d' : LocalData A G) × (sequential_rec random c comp sort xs d
          ≡ some (ys, d'))
        × SortedOf comp xs ys
        × Clean d'
  unfolding sequential_rec
  sequential_rec-SortedOf xs sort d large small sorts clean =
      let (p, parted, is) =
        sample_and_partition-IsParted random c comp w bound xs sort d suits large small sorts
          clean in
      let (ys, d', run, sorted, clean') =
        recursion-SortedOf c comp sort (length xs) sorts is.classes p.num_buckets is.in_range
          is.separates xs p.bucket_start is.order is.from_zero p.equal_buckets is.stride p.array
          p.local is.strides is.some_buckets is.alike is.leaf_sorted is.top is.clean is.weight
          (λ b h r inner. (h, λ many. is.shrinks inner b h r, is.small_sorted b h)) in
      (ys, d', bind-some _ parted run, sorted, clean')

  pub sequential-SortedOf :
      (fuel : ℕ) (xs : List A) (d : LocalData A G)
      → Clean d
      → length xs < fuel
      → length xs ≤ bound
      → (ys : List A) × (d' : LocalData A G) × (sequential random c comp fuel xs d ≡ some (ys, d'))
        × SortedOf comp xs ys
        × Clean d'
  unfolding sequential
  sequential-SortedOf zero xs d clean lt le = absurd (omega arith)
  sequential-SortedOf (suc fuel) xs d clean lt le =
      elim (Bool-cases (leb (length xs) (2 * c.base_case_size))) [
        | inl base ↦
            let (ys, e, sorted, perm) = base_case_sort-IsSorted comp w xs in
            (ys, d, rw base (bind-some _ e refl), (sorted, λ f. total-perm f perm), clean)
        | inr large ↦
            let (ys, d', e, sorted, clean') =
              sequential_rec-SortedOf xs (sequential random c comp fuel) d
                (leb→lt (length xs) (2 * c.base_case_size) large) le
                (λ zs d₁ clean₁ less.
                  sequential-SortedOf fuel zs d₁ clean₁ (omega arith) (omega arith))
                clean in
            (ys, d', rw large e, sorted, clean')
      ]

  -- The comparison is a strict weak order, the configuration suits ranges of up to `bound` elements, and
  -- `xs` is one. Then for every generator, with and without the test for simple inputs, and from buffers
  -- that are empty and sizes that are 0: with any fuel above the number of elements the sorter
  -- returns, nothing in it is undefined, the result is in order and has, for every weight of elements, the
  -- same sum as the input, and the buffers are empty and the sizes 0 again for the next call.
  pub sequential_sorter_lem :
      (fuel : ℕ) (check_sorted : Bool) (xs : List A) (d : LocalData A G)
      → Clean d
      → length xs < fuel
      → length xs ≤ bound
      → (ys : List A) × (d' : LocalData A G) × (sequential_sorter random c comp fuel check_sorted xs
            d
          ≡ some (ys, d'))
        × IsSorted comp ys
        × ((f : A → ℕ) → total f ys ≡ total f xs)
        × Clean d'
  unfolding sequential_sorter
  sequential_sorter_lem fuel false xs d clean lt le =
      let (ys, d', e, sorted, clean') = sequential-SortedOf fuel xs d clean lt le in
      (ys, d', e, sorted.0, sorted.1, clean')
  sequential_sorter_lem fuel true xs d clean lt le =
      let (perm, is, isnt) = sort_simple_cases_lem comp w xs in
      let zs = (sort_simple_cases comp xs).1 in
      elim (Bool-cases (sort_simple_cases comp xs).0) [
        | inl done ↦ (zs, d, rw done refl, is done, λ f. total-perm f perm, clean)
        | inr left ↦
            let (ys, d', e, sorted, clean') =
              sequential-SortedOf fuel zs d clean (omega (arith, length-perm perm))
                (omega (arith, length-perm perm)) in
            (ys, d', rw left e, sorted.0, λ f. sorted.1 f ∙ total-perm f perm, clean')
      ]
