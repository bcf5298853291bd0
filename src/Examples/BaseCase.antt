-- ===== src/Examples/BaseCase.antt =====
-- The base case on concrete ranges.
use ips4o.Prelude.{ℕ, ◌≡◌, refl, ◌↔◌, true, false, some, List, [], ◌∷◌, Perm, IsSorted}
use ips4o.BaseCase.{base_case_sort, sort_simple_cases, is_sorted}
use ips4o.BaseCase.Insertion.{base_case_sort-IsSorted}
use ips4o.BaseCase.Simple.{sort_simple_cases_lem, is_sorted_iff}
use ips4o.Examples.Order.{less, less-IsStrictWeak}

abbrev sample : List ℕ
sample = 5 ∷ 2 ∷ 9 ∷ 2 ∷ 0 ∷ 7 ∷ []

base_case_sort_run : base_case_sort less sample ≡ some (0 ∷ 2 ∷ 2 ∷ 5 ∷ 7 ∷ 9 ∷ [])
unfolding base_case_sort
base_case_sort_run = refl

sort_simple_cases_run : sort_simple_cases less (9 ∷ 7 ∷ 7 ∷ 1 ∷ []) ≡ (true, 1 ∷ 7 ∷ 7 ∷ 9 ∷ [])
unfolding sort_simple_cases
sort_simple_cases_run = refl

base_case_sort-IsSorted_example :
    (r : List ℕ) × (base_case_sort less sample ≡ some r) × IsSorted less r × Perm r sample
base_case_sort-IsSorted_example = base_case_sort-IsSorted less less-IsStrictWeak sample

sort_simple_cases_lem_example :
    let (done, ys) = sort_simple_cases less sample in
    Perm ys sample
    × (done ≡ true → IsSorted less ys)
    × (done ≡ false → (ys ≡ sample) × ¬ IsSorted less sample)
sort_simple_cases_lem_example = sort_simple_cases_lem less less-IsStrictWeak sample

is_sorted_iff_example : (is_sorted less sample ≡ true) ↔ IsSorted less sample
is_sorted_iff_example = is_sorted_iff less less-IsStrictWeak sample
