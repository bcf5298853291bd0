-- ===== src/Examples/Classifier.antt =====
-- A tree over the splitters 10, 20, …, 70.
use ips4o.Prelude.{
  some, ℕ, ◌+◌, ◌-◌, ◌*◌, ◌^◌, ◌≤◌, ◌<◌, ◌≡◌, refl, true, false, [], ◌∷◌, map, arith,
}
use ips4o.Classifier.{Classifier, build, classify, classify_all}
use ips4o.Classifier.Tree.{build-IsTree}
use ips4o.Classifier.Rank.{IsAscending}
use ips4o.Classifier.Buckets.{bucket_of, classify_lem, classify-separates}
use ips4o.Classifier.Unrolled.{classify_all-map}
use ips4o.Examples.Order.{less, less-IsStrictWeak}

abbrev splitters : ℕ → ℕ
splitters j = 10 * (j + 1)

abbrev empty : Classifier ℕ
empty = record { storage = λ _. 0; sorted_storage = splitters; log_buckets = 0; num_buckets = 0 }

splitters-IsAscending : IsAscending less splitters 7
splitters-IsAscending i j h k = ground arith

classify_run :
    map (classify less (build empty 3) true) (5 ∷ 10 ∷ 15 ∷ 70 ∷ 99 ∷ []) ≡ 0 ∷ 1 ∷ 2 ∷ 13 ∷ 15 ∷ []
unfolding classify build
classify_run = refl

classify_all_run :
    classify_all less (build empty 3) false 8 2 (5 ∷ 45 ∷ 99 ∷ [])
    ≡ some ((0, 5) ∷ (4, 45) ∷ (7, 99) ∷ [])
unfolding classify_all build
classify_all_run = refl

build-IsTree_example :
    (build empty 3).storage (2 ^ 1 + 1) ≡ (build empty 3).sorted_storage ((2 * 1 + 1) * 2 ^ 1 - 1)
build-IsTree_example = build-IsTree empty 3 1 1 1 refl (omega arith)

classify_lem_example :
    classify less (build empty 3) true 20 ≡ bucket_of less less-IsStrictWeak splitters 7 true 20
classify_lem_example =
    classify_lem less less-IsStrictWeak empty 3 (omega arith) splitters-IsAscending 20 true

classify-separates_example :
    (classify less (build empty 3) true 15 < 2 * 2 ^ 3)
    × (classify less (build empty 3) true 15 < classify less (build empty 3) true 20
        → less 15 20 ≡ true)
classify-separates_example =
    classify-separates less less-IsStrictWeak empty 3 (omega arith) splitters-IsAscending true 15 20

abbrev tens : Classifier ℕ
tens = build empty 3

classify_all-map_example :
    (tens.log_buckets ≤ 8
      → classify_all less tens true 8 2 (35 ∷ 40 ∷ 99 ∷ [])
        ≡ some (map (λ v. (classify less tens true v, v)) (35 ∷ 40 ∷ 99 ∷ [])))
    × (8 < tens.log_buckets → classify_all less tens true 8 2 (35 ∷ 40 ∷ 99 ∷ []) ≡ some [])
unfolding build
classify_all-map_example =
    classify_all-map less tens true 8 2 (35 ∷ 40 ∷ 99 ∷ []) refl (omega arith) (omega arith)
      (omega arith)
