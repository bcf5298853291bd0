-- ===== src/Examples/Sampling.antt =====
-- A generator that always draws the largest index, and a sample drawn with it.
use ips4o.Prelude.{
  ◌-◌, ◌/◌, min, max, ℕ, suc, ◌+◌, ◌*◌, ◌^◌, ◌≤◌, ◌<◌, ◌≡◌, refl, true, Bool, some, List, [], ◌∷◌,
  Perm, arith, IsSorted,
}
use ips4o.Config.{default_config, oversampling_factor, log_buckets_for}
use ips4o.Sampling.Reach.{num_samples-reach}
use ips4o.Classifier.{Classifier, classify}
use ips4o.Sampling.Built.{build_classifier_lem}
use ips4o.Examples.Order.{less, less-IsStrictWeak}
use ips4o.Sampling.{RandomGen, select_sample, build_classifier}
use ips4o.Sampling.Sample.{select_sample-perm}

abbrev pub draw_last : RandomGen ℕ
draw_last = record { uniform = λ hi g. (hi, suc g); in_range = λ hi g. omega arith }

abbrev values : List ℕ
values = 4 ∷ 8 ∷ 15 ∷ 16 ∷ []

select_sample_run : select_sample draw_last 2 4 values 0 ≡ some (16 ∷ 4 ∷ 15 ∷ 8 ∷ [], 2)
unfolding select_sample
select_sample_run = refl

select_sample-perm_example :
    (ys : List ℕ) × (g' : ℕ) × (select_sample draw_last 2 4 values 0 ≡ some (ys, g'))
    × Perm ys values
select_sample-perm_example = select_sample-perm draw_last 2 4 values 0 refl (omega arith)

-- Seven samples with two duplicates: five splitters, and the last one is repeated up to seven.
abbrev samples : List ℕ
samples = 1 ∷ 1 ∷ 4 ∷ 6 ∷ 6 ∷ 8 ∷ 9 ∷ []

abbrev pub no_classifier : Classifier ℕ
no_classifier = record {
  storage = λ i. 0;
  sorted_storage = λ i. 0;
  log_buckets = 0;
  num_buckets = 0;
}

samples-IsSorted : IsSorted less samples
samples-IsSorted = (
  (refl, (refl, (refl, (refl, (refl, (refl, tt)))))),
  (
    (refl, (refl, (refl, (refl, (refl, tt))))),
    (
      (refl, (refl, (refl, (refl, tt)))),
      ((refl, (refl, (refl, tt))), ((refl, (refl, tt)), ((refl, tt), (tt, tt)))),
    ),
  ),
)

build_classifier_lem_example :
    (built : Classifier ℕ) × (used_buckets : ℕ) × (equal : Bool) × (build_classifier less
        default_config samples 1
        (2 ^ 3)
        no_classifier
      ≡ some (built, used_buckets, equal))
    × (used_buckets ≤ 2 ^ 3 * (1 + 1))
    × ((a b : ℕ)
        → (classify less built equal a < used_buckets)
          × (classify less built equal a < classify less built equal b → less a b ≡ true))
build_classifier_lem_example =
    build_classifier_lem less less-IsStrictWeak default_config samples 1 3 no_classifier
      samples-IsSorted (omega arith) (omega arith) (omega arith) (omega arith) (omega arith)

num_samples-reach_example :
    let step = max 1 (oversampling_factor default_config 5000) in
    let num_buckets = 2 ^ log_buckets_for default_config 5000 in
    (num_buckets - 1) * step ≤ min (step * num_buckets - 1) (5000 / 2)
num_samples-reach_example = num_samples-reach 5000 (omega arith) (omega arith)
