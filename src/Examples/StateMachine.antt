-- ===== src/Examples/StateMachine.antt =====
-- The state machine on concrete arrays: with a small base case, every state is passed through.
use ips4o.Prelude.{
  ◌*◌, ◌/◌, ◌-◌, ◌^◌, min, max, ℕ, ◌<◌, ◌≤◌, ◌≡◌, refl, List, [], ◌∷◌, Perm, arith, IsSorted,
}
use ips4o.Config.{Config, default_config, oversampling_factor, log2, log_buckets_for}
use ips4o.BaseCase.{sort_simple_cases}
use ips4o.Sampling.{select_sample}
use ips4o.StateMachine.{
  Machine, new_machine, run, done, pick_splitters, skip_duplicates, distribute, empty_buckets,
  written,
}
use ips4o.StateMachine.Buckets.{distribute_lem, IsClassified}
use ips4o.StateMachine.Run.{Sound, run-new_machine-Sound}
use ips4o.StateMachine.Distinct.{Distinct}
use ips4o.StateMachine.Samples.{sample-large, default_config-EnoughSamples}
use ips4o.StateMachine.Terminates.{run-new_machine-done}
use ips4o.Examples.Order.{less, less-IsStrictWeak}
use ips4o.Examples.Sampling.{draw_last}

abbrev small_base_case : Config
small_base_case = record default_config { base_case_size = 2; base_case_multiplier = 2 }

abbrev input : List ℕ
input = 5 ∷ 2 ∷ 9 ∷ 7 ∷ 0 ∷ 6 ∷ 3 ∷ []

whole_run :
    run less draw_last small_base_case 40 (new_machine input 0)
    ≡ done
        (record { array = 0 ∷ 2 ∷ 3 ∷ 5 ∷ 6 ∷ 7 ∷ 9 ∷ []; task_stack = []; random_generator = 1 })
unfolding run sort_simple_cases select_sample oversampling_factor log2 log_buckets_for
whole_run = refl

run-new_machine-Sound_example :
    Sound less less-IsStrictWeak input (run less draw_last small_base_case 40 (new_machine input 0))
run-new_machine-Sound_example =
    run-new_machine-Sound less less-IsStrictWeak input draw_last small_base_case 40 0

distinct : Distinct less input
distinct = (
  (refl, (refl, (refl, (refl, (refl, (refl, tt)))))),
  (
    (refl, (refl, (refl, (refl, (refl, tt))))),
    (
      (refl, (refl, (refl, (refl, tt)))),
      ((refl, (refl, (refl, tt))), ((refl, (refl, tt)), ((refl, tt), (tt, tt)))),
    ),
  ),
)

run-new_machine-done_example :
    (fuel : ℕ) × (m : Machine ℕ ℕ) × (run less draw_last default_config fuel (new_machine input 0)
      ≡ done m)
    × IsSorted less m.array
    × Perm m.array input
run-new_machine-done_example =
    run-new_machine-done less draw_last default_config less-IsStrictWeak
      default_config-EnoughSamples input 0 (omega arith) distinct

abbrev sample : List ℕ
sample = 1 ∷ 1 ∷ 4 ∷ 6 ∷ 6 ∷ []

pick_splitters_run : pick_splitters less sample 1 5 7 0 ≡ 1 ∷ 4 ∷ 6 ∷ []
unfolding pick_splitters skip_duplicates
pick_splitters_run = refl

distribute_lem_example :
    let buckets = distribute less (2 ∷ 6 ∷ []) input (empty_buckets 3) in
    Perm (written buckets) input × IsClassified less (2 ∷ 6 ∷ []) 0 buckets
distribute_lem_example = distribute_lem less (2 ∷ 6 ∷ []) input

sample-large_example :
    let step = max 1 (oversampling_factor default_config 1000) in
    let num_buckets = 2 ^ log_buckets_for default_config 1000 in
    (step < min (step * num_buckets - 1) (1000 / 2)) × (2 ≤ num_buckets)
sample-large_example = sample-large 1000 (omega arith) (omega arith)
