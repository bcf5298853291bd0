-- ===== src/StateMachine.antt =====
-- ips4o_state_machine.hpp: the sorter as a machine over a stack of tasks. Iterators are indices into
-- the array that the constructor is given; the head of `task_stack` is its top. `none` stands for
-- undefined behaviour. The insertion sort and the test for simple inputs are the text of
-- include/ips4o/base_case.hpp once more, and the sampling loop that of include/ips4o/sampling.hpp.
pub mod Splitters
pub mod Buckets
pub mod Invariant
pub mod Handlers
pub mod Run
pub mod Distinct
pub mod Halting
pub mod Samples
pub mod Sampled
pub mod Terminates
use ips4o.Prelude.{
  ℕ, zero, suc, ◌+◌, ◌-◌, ◌*◌, ◌/◌, ◌^◌, min, max, Bool, true, false, not, ◌&&◌, Option, none, some,
  List, [], ◌∷◌, ◌++◌, ◌>>=◌, if◌then◌else◌, ltb, leb, get_elem?, length, range, write_range,
}
use ips4o.Config.{Config, log_buckets_for, oversampling_factor}
use ips4o.BaseCase.{base_case_sort, sort_simple_cases}
use ips4o.Sampling.{RandomGen, select_sample}

pub data State : Type 0 where
  simple_cases base_case sample_select sample_sorted partition : State

-- `end` is spelled `stop`.
pub record Task {ℓ} (A : Type ℓ) : Type ℓ where
  pub splitters : List A
  pub begin : ℕ
  pub stop : ℕ
  pub num_samples : ℕ
  pub step : ℕ
  pub num_buckets : ℕ
  pub state : State

-- The constructor of `Task`.
abbrev pub new_task {ℓ} : {A : Type ℓ} → ℕ → ℕ → State → Task A
new_task b e s = record {
  splitters = [];
  begin = b;
  stop = e;
  num_samples = 0;
  step = 0;
  num_buckets = 0;
  state = s;
}

pub record Machine {ℓ} (A : Type ℓ) (G : Type 0) : Type ℓ where
  pub array : List A
  pub task_stack : List (Task A)
  pub random_generator : G

-- `buckets[bucket_idx].push_back(…)`.
pub push_to {ℓ} : {A : Type ℓ} → List (List A) → ℕ → A → List (List A)
push_to [] i v = []
push_to (b ∷ buckets) zero v = (b ++ v ∷ []) ∷ buckets
push_to (b ∷ buckets) (suc i) v = b ∷ push_to buckets i v

module _ {ℓ} {A : Type ℓ} (comp : A → A → Bool) where
  -- `while (splitter < sample_end && !comp_(splitters.back(), *splitter)) splitter += step`. The
  -- position is relative to `begin`, and each round moves it by `step > 0`.
  unfoldable pub skip_duplicates : (sample : List A) (step fuel : ℕ) (back : A) (splitter : ℕ) → ℕ
  skip_duplicates sample step zero back splitter = splitter
  skip_duplicates sample step (suc fuel) back splitter = elim (get_elem? sample splitter) [
    | none ↦ splitter
    | some x ↦
        let next = skip_duplicates sample step fuel back (splitter + step) in
        if not (comp back x) then next else splitter
  ]

  -- The outer loop of `handle_sample_sorted`: the splitters that are still pushed, when `room` more
  -- fit under `num_buckets - 1`.
  unfoldable pub pick_splitters : (sample : List A) (step fuel room splitter : ℕ) → List A
  pick_splitters sample step zero room splitter = []
  pick_splitters sample step (suc fuel) zero splitter = []
  pick_splitters sample step (suc fuel) (suc room) splitter = elim (get_elem? sample splitter) [
    | none ↦ []
    | some x ↦
        x
        ∷ pick_splitters sample step fuel room
            (skip_duplicates sample step (length sample) x (splitter + step))
  ]

  -- `std::lower_bound(…) - splitters.begin()`: the first splitter that is not less than the value.
  pub lower_bound : List A → A → ℕ
  lower_bound [] v = 0
  lower_bound (s ∷ splitters) v = if comp s v then suc (lower_bound splitters v) else 0

  -- The single pass over the range.
  pub distribute : List A → List A → List (List A) → List (List A)
  distribute splitters [] buckets = buckets
  distribute splitters (v ∷ values) buckets =
      distribute splitters values (push_to buckets (lower_bound splitters v) v)

-- `std::vector<std::vector<value_type>> buckets(n)`.
pub empty_buckets {ℓ} : {A : Type ℓ} → ℕ → List (List A)
empty_buckets zero = []
empty_buckets (suc n) = [] ∷ empty_buckets n

-- What the loop of `handle_partition` writes from `write_it` on.
pub written {ℓ} : {A : Type ℓ} → List (List A) → List A
written [] = []
written (b ∷ buckets) = b ++ written buckets

-- And the tasks that it pushes: the bucket written last is on top.
pub push_buckets {ℓ} : {A : Type ℓ} → List (List A) → ℕ → List (Task A) → List (Task A)
push_buckets [] write_it stack = stack
push_buckets (b ∷ buckets) write_it stack = push_buckets buckets (write_it + length b) (
    if ltb 1 (length b)
    then new_task write_it (write_it + length b) State.simple_cases ∷ stack
    else stack)

-- `context_task`.
pub sample_context {ℓ} : {A : Type ℓ} → Config → Task A → Task A
sample_context c t =
    let n = t.stop - t.begin in
    let num_buckets = 2 ^ log_buckets_for c n in
    let step = max 1 (oversampling_factor c n) in
    record t {
      num_samples = min (step * num_buckets - 1) (n / 2);
      step = step;
      num_buckets = num_buckets;
      state = State.sample_sorted;
    }

pub is_done {ℓ} : {A : Type ℓ} {G : Type 0} → Machine A G → Bool
is_done m = elim m.task_stack [ [] ↦ true | _ ↦ false ]

-- The constructor: one task for the whole array.
abbrev pub new_machine {ℓ} : {A : Type ℓ} {G : Type 0} → List A → G → Machine A G
new_machine array g = record {
  array = array;
  task_stack = new_task 0 (length array) State.simple_cases ∷ [];
  random_generator = g;
}

module _ {ℓ} {A : Type ℓ} {G : Type 0} (comp : A → A → Bool) (random : RandomGen G)
    (c : Config) where
  -- The handlers take the top of the stack and the rest.
  pub handle_simple_cases : Task A → List (Task A) → List A → G → Option (Machine A G)
  handle_simple_cases t rest array g =
      let (done, seg) = sort_simple_cases comp (range array t.begin t.stop) in
      some (record {
        array = write_range array t.begin seg;
        task_stack = if done then rest else record t { state = State.base_case } ∷ rest;
        random_generator = g;
      })

  pub handle_base_case : Task A → List (Task A) → List A → G → Option (Machine A G)
  handle_base_case t rest array g =
      if leb (t.stop - t.begin) (c.base_case_multiplier * c.base_case_size)
      then base_case_sort comp (range array t.begin t.stop) >>= (λ seg.
        some (record {
          array = write_range array t.begin seg;
          task_stack = rest;
          random_generator = g;
        }))
      else some (record {
        array = array;
        task_stack = record t { state = State.sample_select } ∷ rest;
        random_generator = g;
      })

  pub handle_sample_select : Task A → List (Task A) → List A → G → Option (Machine A G)
  unfolding sample_context
  handle_sample_select t rest array g =
      let context = sample_context c t in
      elim (select_sample random context.num_samples (t.stop - t.begin) (range array t.begin t.stop)
        g) [
          | none ↦ none
          | some (seg, g') ↦ some (record {
            array = write_range array t.begin seg;
            task_stack =
                new_task t.begin (t.begin + context.num_samples) State.simple_cases
                ∷ context
                ∷ rest;
            random_generator = g';
          })
        ]

  pub handle_sample_sorted : Task A → List (Task A) → List A → G → Option (Machine A G)
  unfolding pick_splitters skip_duplicates
  handle_sample_sorted t rest array g =
      let sample = range array t.begin (t.begin + t.num_samples) in
      some (record {
        array = array;
        task_stack =
            record t {
              splitters =
                  if ltb 0 t.num_samples && ltb 0 t.step
                  then pick_splitters comp sample t.step (length sample) (t.num_buckets - 1)
                      (t.step - 1)
                  else [];
              state = State.partition;
            }
            ∷ rest;
        random_generator = g;
      })

  pub handle_partition : Task A → List (Task A) → List A → G → Option (Machine A G)
  unfolding distribute lower_bound push_to empty_buckets written push_buckets
  handle_partition t rest array g =
      let buckets =
        distribute comp t.splitters (range array t.begin t.stop)
          (empty_buckets (suc (length t.splitters))) in
      some (record {
        array = write_range array t.begin (written buckets);
        task_stack = push_buckets buckets t.begin rest;
        random_generator = g;
      })

  -- The `switch` of `step`.
  pub dispatch : State → Task A → List (Task A) → List A → G → Option (Machine A G)
  unfolding handle_simple_cases handle_base_case handle_sample_select handle_sample_sorted
      handle_partition
  dispatch State.simple_cases = handle_simple_cases
  dispatch State.base_case = handle_base_case
  dispatch State.sample_select = handle_sample_select
  dispatch State.sample_sorted = handle_sample_sorted
  dispatch State.partition = handle_partition

  unfoldable pub step : Machine A G → Option (Machine A G)
  unfolding dispatch
  step m = elim m.task_stack [
    | [] ↦ some m
    | t ∷ rest ↦ dispatch t.state t rest m.array m.random_generator
  ]

-- How a bounded number of rounds of `run` ends.
pub data Outcome {ℓ} (M : Type ℓ) : Type ℓ where
  done : M → Outcome M
  running : M → Outcome M
  undefined : Outcome M

module _ {ℓ} {A : Type ℓ} {G : Type 0} (comp : A → A → Bool) (random : RandomGen G)
    (c : Config) where
  -- `while (!task_stack_.empty()) step()`, for at most `fuel` rounds.
  unfoldable pub run : ℕ → Machine A G → Outcome (Machine A G)
  unfolding is_done step
  run zero m = if is_done m then done m else running m
  run (suc fuel) m = elim (is_done m) [
    | true ↦ done m
    | false ↦ elim (step comp random c m) [ none ↦ undefined | some m' ↦ run fuel m' ]
  ]
