-- ===== src/Classifier.antt =====
-- include/ips4o/classifier.hpp: the branch-free decision tree over the sorted splitters.
-- The two storages are functions from the index; a `new (p) value_type(x)` is an update. Indices are
-- below `kMaxBuckets / 2`, so `bucket_type` and `int` arithmetic is that of the numbers.
pub mod Tree
pub mod Rank
pub mod Buckets
pub mod Unrolled
use mathlib.Core.Option
use ips4o.Config.{Config, max_buckets}
use ips4o.Prelude.{
  ℕ, zero, suc, ◌+◌, ◌-◌, ◌*◌, ◌/◌, ◌^◌, Bool, true, false, not, Option, none, some, ◌>>=◌, ◌&&◌,
  List, [], ◌∷◌, ◌++◌, map, if◌then◌else◌, ltb, leb, ◌==◌, to_int, update, take, drop, length,
}

-- The entries of `storage_` and of `sorted_storage_`. The storages of the model have no end: the function
-- that writes to them, `buildClassifier`, compares with this size.
abbrev pub storage_size : Config → ℕ
storage_size c = max_buckets c / 2

-- The two assumptions of `classifyUnrolled` on the number of elements, where `kUnroll` is not 0.
abbrev pub is_unrollable : (unroll n : ℕ) → Bool
is_unrollable unroll n = leb 1 unroll && leb unroll n

pub record Classifier {ℓ} (A : Type ℓ) : Type ℓ where
  pub storage : ℕ → A
  pub sorted_storage : ℕ → A
  pub log_buckets : ℕ
  pub num_buckets : ℕ

module _ {ℓ} {A : Type ℓ} where
  -- The private `build`, which recurs while `2 * pos < num_buckets_`. The fuel is the height of the
  -- tree that is left, `log_buckets` for the root.
  build_tree : (sorted : ℕ → A) (num_buckets fuel left right pos : ℕ) → (ℕ → A) → ℕ → A
  build_tree sorted num_buckets zero left right pos tree = tree
  build_tree sorted num_buckets (suc fuel) left right pos tree =
      let mid = left + (right - left) / 2 in
      let tree' = update tree pos (sorted mid) in
      elim (ltb (2 * pos) num_buckets) [
        | true ↦
            build_tree sorted num_buckets fuel mid right (2 * pos + 1)
              (build_tree sorted num_buckets fuel left mid (2 * pos) tree')
        | false ↦ tree'
      ]

  -- The public `build`: it duplicates the last splitter.
  unfoldable pub build : Classifier A → ℕ → Classifier A
  unfolding build_tree
  build c log_buckets =
      let num_buckets = 2 ^ log_buckets in
      let num_splitters = 2 ^ log_buckets - 1 in
      let sorted = update c.sorted_storage num_splitters (c.sorted_storage (num_splitters - 1)) in
      record {
        storage = build_tree sorted num_buckets log_buckets 0 num_splitters 1 c.storage;
        sorted_storage = sorted;
        log_buckets = log_buckets;
        num_buckets = num_buckets;
      }

  -- The splitters' lifetimes end here: reading them again is not part of the model.
  cleanup : Classifier A → Classifier A
  cleanup c = record c { log_buckets = 0 }

  -- `reset`, and the destructor.
  unfoldable pub reset : Classifier A → Classifier A
  unfolding cleanup
  reset c = if c.log_buckets == 0 then c else cleanup c

module _ {ℓ} {A : Type ℓ} (comp : A → A → Bool) where
  -- `for (l = 0; l < log_buckets; ++l) b = 2 * b + comp_(splitter(b), value)`.
  pub descend : (tree : ℕ → A) (value : A) (levels b : ℕ) → ℕ
  descend tree value zero b = b
  descend tree value (suc levels) b =
      descend tree value levels (2 * b + to_int (comp (tree b) value))

  -- The step to the equality bucket.
  equal_step : (sorted : ℕ → A) (num_buckets : ℕ) (value : A) (b : ℕ) → ℕ
  equal_step sorted num_buckets value b =
      2 * b + to_int (not (comp value (sorted (b - num_buckets))))

  -- `classify<kEqualBuckets>(value)`.
  unfoldable pub classify : Classifier A → Bool → A → ℕ
  unfolding descend equal_step
  classify c equal_buckets value =
      let b = descend c.storage value c.log_buckets 1 in
      if equal_buckets
      then equal_step c.sorted_storage c.num_buckets value b - 2 * c.num_buckets
      else b - c.num_buckets

  -- One level for each of the `kUnroll` elements of a round: the pairs are `b[i]` and `begin[i]`.
  level : (tree : ℕ → A) → List (ℕ × A) → List (ℕ × A)
  level tree [] = []
  level tree ((b, value) ∷ r) = (2 * b + to_int (comp (tree b) value), value) ∷ level tree r

  levels : (tree : ℕ → A) → ℕ → List (ℕ × A) → List (ℕ × A)
  levels tree zero r = r
  levels tree (suc l) r = levels tree l (level tree r)

  -- A round of the unrolled loop: what it yields for the elements `begin[0], …, begin[kUnroll - 1]`. The
  -- template's `kLogBuckets` is `log_buckets` here, and `kNumBuckets` is computed from it.
  unrolled_round : Classifier A → Bool → (log_buckets : ℕ) → List A → List (ℕ × A)
  unfolding level levels equal_step
  unrolled_round c equal_buckets log_buckets values =
      let bs = levels c.storage log_buckets (map (λ v. (1, v)) values) in
      let num_buckets = 2 ^ (log_buckets + to_int equal_buckets) in
      map
        (λ p. (
          (if equal_buckets then equal_step c.sorted_storage (num_buckets / 2) p.1 p.0 else p.0)
              - num_buckets,
          p.1,
        ))
        bs

  -- An element of the loop for the rest.
  rest_step : Classifier A → Bool → (log_buckets : ℕ) → A → ℕ × A
  unfolding descend equal_step
  rest_step c equal_buckets log_buckets v =
      let num_buckets = 2 ^ (log_buckets + to_int equal_buckets) in
      let b = descend c.storage v log_buckets 1 in
      (
        (if equal_buckets then equal_step c.sorted_storage (num_buckets / 2) v b else b)
            - num_buckets,
        v,
      )

  -- The two loops of `classifyUnrolled`: the calls of `yield` in order, each with the element that is
  -- passed. `none` is for rounds without an end, as those of no element are.
  unrolled_loops :
      Classifier A → Bool → (log_buckets unroll fuel : ℕ) → List A → Option (List (ℕ × A))
  unfolding unrolled_round rest_step
  unrolled_loops c equal_buckets log_buckets unroll zero values = none
  unrolled_loops c equal_buckets log_buckets unroll (suc fuel) values =
      elim (leb unroll (length values)) [
        | true ↦
            unrolled_loops c equal_buckets log_buckets unroll fuel (drop unroll values)
            >>= (λ r. some (unrolled_round c equal_buckets log_buckets (take unroll values) ++ r))
        | false ↦ some (map (rest_step c equal_buckets log_buckets) values)
      ]

  -- `classifyUnrolled`: the range must have at least `kUnroll` elements.
  classify_unrolled :
      Classifier A → Bool → (log_buckets unroll : ℕ) → List A → Option (List (ℕ × A))
  unfolding unrolled_loops
  classify_unrolled c equal_buckets log_buckets unroll values =
      if is_unrollable unroll (length values)
      then unrolled_loops c equal_buckets log_buckets unroll (suc (length values)) values
      else none

  -- `classifySwitch`: it dispatches to the unrolled classifier for 0, …, `kLogBuckets` levels, and
  -- yields nothing where none of these is the number of levels.
  unfoldable pub classify_all :
      Classifier A → Bool → (max_log unroll : ℕ) → List A → Option (List (ℕ × A))
  unfolding classify_unrolled
  classify_all c equal_buckets max_log unroll values =
      if leb c.log_buckets max_log
      then classify_unrolled c equal_buckets c.log_buckets unroll values
      else some []
