-- ===== src/Sampling.antt =====
-- include/ips4o/sampling.hpp: the random sample at the front of a range. The generator and
-- `std::uniform_int_distribution` are the standard library's: an interface whose law is that a draw
-- from `(0, hi)` is at most `hi`. `buildClassifier` is the part of it behind the sorting of the
-- sample, which the caller's recursion does.
pub mod Sample
pub mod Splitters
pub mod Built
pub mod Reach
pub mod Longer
use ips4o.Prelude.{
  ℕ, zero, suc, ◌+◌, ◌-◌, ◌*◌, ◌^◌, ◌≤◌, Bool, ◌&&◌, Option, none, some, List, [], ◌∷◌, ◌>>=◌,
  get_elem?, set, update, leb, to_int, if◌then◌else◌,
}
use ips4o.Config.{Config, log2}
use ips4o.Classifier.{storage_size, Classifier, build}

pub record RandomGen (G : Type 0) : Type 0 where
  pub uniform : ℕ → G → ℕ × G
  pub in_range : (hi : ℕ) (g : G) → (uniform hi g).0 ≤ hi

-- `swap(*begin, begin[i])`.
pub swap_front {ℓ} : {A : Type ℓ} → List A → ℕ → Option (List A)
swap_front [] i = none
swap_front (x ∷ xs) zero = some (x ∷ xs)
swap_front (x ∷ xs) (suc i) = elim (get_elem? xs i) [ none ↦ none | some y ↦ some (y ∷ set xs i x) ]

module _ {ℓ} {A : Type ℓ} {G : Type 0} (random : RandomGen G) where
  -- `while (num_samples--)`: the list is `[begin, end)`, and `n` counts down with it.
  unfoldable pub select_sample : ℕ → ℕ → List A → G → Option (List A × G)
  unfolding swap_front
  select_sample zero n xs g = some (xs, g)
  select_sample (suc num_samples) n xs g =
      let (i, g') = random.uniform (n - 1) g in
      elim (swap_front xs i) [
        | none ↦ none
        | some [] ↦ none
        | some (y ∷ ys) ↦ elim (select_sample num_samples (n - 1) ys g') [
          | none ↦ none
          | some (zs, g'') ↦ some (y ∷ zs, g'')
        ]
      ]

-- The state of the loops over the splitters: `last` is the index of `sorted_splitters`, and
-- `splitter` that of the iterator in the sample.
pub record Chosen {ℓ} (A : Type ℓ) : Type ℓ where
  pub sorted : ℕ → A
  pub last : ℕ
  pub splitter : ℕ

module _ {ℓ} {A : Type ℓ} where
  -- `for (int i = diff_splitters + 1; i < num_buckets; ++i)`.
  pub fill_splitters : (rounds last : ℕ) → A → (ℕ → A) → ℕ → A
  fill_splitters zero last x sorted = sorted
  fill_splitters (suc rounds) last x sorted =
      fill_splitters rounds (suc last) x (update sorted (suc last) x)

module _ {ℓ} {A : Type ℓ} (comp : A → A → Bool) where
  -- `for (int i = 2; i < num_buckets; ++i)`, for the rounds that are left.
  pub choose_splitters : (sample : List A) (step rounds : ℕ) → Chosen A → Option (Chosen A)
  choose_splitters sample step zero s = some s
  choose_splitters sample step (suc rounds) s = get_elem? sample (s.splitter + step) >>= (λ x.
      choose_splitters sample step rounds (
        if comp (s.sorted s.last) x
        then record {
          sorted = update s.sorted (suc s.last) x;
          last = suc s.last;
          splitter = s.splitter + step;
        }
        else record s { splitter = s.splitter + step }))

  -- `buildClassifier` from the sorted sample on: the classifier, `used_buckets` and
  -- `use_equal_buckets`.
  unfoldable pub build_classifier :
      Config
      → (sample : List A) (step num_buckets : ℕ) → Classifier A
      → Option (Classifier A × ℕ × Bool)
  unfolding choose_splitters fill_splitters
  build_classifier c sample step num_buckets classifier = get_elem? sample (step - 1) >>= (λ first.
      choose_splitters sample step (num_buckets - 2) (record {
        sorted = update classifier.sorted_storage 0 first;
        last = 0;
        splitter = step - 1;
      })
      >>= (λ s. get_elem? sample s.splitter >>= (λ x.
          let diff_splitters = s.last + 1 in
          let use_equal_buckets =
            c.allow_equal_buckets
            && leb c.equal_buckets_threshold (num_buckets - 1 - diff_splitters) in
          let log_buckets = log2 diff_splitters + 1 in
          let sorted = fill_splitters (2 ^ log_buckets - 1 - diff_splitters) s.last x s.sorted in
          -- The last entries written are those at `2 ^ log_buckets - 1`, of either storage: all the
          -- others have a lower index.
          if leb (2 ^ log_buckets) (storage_size c)
          then some (
            build (record classifier { sorted_storage = sorted }) log_buckets,
            2 ^ log_buckets * (1 + to_int use_equal_buckets),
            use_equal_buckets,
          )
          else none)))
