-- ===== src/Sampling/Longer.antt =====
-- `buildClassifier` of include/ips4o/sampling.hpp reads its sample in place: what is behind it is not
-- looked at when the sample reaches to the last splitter.
use ips4o.Prelude.{
  ℕ, zero, suc, ◌+◌, ◌-◌, ◌≡◌, Bool, some, List, [], ◌∷◌, ◌++◌, get_elem?, update, bind-some,
  bind_inverse,
}
use ips4o.Config.{Config}
use ips4o.Classifier.{Classifier}
use ips4o.Sampling.{Chosen, choose_splitters, build_classifier}

pub get_elem?-append {ℓ} :
    {A : Type ℓ} (xs ys : List A) (i : ℕ) {v : A}
    → get_elem? xs i ≡ some v
    → get_elem? (xs ++ ys) i ≡ some v
get_elem?-append [] ys i e = absurd (cc)
get_elem?-append (x ∷ xs) ys zero e = e
get_elem?-append (x ∷ xs) ys (suc i) e = get_elem?-append xs ys i e

module _ {ℓ} {A : Type ℓ} (comp : A → A → Bool) where
  choose_splitters-append :
      (step : ℕ) (xs ys : List A) (rounds : ℕ) (s : Chosen A) {r : Chosen A}
      → choose_splitters comp xs step rounds s ≡ some r
      → choose_splitters comp (xs ++ ys) step rounds s ≡ some r
  unfolding choose_splitters
  choose_splitters-append step xs ys zero s h = h
  choose_splitters-append step xs ys (suc rounds) s h =
      let (x, at, rest) = bind_inverse (get_elem? xs (s.splitter + step)) _ h in
      bind-some _ (get_elem?-append xs ys (s.splitter + step) at)
        (choose_splitters-append step xs ys rounds _ rest)

  pub build_classifier-append :
      (c : Config) (step num_buckets : ℕ) (classifier : Classifier A) (xs ys : List A)
      {r : Classifier A × ℕ × Bool}
      → build_classifier comp c xs step num_buckets classifier ≡ some r
      → build_classifier comp c (xs ++ ys) step num_buckets classifier ≡ some r
  unfolding build_classifier
  build_classifier-append c step num_buckets classifier xs ys h =
      let (first, at_first, h₁) = bind_inverse (get_elem? xs (step - 1)) _ h in
      let (s, chosen, h₂) =
        bind_inverse
          (choose_splitters comp xs step (num_buckets - 2) (record {
            sorted = update classifier.sorted_storage 0 first;
            last = 0;
            splitter = step - 1;
          }))
          _ h₁ in
      let (x, at, h₃) = bind_inverse (get_elem? xs s.splitter) _ h₂ in
      bind-some _ (get_elem?-append xs ys (step - 1) at_first) (
        bind-some _ (choose_splitters-append step xs ys (num_buckets - 2) _ chosen)
          (bind-some _ (get_elem?-append xs ys s.splitter at) h₃))
