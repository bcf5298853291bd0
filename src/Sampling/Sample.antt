-- ===== src/Sampling/Sample.antt =====
-- `selectSample` of include/ips4o/sampling.hpp.
use mathlib.Core.List.Perm
use mathlib.Core.Option.{some-injective}
use ips4o.Prelude.{
  ℕ, zero, suc, ◌-◌, ◌≤◌, ◌<◌, ◌≡◌, refl, arith, some, List, [], ◌∷◌, Perm, get_elem?, set, length,
  length-perm,
}
use ips4o.Sampling.{RandomGen, swap_front, select_sample}

module _ {ℓ} {A : Type ℓ} where
  pub get_elem?-some : (xs : List A) (i : ℕ) → i < length xs → (y : A) × (get_elem? xs i ≡ some y)
  get_elem?-some [] i h = absurd (omega arith)
  get_elem?-some (x ∷ xs) zero h = (x, refl)
  get_elem?-some (x ∷ xs) (suc i) h = get_elem?-some xs i (omega arith)

  set-perm :
      (x : A) (xs : List A) (i : ℕ) {y : A}
      → get_elem? xs i ≡ some y
      → Perm (y ∷ set xs i x) (x ∷ xs)
  set-perm x [] i e = absurd (cc)
  set-perm x (z ∷ xs) zero e = rw (some-injective _ _ e) (Perm.swap x _ xs)
  set-perm x (z ∷ xs) (suc i) {y} e =
      Perm.trans (Perm.swap z y (set xs i x))
        (Perm.trans (Perm.cons z (set-perm x xs i e)) (Perm.swap x z xs))

  swap_front-perm :
      (xs : List A) (i : ℕ)
      → i < length xs
      → (y : A) × (ys : List A) × (swap_front xs i ≡ some (y ∷ ys)) × Perm (y ∷ ys) xs
  unfolding swap_front
  swap_front-perm [] i h = absurd (omega arith)
  swap_front-perm (x ∷ xs) zero h = (x, xs, refl, Perm.rfl)
  swap_front-perm (x ∷ xs) (suc i) h =
      let (y, e) = get_elem?-some xs i (omega arith) in
      (y, set xs i x, rw (e, swap_front), set-perm x xs i e)

  module _ {G : Type 0} (random : RandomGen G) where
    -- Selecting a sample that is at most as large as the range makes no access outside the range and
    -- rearranges it, whatever the generator draws.
    pub select_sample-perm :
        (num_samples n : ℕ) (xs : List A) (g : G)
        → n ≡ length xs
        → num_samples ≤ n
        → (ys : List A) × (g' : G) × (select_sample random num_samples n xs g ≡ some (ys, g'))
          × Perm ys xs
    unfolding select_sample
    select_sample-perm zero n xs g e h = (xs, g, refl, Perm.rfl)
    select_sample-perm (suc num) n xs g e h =
        let drawn = random.in_range (n - 1) g in
        let (y, ys, es, ps) =
          swap_front-perm xs (random.uniform (n - 1) g).0 (omega (arith, drawn)) in
        let len = length-perm ps in
        let (zs, g', er, pr) =
          select_sample-perm num (n - 1) ys (random.uniform (n - 1) g).1 (omega (arith, len))
            (omega arith) in
        (y ∷ zs, g', rw (es, er, select_sample), Perm.trans (Perm.cons y pr) ps)
