-- ===== src/SequentialSorter/Whole.antt =====
-- What `sequential_rec` of include/ips4o/sequential.hpp has sorted when all its calls have returned.
use ips4o.Prelude.{
  ℕ, zero, suc, ◌+◌, ◌-◌, ◌*◌, ◌≤◌, ◌<◌, ◌≡◌, ◌⊎◌, inl, inr, refl, sym, ap, ◌∙◌, arith, subst, Bool,
  true, false, Bool-cases, some, List, [], ◌∷◌, ◌++◌, length, take, range, total, total-append, sum,
  All, All-imp, All-append, IsSorted, IsSorted-append, Le, AllLe, leb, to_int, not, range-append,
  ◌==◌, if◌then◌else◌, ℕ_discrete,
}
use ips4o.Config.{Config, single_level_threshold}
use ips4o.Partitioning.Counts.{of_bucket, All-weightless, weightless, sum-of_bucket}
use ips4o.Sequential.{task_of, upwards, recursion_ranges}
use ips4o.SequentialSorter.{LocalData, Sort, sort_ranges}
use ips4o.SequentialSorter.Ranges.{
  Clean, SortedOf, SortsBelow, Kept-refl, Visitable, Visitable-later, Visited, Visited-append,
  task_of-Visited, upwards-Visited,
}

take_all {ℓ} : {A : Type ℓ} (xs : List A) → take (length xs) xs ≡ xs
take_all [] = refl
take_all (x ∷ xs) = ap (λ z. x ∷ z) (take_all xs)

range_all {ℓ} : {A : Type ℓ} (xs : List A) (a b : ℕ) → a ≡ 0 → b ≡ length xs → range xs a b ≡ xs
range_all xs a b p q = let n : b - a ≡ length xs = omega arith in rw (n, p) (take_all xs)

range_none {ℓ} : {A : Type ℓ} (xs : List A) (a : ℕ) → range xs a a ≡ []
range_none xs a = let n : a - a ≡ 0 = omega arith in rw n refl

halves : (b : ℕ) → (j : ℕ) × ((b ≡ 2 * j) ⊎ (b ≡ 2 * j + 1))
halves zero = (0, inl refl)
halves (suc b) = next (halves b)
  where
    next :
        (j : ℕ) × ((b ≡ 2 * j) ⊎ (b ≡ 2 * j + 1))
        → (j : ℕ) × ((suc b ≡ 2 * j) ⊎ (suc b ≡ 2 * j + 1))
    next (j, inl e) = (j, inr (omega arith))
    next (j, inr e) = (suc j, inl (omega arith))

-- The buckets of which the recursion takes care.
abbrev pub Recursed : ℕ → Bool → ℕ → Type 0
Recursed k equal b = (equal ≡ false) ⊎ ((j : ℕ) × (b ≡ 2 * j)) ⊎ (suc b ≡ k)

module _ {ℓ} {A : Type ℓ} (comp : A → A → Bool) where
  AllLe-of :
      (P Q : A → Type 0) (xs ys : List A)
      → ((x y : A) → P x → Q y → Le comp x y)
      → All P xs
      → All Q ys
      → AllLe comp xs ys
  AllLe-of P Q [] ys le h k = tt
  AllLe-of P Q (x ∷ xs) ys le h k =
      (All-imp Q ys (λ y q. le x y h.0 q) k, AllLe-of P Q xs ys le h.1 k)

  alike-IsSorted :
      (P : A → Type 0) (xs : List A)
      → ((x y : A) → P x → P y → Le comp x y)
      → All P xs
      → IsSorted comp xs
  alike-IsSorted P [] le h = tt
  alike-IsSorted P (x ∷ xs) le h =
      (All-imp P xs (λ y q. le x y h.0 q) h.1, alike-IsSorted P xs le h.1)

module _ {ℓ} {A : Type ℓ} {G : Type 0} (c : Config) (comp : A → A → Bool) (sort : Sort A G)
    (bound : ℕ) (sorts : SortsBelow comp sort bound) (classify : A → ℕ) (k : ℕ)
    (in_range : (v : A) → classify v < k)
    (separates : (a b : A) → classify a < classify b → Le comp a b) (array : List A)
    (starts : ℕ → ℕ) (up : (b : ℕ) → b < k → starts b ≤ starts (suc b))
    (from_zero : starts 0 ≡ 0) where
  abbrev Bucketed : List A → Type ℓ
  Bucketed xs =
      (b : ℕ)
      → b < k
      → (f : A → ℕ)
      → total f (range xs (starts b) (starts (suc b))) ≡ total (of_bucket classify b f) array

  own_only :
      (xs : List A) (b : ℕ)
      → b < k
      → Bucketed xs
      → All (λ v. classify v ≡ b) (range xs (starts b) (starts (suc b)))
  own_only xs b h w =
      All-weightless classify b (range xs (starts b) (starts (suc b)))
        (w b h (λ v. to_int (not (classify v == b))) ∙ weightless classify b array)

  -- The array up to the end of a bucket.
  prefix-SortedOf :
      (xs : List A) (b : ℕ)
      → b ≤ k
      → Bucketed xs
      → ((j : ℕ) → j < k → IsSorted comp (range xs (starts j) (starts (suc j))))
      → IsSorted comp (range xs 0 (starts b))
        × All (λ v. classify v < b) (range xs 0 (starts b))
        × ((f : A → ℕ)
            → total f (range xs 0 (starts b)) ≡ sum b (λ j. total (of_bucket classify j f) array))
  prefix-SortedOf xs zero h w done =
      let e : range xs 0 (starts 0) ≡ [] = rw from_zero (range_none xs 0) in
      rw e (tt, tt, λ f. refl)
  prefix-SortedOf xs (suc b) h w done =
      let (sorted, below, weight) = prefix-SortedOf xs b (omega arith) w done in
      let own = own_only xs b (omega arith) w in
      rw (range-append xs 0 (starts b) (starts (suc b)) (omega arith) (up b (omega arith))) (
        IsSorted-append comp (range xs 0 (starts b)) (range xs (starts b) (starts (suc b))) sorted
            (done b (omega arith))
            (AllLe-of comp (λ v. classify v < b) (λ v. classify v ≡ b) (range xs 0 (starts b))
              (range xs (starts b) (starts (suc b))) (λ x y lt e. separates x y (omega arith)) below
              own),
        All-append (λ v. classify v < suc b) (range xs 0 (starts b))
            (range xs (starts b) (starts (suc b)))
            (All-imp (λ v. classify v < b) (range xs 0 (starts b)) (λ v lt. omega arith) below)
            (All-imp (λ v. classify v ≡ b) (range xs (starts b) (starts (suc b)))
              (λ v e. omega arith) own),
        λ f. omega (
          arith,
          total-append f (range xs 0 (starts b)) (range xs (starts b) (starts (suc b))),
          weight f,
          w b (omega arith) f,
        ),
      )

  whole-SortedOf :
      (xs : List A)
      → starts k ≡ length xs
      → Bucketed xs
      → ((j : ℕ) → j < k → IsSorted comp (range xs (starts j) (starts (suc j))))
      → SortedOf comp array xs
  whole-SortedOf xs top w done =
      let (sorted, below, weight) = prefix-SortedOf xs k (omega arith) w done in
      let all : range xs 0 (starts k) ≡ xs = range_all xs 0 (starts k) refl top in
      (
        subst (IsSorted comp) all sorted,
        λ f. sym (ap (total f) all) ∙ weight f ∙ sum-of_bucket classify k in_range f array,
      )

  strided :
      (equal : Bool) (m : ℕ) (xs : List A) (d : LocalData A G)
      → k ≡ (1 + to_int equal) * m
      → 1 ≤ k
      → starts k ≡ length xs
      → Clean d
      → ((b : ℕ) → b < k → Recursed k equal b → Visitable c comp sort bound sorts starts k up b xs)
      → Visited c comp sort bound sorts starts k up
          (upwards c starts k 0 (1 + to_int equal) k
            ++ (if equal then task_of c starts 0 (k - 1) else []))
          xs
          d
          (λ b. (b < k) × Recursed k equal b)
  unfolding sort_ranges
  strided false m xs d e some_buckets top clean ok =
      Visited-append c comp sort bound sorts starts k up (upwards c starts k 0 1 k) [] xs d
        (λ b. (j : ℕ) × (b ≡ 0 + 1 * j) × (b < k)) (λ b. ⊥) (λ b. (b < k) × Recursed k false b)
        (upwards-Visited c comp sort bound sorts starts k up k 0 1 k xs d (omega arith)
          (omega arith) (omega arith) top clean (λ j h. ok (0 + 1 * j) h (inl refl)))
        (λ ys d' kept clean'.
          (ys, d', refl, Kept-refl c comp sort bound sorts starts k up ys, clean', λ b z. absurd z))
        (λ b (h, r). (h, inl (b, omega arith, h)))
  strided true m xs d e some_buckets top clean ok =
      Visited-append c comp sort bound sorts starts k up (upwards c starts k 0 2 k)
        (task_of c starts 0 (k - 1)) xs d (λ b. (j : ℕ) × (b ≡ 0 + 2 * j) × (b < k))
        (λ b. k - 1 ≡ b) (λ b. (b < k) × Recursed k true b)
        (upwards-Visited c comp sort bound sorts starts k up k 0 2 k xs d (omega arith)
          (omega arith) (omega arith) top clean
          (λ j h. ok (0 + 2 * j) h (inr (inl (j, omega arith)))))
        (λ ys d' kept clean'.
          task_of-Visited c comp sort bound sorts starts k up (k - 1) ys d' (top ∙ sym kept.size)
            clean'
            (Visitable-later c comp sort bound sorts starts k up (k - 1) xs ys kept
              (ok (k - 1) (omega arith) (inr (inr (omega arith))))))
        (λ b (h, r). (h, which b h r))
    where
      which :
          (b : ℕ) → b < k → Recursed k true b → ((j : ℕ) × (b ≡ 0 + 2 * j) × (b < k)) ⊎ (k - 1 ≡ b)
      which b h (inl z) = absurd (cc)
      which b h (inr (inl (j, q))) = inl (j, omega arith, h)
      which b h (inr (inr q)) = inr (omega arith)

  -- When the recursion is over, the array holds the elements of the input, in order.
  pub recursion-SortedOf :
      (equal : Bool) (m : ℕ) (xs : List A) (d : LocalData A G)
      → k ≡ (1 + to_int equal) * m
      → 1 ≤ k
      → (equal ≡ true
          → (u v : A) (j : ℕ) → suc (2 * j + 1) < k
          → classify u ≡ 2 * j + 1
          → classify v ≡ 2 * j + 1
          → Le comp u v)
      → (leb (length array) (single_level_threshold c) ≡ true
          → (b : ℕ) → b < k
          → IsSorted comp (range xs (starts b) (starts (suc b))))
      → starts k ≡ length xs
      → Clean d
      → Bucketed xs
      → ((b : ℕ)
          → b < k
          → Recursed k equal b
          → leb (length array) (single_level_threshold c) ≡ false
          → Visitable c comp sort bound sorts starts k up b xs)
      → (ys : List A) × (d' : LocalData A G) × (sort_ranges sort
            (recursion_ranges c starts (length array) k equal)
            xs
            d
          ≡ some (ys, d'))
        × SortedOf comp array ys
        × Clean d'
  unfolding recursion_ranges sort_ranges
  recursion-SortedOf equal m xs d e some_buckets alike last top clean w ok =
      elim (Bool-cases (leb (length array) (single_level_threshold c))) [
        | inl leaf ↦ (xs, d, rw leaf refl, whole-SortedOf xs top w (last leaf), clean)
        | inr inner ↦
            let (ys, d', run, kept, clean', done) =
              strided equal m xs d e some_buckets top clean (λ b h r. ok b h r inner) in
            let w' : Bucketed ys = λ b h f. kept.weight b h f ∙ w b h f in
            (
              ys,
              d',
              rw inner run,
              whole-SortedOf ys (top ∙ sym kept.size) w' (λ b h.
                  sorted_bucket b h ys w' (λ r. done b (h, r)) (Bool-cases equal) (halves b)
                    (ℕ_discrete (suc b) k)),
              clean',
            )
      ]
    where
      sorted_bucket :
          (b : ℕ)
          → b < k
          → (ys : List A) → Bucketed ys
          → (Recursed k equal b → IsSorted comp (range ys (starts b) (starts (suc b))))
          → (equal ≡ true) ⊎ (equal ≡ false)
          → (j : ℕ) × ((b ≡ 2 * j) ⊎ (b ≡ 2 * j + 1))
          → Dec (suc b ≡ k)
          → IsSorted comp (range ys (starts b) (starts (suc b)))
      sorted_bucket b h ys w' done (inr q) half last = done (inl q)
      sorted_bucket b h ys w' done (inl q) (j, inl even) last = done (inr (inl (j, even)))
      sorted_bucket b h ys w' done (inl q) (j, inr odd) (yes r) = done (inr (inr r))
      sorted_bucket b h ys w' done (inl q) (j, inr odd) (no ne) =
          alike-IsSorted comp (λ v. classify v ≡ b) (range ys (starts b) (starts (suc b)))
            (λ x y p r. alike q x y j (omega arith) (p ∙ odd) (r ∙ odd)) (own_only ys b h w')
