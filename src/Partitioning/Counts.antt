-- ===== src/Partitioning/Counts.antt =====
-- The sizes of the buckets during `partition` of include/ips4o/partitioning.hpp: the elements of a bucket
-- are in its blocks and in its buffer.
use ips4o.Prelude.{
  ℕ, zero, suc, ◌+◌, ◌*◌, ◌<◌, ◌≡◌, ◌≢◌, refl, sym, ap, ◌∙◌, arith, List, [], ◌∷◌, length, All, sum,
  total, total-append, ◌==◌, to_int, ℕ_discrete, Bool, true, false, not, Bool-cases, ==-true, inl,
  inr, if◌then◌else◌, total-one, sum-add,
}
use ips4o.LocalClassification.Blocks.{count}
use ips4o.LocalClassification.Contents.{contents}
use ips4o.BlockPermutation.Invariant.{InBucket}
use ips4o.BlockPermutation.Swapping.{==-other}
use ips4o.CleanupMargins.Margin.{==-of}

sum-none : (k : ℕ) (f : ℕ → ℕ) → ((i : ℕ) → i < k → f i ≡ 0) → sum k f ≡ 0
sum-none zero f h = refl
sum-none (suc k) f h = omega (arith, sum-none k f (λ i l. h i (omega arith)), h k (omega arith))

-- A sum with one summand.
sum-single : (k b : ℕ) (f : ℕ → ℕ) → b < k → ((i : ℕ) → i < k → b ≢ i → f i ≡ 0) → sum k f ≡ f b
sum-single zero b f h z = absurd (omega arith)
sum-single (suc k) b f h z = elim (ℕ_discrete b k) [
  | yes e ↦
      let same : f b ≡ f k = ap f e in
      omega (arith, same, sum-none k f (λ i l. z i (omega arith) (λ q. omega (arith, q, e, l))))
  | no ne ↦
      omega
        (arith, z k (omega arith) ne, sum-single k b f (omega arith) (λ i l n. z i (omega arith) n))
]

pub total-contents {ℓ} :
    {A : Type ℓ} (f : A → ℕ) (k : ℕ) (g : ℕ → List A)
    → total f (contents k g) ≡ sum k (λ i. total f (g i))
total-contents f zero g = refl
total-contents f (suc k) g =
    omega (arith, total-append f (g k) (contents k g), total-contents f k g)

module _ {ℓ} {A : Type ℓ} (classify : A → ℕ) (b : ℕ) where
  -- The weight of the elements of the bucket.
  abbrev pub of_bucket : (A → ℕ) → A → ℕ
  of_bucket f v = if classify v == b then f v else 0

  total-own :
      (f : A → ℕ) (xs : List A) → All (λ v. classify v ≡ b) xs → total (of_bucket f) xs ≡ total f xs
  total-own f [] h = refl
  total-own f (x ∷ xs) h =
      let same : of_bucket f x ≡ f x = ap (λ z. if z then f x else 0) (==-of (classify x) b h.0) in
      omega (arith, same, total-own f xs h.1)

  total-other :
      (f : A → ℕ) (i : ℕ) (xs : List A)
      → b ≢ i
      → All (λ v. classify v ≡ i) xs
      → total (of_bucket f) xs ≡ 0
  total-other f i [] ne h = refl
  total-other f i (x ∷ xs) ne h =
      let same : of_bucket f x ≡ 0 =
        ap (λ z. if z then f x else 0) (==-other (classify x) b (λ q. ne (sym q ∙ h.0))) in
      omega (arith, same, total-other f i xs ne h.1)

  blocks-own :
      (f : A → ℕ) (B : ℕ) (blocks : List (List A))
      → All (InBucket B classify b) blocks
      → total (total (of_bucket f)) blocks ≡ total (total f) blocks
  blocks-own f B [] h = refl
  blocks-own f B (y ∷ blocks) h = omega (arith, total-own f y h.0.1, blocks-own f B blocks h.1)

  blocks-other :
      (f : A → ℕ) (B i : ℕ) (blocks : List (List A))
      → b ≢ i
      → All (InBucket B classify i) blocks
      → total (total (of_bucket f)) blocks ≡ 0
  blocks-other f B i [] ne h = refl
  blocks-other f B i (y ∷ blocks) ne h =
      omega (arith, total-other f i y ne h.0.1, blocks-other f B i blocks ne h.1)

  module _ (B k : ℕ) (moved : ℕ → List (List A)) (buffers : ℕ → List A) (array : List A) (h : b < k)
      (placed : (i : ℕ) → i < k → All (InBucket B classify i) (moved i))
      (held : (i : ℕ) → All (λ v. classify v ≡ i) (buffers i))
      (same : (w : A → ℕ)
        → sum k (λ i. total (total w) (moved i)) + total w (contents k buffers)
          ≡ total w array) where
    -- The elements of the bucket, by any weight.
    pub bucket-weight :
        (f : A → ℕ) → total (of_bucket f) array ≡ total (total f) (moved b) + total f (buffers b)
    bucket-weight f = omega (
      arith,
      same (of_bucket f),
      total-contents (of_bucket f) k buffers,
      sum-single k b (λ i. total (total (of_bucket f)) (moved i)) h
          (λ i l ne. blocks-other f B i (moved i) ne (placed i l)),
      sum-single k b (λ i. total (of_bucket f) (buffers i)) h
          (λ i l ne. total-other f i (buffers i) ne (held i)),
      blocks-own f B (moved b) (placed b h),
      total-own f (buffers b) (held b),
    )

    -- Their number.
    pub bucket-size : count classify b array ≡ length (moved b) * B + length (buffers b)
    bucket-size = omega (
      arith,
      ones array,
      bucket-weight (λ v. 1),
      blocks_long (moved b) (placed b h),
      total-one (buffers b),
    )
      where
        ones : (xs : List A) → count classify b xs ≡ total (of_bucket (λ v. 1)) xs
        ones [] = refl
        ones (x ∷ xs) = omega (arith, ones xs, one (classify x == b))
          where
            one : (z : Bool) → to_int z ≡ (if z then 1 else 0)
            one true = refl
            one false = refl

        blocks_long :
            (blocks : List (List A))
            → All (InBucket B classify b) blocks
            → total (total (λ v. 1)) blocks ≡ length blocks * B
        blocks_long [] q = omega arith
        blocks_long (y ∷ blocks) q =
            let len = q.0.0 in omega (arith, total-one y, len, blocks_long blocks q.1)

-- Elements that weigh nothing.
pub All-weightless {ℓ} :
    {A : Type ℓ} (classify : A → ℕ) (b : ℕ) (xs : List A)
    → total (λ v. to_int (not (classify v == b))) xs ≡ 0
    → All (λ v. classify v ≡ b) xs
All-weightless classify b [] e = tt
All-weightless classify b (x ∷ xs) e = (
  elim (Bool-cases (classify x == b)) [
    | inl t ↦ ==-true (classify x) b t
    | inr t ↦
        let one : to_int (not (classify x == b)) ≡ 1 = ap (λ z. to_int (not z)) t in
        absurd (omega (arith, one, e))
  ],
  All-weightless classify b xs (omega (arith, e)),
)

pub weightless {ℓ} :
    {A : Type ℓ} (classify : A → ℕ) (b : ℕ) (xs : List A)
    → total (of_bucket classify b (λ v. to_int (not (classify v == b)))) xs ≡ 0
weightless classify b [] = refl
weightless classify b (x ∷ xs) =
    omega (arith, weightless classify b xs, none_here (classify x == b))
  where
    none_here : (z : Bool) → (if z then to_int (not z) else 0) ≡ 0
    none_here true = refl
    none_here false = refl

-- Each element is of one bucket.
pub sum-of_bucket {ℓ} :
    {A : Type ℓ} (classify : A → ℕ) (k : ℕ)
    → ((v : A) → classify v < k)
    → (f : A → ℕ) (xs : List A) → sum k (λ b. total (of_bucket classify b f) xs) ≡ total f xs
sum-of_bucket classify k in_range f [] = sum-none k (λ b. 0) (λ i h. refl)
sum-of_bucket classify k in_range f (x ∷ xs) =
    let here : ℕ → ℕ = λ b. of_bucket classify b f x in
    let one : sum k here ≡ here (classify x) =
      sum-single k (classify x) here (in_range x)
        (λ i h ne. ap (λ z. if z then f x else 0) (==-other (classify x) i ne)) in
    let same : here (classify x) ≡ f x =
      ap (λ z. if z then f x else 0) (==-of (classify x) (classify x) refl) in
    omega (
      arith,
      sum-add k here (λ b. total (of_bucket classify b f) xs),
      one,
      same,
      sum-of_bucket classify k in_range f xs,
    )
