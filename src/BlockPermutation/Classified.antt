-- ===== src/BlockPermutation/Classified.antt =====
-- `sequentialClassification` of include/ips4o/local_classification.hpp followed by `permuteBlocks` of
-- include/ips4o/block_permutation.hpp: the classification leaves what the permutation starts from.
use native.Mathlib.Nat.{div-add-mod, le_of_mul-le-mul_right}
use ips4o.Prelude.{
  ℕ, suc, ◌+◌, ◌*◌, ◌/◌, ◌≤◌, ◌<◌, ◌≡◌, inl, inr, refl, sym, ap, ◌∙◌, arith, List, [], ◌∷◌, ◌++◌,
  length, length-append, length-perm, All, All-imp, sum, total, total-append, total-perm,
  Bool-cases, ==-true, ◌==◌, to_int,
}
use ips4o.Config.{Config, block_size}
use ips4o.Config.Sizes.{block_size-pos}
use ips4o.LocalClassification.{Local}
use ips4o.LocalClassification.Contents.{contents, flatten}
use ips4o.LocalClassification.Blocks.{count, IsBlock}
use ips4o.LocalClassification.Boundaries.{Boundaries}
use ips4o.BlockPermutation.State.{weigh}
use ips4o.BlockPermutation.Layout.{
  slot_of, slot_of-ge, slot_of-least, slot_of-room, slice, total-slices, take-all, length-flatten,
}

module _ {ℓ} {A : Type ℓ} (classify : A → ℕ) where
  pub count-total :
      (b : ℕ) (xs : List A) → count classify b xs ≡ total (λ v. to_int (classify v == b)) xs
  count-total b [] = refl
  count-total b (x ∷ xs) = omega (arith, count-total b xs)

  pub count-All :
      (b : ℕ) (xs : List A) → All (λ v. classify v ≡ b) xs → count classify b xs ≡ length xs
  count-All b [] h = refl
  count-All b (x ∷ xs) h =
      let e = h.0 in
      let one : to_int (classify x == b) ≡ 1 = ground arith in
      omega (arith, one, count-All b xs h.1)

  -- A block of a bucket has as many elements of that bucket as it is long.
  weigh-count :
      (B k b : ℕ) (y : List A)
      → IsBlock B k classify y
      → weigh B classify b y * B ≤ count classify b y
  weigh-count B k b [] h = omega arith
  weigh-count B k b (x ∷ y) (len, i, h) = elim (Bool-cases (classify x == b)) [
    | inl e ↦
        let own = ==-true (classify x) b e in
        let all =
          count-All b (x ∷ y)
            (All-imp (λ v. classify v ≡ i) (x ∷ y) (λ v q. q ∙ sym h.0 ∙ own) h) in
        rw e (omega (arith, all, len, ap to_int e))
    | inr e ↦ rw e (omega arith)
  ]

  total-count :
      (B k b : ℕ) (blocks : List (List A))
      → All (IsBlock B k classify) blocks
      → total (weigh B classify b) blocks * B ≤ count classify b (flatten blocks)
  total-count B k b [] h = omega arith
  total-count B k b (y ∷ blocks) h = omega (
    arith,
    weigh-count B k b y h.0,
    total-count B k b blocks h.1,
    count-total b y,
    count-total b (flatten blocks),
    count-total b (y ++ flatten blocks),
    total-append (λ v. to_int (classify v == b)) y (flatten blocks),
  )

  -- The weights of the elements, block by block.
  pub total-flatten :
      (w : A → ℕ) (blocks : List (List A)) → total w (flatten blocks) ≡ total (total w) blocks
  total-flatten w [] = refl
  total-flatten w (y ∷ blocks) =
      omega (arith, total-append w y (flatten blocks), total-flatten w blocks)

module _ {ℓ} {A : Type ℓ} (c : Config) (classify : A → ℕ) (k : ℕ)
    (in_range : (v : A) → classify v < k) where
  abbrev B : ℕ
  B = block_size c

  -- The first slot of a bucket.
  abbrev pub first_slot : (ℕ → ℕ) → ℕ → ℕ
  first_slot bucket_start b = slot_of c (bucket_start b)

  module _ {l l' : Local A} {starts : ℕ → ℕ} {blocks : List (List A)} {gap : List A}
      (h : Boundaries c classify k in_range l l' starts blocks gap) where
    abbrev pub blocks_of : ℕ → List (List A)
    blocks_of b = slice (first_slot starts b) (first_slot starts (suc b)) blocks

    pub lengths : All (λ y. length y ≡ B) blocks
    lengths = All-imp (IsBlock B k classify) blocks (λ y q. q.0) h.full

    pub flat : length (flatten blocks) ≡ length blocks * B
    flat = length-flatten B blocks lengths

    pub size : length l'.array ≡ length l.array
    size = omega (
      arith,
      ap length h.array,
      length-append (flatten blocks) gap,
      length-append (flatten blocks) (contents k l'.buffers),
      h.room,
      length-perm h.same,
    )

    pub blocks_fit : length blocks ≤ length l'.array / B
    blocks_fit =
        let here : length blocks * B ≤ length l'.array =
          omega (arith, ap length h.array, length-append (flatten blocks) gap, flat) in
        below (length l'.array) (length blocks) here (block_size-pos c)
      where
        below : (n m : ℕ) → m * B ≤ n → 1 ≤ B → m ≤ n / B
        below n m h pos = grind (arith, div-add-mod)

    pub room :
        (b : ℕ)
        → b < k
        → first_slot starts b + total (weigh B classify b) blocks ≤ first_slot starts (suc b)
    room b hb = slot_of-room c (starts b) (starts (suc b)) (total (weigh B classify b) blocks) (
        omega (
          arith,
          h.apart b hb,
          total-count classify B k b blocks h.full,
          count-total classify b (flatten blocks),
          count-total classify b l.array,
          total-append (λ v. to_int (classify v == b)) (flatten blocks) (contents k l'.buffers),
          total-perm (λ v. to_int (classify v == b)) h.same,
        ))

    pub ascending : (b : ℕ) → b < k → first_slot starts b ≤ first_slot starts (suc b)
    ascending b hb = omega (arith, room b hb)

    pub whole : (f : List A → ℕ) → sum k (λ b. total f (blocks_of b)) ≡ total f blocks
    whole f =
        let zero_first : first_slot starts 0 ≡ 0 =
          omega (arith, slot_of-least c (starts 0) 0 (omega (arith, h.from_zero))) in
        let enough : length blocks ≤ first_slot starts k =
          le_of_mul-le-mul_right
            (omega (
              arith,
              slot_of-ge c (starts k),
              h.to_end,
              size,
              flat,
              ap length h.array,
              length-append (flatten blocks) gap,
            ))
            (block_size-pos c) in
        total-slices f blocks (first_slot starts) k zero_first ascending
        ∙ ap (total f) (take-all (first_slot starts k) blocks enough)
