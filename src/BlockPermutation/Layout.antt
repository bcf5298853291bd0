-- ===== src/BlockPermutation/Layout.antt =====
-- Full blocks one behind the other, as `classifyLocally` leaves them, cut at the first slots of the
-- buckets, for the block permutation of include/ips4o/block_permutation.hpp.
use native.Mathlib.Nat.{div-add-mod, le_of_mul-le-mul_right}
use ips4o.Prelude.{
  ℕ, zero, suc, ◌+◌, ◌-◌, ◌*◌, ◌/◌, ◌≤◌, ◌<◌, ◌≡◌, refl, sym, ap, ◌∙◌, arith, subst, some, min,
  List, [], ◌∷◌, ◌++◌, length, take, drop, get_elem?, length-take, length-drop, length-append,
  drop-length, take-length, append_assoc, All, All-append_left, All-append_right, take-append-drop,
  sum, total, total-append,
}
use ips4o.Config.{Config, block_size, align_to_next_block}
use ips4o.Config.Sizes.{block_size-pos, align_to_next_block_lem}
use mathlib.Core.Option.{some-injective}
use ips4o.LocalClassification.Contents.{flatten}

-- The slot that an offset is aligned to.
abbrev pub slot_of : Config → ℕ → ℕ
slot_of c p = align_to_next_block c p / block_size c

module _ (c : Config) where
  abbrev B : ℕ
  B = block_size c

  pub slot_of-align : (p : ℕ) → align_to_next_block c p ≡ slot_of c p * B
  slot_of-align p =
      let (whole, _, _, _) = align_to_next_block_lem c p in
      omega (arith, whole, div-add-mod (align_to_next_block c p) B)

  pub slot_of-lt : (p : ℕ) → slot_of c p * B < p + B
  slot_of-lt p =
      let (_, _, near, _) = align_to_next_block_lem c p in omega (arith, near, slot_of-align p)

  pub slot_of-ge : (p : ℕ) → p ≤ slot_of c p * B
  slot_of-ge p =
      let (_, up, _, _) = align_to_next_block_lem c p in omega (arith, up, slot_of-align p)

  pub slot_of-least : (p k : ℕ) → p ≤ k * B → slot_of c p ≤ k
  slot_of-least p k h =
      let (_, _, _, least) = align_to_next_block_lem c p in
      le_of_mul-le-mul_right (omega (arith, least k h, slot_of-align p)) (block_size-pos c)

  -- Room for whole blocks is kept by the alignment.
  pub slot_of-room : (p q n : ℕ) → p + n * B ≤ q → slot_of c p + n ≤ slot_of c q
  slot_of-room p q n h =
      let up = slot_of-ge q in
      let enough : n ≤ slot_of c q =
        le_of_mul-le-mul_right (omega (arith, up, h)) (block_size-pos c) in
      let split : slot_of c q * B ≡ (slot_of c q - n) * B + n * B =
        split_mul (slot_of c q) n enough in
      omega (arith, enough, slot_of-least p (slot_of c q - n) (omega (arith, split, up, h)))
    where
      split_mul : (a n : ℕ) → n ≤ a → a * B ≡ (a - n) * B + n * B
      split_mul a n h = let e : a ≡ (a - n) + n = omega arith in ap (λ z. z * B) e ∙ omega arith

module _ {ℓ} {X : Type ℓ} where
  -- The part of a list from one index to another.
  abbrev pub slice : ℕ → ℕ → List X → List X
  slice i j xs = take (j - i) (drop i xs)

  pub length-slice : (i j : ℕ) (xs : List X) → length (slice i j xs) ≡ min (j - i) (length xs - i)
  length-slice i j xs = omega (arith, length-take (j - i) (drop i xs), length-drop i xs)

  get-take :
      (n i : ℕ) (xs : List X) {y : X} → get_elem? (take n xs) i ≡ some y → get_elem? xs i ≡ some y
  get-take zero i xs e = absurd (cc)
  get-take (suc n) i [] e = absurd (cc)
  get-take (suc n) zero (x ∷ xs) e = e
  get-take (suc n) (suc i) (x ∷ xs) e = get-take n i xs e

  get-drop : (n i : ℕ) (xs : List X) → get_elem? (drop n xs) i ≡ get_elem? xs (n + i)
  get-drop zero i xs = ap (get_elem? xs) (omega arith)
  get-drop (suc n) i [] = refl
  get-drop (suc n) i (x ∷ xs) =
      let e : suc (n + i) ≡ suc n + i = omega arith in get-drop n i xs ∙ ap (get_elem? (x ∷ xs)) e

  pub get-slice :
      (i j r : ℕ) (xs : List X) {y : X}
      → get_elem? (slice i j xs) r ≡ some y
      → get_elem? xs (i + r) ≡ some y
  get-slice i j r xs e = sym (get-drop i r xs) ∙ get-take (j - i) r (drop i xs) e

  pub All-slice {κ} : (P : X → Type κ) (i j : ℕ) (xs : List X) → All P xs → All P (slice i j xs)
  All-slice P i j xs h =
      let rest : All P (drop i xs) =
        All-append_right P (take i xs) (drop i xs)
          (subst (All P) (sym (take-append-drop i xs)) h) in
      All-append_left P (take (j - i) (drop i xs)) (drop (j - i) (drop i xs))
        (subst (All P) (sym (take-append-drop (j - i) (drop i xs))) rest)

  take-nil : (n : ℕ) → take {A = X} n [] ≡ []
  take-nil zero = refl
  take-nil (suc n) = refl

  take-slice : (i j : ℕ) (xs : List X) → i ≤ j → take j xs ≡ take i xs ++ slice i j xs
  take-slice zero j xs h = ap (λ n. take n xs) (omega arith)
  take-slice (suc i) zero xs h = absurd (omega arith)
  take-slice (suc i) (suc j) [] h = sym (take-nil (suc j - suc i))
  take-slice (suc i) (suc j) (x ∷ xs) h =
      let e : suc j - suc i ≡ j - i = omega arith in
      ap (◌∷◌ x) (take-slice i j xs (omega arith))
      ∙ ap (λ n. x ∷ (take i xs ++ take n (drop i xs))) (sym e)

  -- Slices next to each other weigh what the list does.
  pub total-slices :
      (f : X → ℕ) (xs : List X) (first : ℕ → ℕ) (k : ℕ)
      → first 0 ≡ 0
      → ((b : ℕ) → b < k → first b ≤ first (suc b))
      → sum k (λ b. total f (slice (first b) (first (suc b)) xs)) ≡ total f (take (first k) xs)
  total-slices f xs first zero e h = rw e refl
  total-slices f xs first (suc k) e h =
      let part = ap (total f) (take-slice (first k) (first (suc k)) xs (h k (omega arith))) in
      omega (
        arith,
        total-slices f xs first k e (λ b l. h b (omega arith)),
        part,
        total-append f (take (first k) xs) (slice (first k) (first (suc k)) xs),
      )

  pub take-all : (n : ℕ) (xs : List X) → length xs ≤ n → take n xs ≡ xs
  take-all zero [] h = refl
  take-all zero (x ∷ xs) h = absurd (omega arith)
  take-all (suc n) [] h = refl
  take-all (suc n) (x ∷ xs) h = ap (◌∷◌ x) (take-all n xs (omega arith))

module _ {ℓ} {A : Type ℓ} (B : ℕ) where
  pub length-flatten :
      (blocks : List (List A))
      → All (λ y. length y ≡ B) blocks
      → length (flatten blocks) ≡ length blocks * B
  length-flatten [] h = omega arith
  length-flatten (y ∷ blocks) h =
      omega (arith, h.0, length-append y (flatten blocks), length-flatten blocks h.1)

  -- The block at an index is in the slot of that index.
  pub flatten-slot :
      (blocks : List (List A)) (gap : List A) (j : ℕ) {y : List A}
      → All (λ y. length y ≡ B) blocks
      → get_elem? blocks j ≡ some y
      → take B (drop (j * B) (flatten blocks ++ gap)) ≡ y
  flatten-slot [] gap j h e = absurd (cc)
  flatten-slot (z ∷ blocks) gap zero {y} h e =
      let at : 0 * B ≡ 0 = omega arith in
      rw (at, append_assoc z (flatten blocks) gap)
        (ap (λ n. take n (z ++ (flatten blocks ++ gap))) (sym h.0)
          ∙ take-length z (flatten blocks ++ gap)
          ∙ some-injective _ _ e)
  flatten-slot (z ∷ blocks) gap (suc j) h e =
      let at : suc j * B ≡ length z + j * B = omega (arith, h.0) in
      rw (at, append_assoc z (flatten blocks) gap, drop-length z (flatten blocks ++ gap) (j * B))
        (flatten-slot blocks gap j h.1 e)
