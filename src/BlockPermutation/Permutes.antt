-- ===== src/BlockPermutation/Permutes.antt =====
-- `permuteBlocks` of include/ips4o/block_permutation.hpp, from the blocks as the classification leaves
-- them to the blocks in their buckets.
use native.Mathlib.Nat.{
  div-add-mod, mod-lt, mod-eq_of_lt, add-mod_right, add-div_right, mul-le-mul_right,
}
use ips4o.Prelude.{
  ◌⊎◌, ℕ, zero, suc, ◌+◌, ◌-◌, ◌*◌, ◌/◌, ◌%◌, ◌^◌, ◌≤◌, ◌<◌, ◌≡◌, inl, refl, sym, ap, ◌∙◌, arith,
  subst, some, dec_lt, List, [], ◌∷◌, length, drop, range, get_elem?, All, sum, sum-zero, total,
  none,
}
use ips4o.Config.{Config, block_size, align_to_next_block}
use ips4o.Config.Sizes.{block_size-pos}
use ips4o.BucketPointers.{new_pointers, get_write}
use ips4o.BlockPermutation.{Sorter, permute_blocks}
use ips4o.BlockPermutation.Slots.{Slot}
use ips4o.BlockPermutation.Invariant.{Bucket, InBucket, ReadPointer, first-le, get-append_left}
use ips4o.BlockPermutation.State.{Setting, weigh, left}
use ips4o.BlockPermutation.Swapping.{At}
use ips4o.BlockPermutation.Loops.{permute_buckets-State}

-- The last offset that a block may be written to.
max_off-slots : (n B : ℕ) → 1 ≤ B → (n + 1 + B - 1) / B * B - B ≡ n / B * B
max_off-slots n B h =
    let q : (n + B) / B ≡ n / B + 1 = add-div_right n h in
    let e : n + 1 + B - 1 ≡ n + B = omega arith in rw (e, q) (omega arith)

pub get-lt {ℓ} :
    {X : Type ℓ} (xs : List X) (i : ℕ) {y : X} → get_elem? xs i ≡ some y → i < length xs
get-lt [] i e = absurd (cc)
get-lt (x ∷ xs) zero e = omega arith
get-lt (x ∷ xs) (suc i) e = omega (arith, get-lt xs i e)

-- Starting anywhere, `k` buckets in a row are all.
visited :
    (k b c : ℕ) → b < k → c < k → (f : ℕ → ℕ) → ((i : ℕ) → i < k → f ((b + i) % k) ≡ 0) → f c ≡ 0
visited k b c hb hc f h = elim (dec_lt c b) [
  | yes lt ↦
      let there : (b + (c + k - b)) % k ≡ c =
        ap (λ z. z % k) (omega arith) ∙ add-mod_right c k ∙ mod-eq_of_lt hc in
      rw (← there) (h (c + k - b) (omega arith))
  | no ge ↦
      let there : (b + (c - b)) % k ≡ c = ap (λ z. z % k) (omega arith) ∙ mod-eq_of_lt hc in
      rw (← there) (h (c - b) (omega arith))
]

none_left {ℓ} :
    {X : Type ℓ} (k : ℕ) (unread : ℕ → List X) (f : X → ℕ)
    → ((c : ℕ) → c < k → length (unread c) ≡ 0)
    → sum k (λ b. total f (unread b)) ≡ 0
none_left zero unread f h = refl
none_left {X = X} (suc k) unread f h =
    omega
      (arith, none_left k unread f (λ c l. h c (omega arith)), empty (unread k) (h k (omega arith)))
  where
    empty : (xs : List X) → length xs ≡ 0 → total f xs ≡ 0
    empty [] e = refl
    empty (x ∷ xs) e = absurd (omega arith)

module _ {ℓ} {A : Type ℓ} (c : Config) (classify : A → ℕ) (k : ℕ) (first : ℕ → ℕ) where
  abbrev B : ℕ
  B = block_size c

  -- The blocks of the array, by the bucket in whose slots they lie: each is full, and of one of the `k`
  -- buckets, of which each has slots enough for its blocks. The pointers are at the first slot of a
  -- bucket and at its last block.
  pub record Laid (s : Sorter A) (blocks : ℕ → List (List A)) : Type ℓ where
    pub ascending : (b : ℕ) → b < k → first b ≤ first (suc b)
    pub last : first k ≤ suc (length s.array / B)
    pub slots :
        (b i : ℕ) {y : List A}
        → b < k
        → get_elem? (blocks b) i ≡ some y
        → range s.array ((first b + i) * B) ((first b + i) * B + B) ≡ y
    pub fits : (b : ℕ) → b < k → first b + length (blocks b) ≤ first (suc b)
    pub inside : (b i : ℕ) → b < k → i < length (blocks b) → first b + i < length s.array / B
    pub full : (b : ℕ) → b < k → All (λ y. (c : ℕ) × (c < k) × InBucket B classify c y) (blocks b)
    pub room :
        (b : ℕ)
        → b < k
        → first b + sum k (λ c. total (weigh B classify b) (blocks c)) ≤ first (suc b)
    pub unused : s.overflow ≡ none
    pub pointers :
        (b : ℕ)
        → b < k
        → s.bucket_pointers b
          ≡ new_pointers (first b * B) (((first b + length (blocks b)) * B + (2 ^ 64 - B)) % 2 ^ 64)

  module _ (s : Sorter A) (blocks : ℕ → List (List A)) (h : Laid s blocks)
      (small : length s.array + 2 * B ≤ 2 ^ 63) where
    slots_fit : length s.array / B * B ≤ length s.array
    slots_fit = omega (arith, div-add-mod (length s.array) B)

    setting : Setting A
    setting = record {
      B = B;
      classify = classify;
      some_elements = block_size-pos c;
      m = length s.array / B;
      k = k;
      first = first;
      n = length s.array;
      rest = drop (length s.array / B * B) s.array;
      W = λ f. sum k (λ b. total f (blocks b));
      small = omega (arith, slots_fit);
      ascending = h.ascending;
      last = h.last;
      room = h.room;
      whole = slots_fit;
    }

    first_pointer :
        (f : ℕ) (us : List (List A))
        → (f + length us) * B + B ≤ 2 ^ 63
        → (1 ≤ length us → f + length us ≤ length s.array / B)
        → ReadPointer B classify
            (length s.array / B)
            k
            first
            0
            (((f + length us) * B + (2 ^ 64 - B)) % 2 ^ 64)
            ((f + 0) * B)
            (f + 0 + length us)
            us
    first_pointer f [] low inside =
        (omega (arith, block_size-pos c), omega (arith, block_size-pos c))
    first_pointer f (x ∷ us) low inside =
        (omega (arith, block_size-pos c), omega (arith, inside (omega arith)))

    bucket :
        (b : ℕ)
        → b < k
        → Bucket B classify
            (length s.array / B)
            k
            first
            0
            s.array
            s.overflow
            (s.bucket_pointers b)
            b
            []
            (blocks b)
    bucket b hb =
        let up =
          first-le B classify (length s.array / B) k first h.ascending (suc b) k (omega arith)
            (omega arith) in
        let fits : first b + length (blocks b) ≤ suc (length s.array / B) =
          omega (arith, h.fits b hb, h.last, up) in
        let low : (first b + length (blocks b)) * B ≤ suc (length s.array / B) * B =
          mul-le-mul_right B fits in
        subst
          (λ bp.
            Bucket B classify (length s.array / B) k first 0 s.array s.overflow bp b [] (blocks b))
          (sym (h.pointers b hb))
          (record {
            slots = λ i {y} e. inl (inside i (blocks b) e (h.inside b i hb), h.slots b i hb e);
            room = omega (arith, h.fits b hb);
            fits = omega (arith, fits);
            write = omega arith;
            read =
                first_pointer (first b) (blocks b) (omega (arith, low, small, slots_fit))
                  (λ p. omega (arith, h.inside b (length (blocks b) - 1) hb (omega arith)));
            placed = tt;
            pending = h.full b hb;
          })
      where
        inside :
            (i : ℕ) (us : List (List A)) {y : List A}
            → get_elem? us i ≡ some y
            → (i < length us → first b + i < length s.array / B)
            → first b + i < length s.array / B
        inside i us e f = f (get-lt us i e)

    start : At setting 0 s (λ b. []) blocks []
    unfolding setting
    start = record {
      size = refl;
      behind = refl;
      buckets = bucket;
      stock = λ f. omega (arith, sum-zero k);
      spill = inl h.unused;
    }

  -- What `permuteBlocks` promises: the blocks of each bucket, in its slots from the first on.
  pub record Permuted (s s' : Sorter A) (blocks moved : ℕ → List (List A)) : Type ℓ where
    pub slots :
        (b i : ℕ) {y : List A}
        → b < k
        → get_elem? (moved b) i ≡ some y
        → Slot B (length s.array / B) s'.array s'.overflow (first b + i) y
    pub placed : (b : ℕ) → b < k → All (InBucket B classify b) (moved b)
    pub fits : (b : ℕ) → b < k → first b + length (moved b) ≤ first (suc b)
    pub write :
        (b : ℕ) → b < k → get_write (s'.bucket_pointers b) ≡ (first b + length (moved b)) * B
    pub same : (f : List A → ℕ) → sum k (λ b. total f (moved b)) ≡ sum k (λ b. total f (blocks b))
    pub spill :
        (s'.overflow ≡ none)
        ⊎ ((o : ℕ) × (o < k)
            × (1 ≤ length (moved o))
            × (first o + length (moved o) ≡ suc (length s.array / B)))
    pub size : length s'.array ≡ length s.array
    pub behind : drop (length s.array / B * B) s'.array ≡ drop (length s.array / B * B) s.array

  -- From an array whose full blocks lie in slots of some bucket, with room in each bucket for the blocks
  -- of that bucket, with the overflow buffer not in use, there being a bucket, with the array and the
  -- buckets short against the words, and with fuel for each block:
  -- whichever the thread, the permutation is defined. It ends with the blocks of each bucket in the slots
  -- of that bucket, without a gap, the slot behind the array being the overflow buffer, and the write
  -- pointer behind them. By any weight of blocks they are as many as before; the array is as long, and what
  -- is behind its last slot is as it was.
  pub permute_blocks_lem :
      (fuel my_id num_threads : ℕ) (s : Sorter A) (blocks : ℕ → List (List A))
      → Laid s blocks
      → length s.array + 2 * B ≤ 2 ^ 63
      → (k + 2) * B ≤ 2 ^ 63
      → 1 ≤ k
      → left k blocks < fuel
      → (s' : Sorter A) × (moved : ℕ → List (List A)) × (permute_blocks c classify fuel k my_id
            num_threads s
          ≡ some s')
        × Permuted s s' blocks moved
  unfolding permute_blocks align_to_next_block setting
  permute_blocks_lem fuel my_id num_threads s blocks h small few some_buckets enough =
      let p = setting s blocks h small in
      let b = my_id * k / num_threads % k in
      let hb : b < k = mod-lt (my_id * k / num_threads) some_buckets in
      let (s', run, moved, unread, _, empty, after) =
        permute_buckets-State p fuel k b s (start s blocks h small) hb (omega arith) enough in
      (
        s',
        moved,
        rw (max_off-slots (length s.array) B (block_size-pos c)) run,
        record {
          slots =
              λ b i hb e. (after.buckets b hb).slots i (get-append_left (moved b) (unread b) i e);
          placed = λ b hb. (after.buckets b hb).placed;
          fits = λ b hb. omega (arith, (after.buckets b hb).room);
          write = λ b hb. (after.buckets b hb).write;
          same = λ f. omega (
            arith,
            after.stock f,
            none_left k unread f (λ c l. visited k b c hb l (λ i. length (unread i)) empty),
          );
          spill = after.spill;
          size = after.size;
          behind = after.behind;
        },
      )
