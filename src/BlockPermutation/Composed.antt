-- ===== src/BlockPermutation/Composed.antt =====
-- `sequentialClassification` of include/ips4o/local_classification.hpp and `permuteBlocks` of
-- include/ips4o/block_permutation.hpp, one after the other.
use native.Mathlib.Nat.{div-add-mod, mod-lt, le_of_mul-le-mul_right}
use ips4o.Prelude.{
  ℕ, suc, ◌+◌, ◌-◌, ◌*◌, ◌/◌, ◌%◌, ◌^◌, ◌≤◌, ◌<◌, ◌≡◌, inl, inr, refl, sym, ap, ◌∙◌, arith, subst,
  some, none, min, List, [], ◌∷◌, length, get_elem?, take, drop, All-imp, sum, total, total-append,
  total-perm, total-one, sum-ext, Bool, Bool-cases, leb, if◌then◌else◌, leb→le, leb→lt,
}
use ips4o.Config.{Config, block_size, align_to_next_block}
use ips4o.Config.Sizes.{block_size-pos}
use ips4o.BucketPointers.{new_pointers}
use ips4o.LocalClassification.{Local, bucket_pointer, sequential_classification}
use ips4o.LocalClassification.Contents.{contents, flatten}
use ips4o.LocalClassification.Blocks.{IsBlock}
use ips4o.LocalClassification.Boundaries.{Boundaries, sequential_classification-Boundaries}
use ips4o.BlockPermutation.{Sorter, permute_blocks}
use ips4o.BlockPermutation.Invariant.{InBucket}
use ips4o.BlockPermutation.State.{weigh, left}
use ips4o.BlockPermutation.Permutes.{Laid, Permuted, permute_blocks_lem}
use ips4o.BlockPermutation.Layout.{
  slot_of, slot_of-align, slot_of-least, length-slice, get-slice, All-slice, flatten-slot,
}
use ips4o.BlockPermutation.Classified.{
  first_slot, blocks_of, lengths, flat, size, blocks_fit, room, ascending, whole, total-flatten,
}

module _ {ℓ} {A : Type ℓ} (c : Config) (classify : A → ℕ) (k : ℕ)
    (in_range : (v : A) → classify v < k) where
  abbrev B : ℕ
  B = block_size c

  read_slot :
      (i j n : ℕ)
      → i ≤ j
      → (if leb (n * B) (i * B) then i * B else if leb (j * B) (n * B) then j * B else n * B)
        ≡ (i + min (j - i) (n - i)) * B
  read_slot i j n h = elim (Bool-cases (leb (n * B) (i * B))) [
    | inl e ↦
        let le : n ≤ i = le_of_mul-le-mul_right (leb→le (n * B) (i * B) e) (block_size-pos c) in
        let at : i + min (j - i) (n - i) ≡ i = omega arith in rw (e, at) refl
    | inr e ↦
        let lt = leb→lt (n * B) (i * B) e in
        let more : i ≤ n = le_of_mul-le-mul_right (omega (arith, lt)) (block_size-pos c) in
        elim (Bool-cases (leb (j * B) (n * B))) [
          | inl f ↦
              let le : j ≤ n =
                le_of_mul-le-mul_right (leb→le (j * B) (n * B) f) (block_size-pos c) in
              let at : i + min (j - i) (n - i) ≡ j = omega arith in rw (e, f, at) refl
          | inr f ↦
              let less = leb→lt (j * B) (n * B) f in
              let le : n ≤ j = le_of_mul-le-mul_right (omega (arith, less)) (block_size-pos c) in
              let at : i + min (j - i) (n - i) ≡ n = omega arith in rw (e, f, at) refl
        ]
  ]

  -- The read pointer that the classification sets is at the last full block before the next bucket.
  bucket_pointer-last :
      (starts : ℕ → ℕ) (n b : ℕ)
      → slot_of c (starts b) ≤ slot_of c (starts (suc b))
      → bucket_pointer c starts (n * B) b
        ≡ new_pointers (slot_of c (starts b) * B) (
            ((slot_of c (starts b)
                  + min
                      (slot_of c (starts (suc b)) - slot_of c (starts b))
                      (n - slot_of c (starts b)))
                * B
              + (2 ^ 64 - B))
            % 2 ^ 64)
  unfolding bucket_pointer
  bucket_pointer-last starts n b h =
      let back : ℕ → ℕ = λ z. (z + (2 ^ 64 - B)) % 2 ^ 64 in
      let stop = align_to_next_block c (starts (suc b)) in
      let i = slot_of c (starts b) in
      let j = slot_of c (starts (suc b)) in
      ap
        (λ z.
          new_pointers z
            (back (if leb (n * B) z then z else if leb stop (n * B) then stop else n * B)))
        (slot_of-align c (starts b))
      ∙ ap
          (λ z.
            new_pointers (i * B)
              (back (if leb (n * B) (i * B) then i * B else if leb z (n * B) then z else n * B)))
          (slot_of-align c (starts (suc b)))
      ∙ ap (λ z. new_pointers (i * B) (back z)) (read_slot i j n h)

  -- What `permuteBlocks` works on.
  abbrev pub sorter : Local A → (ℕ → ℕ) → (Bool → List A) → Sorter A
  sorter l' starts swap = record {
    array = l'.array;
    bucket_pointers = bucket_pointer c starts l'.write;
    swap = swap;
    overflow = none;
  }

  IsBlock-InBucket :
      (y : List A) → IsBlock B k classify y → (b : ℕ) × (b < k) × InBucket B classify b y
  IsBlock-InBucket [] h = absurd (omega (arith, h.0, block_size-pos c))
  IsBlock-InBucket (x ∷ y) (len, i, h) = (i, subst (λ z. z < k) h.0 (in_range x), (len, h))

  module _ {l l' : Local A} {starts : ℕ → ℕ} {blocks : List (List A)} {gap : List A}
      (h : Boundaries c classify k in_range l l' starts blocks gap) where
    Laid-classified :
        (swap : Bool → List A)
        → Laid c classify k
            (first_slot c classify k in_range starts)
            (sorter l' starts swap)
            (blocks_of c classify k in_range h)
    Laid-classified swap =
        let first : ℕ → ℕ = λ b. slot_of c (starts b) in
        let up = ascending c classify k in_range h in
        let len : (b : ℕ)
            → length (blocks_of c classify k in_range h b)
              ≡ min (first (suc b) - first b) (length blocks - first b) =
          λ b. length-slice (first b) (first (suc b)) blocks in
        let fit = blocks_fit c classify k in_range h in
        record {
          ascending = up;
          last = slot_of-least c (starts k) (suc (length l'.array / B)) last_slot;
          slots = λ b i {y} hb e.
              in_slot (first b + i) (get-slice (first b) (first (suc b)) i blocks e);
          fits = λ b hb. omega (arith, up b hb, len b);
          inside = λ b i hb lt. omega (arith, fit, len b, lt);
          full = λ b hb.
              All-slice (λ y. (d : ℕ) × (d < k) × InBucket B classify d y) (first b) (first (suc b))
                blocks (All-imp (IsBlock B k classify) blocks IsBlock-InBucket h.full);
          room = λ b hb. omega (
            arith,
            room c classify k in_range h b hb,
            whole c classify k in_range h (weigh B classify b),
          );
          unused = refl;
          pointers = λ b hb.
              ap (λ z. bucket_pointer c starts z b) (h.write ∙ flat c classify k in_range h)
              ∙ bucket_pointer-last starts (length blocks) b (up b hb)
              ∙ ap (λ z. new_pointers (first b * B) (((first b + z) * B + (2 ^ 64 - B)) % 2 ^ 64))
                  (sym (len b));
        }
      where
        last_slot : starts k ≤ suc (length l'.array / B) * B
        last_slot = omega (
          arith,
          h.to_end,
          size c classify k in_range h,
          div-add-mod (length l'.array) B,
          mod-lt (length l'.array) (block_size-pos c),
        )

        in_slot :
            (j : ℕ) {y : List A}
            → get_elem? blocks j ≡ some y
            → take (j * B + B - j * B) (drop (j * B) l'.array) ≡ y
        in_slot j e =
            let n : j * B + B - j * B ≡ B = omega arith in
            rw (n, h.array) (flatten-slot B blocks gap j (lengths c classify k in_range h) e)

  pub permute_blocks-classified :
      {l l' : Local A} {starts : ℕ → ℕ} {blocks : List (List A)} {gap : List A}
      (h : Boundaries c classify k in_range l l' starts blocks gap) (swap : Bool → List A)
      (fuel my_id num_threads : ℕ)
      → 1 ≤ k
      → length l.array + 2 * B ≤ 2 ^ 63
      → (k + 2) * B ≤ 2 ^ 63
      → length l.array / B < fuel
      → (s' : Sorter A) × (moved : ℕ → List (List A)) × (permute_blocks c classify fuel k my_id
            num_threads
            (sorter l' starts swap)
          ≡ some s')
        × Permuted c classify k
            (λ b. slot_of c (starts b))
            (sorter l' starts swap)
            s'
            (blocks_of c classify k in_range h)
            moved
        × ((w : A → ℕ)
            → sum k (λ b. total (total w) (moved b)) + total w (contents k l'.buffers)
              ≡ total w l.array)
  permute_blocks-classified {l} {l'} {starts} {blocks} h swap fuel my_id num_threads some_buckets
        small few enough =
      let len = size c classify k in_range h in
      let all = whole c classify k in_range h in
      let fit = blocks_fit c classify k in_range h in
      let count : left k (blocks_of c classify k in_range h) ≡ length blocks =
        sum-ext k (λ b. length (blocks_of c classify k in_range h b))
          (λ b. total (λ y. 1) (blocks_of c classify k in_range h b))
          (λ b l. sym (total-one (blocks_of c classify k in_range h b)))
        ∙ all (λ y. 1)
        ∙ total-one blocks in
      let (s', moved, run, done) =
        permute_blocks_lem c classify k (λ b. slot_of c (starts b)) fuel my_id num_threads
          (sorter l' starts swap) (blocks_of c classify k in_range h) (Laid-classified h swap)
          (omega (arith, len, small)) few some_buckets
          (omega (arith, count, fit, enough, ap (λ z. z / B) len)) in
      (
        s',
        moved,
        run,
        done,
        λ w. omega (
          arith,
          done.same (total w),
          all (total w),
          total-flatten classify w blocks,
          total-append w (flatten blocks) (contents k l'.buffers),
          total-perm w h.same,
        ),
      )

  -- When every value is of one of the k buckets, of which there is one, and the array and the buckets are short against the words,
  -- with fuel for each block of the array: the sequential classification of an array of
  -- at least `kUnroll` elements, which is at least one, with empty buffers and zero sizes, is defined, and so is the permutation of what it leaves. Then each bucket has,
  -- from the slot that its start is aligned to, full blocks of its own elements, up to its write pointer;
  -- and by any weight of elements, these blocks and the buffers hold what the array held.
  pub sequential_classification-permute_blocks :
      (l : Local A) (swap : Bool → List A) (fuel my_id num_threads : ℕ)
      → ((i : ℕ) → l.buffers i ≡ [])
      → ((i : ℕ) → l.bucket_size i ≡ 0)
      → 1 ≤ c.unroll_classifier
      → c.unroll_classifier ≤ length l.array
      → 1 ≤ k
      → length l.array + 2 * B ≤ 2 ^ 63
      → (k + 2) * B ≤ 2 ^ 63
      → length l.array / B < fuel
      → (l' : Local A) × (starts : ℕ → ℕ) × (s' : Sorter A) × (blocks moved : ℕ → List (List A))
        × (sequential_classification c classify k l
            ≡ some (l', starts, bucket_pointer c starts l'.write))
        × (permute_blocks c classify fuel k my_id num_threads (sorter l' starts swap) ≡ some s')
        × Permuted c classify k (λ b. slot_of c (starts b)) (sorter l' starts swap) s' blocks moved
        × ((w : A → ℕ)
            → sum k (λ b. total (total w) (moved b)) + total w (contents k l'.buffers)
              ≡ total w l.array)
  sequential_classification-permute_blocks l swap fuel my_id num_threads empty zeros some_unroll
        unrolls some_buckets small few enough =
      let (l', starts, blocks, gap, h) =
        sequential_classification-Boundaries c classify k in_range l empty zeros some_unroll
          unrolls in
      let (s', moved, run, done, weights) =
        permute_blocks-classified h swap fuel my_id num_threads some_buckets small few enough in
      (l', starts, s', blocks_of c classify k in_range h, moved, h.run, run, done, weights)
