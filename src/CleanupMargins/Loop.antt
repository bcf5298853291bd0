-- ===== src/CleanupMargins/Loop.antt =====
-- The loop of `writeMargins` of include/ips4o/cleanup_margins.hpp over the buckets, with the base case
-- sort at the end of each.
use ips4o.Prelude.{
  ℕ, zero, suc, ◌+◌, ◌-◌, ◌*◌, ◌/◌, ◌≤◌, ◌<◌, ◌≡◌, ◌≢◌, ◌⊎◌, inl, inr, refl, sym, ap, ◌∙◌, arith,
  subst, Bool, true, false, ◌&&◌, ◌||◌, not, Option, none, some, List, [], ◌∷◌, ◌++◌, map, length,
  range, write_range, length-write_range, ℕ_discrete, length-range, range-write_range,
  range-write_range_out, bind-some, leb, total, total-perm, length-perm, Bool-cases, IsSorted,
  IsStrictWeak, update, update_ne,
}
use native.Mathlib.Nat.{mul-le-mul_right}
use ips4o.BaseCase.Insertion.{base_case_sort-IsSorted}
use ips4o.Config.{Config, block_size, single_level_threshold}
use ips4o.BucketPointers.{BucketPointers, get_write}
use ips4o.BlockPermutation.Slots.{Slot}
use ips4o.BlockPermutation.Layout.{slot_of, slot_of-ge}
use ips4o.CleanupMargins.{Margins, overflow_of, sort_margin, write_margin, write_margins}
use ips4o.CleanupMargins.Buffered.{held, Within}
use ips4o.CleanupMargins.Weights.{weight}
use ips4o.CleanupMargins.Margin.{Ready, apart}
use ips4o.CleanupMargins.Written.{Overflow, Filled-any}

-- Whether a bucket of a size is sorted at once, in a range of `n` elements.
abbrev pub sorts : (c : Config) (is_parallel : Bool) (n size : ℕ) → Bool
sorts c is_parallel n size =
    leb n (single_level_threshold c) || (leb size (2 * c.base_case_size) && not is_parallel)

-- The buffers of the `n` buckets from `i` on are reset.
abbrev pub cleared {ℓ} : {A : Type ℓ} (n i : ℕ) → List (ℕ → List A) → List (ℕ → List A)
cleared zero i buffers = buffers
cleared (suc n) i buffers = cleared n (suc i) (map (λ b. update b i []) buffers)

module _ {ℓ} {A : Type ℓ} (c : Config) (overflow_bucket : Option ℕ) (comp : A → A → Bool)
    (w : IsStrictWeak comp) (is_parallel : Bool) (bucket_start : ℕ → ℕ)
    (pointers : ℕ → BucketPointers) where
  abbrev pub Sorted : (n b : ℕ) → List A → Type 0
  Sorted n b array =
      (IsSorted comp (range array (bucket_start b) (bucket_start (suc b)))
        × (sorts c is_parallel n (bucket_start (suc b) - bucket_start b) ≡ true))
      ⊎ (sorts c is_parallel n (bucket_start (suc b) - bucket_start b) ≡ false)

  sort_margin-Sorted :
      (b : ℕ) (array : List A)
      → bucket_start b ≤ bucket_start (suc b)
      → bucket_start (suc b) ≤ length array
      → (array' : List A) × (sort_margin c overflow_bucket none 0 comp is_parallel bucket_start
            pointers
            (bucket_start b)
            (bucket_start (suc b))
            array
          ≡ some array')
        × (length array' ≡ length array)
        × ((f : A → ℕ)
            → weight f array' (bucket_start b) (bucket_start (suc b))
              ≡ weight f array (bucket_start b) (bucket_start (suc b)))
        × Within (bucket_start b) (bucket_start (suc b)) array array'
        × Sorted (length array) b array'
  unfolding sort_margin
  sort_margin-Sorted b array le inside =
      let i = bucket_start b in
      let j = bucket_start (suc b) in
      elim (Bool-cases (sorts c is_parallel (length array) (j - i))) [
        | inr e ↦ (array, rw e refl, refl, λ f. refl, λ x y l out. refl, inr e)
        | inl e ↦
            let (r, run, sorted, perm) = base_case_sort-IsSorted comp w (range array i j) in
            let len : length r ≡ j - i = length-perm perm ∙ length-range array i j inside in
            let at : i + length r ≡ j = omega (arith, len) in
            let written : range (write_range array i r) i j ≡ r =
              ap (range (write_range array i r) i) (sym at)
              ∙ range-write_range array r i (omega arith) in
            (
              write_range array i r,
              rw e (bind-some _ run refl),
              length-write_range array r i (omega (arith, at)),
              λ f. ap (total f) written ∙ total-perm f perm,
              λ x y l out.
                  range-write_range_out array r i x y (omega (arith, at)) l
                    (apart x y i j i (i + length r) out (omega arith) (omega (arith, at))),
              inl (subst (IsSorted comp) (sym written) sorted, e),
            )
      ]

  -- Bucket `b` before its turn.
  abbrev pub Waiting : (s : Margins A) (b : ℕ) (blocks : List (List A)) → Type ℓ
  Waiting s b blocks =
      (h : Ready c overflow_bucket b (bucket_start b) (bucket_start (suc b)) s blocks
        (get_write (pointers b)))
      × Overflow c overflow_bucket b (bucket_start b) (bucket_start (suc b)) s blocks
          (get_write (pointers b)) h

  write_margin-Sorted :
      (s : Margins A) (b : ℕ) (blocks : List (List A))
      → Waiting s b blocks
      → (array : List A) × (write_margin c overflow_bucket none 0 comp is_parallel bucket_start
            pointers b s
          ≡ some (record s { array = array; buffers = map (λ x. update x b []) s.buffers }))
        × (length array ≡ length s.array)
        × ((f : A → ℕ)
            → weight f array (bucket_start b) (bucket_start (suc b))
              ≡ total (total f) blocks + total f (held b s.buffers))
        × Within (bucket_start b) (bucket_start (suc b)) s.array array
        × Sorted (length s.array) b array
  unfolding write_margin
  write_margin-Sorted s b blocks (h, over) =
      let (array, filled) =
        Filled-any c overflow_bucket b (bucket_start b) (bucket_start (suc b)) s blocks
          (get_write (pointers b)) h over in
      let (array', run, size, weights, within, sorted) =
        sort_margin-Sorted b array h.order (omega (arith, h.inside, filled.size)) in
      (
        array',
        bind-some _ filled.head (bind-some _ filled.rest (bind-some _ run refl)),
        size ∙ filled.size,
        λ f. weights f ∙ filled.weights f,
        λ x y l out. within x y l out ∙ filled.within x y l out,
        subst (λ n. Sorted n b array') filled.size sorted,
      )

  held-other :
      (b d : ℕ) (buffers : List (ℕ → List A))
      → b ≢ d
      → held d (map (λ x. update x b []) buffers) ≡ held d buffers
  held-other b d [] ne = refl
  held-other b d (x ∷ buffers) ne =
      ap (λ z. z ++ held d (map (λ x. update x b []) buffers)) (update_ne x b [] d ne)
      ∙ ap (λ z. x d ++ z) (held-other b d buffers ne)

  -- The buckets that follow are left alone.
  Waiting-later :
      (s : Margins A) (b d : ℕ) (array : List A) (blocks : List (List A))
      → b < d
      → bucket_start (suc b) ≤ bucket_start d
      → length array ≡ length s.array
      → Within (bucket_start b) (bucket_start (suc b)) s.array array
      → Waiting s d blocks
      → Waiting (record s { array = array; buffers = map (λ x. update x b []) s.buffers }) d blocks
  unfolding overflow_of
  Waiting-later s b d array blocks lt le size within (h, over) =
      let other : held d (map (λ x. update x b []) s.buffers) ≡ held d s.buffers =
        held-other b d s.buffers (λ q. omega arith) in
      let m = ap (λ z. z / block_size c) size in
      (
        record {
          order = h.order;
          inside = omega (arith, h.inside, size);
          bounded = omega (arith, h.bounded, size);
          write = h.write;
          slots = λ j y e.
              subst (λ z. Slot (block_size c) z array s.overflow (slot_of c (bucket_start d) + j) y)
                (sym m) (moved j y (h.slots j y e));
          lengths = h.lengths;
          count =
              h.count
              ∙ ap (λ z. bucket_start d + length blocks * block_size c + length z) (sym other);
          lazy = λ p. subst (λ z. 1 ≤ length z) (sym other) (h.lazy p);
        },
        subst
            (λ z.
              ((overflow_of c overflow_bucket none 0 s d ≡ none)
                × ((slot_of c (bucket_start d) + length blocks ≤ z) ⊎ (length blocks ≡ 0)))
              ⊎ ((src : List A) × (overflow_of c overflow_bucket none 0 s d ≡ some src)
                  × (1 ≤ length blocks)
                  × (slot_of c (bucket_start d) + length blocks ≡ suc z)))
            (sym m) over,
      )
    where
      moved :
          (j : ℕ) (y : List A)
          → Slot
              (block_size c)
              (length s.array / block_size c)
              s.array
              s.overflow
              (slot_of c (bucket_start d) + j)
              y
          → Slot
              (block_size c)
              (length s.array / block_size c)
              array
              s.overflow
              (slot_of c (bucket_start d) + j)
              y
      moved j y (inr t) = inr t
      moved j y (inl (l, e)) =
          let k = slot_of c (bucket_start d) in
          let at : k * block_size c ≤ (k + j) * block_size c =
            mul-le-mul_right (block_size c) (omega arith) in
          inl (
            l,
            within ((k + j) * block_size c) ((k + j) * block_size c + block_size c) (omega arith)
                  (inr (omega (arith, at, slot_of-ge c (bucket_start d), le)))
                ∙ e,
          )

  -- What `writeMargins` leaves of bucket `b`: the elements of its blocks and of its buffers, in its range.
  abbrev pub Cleaned : (s s' : Margins A) (b : ℕ) (blocks : List (List A)) → Type ℓ
  Cleaned s s' b blocks =
      ((f : A → ℕ)
        → weight f s'.array (bucket_start b) (bucket_start (suc b))
          ≡ total (total f) blocks + total f (held b s.buffers))
      × Sorted (length s.array) b s'.array

  starts-le :
      (n i b : ℕ)
      → ((d : ℕ) → i ≤ d → d < i + n → bucket_start d ≤ bucket_start (suc d))
      → i ≤ b
      → b ≤ i + n
      → bucket_start i ≤ bucket_start b
  starts-le n i zero h le lt = ap_le (omega arith)
    where
      ap_le : i ≡ 0 → bucket_start i ≤ bucket_start 0
      ap_le e = rw e (omega arith)
  starts-le n i (suc b) h le lt = elim (ℕ_discrete i (suc b)) [
    | yes e ↦ rw e (omega arith)
    | no ne ↦
        omega
          (arith, starts-le n i b h (omega arith) (omega arith), h b (omega arith) (omega arith))
  ]

  pub write_margins-Cleaned :
      (n i : ℕ) (s : Margins A) (blocks : ℕ → List (List A))
      → ((b : ℕ) → i ≤ b → b < i + n → Waiting s b (blocks b))
      → (s' : Margins A) × (write_margins c overflow_bucket none 0 comp is_parallel bucket_start
            pointers n i s
          ≡ some s')
        × (length s'.array ≡ length s.array)
        × ((b : ℕ) → i ≤ b → b < i + n → Cleaned s s' b (blocks b))
        × Within (bucket_start i) (bucket_start (i + n)) s.array s'.array
        × (s'.buffers ≡ cleared n i s.buffers)
  unfolding write_margins
  write_margins-Cleaned zero i s blocks h =
      (s, refl, refl, λ b le lt. absurd (omega arith), λ x y l out. refl, refl)
  write_margins-Cleaned (suc n) i s blocks h =
      let first = h i (omega arith) (omega arith) in
      let up = starts-le (suc n) i in
      let order : (d : ℕ) → i ≤ d → d < i + suc n → bucket_start d ≤ bucket_start (suc d) =
        λ d le lt. (h d le lt).0.order in
      let order' : (d : ℕ) → suc i ≤ d → d < suc i + n → bucket_start d ≤ bucket_start (suc d) =
        λ d le lt. (h d (omega arith) (omega arith)).0.order in
      let (array, run, size, weights, within, sorted) = write_margin-Sorted s i (blocks i) first in
      let s1 : Margins A = record s {
        array = array;
        buffers = map (λ x. update x i []) s.buffers;
      } in
      let (s', run', size', cleaned', within', reset) =
        write_margins-Cleaned n (suc i) s1 blocks (λ b le lt.
          Waiting-later s i b array (blocks b) (omega arith)
            (starts-le n (suc i) b order' (omega arith) (omega arith)) size within
            (h b (omega arith) (omega arith))) in
      let same : range s'.array (bucket_start i) (bucket_start (suc i))
          ≡ range array (bucket_start i) (bucket_start (suc i)) =
        within' (bucket_start i) (bucket_start (suc i)) first.0.order (inl (omega arith)) in
      let last : bucket_start (suc i) ≤ bucket_start (i + suc n) =
        subst (λ z. bucket_start (suc i) ≤ bucket_start z) (omega arith)
          (starts-le n (suc i) (suc i + n) order' (omega arith) (omega arith)) in
      let end : bucket_start (suc i + n) ≡ bucket_start (i + suc n) =
        ap bucket_start (omega arith) in
      (
        s',
        bind-some _ run run',
        size' ∙ size,
        λ b le lt. elim (ℕ_discrete i b) [
          | yes e ↦
              subst (λ z. Cleaned s s' z (blocks z)) e
                (λ f. ap (total f) same ∙ weights f, moved s'.array array same sorted)
          | no ne ↦
              let (weights', sorted') = cleaned' b (omega arith) (omega arith) in
              (
                λ f.
                    weights' f
                    ∙ ap (λ z. total (total f) (blocks b) + total f z)
                        (held-other i b s.buffers ne),
                subst (λ z. Sorted z b s'.array) size sorted',
              )
        ],
        λ x y l out.
            within' x y l (
              apart x y (bucket_start i) (bucket_start (i + suc n)) (bucket_start (suc i))
                (bucket_start (suc i + n)) out first.0.order (omega (arith, end)))
            ∙ within x y l (
                apart x y (bucket_start i) (bucket_start (i + suc n)) (bucket_start i)
                  (bucket_start (suc i)) out (omega arith) last),
        reset,
      )
    where
      moved :
          (xs ys : List A)
          → range xs (bucket_start i) (bucket_start (suc i))
            ≡ range ys (bucket_start i) (bucket_start (suc i))
          → Sorted (length s.array) i ys
          → Sorted (length s.array) i xs
      moved xs ys same (inl (sorted, e)) = inl (subst (IsSorted comp) (sym same) sorted, e)
      moved xs ys same (inr e) = inr e
