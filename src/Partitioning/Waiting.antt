-- ===== src/Partitioning/Waiting.antt =====
-- Between the block permutation and the cleanup in `partition` of include/ips4o/partitioning.hpp: what
-- the first leaves is what the second needs of each bucket.
use native.Mathlib.Nat.{div-add-mod, mod-lt, mul-le-mul_right}
use ips4o.Prelude.{
  ℕ, zero, suc, ◌+◌, ◌-◌, ◌*◌, ◌/◌, ◌^◌, ◌≤◌, ◌<◌, ◌≡◌, ◌⊎◌, inl, inr, refl, sym, ap, ◌∙◌, arith,
  subst, Bool, false, Option, none, some, List, [], ◌∷◌, append-nil, length, length-append,
  get_elem?, All-imp, sum, total, ◌==◌, Bool-cases, ℕ_discrete, dec_lt, dec_le, if◌then◌else◌,
}
use ips4o.Config.{Config, block_size}
use ips4o.Config.Sizes.{block_size-pos}
use ips4o.BucketPointers.{get_write}
use ips4o.LocalClassification.{Local}
use ips4o.LocalClassification.Contents.{contents}
use ips4o.LocalClassification.Boundaries.{Boundaries}
use ips4o.BlockPermutation.{Sorter, compute_overflow_bucket}
use ips4o.BlockPermutation.Slots.{Slot}
use ips4o.BlockPermutation.Invariant.{InBucket, get-append_head}
use ips4o.BlockPermutation.Reading.{snoc-cases}
use ips4o.BlockPermutation.Permutes.{Permuted}
use ips4o.BlockPermutation.Overflow.{compute_overflow_bucket_lem}
use ips4o.BlockPermutation.Layout.{slot_of, slot_of-lt, slot_of-least, slot_of-room}
use ips4o.BlockPermutation.Composed.{sorter}
use ips4o.BlockPermutation.Classified.{size}
use ips4o.CleanupMargins.{Margins, overflow_of, is_bucket}
use ips4o.CleanupMargins.Buffered.{held}
use ips4o.CleanupMargins.Margin.{Ready, ==-of}
use ips4o.BlockPermutation.Swapping.{==-other}
use ips4o.CleanupMargins.Written.{Overflow}
use ips4o.Partitioning.Counts.{bucket-size}

module _ {ℓ} {A : Type ℓ} (c : Config) (classify : A → ℕ) (k : ℕ)
    (in_range : (v : A) → classify v < k) {l l' : Local A} {starts : ℕ → ℕ} {blocks : List (List A)}
    {gap : List A} (h : Boundaries c classify k in_range l l' starts blocks gap)
    (swap : Bool → List A) (s : Sorter A) {laid moved : ℕ → List (List A)}
    (p : Permuted c classify k
      (λ b. slot_of c (starts b))
      (sorter c classify k in_range l' starts swap)
      s
      laid
      moved)
    (weights : (w : A → ℕ)
      → sum k (λ b. total (total w) (moved b)) + total w (contents k l'.buffers) ≡ total w l.array)
    (small : length l.array + 2 * block_size c ≤ 2 ^ 63) where
  -- What the cleanup starts from.
  abbrev pub margins : Margins A
  margins = record {
    array = s.array;
    overflow = s.overflow;
    swap = s.swap false;
    buffers = l'.buffers ∷ [];
  }

  abbrev slots_end : ℕ
  slots_end = length s.array / block_size c

  sizes :
      (b : ℕ)
      → b < k
      → starts (suc b) ≡ starts b + (length (moved b) * block_size c + length (l'.buffers b))
  sizes b hb =
      h.apart b hb
      ∙ ap (λ z. starts b + z)
          (bucket-size classify b (block_size c) k moved l'.buffers l.array hb p.placed
            (λ i. (h.buffered i).0) weights)

  slot_end : (b : ℕ) → b < k → length (moved b) ≡ 0 ⊎ (1 ≤ length (l'.buffers b))
  slot_end b hb = elim (dec_le 1 (length (moved b))) [
    | no e ↦ inl (omega arith)
    | yes more ↦
        let one : 1 * block_size c ≤ length (moved b) * block_size c =
          mul-le-mul_right (block_size c) more in
        inr (h.lazy b hb (omega (arith, h.apart b hb, sizes b hb, one, block_size-pos c)))
  ]

  starts-le : (b d : ℕ) → b ≤ d → d ≤ k → starts b ≤ starts d
  starts-le b zero le hd = rw e (omega arith)
    where
      e : b ≡ 0
      e = omega arith
  starts-le b (suc d) le hd = elim (ℕ_discrete b (suc d)) [
    | yes e ↦ rw e (omega arith)
    | no ne ↦ omega (arith, starts-le b d (omega arith) (omega arith), sizes d (omega arith))
  ]

  whole_size : length s.array ≡ length l.array
  whole_size = p.size ∙ size c classify k in_range h

  same_end : slots_end ≡ length l'.array / block_size c
  same_end = ap (λ z. z / block_size c) p.size

  pub Ready-bucket :
      (overflow_bucket : Option ℕ) (b : ℕ)
      → b < k
      → Ready c overflow_bucket b
          (starts b)
          (starts (suc b))
          margins
          (moved b)
          (get_write (s.bucket_pointers b))
  Ready-bucket overflow_bucket b hb =
      let buffer : held b margins.buffers ≡ l'.buffers b = append-nil (l'.buffers b) in
      record {
        order = omega (arith, sizes b hb);
        inside = omega (arith, starts-le (suc b) k hb (omega arith), h.to_end, whole_size);
        bounded = omega (arith, whole_size, small, block_size-pos c);
        write = p.write b hb;
        slots = λ j y e.
            subst (λ z. Slot (block_size c) z s.array s.overflow (slot_of c (starts b) + j) y)
              (sym same_end) (p.slots b j hb e);
        lengths =
            All-imp (InBucket (block_size c) classify b) (moved b) (λ y q. q.0) (p.placed b hb);
        count = omega (arith, sizes b hb, ap length buffer);
        lazy = λ more. elim (slot_end b hb) [
          | inl e ↦ absurd (omega (arith, e))
          | inr lz ↦ omega (arith, lz, ap length buffer)
        ];
      }

  -- A bucket with a block that reaches the end is the overflow bucket.
  last_large :
      (o : ℕ)
      → o < k
      → 1 ≤ length (moved o)
      → slot_of c (starts o) + length (moved o) ≡ suc slots_end
      → compute_overflow_bucket (block_size c) starts k ≡ some o
  last_large o ho more at =
      let B = block_size c in
      let one : 1 * B ≤ length (moved o) * B = mul-le-mul_right B more in
      let large : B < starts (suc o) - starts o = elim (slot_end o ho) [
        | inl e ↦ absurd (omega (arith, e))
        | inr lz ↦ omega (arith, sizes o ho, one, lz)
      ] in
      let reach : (slot_of c (starts o) + length (moved o)) * B ≡ slots_end * B + B =
        ap (λ z. z * B) at ∙ omega arith in
      let near = slot_of-lt c (starts o) in
      let past : slots_end * B < starts (suc o) = elim (slot_end o ho) [
        | inl e ↦ absurd (omega (arith, e))
        | inr lz ↦ omega (arith, sizes o ho, reach, near, lz)
      ] in
      let short : length s.array < slots_end * B + B =
        omega (arith, div-add-mod (length s.array) B, mod-lt (length s.array) (block_size-pos c)) in
      elim (compute_overflow_bucket_lem B starts k) [
        | inl (_, none_large) ↦ absurd (omega (arith, none_large o ho, large))
        | inr (q, e, hq, large_q, later) ↦ elim (ℕ_discrete q o) [
          | yes same ↦ e ∙ ap some same
          | no ne ↦ elim (dec_lt q o) [
            | yes lt ↦ absurd (omega (arith, later o lt ho, large))
            | no gt ↦ absurd (
                omega (
                  arith,
                  starts-le (suc o) q (omega arith) (omega arith),
                  starts-le (suc q) k (omega arith) (omega arith),
                  h.to_end,
                  whole_size,
                  past,
                  short,
                  large_q,
                ))
          ]
        ]
      ]

  -- Two buckets cannot both reach the end.
  one_reaches :
      (b o : ℕ)
      → b < o
      → o < k
      → 1 ≤ length (moved o)
      → slot_of c (starts b) + length (moved b) ≡ suc slots_end
      → slot_of c (starts o) + length (moved o) ≡ suc slots_end
      → ⊥
  one_reaches b o lt ho more at at' = absurd (
      omega (
        arith,
        p.fits b (omega arith),
        first-le classify (suc b) o (omega arith) (omega arith),
        at,
        at',
        more,
      ))
    where
      first-le :
          (classify : A → ℕ) (i j : ℕ) → i ≤ j → j ≤ k → slot_of c (starts i) ≤ slot_of c (starts j)
      first-le classify i j le hj =
          omega (arith, slot_of-room c (starts i) (starts j) 0 (omega (arith, starts-le i j le hj)))

  -- The last block of a bucket that reaches the end is in the overflow buffer.
  stored_last :
      (b : ℕ)
      → b < k
      → 1 ≤ length (moved b)
      → slot_of c (starts b) + length (moved b) ≡ suc slots_end
      → (y : List A) × (s.overflow ≡ some y)
  stored_last b hb more at = elim (snoc-cases (moved b)) [
    | inl e ↦ absurd (omega (arith, ap length e))
    | inr (init, y, e) ↦
        let len : length (moved b) ≡ suc (length init) =
          ap length e ∙ length-append init (y ∷ []) ∙ omega arith in
        let found : get_elem? (moved b) (length init) ≡ some y = rw e (get-append_head init [] y) in
        elim (p.slots b (length init) hb found) [
          | inl (lt, _) ↦ absurd (omega (arith, lt, len, at, same_end))
          | inr (_, o) ↦ (y, o)
        ]
  ]

  overflow_is :
      (b o : ℕ) → overflow_of c (some o) none 0 margins b ≡ (if o == b then s.overflow else none)
  unfolding overflow_of is_bucket
  overflow_is b o = refl

  overflow_none :
      (ob : Option ℕ) (b : ℕ) → s.overflow ≡ none → overflow_of c ob none 0 margins b ≡ none
  unfolding overflow_of
  overflow_none ob b e = elim (Bool-cases (is_bucket ob b)) [
    | inl t ↦ ap (λ z. if z then s.overflow else none) t ∙ e
    | inr t ↦ ap (λ z. if z then s.overflow else none) t
  ]

  within_end :
      (b : ℕ)
      → b < k
      → (1 ≤ length (moved b) → slot_of c (starts b) + length (moved b) ≡ suc slots_end → ⊥)
      → (slot_of c (starts b) + length (moved b) ≤ slots_end) ⊎ (length (moved b) ≡ 0)
  within_end b hb out = elim (dec_le 1 (length (moved b))) [
    | no e ↦ inr (omega arith)
    | yes more ↦ elim (ℕ_discrete (slot_of c (starts b) + length (moved b)) (suc slots_end)) [
      | yes e ↦ absurd (out more e)
      | no ne ↦
          let up =
            slot_of-room c (starts (suc b)) (starts k) 0
              (omega (arith, starts-le (suc b) k hb (omega arith))) in
          let last : slot_of c (starts k) ≤ suc slots_end =
            slot_of-least c (starts k) (suc slots_end) (
              omega (
                arith,
                h.to_end,
                whole_size,
                div-add-mod (length s.array) (block_size c),
                mod-lt (length s.array) (block_size-pos c),
              )) in
          inl (omega (arith, p.fits b hb, up, last, ne))
    ]
  ]

  -- What `writeMargins` needs to know of the overflow buffer.
  pub Overflow-bucket :
      (b : ℕ) (hb : b < k)
      → Overflow c
          (compute_overflow_bucket (block_size c) starts k)
          b
          (starts b)
          (starts (suc b))
          margins
          (moved b)
          (get_write (s.bucket_pointers b))
          (Ready-bucket (compute_overflow_bucket (block_size c) starts k) b hb)
  Overflow-bucket b hb = elim p.spill [
    | inl e ↦ inl (
      overflow_none (compute_overflow_bucket (block_size c) starts k) b e,
      within_end b hb
          (λ more at. let (y, o) = stored_last b hb more at in absurd (none_some y (sym e ∙ o))),
    )
    | inr (o, ho, more, at) ↦
        let at' : slot_of c (starts o) + length (moved o) ≡ suc slots_end =
          at ∙ ap suc (sym same_end) in
        let is_o = last_large o ho more at' in
        let value : overflow_of c (compute_overflow_bucket (block_size c) starts k) none 0 margins b
            ≡ (if o == b then s.overflow else none) =
          ap (λ z. overflow_of c z none 0 margins b) is_o ∙ overflow_is b o in
        elim (ℕ_discrete o b) [
          | yes e ↦
              let (y, there) = stored_last o ho more at' in
              inr (
                y,
                value ∙ ap (λ z. if z then s.overflow else none) (==-of o b e) ∙ there,
                subst (λ z. 1 ≤ length (moved z)) e more,
                subst (λ z. slot_of c (starts z) + length (moved z) ≡ suc slots_end) e at',
              )
          | no ne ↦ inl (
            value ∙ ap (λ z. if z then s.overflow else none) (==-other o b ne),
            within_end b hb (λ more' at''. elim (dec_lt b o) [
              | yes lt ↦ one_reaches b o lt ho more at'' at'
              | no gt ↦ one_reaches o b (omega (arith, ne)) hb more' at' at''
            ]),
          )
        ]
  ]
    where
      none_some : (y : List A) → none ≡ some y → ⊥
      none_some y q = absurd (cc)
