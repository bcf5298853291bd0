-- ===== src/CleanupMargins/Saved.antt =====
-- `saveMargins` of include/ips4o/cleanup_margins.hpp.
use ips4o.Prelude.{
  ℕ, zero, suc, ◌+◌, ◌-◌, ◌*◌, ◌≤◌, ◌<◌, ◌≡◌, ◌⊎◌, inl, inr, refl, sym, arith, Bool, true, false,
  ◌||◌, Option, none, some, List, length, range, length-range, Bool-cases, ltb, ltb→lt, ltb→le,
  le→leb, ◌==◌, ==-true, ℕ_discrete,
}
use ips4o.Config.{Config, block_size, align_to_next_block}
use ips4o.Config.Sizes.{align_to_next_block_lem, block_size-pos}
use ips4o.BlockPermutation.Layout.{slot_of, slot_of-align}
use ips4o.BucketPointers.{BucketPointers, get_write}
use ips4o.CleanupMargins.{bucket_of_block, save_margins}

==-false : (a b : ℕ) → (a == b) ≡ false → a ≡ b → ⊥
==-false a b e q = ground arith

-- An end of a block that is not the boundary of the first bucket is behind a whole block.
last_block :
    (starts : ℕ → ℕ) (last stop m B : ℕ)
    → starts 0 ≡ 0
    → stop ≡ m * B
    → starts last ≤ stop
    → (starts last ≤ 0 → stop ≤ 0)
    → ¬ (starts last ≡ stop)
    → (B ≤ stop) × (1 ≤ last)
last_block starts last stop zero B from_zero q up least ne = absurd (ne (omega arith))
last_block starts zero stop (suc m) B from_zero q up least ne =
    absurd (ne (omega (arith, least (omega (arith, from_zero)))))
last_block starts (suc last) stop (suc m) B from_zero q up least ne =
    (omega (arith, mul_more m B), omega arith)
  where
    mul_more : (m B : ℕ) → suc m * B ≡ B + m * B
    mul_more m B = grind (arith)

module _ (c : Config) (bucket_start : ℕ → ℕ) where
  starts-le :
      (i j : ℕ)
      → i ≤ j
      → (k : ℕ) → j ≤ k
      → ((d : ℕ) → d < k → bucket_start d ≤ bucket_start (suc d))
      → bucket_start i ≤ bucket_start j
  starts-le i zero h k l up = let e : i ≡ 0 = omega arith in rw e (omega arith)
  starts-le i (suc j) h k l up = elim (ℕ_discrete i (suc j)) [
    | yes e ↦ rw e (omega arith)
    | no ne ↦ omega (arith, starts-le i j (omega arith) k (omega arith) up, up j (omega arith))
  ]

  -- The loop ends at a bucket that starts before the block does.
  bucket_of_block_lem :
      (start last : ℕ)
      → bucket_start 0 ≤ start
      → 1 ≤ last
      → (b : ℕ) × (bucket_of_block c bucket_start start last ≡ some b)
        × (b < last)
        × (bucket_start b ≤ start)
        × ((d : ℕ) → b < d → d < last → start < bucket_start d)
  unfolding bucket_of_block
  bucket_of_block_lem start zero z h = absurd (omega arith)
  bucket_of_block_lem start (suc last) z h = elim (Bool-cases (ltb start (bucket_start last))) [
    | inr e ↦ (
      last,
      rw e refl,
      omega arith,
      ltb→le start (bucket_start last) e,
      λ d lt lt'. absurd (omega arith),
    )
    | inl e ↦
        let after = ltb→lt start (bucket_start last) e in
        let (b, found, lt, le, later) = bucket_of_block_lem start last z (some_bucket last after) in
        (
          b,
          rw e found,
          omega arith,
          le,
          λ d lt' k. elim (ℕ_discrete d last) [
            | yes q ↦ rw q after
            | no ne ↦ later d lt' (omega arith)
          ],
        )
  ]
    where
      some_bucket : (last : ℕ) → start < bucket_start last → 1 ≤ last
      some_bucket zero lt = absurd (omega arith)
      some_bucket (suc last) lt = omega arith

  module _ {ℓ} {A : Type ℓ} (pointers : ℕ → BucketPointers) (array swap : List A)
      (last_bucket : ℕ) where
    abbrev stop : ℕ
    stop = align_to_next_block c (bucket_start last_bucket)

    -- Bucket `b` is the last one that starts at or before the last block.
    pub record OfLastBlock (b : ℕ) : Type 0 where
      pub before : b < last_bucket
      pub start : bucket_start b + block_size c ≤ stop
      pub later : (d : ℕ) → b < d → d ≤ last_bucket → stop < bucket_start d + block_size c

    -- The boundary has no block to share or is in the overflow, or the block has not been written.
    abbrev Unsaved : Type 0
    Unsaved =
        (bucket_start last_bucket ≡ stop)
        ⊎ (length array < stop)
        ⊎ ((b : ℕ) × OfLastBlock b × (get_write (pointers b) < stop))

    abbrev pub Saved : Option ℕ × ℕ × List A → Type ℓ
    Saved r =
        (Unsaved × (r.0 ≡ none) × (r.1 ≡ 0) × (r.2 ≡ swap))
        ⊎ ((b : ℕ) × (r.0 ≡ some b)
            × OfLastBlock b
            × (stop ≤ get_write (pointers b))
            × (r.2 ≡ range array (bucket_start (suc b)) stop)
            × (r.1 ≡ length r.2)
            × (r.1 < block_size c))

    -- When the first bucket starts at 0 and no bucket starts after the next one, `saveMargins` makes no access outside of the array, and either
    -- saves nothing and leaves the swap buffer, in which case the boundary is a multiple of the block size, its
    -- block does not fit into the array, or the write pointer of the bucket of that block is not past it; or it
    -- returns that bucket, whose write pointer is past the block, and the swap buffer holds the elements from
    -- the end of the bucket to the end of the block, as many as it returns and fewer than a block. The bucket
    -- of the block is the last one that starts at or before the start of the block.
    pub save_margins_lem :
        bucket_start 0 ≡ 0
        → ((d : ℕ) → d < last_bucket → bucket_start d ≤ bucket_start (suc d))
        → (r : Option ℕ × ℕ × List A) × (save_margins c bucket_start pointers array swap last_bucket
            ≡ some r)
          × Saved r
    unfolding save_margins
    save_margins_lem from_zero ascending =
        let B = block_size c in
        let (_, up, near, least) = align_to_next_block_lem c (bucket_start last_bucket) in
        elim (Bool-cases ((bucket_start last_bucket == stop) || ltb (length array) stop)) [
          | inl e ↦ (
            (none, 0, swap),
            rw e refl,
            inl (
              no_overlap (bucket_start last_bucket == stop) (ltb (length array) stop) refl refl e,
              refl,
              refl,
              refl,
            ),
          )
          | inr e ↦
              let (unaligned, inside) =
                neither (bucket_start last_bucket == stop) (ltb (length array) stop) e in
              let fits = ltb→le (length array) stop inside in
              let (full, some_buckets) =
                last_block bucket_start last_bucket stop (slot_of c (bucket_start last_bucket)) B
                  from_zero (slot_of-align c (bucket_start last_bucket)) up
                  (λ z. omega (arith, least 0 (omega (arith, z)))) (==-false _ _ unaligned) in
              let (b, found, lt, le, later) =
                bucket_of_block_lem (stop - B) last_bucket (omega (arith, from_zero))
                  some_buckets in
              let behind : (d : ℕ) → b < d → d ≤ last_bucket → stop < bucket_start d + B =
                λ d gt most. elim (ℕ_discrete d last_bucket) [
                  | yes q ↦ rw q near
                  | no ne ↦ omega (arith, later d gt (omega arith), full)
                ] in
              let of_block : OfLastBlock b = record {
                before = lt;
                start = omega (arith, le, full);
                later = behind;
              } in
              elim (Bool-cases (ltb (get_write (pointers b)) stop)) [
                | inl unwritten ↦ (
                  (none, 0, swap),
                  rw (e, found, unwritten) refl,
                  inl (inr (inr (b, of_block, ltb→lt _ _ unwritten)), refl, refl, refl),
                )
                | inr written ↦
                    let xs = range array (bucket_start (suc b)) stop in
                    (
                      (some b, stop - bucket_start (suc b), xs),
                      rw
                          (
                            e,
                            found,
                            written,
                            le→leb (bucket_start (suc b)) stop (
                                omega (
                                  arith,
                                  up,
                                  starts-le (suc b) last_bucket (omega arith) last_bucket
                                      (omega arith) ascending,
                                )),
                            le→leb _ _ fits,
                          )
                          refl,
                      inr (
                        b,
                        refl,
                        of_block,
                        ltb→le _ _ written,
                        refl,
                        sym (length-range array (bucket_start (suc b)) stop fits),
                        omega (arith, behind (suc b) (omega arith) (omega arith), block_size-pos c),
                      ),
                    )
              ]
        ]
      where
        neither : (a b : Bool) → (a || b) ≡ false → (a ≡ false) × (b ≡ false)
        neither true b e = absurd (cc)
        neither false b e = (refl, e)

        no_overlap :
            (x y : Bool)
            → (bucket_start last_bucket == stop) ≡ x
            → ltb (length array) stop ≡ y
            → (x || y) ≡ true
            → Unsaved
        no_overlap true y p q e = inl (==-true _ _ p)
        no_overlap false true p q e = inr (inl (ltb→lt _ _ q))
        no_overlap false false p q e = absurd (cc)
