-- ===== src/BlockPermutation/Overflow.antt =====
-- `computeOverflowBucket` of include/ips4o/block_permutation.hpp.
use ips4o.Prelude.{
  ℕ, zero, suc, ◌-◌, ◌≤◌, ◌<◌, ◌≡◌, ◌⊎◌, inl, inr, refl, arith, none, some, Bool-cases, leb, leb→le,
  leb→lt, ℕ_discrete,
}
use ips4o.BlockPermutation.{compute_overflow_bucket}

-- Of the buckets below `num_buckets`, whichever their starts, the overflow bucket is the last one that is
-- larger than a block; there is none when no bucket is.
pub compute_overflow_bucket_lem :
    (B : ℕ) (bucket_start : ℕ → ℕ) (num_buckets : ℕ)
    → ((compute_overflow_bucket B bucket_start num_buckets ≡ none)
        × ((b : ℕ) → b < num_buckets → bucket_start (suc b) - bucket_start b ≤ B))
      ⊎ ((o : ℕ) × (compute_overflow_bucket B bucket_start num_buckets ≡ some o)
          × (o < num_buckets)
          × (B < bucket_start (suc o) - bucket_start o)
          × ((b : ℕ) → o < b → b < num_buckets → bucket_start (suc b) - bucket_start b ≤ B))
unfolding compute_overflow_bucket
compute_overflow_bucket_lem B bucket_start zero = inl (refl, λ b h. absurd (omega arith))
compute_overflow_bucket_lem B bucket_start (suc n) =
    elim (Bool-cases (leb (bucket_start (suc n) - bucket_start n) B)) [
      | inl e ↦
          let here = leb→le (bucket_start (suc n) - bucket_start n) B e in
          elim (compute_overflow_bucket_lem B bucket_start n) [
            | inl (none_yet, small) ↦ inl (rw e none_yet, λ b h. up_to b h here small)
            | inr (o, found, lt, large, small) ↦
                inr (o, rw e found, omega arith, large, λ b h k. after o b h k here small)
          ]
      | inr e ↦ inr (
        n,
        rw e refl,
        omega arith,
        leb→lt (bucket_start (suc n) - bucket_start n) B e,
        λ b h k. absurd (omega arith),
      )
    ]
  where
    up_to :
        (b : ℕ)
        → b < suc n
        → bucket_start (suc n) - bucket_start n ≤ B
        → ((b : ℕ) → b < n → bucket_start (suc b) - bucket_start b ≤ B)
        → bucket_start (suc b) - bucket_start b ≤ B
    up_to b h here small = elim (ℕ_discrete b n) [
      | yes q ↦ rw q here
      | no ne ↦ small b (omega arith)
    ]

    after :
        (o b : ℕ)
        → o < b
        → b < suc n
        → bucket_start (suc n) - bucket_start n ≤ B
        → ((b : ℕ) → o < b → b < n → bucket_start (suc b) - bucket_start b ≤ B)
        → bucket_start (suc b) - bucket_start b ≤ B
    after o b h k here small = elim (ℕ_discrete b n) [
      | yes q ↦ rw q here
      | no ne ↦ small b h (omega arith)
    ]
