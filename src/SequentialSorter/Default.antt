-- ===== src/SequentialSorter/Default.antt =====
-- The default configuration (include/ips4o/config.hpp) suits ranges of up to 2 ^ 62 elements of four bytes.
use ips4o.Prelude.{
  ℕ, suc, ◌+◌, ◌*◌, ◌/◌, ◌^◌, ◌≤◌, ◌<◌, ◌≡◌, inl, inr, refl, arith, Bool-cases, leb, pow2-le,
  le_of_pow2-lt,
}
use ips4o.Config.{
  default_config, block_size, log2, log_buckets_for, single_level_threshold, two_level_threshold,
}
use ips4o.Config.Log.{log2_bounds}
use ips4o.Config.Sizes.{log_buckets_for_bounds}
use ips4o.Sampling.Reach.{num_samples-reach}
use ips4o.SequentialSorter.Sampled.{Suits}

log2-ge : (n k : ℕ) → 0 < n → n < 2 ^ 64 → 2 ^ k ≤ n → k ≤ log2 n
log2-ge n k pos small h =
    let (lo, hi) = log2_bounds n pos small in
    let e = le_of_pow2-lt k (suc (log2 n)) (omega arith) in omega (arith, e)

default_block : block_size default_config ≡ 512
unfolding block_size log2
default_block = refl

few_buckets : (l : ℕ) → l ≤ 8 → (2 ^ l * 2 + 2) * 512 ≤ 2 ^ 63
few_buckets l h = omega (arith, pow2-le l 8 h)

-- Above a single level there are at least eight buckets.
some_levels : (n : ℕ) → 4096 < n → n ≤ 2 ^ 62 → 3 ≤ log_buckets_for default_config n
unfolding log_buckets_for
some_levels n large small = elim (Bool-cases (leb n (single_level_threshold default_config))) [
  | inl one ↦ absurd (ground arith)
  | inr more ↦ elim (Bool-cases (leb n (two_level_threshold default_config))) [
    | inl two ↦
        rw (more, two) (omega (arith, log2-ge (n / 16) 8 (omega arith) (omega arith) (omega arith)))
    | inr all ↦ rw (more, all) (omega arith)
  ]
]

pub default_config-Suits : Suits default_config (2 ^ 62)
default_config-Suits = record {
  unroll = (omega arith, omega arith);
  size = omega (arith, default_block);
  levels = λ n large small.
      let (some_buckets, few, room) =
        log_buckets_for_bounds default_config n (omega arith) (omega arith) (omega arith)
          (omega arith) in
      (
        some_buckets,
        omega (arith, few),
        room refl,
        rw default_block (few_buckets (log_buckets_for default_config n) few),
      );
  reach = λ n large small. num_samples-reach n large (omega arith);
  split = λ n large small. (
    refl,
    omega (arith, pow2-le 3 (log_buckets_for default_config n) (some_levels n large small)),
  );
}
