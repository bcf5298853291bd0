-- ===== src/Sampling/Reach.antt =====
-- The steps of `buildClassifier` (include/ips4o/sampling.hpp) in the default configuration.
use native.Mathlib.Nat.{mul_comm}
use ips4o.Prelude.{
  ℕ, zero, suc, ◌+◌, ◌-◌, ◌*◌, ◌/◌, ◌^◌, ◌≤◌, ◌<◌, ◌≡◌, arith, Bool-cases, inl, inr, min, max, leb,
  leb→le, leb→lt, pow2-pos, pow2-le, le_of_pow2-lt,
}
use ips4o.Config.{
  default_config, log2, log_buckets_for, oversampling_factor, single_level_threshold,
  two_level_threshold,
}
use ips4o.Config.Log.{log2_bounds, log2_small}

log2-le : (n k : ℕ) → 0 < n → n < 2 ^ suc k → k ≤ 62 → log2 n ≤ k
log2-le n k pos less small =
    let (lo, hi) = log2_bounds n pos (omega (arith, pow2-le (suc k) 63 (omega arith))) in
    let e = le_of_pow2-lt (log2 n) (suc k) (omega (arith, lo)) in omega (arith, e)

-- The step, by the logarithm of the size.
step-le :
    (n l : ℕ) → log2 n ≤ l → max 1 (oversampling_factor default_config n) ≤ max 1 (20 * l / 100)
unfolding oversampling_factor
step-le n l h = ground arith

step_more : (b s : ℕ) → (suc b - 1) * s + s ≡ s * suc b
step_more b s = let e : suc b - 1 ≡ b = omega arith in rw e (omega (arith, mul_comm b s))

reach : (b s n : ℕ) → 1 ≤ s → 1 ≤ b → (b - 1) * s ≤ n / 2 → (b - 1) * s ≤ min (s * b - 1) (n / 2)
reach zero s n hs hb h = absurd (omega arith)
reach (suc b) s n hs hb h = omega (arith, step_more b s)

times : (b s b' s' : ℕ) → b ≤ b' → s ≤ s' → (b - 1) * s ≤ b' * s'
times b s b' s' h k = grind arith

-- Above one level, buckets and step are below constants.
half_of_large : (n b s : ℕ) → 4096 < n → n ≤ 65536 → b ≤ 256 → s ≤ 3 → (b - 1) * s ≤ n / 2
half_of_large n b s h k hb hs = omega (arith, times b s 256 3 hb hs)

half_of_larger : (n b s : ℕ) → 65536 < n → b ≤ 256 → s ≤ 12 → (b - 1) * s ≤ n / 2
half_of_larger n b s h hb hs = omega (arith, times b s 256 12 hb hs)

half_of_small : (n b s : ℕ) → 32 < n → b ≤ max 2 (n / 16) → s ≤ 2 → (b - 1) * s ≤ n / 2
half_of_small n b s h hb hs = omega (arith, times b s (max 2 (n / 16)) 2 hb hs)

step_at :
    (n l : ℕ)
    → 0 < n
    → n < 2 ^ suc l
    → l ≤ 62
    → max 1 (oversampling_factor default_config n) ≤ max 1 (20 * l / 100)
step_at n l pos less small = step-le n l (log2-le n l pos less small)

one_level : (n : ℕ) → 32 < n → n ≤ 4096 → 2 ^ max 1 (log2 (n / 16)) ≤ max 2 (n / 16)
one_level n h k =
    let l = log2 (n / 16) in
    let (lo, hi) = log2_bounds (n / 16) (omega arith) (omega arith) in
    let e = le_of_pow2-lt 1 (suc l) (omega (arith, hi)) in
    let same : max 1 l ≡ l = omega (arith, e) in rw same (omega (arith, lo))

module _ (n : ℕ) (large : 32 < n) (small : n < 2 ^ 64) where
  abbrev the_step : ℕ
  the_step = max 1 (oversampling_factor default_config n)

  upper_levels : (lb : ℕ) → 4096 < n → lb ≤ 8 → (2 ^ lb - 1) * the_step ≤ n / 2
  upper_levels lb h few =
      let b = pow2-le lb 8 few in
      elim (Bool-cases (leb n 65536)) [
        | inl below ↦
            half_of_large n (2 ^ lb) the_step h (leb→le _ _ below) b
              (step_at n 16 (omega arith) (omega (arith, leb→le _ _ below)) (omega arith))
        | inr above ↦
            half_of_larger n (2 ^ lb) the_step (leb→lt _ _ above) b (step-le n 63 (log2_small n))
      ]

  half : (2 ^ log_buckets_for default_config n - 1) * the_step ≤ n / 2
  unfolding log_buckets_for
  half = elim (Bool-cases (leb n (single_level_threshold default_config))) [
    | inl one ↦
        let k : n ≤ 4096 = leb→le _ _ one in
        rw one (
          half_of_small n (2 ^ max 1 (log2 (n / 16))) the_step large (one_level n large k)
            (step_at n 12 (omega arith) (omega (arith, k)) (omega arith)))
    | inr more ↦
        let h : 4096 < n = leb→lt _ _ more in
        elim (Bool-cases (leb n (two_level_threshold default_config))) [
          | inl two ↦
              let k : n ≤ 1048576 = leb→le _ _ two in
              rw (more, two)
                (upper_levels (max 1 ((log2 (n / 16) + 1) / 2)) h (
                  omega
                    (arith, log2-le (n / 16) 16 (omega arith) (omega (arith, k)) (omega arith))))
          | inr all ↦ rw (more, all) (upper_levels 8 h (omega arith))
        ]
  ]

-- With the default configuration, for every size above twice the base case size and below 2 ^ 64, the
-- sample that `buildClassifier` draws has the elements at each of the steps to the splitters: the loop
-- over the splitters stays inside the sorted sample.
pub num_samples-reach :
    (n : ℕ)
    → 2 * default_config.base_case_size < n
    → n < 2 ^ 64
    → let step = max 1 (oversampling_factor default_config n) in
      let num_buckets = 2 ^ log_buckets_for default_config n in
      (num_buckets - 1) * step ≤ min (step * num_buckets - 1) (n / 2)
num_samples-reach n large small =
    reach (2 ^ log_buckets_for default_config n) (max 1 (oversampling_factor default_config n)) n
      (omega arith) (pow2-pos (log_buckets_for default_config n)) (half n large small)
