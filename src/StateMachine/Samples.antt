-- ===== src/StateMachine/Samples.antt =====
-- The sizes of the sample of ips4o_state_machine.hpp in the default configuration.
use ips4o.Prelude.{
  ℕ, suc, ◌-◌, ◌*◌, ◌/◌, ◌^◌, ◌≤◌, ◌<◌, arith, Bool-cases, inl, inr, min, max, ltb, leb,
  if◌then◌else◌, pow2-le, le_of_pow2-lt,
}
use ips4o.Config.{
  default_config, log2, log_buckets_for, oversampling_factor, single_level_threshold,
  two_level_threshold,
}
use ips4o.Config.Log.{log2_bounds, log2_small}
use ips4o.StateMachine.Halting.{EnoughSamples}

log2_of_16 : (n : ℕ) → 16 ≤ n → n < 2 ^ 64 → 4 ≤ log2 n
log2_of_16 n h small =
    let (_, hi) = log2_bounds n (omega arith) small in
    let e = le_of_pow2-lt 4 (suc (log2 n)) (omega (arith, hi)) in omega (arith, e)

many_buckets : (n : ℕ) → 256 < n → n < 2 ^ 64 → 2 ≤ log_buckets_for default_config n
unfolding log_buckets_for
many_buckets n large small =
    let four = log2_of_16 (n / 16) (omega arith) (omega arith) in
    elim (Bool-cases (leb n (single_level_threshold default_config))) [
      | inl one ↦ rw one (omega (arith, four))
      | inr more ↦ elim (Bool-cases (leb n (two_level_threshold default_config))) [
        | inl two ↦ rw (more, two) (omega (arith, four))
        | inr all ↦ rw (more, all) (omega arith)
      ]
    ]

steps_lem :
    (b n l : ℕ)
    → l ≤ 63
    → 4 ≤ b
    → 256 < n
    → let step = max 1 (if ltb (20 * l) 100 then 1 else 20 * l / 100) in
      step < min (step * b - 1) (n / 2)
steps_lem b n l small four large =
    let step = max 1 (if ltb (20 * l) 100 then 1 else 20 * l / 100) in
    let few : step ≤ 12 = ground arith in
    let one : 1 ≤ step = omega arith in
    let more : step * 4 ≤ step * b = grind arith in omega (arith, few, one, more)

-- With the default configuration, for every size above the base case limit and below 2 ^ 64: at least
-- two buckets are asked for, and the step is smaller than the number of samples.
pub sample-large :
    (n : ℕ)
    → 256 < n
    → n < 2 ^ 64
    → let step = max 1 (oversampling_factor default_config n) in
      let num_buckets = 2 ^ log_buckets_for default_config n in
      (step < min (step * num_buckets - 1) (n / 2)) × (2 ≤ num_buckets)
unfolding oversampling_factor
sample-large n large small =
    let b = log2_small n in
    let many = many_buckets n large small in
    let four : 4 ≤ 2 ^ log_buckets_for default_config n =
      pow2-le 2 (log_buckets_for default_config n) many in
    (steps_lem (2 ^ log_buckets_for default_config n) n (log2 n) b four large, omega (arith, four))

pub default_config-EnoughSamples : EnoughSamples default_config
default_config-EnoughSamples = sample-large
