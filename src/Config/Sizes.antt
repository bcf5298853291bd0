-- ===== src/Config/Sizes.antt =====
-- `logBuckets` and `alignToNextBlock` of include/ips4o/config.hpp.
use native.Mathlib.Nat.{div-add-mod, mul-mod_left, mul_assoc}
use ips4o.Prelude.{
  true, pow2-le, ℕ, suc, ◌+◌, ◌-◌, ◌*◌, ◌/◌, ◌%◌, ◌^◌, ◌≤◌, ◌<◌, ◌≡◌, arith, inl, inr, Bool-cases,
  pow2-suc, pow2-pos, le_of_pow2-lt, pow2-add, leb, leb→le,
}
use ips4o.Config.{
  max_buckets, Config, log2, block_size, align_to_next_block, log_buckets_for,
  single_level_threshold, two_level_threshold,
}
use ips4o.Config.Log.{log2_bounds}

pub block_size-pos : (c : Config) → 1 ≤ block_size c
unfolding block_size
block_size-pos c = pow2-pos _

round_up : (p b : ℕ) → 1 ≤ b → (p ≤ (p + b - 1) / b * b) × ((p + b - 1) / b * b < p + b)
round_up p b h = grind (arith, div-add-mod)

round_up_least : (p b k : ℕ) → 1 ≤ b → p ≤ k * b → (p + b - 1) / b * b ≤ k * b
round_up_least p b k h le = grind (arith, div-add-mod)

-- `alignToNextBlock(p)` is a multiple of the block size, at least p and less than one block above p,
-- and no multiple of the block size that is at least p is smaller.
pub align_to_next_block_lem :
    (c : Config) (p : ℕ)
    → (align_to_next_block c p % block_size c ≡ 0)
      × (p ≤ align_to_next_block c p)
      × (align_to_next_block c p < p + block_size c)
      × ((k : ℕ) → p ≤ k * block_size c → align_to_next_block c p ≤ k * block_size c)
unfolding align_to_next_block
align_to_next_block_lem c p =
    let b = block_size c in
    let h : 1 ≤ b = block_size-pos c in
    let (up, near) = round_up p b h in
    (mul-mod_left ((p + b - 1) / b) b, up, near, λ k. round_up_least p b k h)

div-le : (n b k : ℕ) → 1 ≤ b → n ≤ b * k → n / b ≤ k
div-le n b k h le = grind (arith, div-add-mod)

le-div : (n b : ℕ) → 1 ≤ b → b ≤ n → 1 ≤ n / b
le-div n b h le = grind (arith, div-add-mod)

div-lt-bound : (n b m : ℕ) → n < m → n / b < m
div-lt-bound n b m h = grind (arith, div-add-mod)

-- The logarithm of a positive quotient that is at most a power of two.
log2_quotient : (n b k : ℕ) → 1 ≤ b → b ≤ n → n < 2 ^ 64 → n ≤ b * 2 ^ k → log2 (n / b) ≤ k
log2_quotient n b k h le small bound =
    let (lo, hi) = log2_bounds (n / b) (le-div n b h le) (div-lt-bound n b (2 ^ 64) small) in
    let q = div-le n b (2 ^ k) h bound in
    let e = le_of_pow2-lt (log2 (n / b)) (suc k) (omega (arith, pow2-suc k, pow2-pos k)) in
    omega (arith, e)

log_buckets_for_range :
    (c : Config) (n : ℕ)
    → 1 ≤ c.base_case_size
    → 1 ≤ c.log_buckets
    → c.base_case_size ≤ n
    → n < 2 ^ 64
    → (1 ≤ log_buckets_for c n) × (log_buckets_for c n ≤ c.log_buckets)
unfolding log_buckets_for
log_buckets_for_range c n hb hk le small =
    let b = c.base_case_size in
    let k = c.log_buckets in
    elim (Bool-cases (leb n (single_level_threshold c))) [
      | inl one ↦ rw one (omega (arith, log2_quotient n b k hb le small (leb→le n (b * 2 ^ k) one)))
      | inr more ↦ elim (Bool-cases (leb n (two_level_threshold c))) [
        | inl two ↦
            let bound : n ≤ b * 2 ^ (k + k) =
              rw (pow2-add k k, ← mul_assoc b (2 ^ k) (2 ^ k)) (leb→le n (b * 2 ^ k * 2 ^ k) two) in
            rw (more, two) (omega (arith, log2_quotient n b (k + k) hb le small bound))
        | inr all ↦ rw (more, all) (hk, omega arith)
      ]
    ]

-- For every size below 2^64 that is at least the base case size, where the base case size and
-- `kLogBuckets` are at least one, `logBuckets` is at least one and at most `kLogBuckets`. Where equality
-- buckets are allowed, that number of buckets is at most `kMaxBuckets / 2`.
pub log_buckets_for_bounds :
    (c : Config) (n : ℕ)
    → 1 ≤ c.base_case_size
    → 1 ≤ c.log_buckets
    → c.base_case_size ≤ n
    → n < 2 ^ 64
    → (1 ≤ log_buckets_for c n)
      × (log_buckets_for c n ≤ c.log_buckets)
      × (c.allow_equal_buckets ≡ true → 2 ^ log_buckets_for c n ≤ max_buckets c / 2)
log_buckets_for_bounds c n hb hk le small =
    let (lo, hi) = log_buckets_for_range c n hb hk le small in
    (lo, hi, λ e. half_of_max (log_buckets_for c n) hi e)
  where
    half_of_max :
        (l : ℕ) → l ≤ c.log_buckets → c.allow_equal_buckets ≡ true → 2 ^ l ≤ max_buckets c / 2
    half_of_max l hi e = rw e (omega (arith, pow2-le l c.log_buckets hi, pow2-add c.log_buckets 1))
