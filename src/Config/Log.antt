-- ===== src/Config/Log.antt =====
-- `log2` of include/ips4o/utils.hpp, by way of the bits of the word.
use ips4o.Prelude.{
  ℕ, zero, suc, ◌-◌, ◌/◌, ◌^◌, ◌≤◌, ◌<◌, ◌≡◌, refl, arith, pow2-suc, pow2-pos, le_of_pow2-lt,
}
use ips4o.Config.{bit_length, log2}

bit_length_lem :
    (fuel n : ℕ)
    → 0 < n
    → n < 2 ^ fuel
    → (l : ℕ) × (bit_length fuel n ≡ suc l) × (l < fuel) × (2 ^ l ≤ n) × (n < 2 ^ suc l)
unfolding bit_length
bit_length_lem zero n p h = absurd (omega arith)
bit_length_lem (suc fuel) zero p h = absurd (omega arith)
bit_length_lem (suc fuel) (suc zero) p h =
    (0, bit_length_zero fuel, omega arith, omega arith, omega arith)
  where
    bit_length_zero : (k : ℕ) → suc (bit_length k (1 / 2)) ≡ 1
    bit_length_zero zero = refl
    bit_length_zero (suc k) = refl
bit_length_lem (suc fuel) (suc (suc m)) p h =
    let n : ℕ = suc (suc m) in
    let (l, e, lt, lo, hi) =
      bit_length_lem fuel (n / 2) (omega arith) (omega (arith, pow2-suc fuel)) in
    (
      suc l,
      ground (arith, e),
      omega arith,
      omega (arith, pow2-suc l),
      omega (arith, pow2-suc (suc l)),
    )

-- `log2(n)` is the one exponent with `2^log2(n) <= n < 2^(log2(n) + 1)`, for every positive 64-bit n.
pub log2_bounds : (n : ℕ) → 0 < n → n < 2 ^ 64 → (2 ^ log2 n ≤ n) × (n < 2 ^ suc (log2 n))
unfolding log2
log2_bounds n p h =
    let (l, e, lt, lo, hi) = bit_length_lem 64 n p h in
    let e' : 64 - 1 - (64 - bit_length 64 n) ≡ l = omega arith in rw e' (lo, hi)

-- The exponent is determined by these bounds.
pub log2_unique : (n l : ℕ) → n < 2 ^ 64 → 2 ^ l ≤ n → n < 2 ^ suc l → log2 n ≡ l
log2_unique n l h lo hi =
    let p : 0 < n = omega (arith, pow2-pos l) in
    let (lo', hi') = log2_bounds n p h in
    let le = le_of_pow2-lt l (suc (log2 n)) (omega arith) in
    let ge = le_of_pow2-lt (log2 n) (suc l) (omega arith) in omega (arith, le, ge)

pub log2_small : (n : ℕ) → log2 n ≤ 63
unfolding log2
log2_small n = omega arith
