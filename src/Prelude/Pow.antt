-- ===== src/Prelude/Pow.antt =====
-- Powers of two.
use Prim.Native.Nat.{ℕ, zero, suc, ◌+◌, ◌*◌, ◌^◌, ◌≤◌, ◌<◌}
use mathlib.Core.Path.{◌≡◌}
use native.Mathlib.Nat.{pow-suc, zero-add}
use native.Mathlib.Decide.{dec_lt}
use native.Mathlib.Omega.{arith}

pub pow2-suc : (k : ℕ) → 2 ^ suc k ≡ 2 ^ k + 2 ^ k
pow2-suc k = rw pow-suc (omega arith)

pub pow2-pos : (k : ℕ) → 1 ≤ 2 ^ k
pow2-pos zero = omega arith
pow2-pos (suc k) = omega (arith, pow2-suc k, pow2-pos k)

pub pow2-add : (k l : ℕ) → 2 ^ (k + l) ≡ 2 ^ k * 2 ^ l
pow2-add zero l = rw zero-add (omega arith)
pow2-add (suc k) l =
    rw (suc-add k l) (rw (pow2-suc (k + l)) (grind (arith, pow2-suc k, pow2-add k l)))
  where
    suc-add : (a b : ℕ) → suc a + b ≡ suc (a + b)
    suc-add a b = omega arith

pub pow2-le : (k l : ℕ) → k ≤ l → 2 ^ k ≤ 2 ^ l
pow2-le k zero h = let e : k ≡ 0 = omega arith in rw e (omega arith)
pow2-le k (suc l) h = elim (dec_lt k (suc l)) [
  | yes lt ↦ omega (arith, pow2-suc l, pow2-le k l (omega arith))
  | no ge ↦ let e : k ≡ suc l = omega arith in rw e (omega arith)
]

-- The exponent of a power of two that is below another power of two.
pub le_of_pow2-lt : (k l : ℕ) → 2 ^ k < 2 ^ l → k < l
le_of_pow2-lt k l h = elim (dec_lt k l) [
  | yes lt ↦ lt
  | no ge ↦ absurd (omega (arith, pow2-le l k (omega arith)))
]
