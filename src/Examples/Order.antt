-- ===== src/Examples/Order.antt =====
-- `std::less<>` on numbers, the default comparator.
use ips4o.Prelude.{ℕ, Bool, arith, ltb, IsStrictWeak}

abbrev pub less : ℕ → ℕ → Bool
less = ltb

pub less-IsStrictWeak : IsStrictWeak less
less-IsStrictWeak = record {
  irrefl = λ a. ground arith;
  trans = λ a b c h k. ground arith;
  split = λ a b c h. grind arith;
}
