-- ===== src/StateMachine/Splitters.antt =====
-- The splitters that `handle_sample_sorted` of ips4o_state_machine.hpp picks.
use ips4o.Prelude.{
  ℕ, zero, suc, ◌+◌, ◌≤◌, ◌≡◌, arith, Bool, inl, inr, some, List, get_elem?, IsSorted-get, length,
  All, IsStrictWeak, Le, IsSorted, Option-cases,
}
use ips4o.StateMachine.{skip_duplicates, pick_splitters}

module _ {ℓ} {A : Type ℓ} (comp : A → A → Bool) where
  skip_duplicates-le :
      (sample : List A) (step fuel : ℕ) (back : A) (p : ℕ)
      → p ≤ skip_duplicates comp sample step fuel back p
  unfolding skip_duplicates
  skip_duplicates-le sample step zero back p = omega arith
  skip_duplicates-le sample step (suc fuel) back p =
      ground (arith, skip_duplicates-le sample step fuel back (p + step))

  module _ (w : IsStrictWeak comp) (sample : List A) (sorted : IsSorted comp sample)
      (step : ℕ) where
    pick_splitters-above :
        (fuel room p q : ℕ) {a : A}
        → q ≤ p
        → get_elem? sample q ≡ some a
        → All (Le comp a) (pick_splitters comp sample step fuel room p)
    unfolding pick_splitters
    pick_splitters-above zero room p q h e = tt
    pick_splitters-above (suc fuel) zero p q h e = tt
    pick_splitters-above (suc fuel) (suc room) p q {a} h e =
        elim (Option-cases (get_elem? sample p)) [
          | inl out ↦ rw (out, pick_splitters) tt
          | inr at ↦
              let (x, f) = at in
              let next = skip_duplicates-le sample step (length sample) x (p + step) in
              rw (f, pick_splitters)
                (
                  IsSorted-get comp w sample q p sorted h e f,
                  pick_splitters-above fuel room _ q (omega arith) e,
                )
        ]

    -- For a strict weak order, from a sorted sample, splitters are picked in ascending order,
    -- whatever the step, the number of buckets and the start.
    pub pick_splitters-IsSorted :
        (fuel room p : ℕ) → IsSorted comp (pick_splitters comp sample step fuel room p)
    unfolding pick_splitters
    pick_splitters-IsSorted zero room p = tt
    pick_splitters-IsSorted (suc fuel) zero p = tt
    pick_splitters-IsSorted (suc fuel) (suc room) p = elim (Option-cases (get_elem? sample p)) [
      | inl out ↦ rw (out, pick_splitters) tt
      | inr at ↦
          let (x, f) = at in
          let next = skip_duplicates-le sample step (length sample) x (p + step) in
          rw (f, pick_splitters)
            (
              pick_splitters-above fuel room _ p (omega arith) f,
              pick_splitters-IsSorted fuel room _,
            )
    ]
