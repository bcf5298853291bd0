-- ===== src/StateMachine/Buckets.antt =====
-- The pass of `handle_partition` of ips4o_state_machine.hpp over the range.
use mathlib.Core.List.Perm
use mathlib.Core.List.{perm_middle}
use ips4o.Prelude.{
  ℕ, zero, suc, ◌+◌, ◌≤◌, ◌<◌, ◌≡◌, refl, arith, Bool, true, List, [], ◌∷◌, ◌++◌, append-nil,
  append_assoc, length, All, All-append, Perm, IsStrictWeak, lt_of_le_lt, subst,
}
use ips4o.StateMachine.{lower_bound, push_to, distribute, empty_buckets, written}

module _ {ℓ} {A : Type ℓ} where
  written-push_to :
      (buckets : List (List A)) (i : ℕ) (v : A)
      → i < length buckets
      → Perm (written (push_to buckets i v)) (v ∷ written buckets)
  unfolding written push_to
  written-push_to [] i v h = absurd (omega arith)
  written-push_to (b ∷ buckets) zero v h = rw append_assoc (perm_middle b (written buckets))
  written-push_to (b ∷ buckets) (suc i) v h =
      Perm.trans (Perm.append_left b (written-push_to buckets i v (omega arith)))
        (perm_middle b (written buckets))

  length-push_to :
      (buckets : List (List A)) (i : ℕ) (v : A) → length (push_to buckets i v) ≡ length buckets
  unfolding push_to
  length-push_to [] i v = refl
  length-push_to (b ∷ buckets) zero v = refl
  length-push_to (b ∷ buckets) (suc i) v = omega (arith, length-push_to buckets i v)

module _ {ℓ} (A : Type ℓ) where
  length-empty_buckets : (n : ℕ) → length (empty_buckets {A = A} n) ≡ n
  unfolding empty_buckets
  length-empty_buckets zero = refl
  length-empty_buckets (suc n) = omega (arith, length-empty_buckets n)

  written-empty_buckets : (n : ℕ) → written (empty_buckets {A = A} n) ≡ []
  unfolding empty_buckets written
  written-empty_buckets zero = refl
  written-empty_buckets (suc n) = written-empty_buckets n

module _ {ℓ} {A : Type ℓ} (comp : A → A → Bool) where
  pub lower_bound-le :
      (splitters : List A) (v : A) → lower_bound comp splitters v ≤ length splitters
  unfolding lower_bound
  lower_bound-le [] v = omega arith
  lower_bound-le (s ∷ splitters) v = ground (arith, lower_bound-le splitters v)

  distribute-perm :
      (splitters values : List A) (buckets : List (List A))
      → length splitters < length buckets
      → Perm (written (distribute comp splitters values buckets)) (values ++ written buckets)
  unfolding distribute
  distribute-perm splitters [] buckets h = Perm.rfl
  distribute-perm splitters (v ∷ values) buckets h =
      let i = lower_bound comp splitters v in
      Perm.trans
        (distribute-perm splitters values (push_to buckets i v)
          (omega (arith, length-push_to buckets i v)))
        (Perm.trans
          (Perm.append_left values
            (written-push_to buckets i v (omega (arith, lower_bound-le splitters v))))
          (perm_middle values (written buckets)))

  -- The bucket of every element is its `lower_bound`; `i` is the number of the first bucket.
  abbrev pub IsClassified : List A → ℕ → List (List A) → Type 0
  IsClassified splitters i [] = Unit
  IsClassified splitters i (b ∷ buckets) =
      All (λ v. lower_bound comp splitters v ≡ i) b × IsClassified splitters (suc i) buckets

  push_to-IsClassified :
      (splitters : List A) (i j : ℕ) (v : A) (buckets : List (List A))
      → lower_bound comp splitters v ≡ i + j
      → IsClassified splitters i buckets
      → IsClassified splitters i (push_to buckets j v)
  unfolding push_to
  push_to-IsClassified splitters i j v [] e h = tt
  push_to-IsClassified splitters i zero v (b ∷ buckets) e h =
      (All-append (λ u. lower_bound comp splitters u ≡ i) b (v ∷ []) h.0 (omega arith, tt), h.1)
  push_to-IsClassified splitters i (suc j) v (b ∷ buckets) e h =
      (h.0, push_to-IsClassified splitters (suc i) j v buckets (omega arith) h.1)

  distribute-IsClassified :
      (splitters values : List A) (buckets : List (List A))
      → IsClassified splitters 0 buckets
      → IsClassified splitters 0 (distribute comp splitters values buckets)
  unfolding distribute
  distribute-IsClassified splitters [] buckets h = h
  distribute-IsClassified splitters (v ∷ values) buckets h =
      distribute-IsClassified splitters values _
        (push_to-IsClassified splitters 0 (lower_bound comp splitters v) v buckets (omega arith) h)

  empty-IsClassified : (splitters : List A) (i n : ℕ) → IsClassified splitters i (empty_buckets n)
  unfolding empty_buckets
  empty-IsClassified splitters i zero = tt
  empty-IsClassified splitters i (suc n) = (tt, empty-IsClassified splitters (suc i) n)

  pub lower_bound-separates :
      IsStrictWeak comp
      → (splitters : List A) (a b : A) → lower_bound comp splitters a < lower_bound comp splitters b
      → comp a b ≡ true
  unfolding lower_bound
  lower_bound-separates w [] a b h = absurd (omega arith)
  lower_bound-separates w (s ∷ splitters) a b h =
      ground (arith, lower_bound-separates w splitters a b, lt_of_le_lt comp w a s b)

  -- The pass over the range puts each element into the bucket of its lower bound among the splitters,
  -- and the buckets together hold what the range held.
  pub distribute_lem :
      (splitters values : List A)
      → let buckets = distribute comp splitters values (empty_buckets (suc (length splitters))) in
        Perm (written buckets) values × IsClassified splitters 0 buckets
  distribute_lem splitters values = (
    subst (λ r. Perm (written (distribute comp splitters values _)) r)
        (rw (written-empty_buckets, append-nil))
        (distribute-perm splitters values (empty_buckets (suc (length splitters)))
          (omega (arith, length-empty_buckets A (suc (length splitters))))),
    distribute-IsClassified splitters values _
        (empty-IsClassified splitters 0 (suc (length splitters))),
  )
