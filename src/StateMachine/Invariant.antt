-- ===== src/StateMachine/Invariant.antt =====
-- The invariant of the machine of ips4o_state_machine.hpp. `Pending stack array` says: each task names a range of the array, its
-- data is right for its state, and if its range is sorted in place, the rest of the stack is pending
-- on the array that results; with no task left, the array is a sorted rearrangement of the input.
use mathlib.Core.List.Perm
use native.Mathlib.Bridge.{le_prop}
use native.Mathlib.Nat.{ℕ_set}
use ips4o.Prelude.{
  ℕ, suc, ◌+◌, ◌≤◌, ◌<◌, ◌≡◌, sym, ap, ◌∙◌, subst, arith, Bool, Bool-cases, inl, inr, Option, some,
  List, [], ◌∷◌, ◌++◌, append_assoc, Perm, ltb, ltb→le, length, length-append, take, All,
  All-append, All-imp, All-perm, IsStrictWeak, IsSorted, AllLe, IsSorted-append, lt_asymm,
  if◌then◌else◌,
}
use ips4o.StateMachine.{State, Task, Machine, new_task, lower_bound, written, push_buckets}
use ips4o.StateMachine.Buckets.{IsClassified, lower_bound-separates}

module _ {ℓ} {A : Type ℓ} (comp : A → A → Bool) where
  -- What a task carries from one state to the next: when its sample has been sorted, and when its
  -- splitters have been picked.
  abbrev pub StateOk : State → Task A → List A → Type 0
  StateOk State.simple_cases t seg = Unit
  StateOk State.base_case t seg = Unit
  StateOk State.sample_select t seg = Unit
  StateOk State.sample_sorted t seg =
      (t.num_samples ≤ length seg) × IsSorted comp (take t.num_samples seg)
  StateOk State.partition t seg = IsSorted comp t.splitters

  module _ (input : List A) where
    abbrev pub Pending : List (Task A) → List A → Type ℓ
    Pending [] array = IsSorted comp array × Perm array input
    Pending (t ∷ rest) array =
        (pre : List A) × (seg : List A) × (post : List A) × (array ≡ pre ++ (seg ++ post))
        × (t.begin ≡ length pre)
        × (t.stop ≡ length pre + length seg)
        × StateOk t.state t seg
        × ((r : List A) → IsSorted comp r → Perm r seg → Pending rest (pre ++ (r ++ post)))

    -- A step that is defined and keeps the invariant.
    abbrev pub Keeps : {G : Type 0} → Option (Machine A G) → Type ℓ
    Keeps {G} o = (m : Machine A G) × (o ≡ some m) × Pending m.task_stack m.array

  pub IsSorted-short : (b : List A) → length b ≤ 1 → IsSorted comp b
  IsSorted-short [] h = tt
  IsSorted-short (x ∷ []) h = (tt, tt)
  IsSorted-short (x ∷ y ∷ b) h = absurd (omega arith)

  later_buckets :
      (splitters : List A) (i j : ℕ) (buckets : List (List A))
      → i < j
      → IsClassified comp splitters j buckets
      → All (λ v. i < lower_bound comp splitters v) (written buckets)
  unfolding written
  later_buckets splitters i j [] h c = tt
  later_buckets splitters i j (b ∷ buckets) h c =
      All-append (λ v. i < lower_bound comp splitters v) b (written buckets)
        (All-imp (λ v. lower_bound comp splitters v ≡ j) b (λ v e. omega arith) c.0)
        (later_buckets splitters i (suc j) buckets (omega arith) c.1)

  module _ (w : IsStrictWeak comp) (splitters : List A) (i : ℕ) where
    buckets-AllLe :
        (xs ys : List A)
        → All (λ v. lower_bound comp splitters v ≡ i) xs
        → All (λ v. i < lower_bound comp splitters v) ys
        → AllLe comp xs ys
    buckets-AllLe [] ys h k = tt
    buckets-AllLe (x ∷ xs) ys h k = (
      All-imp (λ v. i < lower_bound comp splitters v) ys
          (λ y lt. lt_asymm comp w x y (lower_bound-separates comp w splitters x y (omega arith)))
          k,
      buckets-AllLe xs ys h.1 k,
    )

    -- A sorted bucket followed by the sorted rest is sorted.
    pub bucket-IsSorted :
        (b : List A) (buckets : List (List A)) {r r' : List A}
        → IsClassified comp splitters i (b ∷ buckets)
        → IsSorted comp r
        → Perm r b
        → IsSorted comp r'
        → Perm r' (written buckets)
        → IsSorted comp (r ++ r')
    bucket-IsSorted b buckets {r} {r'} c s p s' p' = IsSorted-append comp r r' s s' (
        buckets-AllLe r r'
          (All-perm (λ v. lower_bound comp splitters v ≡ i) (λ v. ℕ_set _ _) (Perm.symm p) c.0)
          (All-perm (λ v. i < lower_bound comp splitters v) (λ v. le_prop) (Perm.symm p')
            (later_buckets splitters i (suc i) buckets (omega arith) c.1)))

  -- The tasks that `handle_partition` pushes: sorting each bucket in place sorts the range.
  pub push_buckets-Pending :
      IsStrictWeak comp
      → (input splitters : List A) (i : ℕ) (buckets : List (List A)) (pre post : List A)
        (stack : List (Task A)) (p : ℕ)
      → p ≡ length pre
      → IsClassified comp splitters i buckets
      → ((r : List A)
          → IsSorted comp r
          → Perm r (written buckets)
          → Pending input stack (pre ++ (r ++ post)))
      → Pending input (push_buckets buckets p stack) (pre ++ (written buckets ++ post))
  unfolding written push_buckets
  push_buckets-Pending w input splitters i [] pre post stack p e c k = k [] tt Perm.rfl
  push_buckets-Pending w input splitters i (b ∷ buckets) pre post stack p e c k =
      subst (λ a. Pending input (push_buckets buckets (p + length b) stack') a)
        (append_assoc pre b (written buckets ++ post)
          ∙ ap (◌++◌ pre) (sym (append_assoc b (written buckets) post)))
        (push_buckets-Pending w input splitters (suc i) buckets (pre ++ b) post stack'
          (p + length b) (omega (arith, length-append pre b)) c.1 next)
    where
      stack' : List (Task A)
      stack' =
          if ltb 1 (length b) then new_task p (p + length b) State.simple_cases ∷ stack else stack

      whole :
          (r r' : List A)
          → IsSorted comp r
          → Perm r b
          → IsSorted comp r'
          → Perm r' (written buckets)
          → Pending input stack (pre ++ (r ++ (r' ++ post)))
      whole r r' s q s' q' =
          subst (λ a. Pending input stack (pre ++ a)) (append_assoc r r' post)
            (k (r ++ r') (bucket-IsSorted w splitters i b buckets c s q s' q') (Perm.append q q'))

      next :
          (r' : List A)
          → IsSorted comp r'
          → Perm r' (written buckets)
          → Pending input stack' ((pre ++ b) ++ (r' ++ post))
      next r' s' q' = elim (Bool-cases (ltb 1 (length b))) [
        | inl many ↦ rw many (
          pre,
          b,
          r' ++ post,
          append_assoc pre b (r' ++ post),
          e,
          omega arith,
          tt,
          λ r s q. whole r r' s q s' q',
        )
        | inr few ↦
            rw (few, append_assoc) (whole b r' (IsSorted-short b (ltb→le _ _ few)) Perm.rfl s' q')
      ]
