-- ===== src/StateMachine/Halting.antt =====
-- When the loop of `run` of ips4o_state_machine.hpp comes to an end.
use mathlib.Core.List.Perm
use ips4o.Prelude.{
  ℕ, suc, ◌+◌, ◌-◌, ◌*◌, ◌/◌, ◌^◌, ◌≤◌, ◌<◌, ◌≡◌, refl, sym, ap, ◌∙◌, subst, arith, Bool,
  Bool-cases, inl, inr, some, List, [], ◌∷◌, ◌++◌, append_assoc, Perm, ltb, ltb→le, length,
  length-append, max, min, IsStrictWeak, IsSorted, if◌then◌else◌,
}
use ips4o.Config.{Config, log_buckets_for, oversampling_factor}
use ips4o.Sampling.{RandomGen}
use ips4o.StateMachine.{State, Task, Machine, new_task, dispatch, step, written, push_buckets}
use ips4o.StateMachine.Buckets.{IsClassified}
use ips4o.StateMachine.Invariant.{IsSorted-short, bucket-IsSorted}
use ips4o.StateMachine.Distinct.{Distinct, Distinct-append_left, Distinct-append_right, AllShort}

-- For every size that is sampled, the sample reaches past the first splitter, and there is one.
abbrev pub EnoughSamples : Config → Type 0
EnoughSamples c =
    (n : ℕ)
    → c.base_case_multiplier * c.base_case_size < n
    → n < 2 ^ 64
    → let step = max 1 (oversampling_factor c n) in
      let num_buckets = 2 ^ log_buckets_for c n in
      (step < min (step * num_buckets - 1) (n / 2)) × (2 ≤ num_buckets)

module _ {ℓ} {A : Type ℓ} {G : Type 0} (comp : A → A → Bool) (random : RandomGen G)
    (c : Config) where
  -- The loop of `run` comes to an end.
  pub data Halts : Machine A G → Type ℓ where
    stop : (m : Machine A G) → m.task_stack ≡ [] → Halts m
    next : (m m' : Machine A G) → step comp random c m ≡ some m' → Halts m' → Halts m

  -- The rest of the stack halts, once the range is sorted.
  abbrev pub After : List (Task A) → List A → List A → List A → Type ℓ
  After rest pre seg post =
      (r : List A) (g : G)
      → IsSorted comp r
      → Perm r seg
      → Halts (record { array = pre ++ (r ++ post); task_stack = rest; random_generator = g })

  abbrev pub HaltsAt : Task A → List (Task A) → List A → G → Type ℓ
  HaltsAt t rest array g =
      Halts (record { array = array; task_stack = t ∷ rest; random_generator = g })

  pub step-dispatch :
      (s : State) (t : Task A) (rest : List (Task A)) (array : List A) (g : G)
      → t.state ≡ s
      → step comp random c (record { array = array; task_stack = t ∷ rest; random_generator = g })
        ≡ dispatch comp random c s t rest array g
  unfolding step
  step-dispatch s t rest array g e = ap (λ z. dispatch comp random c z t rest array g) e

  -- Ranges shorter than n are worked off from the state of a new task.
  abbrev pub ShorterHalt : ℕ → Type ℓ
  ShorterHalt n =
      (t : Task A) (rest : List (Task A)) (pre seg post : List A) (g : G)
      → t.state ≡ State.simple_cases
      → t.begin ≡ length pre
      → t.stop ≡ length pre + length seg
      → length seg < n
      → length seg < 2 ^ 64
      → Distinct comp seg
      → After rest pre seg post
      → HaltsAt t rest (pre ++ (seg ++ post)) g

  module _ (w : IsStrictWeak comp) where
    pub push_buckets-Halts :
        (n : ℕ)
        → ShorterHalt n
        → n ≤ 2 ^ 64
        → (splitters : List A) (i : ℕ) (buckets : List (List A)) (pre post : List A)
          (stack : List (Task A)) (p : ℕ) (g : G)
        → p ≡ length pre
        → IsClassified comp splitters i buckets
        → AllShort comp n buckets
        → Distinct comp (written buckets)
        → After stack pre (written buckets) post
        → Halts (record {
          array = pre ++ (written buckets ++ post);
          task_stack = push_buckets buckets p stack;
          random_generator = g;
        })
    unfolding written push_buckets
    push_buckets-Halts n ih small splitters i [] pre post stack p g e cl sh d k = k [] g tt Perm.rfl
    push_buckets-Halts n ih small splitters i (b ∷ buckets) pre post stack p g e cl sh d k =
        subst
          (λ a. Halts (record {
            array = a;
            task_stack = push_buckets buckets (p + length b) stack';
            random_generator = g;
          }))
          (append_assoc pre b (written buckets ++ post)
            ∙ ap (λ z. pre ++ z) (sym (append_assoc b (written buckets) post)))
          (push_buckets-Halts n ih small splitters (suc i) buckets (pre ++ b) post stack'
            (p + length b) g (omega (arith, length-append pre b)) cl.1 sh.1
            (Distinct-append_right comp b (written buckets) d) resume)
      where
        stack' : List (Task A)
        stack' =
            if ltb 1 (length b) then new_task p (p + length b) State.simple_cases ∷ stack else stack

        whole :
            (r r' : List A) (g : G)
            → IsSorted comp r
            → Perm r b
            → IsSorted comp r'
            → Perm r' (written buckets)
            → Halts (record {
              array = pre ++ (r ++ (r' ++ post));
              task_stack = stack;
              random_generator = g;
            })
        whole r r' g s q s' q' =
            subst
              (λ a. Halts (record { array = pre ++ a; task_stack = stack; random_generator = g }))
              (append_assoc r r' post)
              (k (r ++ r') g (bucket-IsSorted comp w splitters i b buckets cl s q s' q')
                (Perm.append q q'))

        resume : After stack' (pre ++ b) (written buckets) post
        resume r' g' s' q' = elim (Bool-cases (ltb 1 (length b))) [
          | inl many ↦
              rw (many, append_assoc)
                (ih (new_task p (p + length b) State.simple_cases) stack pre b (r' ++ post) g' refl
                  e (omega arith) sh.0 (omega (arith, sh.0))
                  (Distinct-append_left comp b (written buckets) d)
                  (λ r g'' s q. whole r r' g'' s q s' q'))
          | inr few ↦
              rw (few, append_assoc)
                (whole b r' g' (IsSorted-short comp b (ltb→le _ _ few)) Perm.rfl s' q')
        ]
