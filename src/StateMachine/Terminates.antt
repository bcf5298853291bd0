-- ===== src/StateMachine/Terminates.antt =====
-- The rounds of `run` of ips4o_state_machine.hpp, by the first states of a task, and whole runs.
use mathlib.Core.List.{append-nil}
use ips4o.Prelude.{
  ℕ, zero, suc, ◌+◌, ◌-◌, ◌*◌, ◌^◌, ◌<◌, ◌≡◌, refl, ◌∙◌, subst, arith, Bool, true, Bool-cases, inl,
  inr, List, [], ◌∷◌, ◌++◌, Perm, leb, leb→lt, length, IsStrictWeak, IsSorted,
}
use ips4o.Config.{Config}
use ips4o.BaseCase.{sort_simple_cases}
use ips4o.BaseCase.Simple.{sort_simple_cases_lem}
use ips4o.BaseCase.Insertion.{base_case_sort-IsSorted}
use ips4o.Sampling.{RandomGen}
use ips4o.StateMachine.{
  State, Task, Machine, new_task, handle_simple_cases, handle_base_case, dispatch, new_machine, run,
  is_done, done,
}
use ips4o.StateMachine.Handlers.{the_range, the_write}
use ips4o.StateMachine.Distinct.{Distinct}
use ips4o.StateMachine.Halting.{EnoughSamples, Halts, After, HaltsAt, ShorterHalt, step-dispatch}
use ips4o.StateMachine.Run.{Sound, run-new_machine-Sound}
use ips4o.StateMachine.Sampled.{later, sample_select-Halts}

module _ {ℓ} {A : Type ℓ} {G : Type 0} (comp : A → A → Bool) (random : RandomGen G) (c : Config)
    (w : IsStrictWeak comp) (rest : List (Task A)) (pre post : List A) where
  module _ (t : Task A) (seg : List A) (at_begin : t.begin ≡ length pre)
      (at_stop : t.stop ≡ length pre + length seg) (distinct : Distinct comp seg)
      (small : length seg < 2 ^ 64) (g : G) (after : After comp random c rest pre seg post)
      (enough : EnoughSamples c) (ih : ShorterHalt comp random c (length seg)) where
    base_case-Halts :
        t.state ≡ State.base_case → HaltsAt comp random c t rest (pre ++ (seg ++ post)) g
    unfolding dispatch handle_base_case
    base_case-Halts e =
        let whole = pre ++ (seg ++ post) in
        elim (Bool-cases (leb (t.stop - t.begin) (c.base_case_multiplier * c.base_case_size))) [
          | inl few ↦
              let (r, sorts, sorted, perm) = base_case_sort-IsSorted comp w seg in
              Halts.next _
                (record { array = pre ++ (r ++ post); task_stack = rest; random_generator = g })
                (step-dispatch comp random c State.base_case t rest whole g e
                  ∙ rw (
                    few,
                    the_range t whole pre seg post refl at_begin at_stop,
                    sorts,
                    the_write t whole pre seg post refl at_begin r perm,
                    handle_base_case,
                  ))
                (after r g sorted perm)
          | inr large ↦
              let t' : Task A = record t { state = State.sample_select } in
              later comp random c w rest pre post t seg at_begin at_stop distinct small g after
                State.base_case t' e (rw (large, handle_base_case))
                (sample_select-Halts comp random c w rest pre post t' seg at_begin at_stop distinct
                  small g after enough ih refl (leb→lt _ _ large))
        ]

  module _ (t : Task A) (seg : List A) (at_begin : t.begin ≡ length pre)
      (at_stop : t.stop ≡ length pre + length seg) (distinct : Distinct comp seg)
      (small : length seg < 2 ^ 64) (g : G) (after : After comp random c rest pre seg post)
      (enough : EnoughSamples c) (ih : ShorterHalt comp random c (length seg)) where
    simple_cases-Halts :
        t.state ≡ State.simple_cases → HaltsAt comp random c t rest (pre ++ (seg ++ post)) g
    unfolding dispatch handle_simple_cases
    simple_cases-Halts e =
        let whole = pre ++ (seg ++ post) in
        let (perm, sorted, same) = sort_simple_cases_lem comp w seg in
        let seg' = (sort_simple_cases comp seg).1 in
        elim (Bool-cases (sort_simple_cases comp seg).0) [
          | inl fin ↦
              Halts.next _
                (record { array = pre ++ (seg' ++ post); task_stack = rest; random_generator = g })
                (step-dispatch comp random c State.simple_cases t rest whole g e
                  ∙ rw (
                    the_range t whole pre seg post refl at_begin at_stop,
                    the_write t whole pre seg post refl at_begin seg' perm,
                    fin,
                  ))
                (after seg' g (sorted fin) perm)
          | inr more ↦
              let t' : Task A = record t { state = State.base_case } in
              later comp random c w rest pre post t seg at_begin at_stop distinct small g after
                State.simple_cases t' e
                (rw (
                  the_range t whole pre seg post refl at_begin at_stop,
                  the_write t whole pre seg post refl at_begin seg' perm,
                  more,
                  (same more).0,
                ))
                (base_case-Halts t' seg at_begin at_stop distinct small g after enough ih refl)
        ]

module _ {ℓ} {A : Type ℓ} {G : Type 0} (comp : A → A → Bool) (random : RandomGen G) (c : Config)
    (w : IsStrictWeak comp) (enough : EnoughSamples c) where
  all-Halt : (n : ℕ) → ShorterHalt comp random c n
  all-Halt zero t rest pre seg post g e hb hs lt small d after = absurd (omega arith)
  all-Halt (suc n) t rest pre seg post g e hb hs lt small d after =
      simple_cases-Halts comp random c w rest pre post t seg hb hs d small g after enough
        (λ t' rest' pre' seg' post' g' e' hb' hs' lt' small' d' after'.
          all-Halt n t' rest' pre' seg' post' g' e' hb' hs' (omega arith) small' d' after')
        e

  new_machine-Halts :
      (input : List A) (g : G)
      → length input < 2 ^ 64
      → Distinct comp input
      → Halts comp random c (new_machine input g)
  new_machine-Halts input g small distinct =
      subst
        (λ a. Halts comp random c (record {
          array = a;
          task_stack = new_task 0 (length input) State.simple_cases ∷ [];
          random_generator = g;
        }))
        (append-nil input)
        (all-Halt (suc (length input)) (new_task 0 (length input) State.simple_cases) [] [] input []
          g refl refl (omega arith) (omega arith) small distinct (λ r g' s p. Halts.stop _ refl))

module _ {ℓ} {A : Type ℓ} {G : Type 0} (comp : A → A → Bool) (random : RandomGen G)
    (c : Config) where
  stopped : (m : Machine A G) → m.task_stack ≡ [] → is_done m ≡ true
  unfolding is_done
  stopped m e = rw e refl

  Halts-run :
      {m : Machine A G}
      → Halts comp random c m
      → (fuel : ℕ) × (m' : Machine A G) × (run comp random c fuel m ≡ done m')
  unfolding run
  Halts-run (Halts.stop m e) = (0, m, rw (stopped m e, run) refl)
  Halts-run (Halts.next m m' e h) =
      let (fuel, m'', r) = Halts-run h in
      elim (Bool-cases (is_done m)) [
        | inl empty ↦ (0, m, rw (empty, run) refl)
        | inr more ↦ (suc fuel, m'', rw (more, e, run) r)
      ]

module _ {ℓ} {A : Type ℓ} {G : Type 0} (comp : A → A → Bool) (random : RandomGen G)
    (c : Config) where
  -- When the comparison is a strict weak order, the array holds no two equivalent elements and fewer
  -- than 2 ^ 64 of them, and the configuration draws enough samples for each size that it samples,
  -- then for every generator some number of rounds empties the stack, and the array is then the
  -- input in sorted order.
  pub run-new_machine-done :
      IsStrictWeak comp
      → EnoughSamples c
      → (input : List A) (g : G) → length input < 2 ^ 64
      → Distinct comp input
      → (fuel : ℕ) × (m : Machine A G) × (run comp random c fuel (new_machine input g) ≡ done m)
        × IsSorted comp m.array
        × Perm m.array input
  run-new_machine-done w enough input g small distinct =
      let (fuel, m, e) =
        Halts-run comp random c (new_machine-Halts comp random c w enough input g small distinct) in
      let (sorted, perm) =
        subst (λ o. Sound comp w input o) e (run-new_machine-Sound comp w input random c fuel g) in
      (fuel, m, e, sorted, perm)
