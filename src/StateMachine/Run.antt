-- ===== src/StateMachine/Run.antt =====
-- `run` of ips4o_state_machine.hpp, for a number of rounds.
use mathlib.Core.List.Perm
use mathlib.Core.List.{append-nil}
use ips4o.Prelude.{
  ℕ, zero, suc, ◌≡◌, refl, sym, arith, Bool, some, List, [], ◌∷◌, ◌++◌, Perm, IsStrictWeak,
  IsSorted,
}
use ips4o.Config.{Config}
use ips4o.BaseCase.Insertion.{base_case_sort-IsSorted}
use ips4o.Sampling.{RandomGen}
use ips4o.StateMachine.{Task, Machine, new_machine, step, Outcome, done, running, undefined, run}
use ips4o.StateMachine.Invariant.{Pending}
use ips4o.StateMachine.Handlers.{step-Keeps}

module _ {ℓ} {A : Type ℓ} (comp : A → A → Bool) (w : IsStrictWeak comp) (input : List A) where
  -- A pending array is a rearrangement of the input: sort the ranges of the stack one by one.
  Pending-perm :
      (stack : List (Task A)) (array : List A) → Pending comp input stack array → Perm array input
  Pending-perm [] array p = p.1
  Pending-perm (t ∷ rest) array (pre, seg, post, split, _, _, _, after) =
      let (r, _, s, perm) = base_case_sort-IsSorted comp w seg in
      rw split (
        Perm.trans (Perm.append_left pre (Perm.append_right post (Perm.symm perm)))
          (Pending-perm rest (pre ++ (r ++ post)) (after r s perm)))

  new_machine-Pending :
      {G : Type 0} (g : G) → let m = new_machine input g in Pending comp input m.task_stack m.array
  new_machine-Pending g =
      ([], input, [], sym (append-nil input), refl, omega arith, tt, λ r s p. rw append-nil (s, p))

  -- What is known of a run, for each way in which it may end. (The second factor gives the level.)
  abbrev pub Sound : {G : Type 0} → Outcome (Machine A G) → Type ℓ
  Sound (done m) = IsSorted comp m.array × Perm m.array input
  Sound (running m) = Perm m.array input
  Sound undefined = ⊥ × List A

  module _ {G : Type 0} (random : RandomGen G) (c : Config) where
    -- One round with a task on the stack.
    run-step :
        (fuel : ℕ) (array : List A) (t : Task A) (rest : List (Task A)) (g : G) {m' : Machine A G}
        → step comp random c (record { array = array; task_stack = t ∷ rest; random_generator = g })
          ≡ some m'
        → run comp random c
            (suc fuel)
            (record { array = array; task_stack = t ∷ rest; random_generator = g })
          ≡ run comp random c fuel m'
    unfolding run
    run-step fuel array t rest g e = rw (e, run)

    run-Sound :
        (fuel : ℕ) (array : List A) (stack : List (Task A)) (g : G)
        → Pending comp input stack array
        → Sound (
            run comp random c fuel
              (record { array = array; task_stack = stack; random_generator = g }))
    unfolding run
    run-Sound zero array [] g p = p
    run-Sound zero array (t ∷ rest) g p = Pending-perm (t ∷ rest) array p
    run-Sound (suc fuel) array [] g p = p
    run-Sound (suc fuel) array (t ∷ rest) g p =
        let (m', e, p') = step-Keeps comp w random c input array (t ∷ rest) g p in
        rw (run-step fuel array t rest g e)
          (run-Sound fuel m'.array m'.task_stack m'.random_generator p')

    -- For every array, every generator and every number of rounds: `run` never does anything undefined
    -- (an access outside a range); between any two steps the array is a rearrangement of the input; and
    -- when the stack is empty, it is sorted. The comparison is a strict weak order.
    pub run-new_machine-Sound :
        (fuel : ℕ) (g : G) → Sound (run comp random c fuel (new_machine input g))
    run-new_machine-Sound fuel g = run-Sound fuel input _ g (new_machine-Pending g)
