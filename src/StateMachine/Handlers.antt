-- ===== src/StateMachine/Handlers.antt =====
-- The handlers of ips4o_state_machine.hpp on a pending stack, one by one.
use mathlib.Core.List.Perm
use ips4o.Prelude.{
  ℕ, suc, ◌+◌, ◌-◌, ◌*◌, ◌≤◌, ◌≡◌, refl, sym, ap, ◌∙◌, subst, arith, Bool, true, false, Bool-cases,
  inl, inr, List, [], ◌∷◌, ◌++◌, append_assoc, Perm, ltb, leb, length, length-perm, take, drop,
  take-append-drop, length-take, take-length, IsStrictWeak, IsSorted, if◌then◌else◌, range,
  write_range, range-split, write_range-split, ◌&&◌,
}
use ips4o.Config.{Config}
use ips4o.BaseCase.{sort_simple_cases}
use ips4o.BaseCase.Simple.{sort_simple_cases_lem}
use ips4o.BaseCase.Insertion.{base_case_sort-IsSorted}
use ips4o.Sampling.{RandomGen}
use ips4o.Sampling.Sample.{select_sample-perm}
use ips4o.StateMachine.{
  State, Task, new_task, sample_context, handle_simple_cases, handle_base_case,
  handle_sample_select, handle_sample_sorted, handle_partition, dispatch, step, distribute,
  empty_buckets, written, push_buckets, pick_splitters,
}
use ips4o.StateMachine.Splitters.{pick_splitters-IsSorted}
use ips4o.StateMachine.Buckets.{distribute_lem}
use ips4o.StateMachine.Invariant.{StateOk, Pending, Keeps, push_buckets-Pending}

-- A range of the array, split off in front of and behind.
module _ {ℓ} {A : Type ℓ} (t : Task A) (array pre seg post : List A)
    (split : array ≡ pre ++ (seg ++ post)) (at_begin : t.begin ≡ length pre) where
  pub the_range : t.stop ≡ length pre + length seg → range array t.begin t.stop ≡ seg
  the_range at_stop = rw split (range-split pre seg post t.begin t.stop at_begin at_stop)

  pub the_write : (r : List A) → Perm r seg → write_range array t.begin r ≡ pre ++ (r ++ post)
  the_write r p = rw split (write_range-split pre seg r post t.begin at_begin (length-perm p))

-- The first `k` elements of a range are a range of their own.
pub front_split {ℓ} :
    {A : Type ℓ} (pre post : List A) (k : ℕ) (ys : List A)
    → pre ++ (ys ++ post) ≡ pre ++ (take k ys ++ (drop k ys ++ post))
front_split pre post k ys =
    ap (λ s. pre ++ s)
      (ap (λ s. s ++ post) (sym (take-append-drop k ys))
        ∙ append_assoc (take k ys) (drop k ys) post)

module _ {ℓ} {A : Type ℓ} {G : Type 0} (comp : A → A → Bool) (w : IsStrictWeak comp)
    (random : RandomGen G) (c : Config) (input : List A) where
  module _ (t : Task A) (rest : List (Task A)) (array pre seg post : List A)
      (split : array ≡ pre ++ (seg ++ post)) (at_begin : t.begin ≡ length pre)
      (at_stop : t.stop ≡ length pre + length seg)
      (after : (r : List A)
        → IsSorted comp r
        → Perm r seg
        → Pending comp input rest (pre ++ (r ++ post)))
      (g : G) where
    simple_cases-Keeps : Keeps comp input (handle_simple_cases comp random c t rest array g)
    unfolding handle_simple_cases
    simple_cases-Keeps =
        let (perm, sorted, same) = sort_simple_cases_lem comp w seg in
        let seg' = (sort_simple_cases comp seg).1 in
        rw (the_range t array pre seg post split at_begin at_stop) (
          record {
            array = write_range array t.begin seg';
            task_stack =
                if (sort_simple_cases comp seg).0
                then rest
                else record t { state = State.base_case } ∷ rest;
            random_generator = g;
          },
          refl,
          rw (the_write t array pre seg post split at_begin seg' perm)
              (elim (Bool-cases (sort_simple_cases comp seg).0) [
                | inl done ↦ rw done (after seg' (sorted done) perm)
                | inr more ↦ rw more (
                  pre,
                  seg,
                  post,
                  ap (λ s. pre ++ (s ++ post)) (same more).0,
                  at_begin,
                  at_stop,
                  tt,
                  after,
                )
              ]),
        )

    base_case-Keeps : Keeps comp input (handle_base_case comp random c t rest array g)
    unfolding handle_base_case
    base_case-Keeps =
        elim (Bool-cases (leb (t.stop - t.begin) (c.base_case_multiplier * c.base_case_size))) [
          | inl small ↦
              let (r, e, sorted, perm) = base_case_sort-IsSorted comp w seg in
              rw (small, the_range t array pre seg post split at_begin at_stop, e, handle_base_case)
                (
                  record {
                    array = write_range array t.begin r;
                    task_stack = rest;
                    random_generator = g;
                  },
                  refl,
                  rw (the_write t array pre seg post split at_begin r perm) (after r sorted perm),
                )
          | inr large ↦
              rw (large, handle_base_case)
                (
                  record {
                    array = array;
                    task_stack = record t { state = State.sample_select } ∷ rest;
                    random_generator = g;
                  },
                  refl,
                  (pre, seg, post, split, at_begin, at_stop, tt, after),
                )
        ]

    abbrev samples : ℕ
    samples = (sample_context c t).num_samples

    samples-le : samples ≤ length seg
    unfolding sample_context
    samples-le = omega arith

    -- Once its sample is sorted, the context is pending.
    context_Pending :
        (ys r : List A)
        → Perm ys seg
        → IsSorted comp r
        → Perm r (take samples ys)
        → Pending comp input (sample_context c t ∷ rest) (pre ++ (r ++ (drop samples ys ++ post)))
    unfolding sample_context
    context_Pending ys r perm s p =
        let whole : Perm (r ++ drop samples ys) seg =
          Perm.trans (rw take-append-drop at (Perm.append_right (drop samples ys) p)) perm in
        let front : samples ≡ length r =
          omega (arith, length-perm p, length-take samples ys, length-perm perm, samples-le) in
        (
          pre,
          r ++ drop samples ys,
          post,
          ap (λ z. pre ++ z) (sym (append_assoc r (drop samples ys) post)),
          at_begin,
          omega (arith, length-perm whole),
          (
            omega (arith, length-perm whole, samples-le),
            subst (λ z. IsSorted comp z)
                (sym
                  (ap (λ n. take n (r ++ drop samples ys)) front ∙ take-length r (drop samples ys)))
                s,
          ),
          λ r' s' p'. after r' s' (Perm.trans p' whole),
        )

    sample_select-Keeps : Keeps comp input (handle_sample_select comp random c t rest array g)
    unfolding handle_sample_select
    sample_select-Keeps =
        let (ys, g', e, perm) =
          select_sample-perm random samples (t.stop - t.begin) seg g (omega arith)
            (omega (arith, samples-le)) in
        rw (the_range t array pre seg post split at_begin at_stop, e, handle_sample_select)
          (
            record {
              array = write_range array t.begin ys;
              task_stack =
                  new_task t.begin (t.begin + samples) State.simple_cases
                  ∷ sample_context c t
                  ∷ rest;
              random_generator = g';
            },
            refl,
            (
              pre,
              take samples ys,
              drop samples ys ++ post,
              the_write t array pre seg post split at_begin ys perm
                  ∙ front_split pre post samples ys,
              at_begin,
              omega (arith, length-take samples ys, length-perm perm, samples-le),
              tt,
              λ r s p. context_Pending ys r perm s p,
            ),
          )

    sample_sorted-Keeps :
        StateOk comp State.sample_sorted t seg
        → Keeps comp input (handle_sample_sorted comp random c t rest array g)
    unfolding handle_sample_sorted
    sample_sorted-Keeps (fits, sorted) =
        let sample = take t.num_samples seg in
        let front : range array t.begin (t.begin + t.num_samples) ≡ sample =
          rw (split, front_split pre post t.num_samples seg)
            (range-split pre sample (drop t.num_samples seg ++ post) t.begin
              (t.begin + t.num_samples) at_begin (omega (arith, length-take t.num_samples seg))) in
        rw front (
          record {
            array = array;
            task_stack =
                record t {
                  splitters =
                      if ltb 0 t.num_samples && ltb 0 t.step
                      then pick_splitters comp sample t.step (length sample) (t.num_buckets - 1)
                          (t.step - 1)
                      else [];
                  state = State.partition;
                }
                ∷ rest;
            random_generator = g;
          },
          refl,
          (
            pre,
            seg,
            post,
            split,
            at_begin,
            at_stop,
            either (ltb 0 t.num_samples && ltb 0 t.step) _ (
                pick_splitters-IsSorted comp w sample sorted t.step (length sample)
                  (t.num_buckets - 1) (t.step - 1)),
            after,
          ),
        )
      where
        either : (b : Bool) (xs : List A) → IsSorted comp xs → IsSorted comp (if b then xs else [])
        either true xs s = s
        either false xs s = tt

    partition-Keeps : Keeps comp input (handle_partition comp random c t rest array g)
    unfolding handle_partition
    partition-Keeps =
        let buckets = distribute comp t.splitters seg (empty_buckets (suc (length t.splitters))) in
        let (perm, classified) = distribute_lem comp t.splitters seg in
        rw (the_range t array pre seg post split at_begin at_stop) (
          record {
            array = write_range array t.begin (written buckets);
            task_stack = push_buckets buckets t.begin rest;
            random_generator = g;
          },
          refl,
          rw (the_write t array pre seg post split at_begin (written buckets) perm) (
              push_buckets-Pending comp w input t.splitters 0 buckets pre post rest t.begin at_begin
                classified (λ r s p. after r s (Perm.trans p perm))),
        )

  dispatch-Keeps :
      (s : State) (t : Task A) (rest : List (Task A)) (array : List A) (g : G)
      → t.state ≡ s
      → Pending comp input (t ∷ rest) array
      → Keeps comp input (dispatch comp random c s t rest array g)
  unfolding dispatch
  dispatch-Keeps State.simple_cases t rest array g e (pre, seg, post, sp, hb, hs, ok, k) =
      simple_cases-Keeps t rest array pre seg post sp hb hs k g
  dispatch-Keeps State.base_case t rest array g e (pre, seg, post, sp, hb, hs, ok, k) =
      base_case-Keeps t rest array pre seg post sp hb hs k g
  dispatch-Keeps State.sample_select t rest array g e (pre, seg, post, sp, hb, hs, ok, k) =
      sample_select-Keeps t rest array pre seg post sp hb hs k g
  dispatch-Keeps State.sample_sorted t rest array g e (pre, seg, post, sp, hb, hs, ok, k) =
      sample_sorted-Keeps t rest array pre seg post sp hb hs k g
        (subst (λ s. StateOk comp s t seg) e ok)
  dispatch-Keeps State.partition t rest array g e (pre, seg, post, sp, hb, hs, ok, k) =
      partition-Keeps t rest array pre seg post sp hb hs k g

  pub step-Keeps :
      (array : List A) (stack : List (Task A)) (g : G)
      → Pending comp input stack array
      → Keeps comp input
          (step comp random c (record { array = array; task_stack = stack; random_generator = g }))
  unfolding step
  step-Keeps array [] g p =
      (record { array = array; task_stack = []; random_generator = g }, refl, p)
  step-Keeps array (t ∷ rest) g p = dispatch-Keeps t.state t rest array g refl p
