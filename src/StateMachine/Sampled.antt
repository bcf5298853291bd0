-- ===== src/StateMachine/Sampled.antt =====
-- The states of a task of ips4o_state_machine.hpp from `sample_select` on, in the rounds of `run`.
use mathlib.Core.List.Perm
use ips4o.Prelude.{
  ℕ, zero, suc, ◌+◌, ◌-◌, ◌*◌, ◌^◌, ◌≤◌, ◌<◌, ◌≡◌, refl, sym, ap, ◌∙◌, subst, arith, Bool, some,
  List, [], ◌∷◌, ◌++◌, append_assoc, Perm, ltb, lt→ltb, length, length-perm, take, drop,
  take-append-drop, take-length, length-take, get_elem?, IsStrictWeak, IsSorted, if◌then◌else◌,
  range, range-split, ◌&&◌,
}
use ips4o.Config.{Config}
use ips4o.Sampling.{RandomGen}
use ips4o.Sampling.Sample.{select_sample-perm, get_elem?-some}
use ips4o.StateMachine.{
  State, Task, new_task, sample_context, handle_sample_select, handle_sample_sorted,
  handle_partition, dispatch, step, distribute, empty_buckets, written, push_buckets,
  pick_splitters,
}
use ips4o.StateMachine.Buckets.{distribute_lem}
use ips4o.StateMachine.Handlers.{the_range, the_write, front_split}
use ips4o.StateMachine.Distinct.{
  Distinct, Distinct-perm, Distinct-append_left, Distinct-get, Splits, Splits-of, buckets-AllShort,
}
use ips4o.StateMachine.Halting.{
  EnoughSamples, Halts, After, HaltsAt, ShorterHalt, step-dispatch, push_buckets-Halts,
}

module _ {ℓ} {A : Type ℓ} where
  get_elem?-take :
      (k : ℕ) (xs : List A) (i : ℕ) {a : A}
      → get_elem? (take k xs) i ≡ some a
      → get_elem? xs i ≡ some a
  get_elem?-take zero xs i e = absurd (cc)
  get_elem?-take (suc k) [] i e = e
  get_elem?-take (suc k) (x ∷ xs) zero e = e
  get_elem?-take (suc k) (x ∷ xs) (suc i) e = get_elem?-take k xs i e

  pick_splitters-first :
      (comp : A → A → Bool) (sample : List A) (step fuel room p : ℕ) {x : A}
      → get_elem? sample p ≡ some x
      → 1 ≤ fuel
      → 1 ≤ room
      → (ss : List A) × (pick_splitters comp sample step fuel room p ≡ x ∷ ss)
  unfolding pick_splitters
  pick_splitters-first comp sample step zero room p e hf hr = absurd (omega arith)
  pick_splitters-first comp sample step (suc fuel) zero p e hf hr = absurd (omega arith)
  pick_splitters-first comp sample step (suc fuel) (suc room) p e hf hr =
      rw (e, pick_splitters) (_, refl)

module _ {ℓ} {A : Type ℓ} {G : Type 0} (comp : A → A → Bool) (random : RandomGen G) (c : Config)
    (w : IsStrictWeak comp) (rest : List (Task A)) (pre post : List A) where
  module _ (t : Task A) (seg : List A) (at_begin : t.begin ≡ length pre)
      (at_stop : t.stop ≡ length pre + length seg) (distinct : Distinct comp seg)
      (small : length seg < 2 ^ 64) (g : G) (after : After comp random c rest pre seg post) where
    -- A task is worked off from a later state of it, over the same array.
    pub later :
        (s : State) (t' : Task A)
        → t.state ≡ s
        → dispatch comp random c s t rest (pre ++ (seg ++ post)) g
          ≡ some (record {
            array = pre ++ (seg ++ post);
            task_stack = t' ∷ rest;
            random_generator = g;
          })
        → HaltsAt comp random c t' rest (pre ++ (seg ++ post)) g
        → HaltsAt comp random c t rest (pre ++ (seg ++ post)) g
    later s t' e f h = Halts.next _ _ (step-dispatch comp random c s t rest _ g e ∙ f) h

    partition-Halts :
        t.state ≡ State.partition
        → ShorterHalt comp random c (length seg)
        → Splits comp t.splitters seg
        → HaltsAt comp random c t rest (pre ++ (seg ++ post)) g
    unfolding dispatch handle_partition
    partition-Halts e ih splits =
        let whole = pre ++ (seg ++ post) in
        let buckets = distribute comp t.splitters seg (empty_buckets (suc (length t.splitters))) in
        let (perm, classified) = distribute_lem comp t.splitters seg in
        Halts.next _
          (record {
            array = pre ++ (written buckets ++ post);
            task_stack = push_buckets buckets t.begin rest;
            random_generator = g;
          })
          (step-dispatch comp random c State.partition t rest whole g e
            ∙ rw (
              the_range t whole pre seg post refl at_begin at_stop,
              the_write t whole pre seg post refl at_begin (written buckets) perm,
            ))
          (push_buckets-Halts comp random c w (length seg) ih (omega arith) t.splitters 0 buckets
            pre post rest t.begin g at_begin classified
            (buckets-AllShort comp t.splitters seg 0 [] buckets splits classified perm)
            (Distinct-perm comp (Perm.symm perm) distinct)
            (λ r g' s p. after r g' s (Perm.trans p perm)))

  -- What a context brings back from the sorting of its sample.
  record SampleOk (t : Task A) (seg : List A) : Type 0 where
    fits : t.num_samples ≤ length seg
    sorted : IsSorted comp (take t.num_samples seg)
    steps : 1 ≤ t.step
    reaches : t.step < t.num_samples
    several : 2 ≤ t.num_buckets

  picked : Task A → List A → List A
  picked t seg =
      let sample = take t.num_samples seg in
      if ltb 0 t.num_samples && ltb 0 t.step
      then pick_splitters comp sample t.step (length sample) (t.num_buckets - 1) (t.step - 1)
      else []

  picked-Splits :
      (t : Task A) (seg : List A)
      → Distinct comp seg
      → SampleOk t seg
      → Splits comp (picked t seg) seg
  unfolding picked
  picked-Splits t seg distinct ok =
      let sample = take t.num_samples seg in
      let long = length-take t.num_samples seg in
      let (a, at_a) =
        get_elem?-some sample (t.step - 1) (omega (arith, long, ok.fits, ok.steps, ok.reaches)) in
      let (b, at_b) = get_elem?-some sample t.step (omega (arith, long, ok.fits, ok.reaches)) in
      let alone =
        Distinct-append_left comp sample (drop t.num_samples seg) (rw take-append-drop distinct) in
      let less =
        Distinct-get comp sample (t.step - 1) t.step ok.sorted alone (omega (arith, ok.steps)) at_a
          at_b in
      let (ss, e) =
        pick_splitters-first comp sample t.step (length sample) (t.num_buckets - 1) (t.step - 1)
          at_a (omega (arith, long, ok.fits, ok.reaches)) (omega (arith, ok.several)) in
      rw (lt→ltb 0 t.num_samples (omega (arith, ok.reaches)), lt→ltb 0 t.step ok.steps, e)
        (Splits-of comp w a ss seg (t.step - 1) t.step
          (get_elem?-take t.num_samples seg (t.step - 1) at_a)
          (get_elem?-take t.num_samples seg t.step at_b) less)

  module _ (t : Task A) (seg : List A) (at_begin : t.begin ≡ length pre)
      (at_stop : t.stop ≡ length pre + length seg) (distinct : Distinct comp seg)
      (small : length seg < 2 ^ 64) (g : G) (after : After comp random c rest pre seg post) where
    sample_sorted-Halts :
        t.state ≡ State.sample_sorted
        → ShorterHalt comp random c (length seg)
        → SampleOk t seg
        → HaltsAt comp random c t rest (pre ++ (seg ++ post)) g
    unfolding dispatch handle_sample_sorted picked
    sample_sorted-Halts e ih ok =
        let k = t.num_samples in
        let front : range (pre ++ (seg ++ post)) t.begin (t.begin + k) ≡ take k seg =
          rw (front_split pre post k seg) (
            range-split pre (take k seg) (drop k seg ++ post) t.begin (t.begin + k) at_begin
              (omega (arith, length-take k seg, ok.fits))) in
        let t' : Task A = record t { splitters = picked t seg; state = State.partition } in
        later t seg at_begin at_stop distinct small g after State.sample_sorted t' e (rw front) (
          partition-Halts t' seg at_begin at_stop distinct small g after refl ih
            (picked-Splits t seg distinct ok))

  -- The context of a range that is large enough.
  context-bounds :
      (t : Task A)
      → EnoughSamples c
      → c.base_case_multiplier * c.base_case_size < t.stop - t.begin
      → t.stop - t.begin < 2 ^ 64
      → let context = sample_context c t in
        (1 ≤ context.step)
        × (context.step < context.num_samples)
        × (2 ≤ context.num_buckets)
        × (context.num_samples < t.stop - t.begin)
  unfolding sample_context
  context-bounds t enough large small =
      let (reaches, several) = enough (t.stop - t.begin) large small in
      (omega arith, reaches, several, omega arith)

  module _ (t : Task A) (seg : List A) (at_begin : t.begin ≡ length pre)
      (at_stop : t.stop ≡ length pre + length seg) (distinct : Distinct comp seg)
      (small : length seg < 2 ^ 64) (g : G) (after : After comp random c rest pre seg post)
      (enough : EnoughSamples c) (ih : ShorterHalt comp random c (length seg)) where
    abbrev samples : ℕ
    samples = (sample_context c t).num_samples

    context-Halts :
        c.base_case_multiplier * c.base_case_size < t.stop - t.begin
        → (ys r : List A) (g' : G) → Perm ys seg
        → IsSorted comp r
        → Perm r (take samples ys)
        → HaltsAt comp random c
            (sample_context c t)
            rest
            (pre ++ (r ++ (drop samples ys ++ post)))
            g'
    unfolding sample_context
    context-Halts large ys r g' perm s p =
        let seg' = r ++ drop samples ys in
        let whole : Perm seg' seg =
          Perm.trans (rw take-append-drop at (Perm.append_right (drop samples ys) p)) perm in
        let len = length-perm whole in
        let (one, reaches, several, fewer) = context-bounds t enough large (omega arith) in
        let front : samples ≡ length r =
          omega (arith, length-perm p, length-take samples ys, length-perm perm, fewer) in
        subst (λ a. HaltsAt comp random c (sample_context c t) rest (pre ++ a) g')
          (append_assoc r (drop samples ys) post)
          (sample_sorted-Halts (sample_context c t) seg' at_begin (omega (arith, len))
            (Distinct-perm comp (Perm.symm whole) distinct) (omega (arith, len)) g'
            (λ r' g'' s' p'. after r' g'' s' (Perm.trans p' whole)) refl
            (subst (λ n. ShorterHalt comp random c n) (sym len) ih)
            (record {
              fits = omega (arith, len, fewer);
              sorted =
                  subst (λ z. IsSorted comp z)
                    (sym (ap (λ n. take n seg') front ∙ take-length r (drop samples ys))) s;
              steps = one;
              reaches = reaches;
              several = several;
            }))

    pub sample_select-Halts :
        t.state ≡ State.sample_select
        → c.base_case_multiplier * c.base_case_size < t.stop - t.begin
        → HaltsAt comp random c t rest (pre ++ (seg ++ post)) g
    unfolding dispatch handle_sample_select
    sample_select-Halts e large =
        let whole = pre ++ (seg ++ post) in
        let (_, _, _, fewer) = context-bounds t enough large (omega arith) in
        let (ys, g', drawn, perm) =
          select_sample-perm random samples (t.stop - t.begin) seg g (omega arith)
            (omega (arith, fewer)) in
        let front : length (take samples ys) ≡ samples =
          omega (arith, length-take samples ys, length-perm perm, fewer) in
        Halts.next _
          (record {
            array = pre ++ (take samples ys ++ (drop samples ys ++ post));
            task_stack =
                new_task t.begin (t.begin + samples) State.simple_cases ∷ sample_context c t ∷ rest;
            random_generator = g';
          })
          (step-dispatch comp random c State.sample_select t rest whole g e
            ∙ rw (the_range t whole pre seg post refl at_begin at_stop, drawn, handle_sample_select)
                (rw
                  (
                    the_write t whole pre seg post refl at_begin ys perm,
                    front_split pre post samples ys,
                  )
                  refl))
          (ih (new_task t.begin (t.begin + samples) State.simple_cases) (sample_context c t ∷ rest)
            pre (take samples ys) (drop samples ys ++ post) g' refl at_begin
            (omega (arith, front, fewer)) (omega (arith, front, fewer))
            (omega (arith, front, fewer))
            (Distinct-append_left comp (take samples ys) (drop samples ys)
              (rw take-append-drop (Distinct-perm comp (Perm.symm perm) distinct)))
            (λ r g'' s p. context-Halts large ys r g'' perm s p))
