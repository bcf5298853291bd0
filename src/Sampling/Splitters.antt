-- ===== src/Sampling/Splitters.antt =====
-- The loops of `buildClassifier` (include/ips4o/sampling.hpp) over the splitters.
use ips4o.Prelude.{
  ℕ, zero, suc, ◌+◌, ◌*◌, ◌≤◌, ◌<◌, ◌≡◌, ◌≢◌, refl, sym, ap, ◌∙◌, arith, Bool, Bool-cases, inl, inr,
  some, true, zero, suc, List, get_elem?, length, update, update_self, update_ne, IsStrictWeak, Le,
  IsSorted, IsSorted-get, le_trans, ℕ_discrete,
}
use ips4o.Classifier.Rank.{IsAscending}
use ips4o.Sampling.{Chosen, choose_splitters, fill_splitters}
use ips4o.Sampling.Sample.{get_elem?-some}

module _ {ℓ} {A : Type ℓ} (comp : A → A → Bool) (w : IsStrictWeak comp) where
  -- One more splitter at the end, which the last one so far is not above.
  extend :
      (s : ℕ → A) (last : ℕ) (x : A)
      → IsAscending comp s (suc last)
      → Le comp (s last) x
      → IsAscending comp (update s (suc last) x) (suc (suc last))
  extend s last x asc le i j h k = elim (ℕ_discrete (suc last) j) [
    | yes e ↦ elim (ℕ_discrete (suc last) i) [
      | yes f ↦ rw (update_self s (suc last) x j e, update_self s (suc last) x i f) (w.irrefl x)
      | no nf ↦
          rw (update_self s (suc last) x j e, update_ne s (suc last) x i nf)
            (le_trans comp w (s i) (s last) x (asc i last (below i j h e nf) (omega arith)) le)
    ]
    | no ne ↦
        rw
          (
            update_ne s (suc last) x j ne,
            update_ne s (suc last) x i (λ f. omega (arith, below_ne j k ne)),
          )
          (asc i j h (below_ne j k ne))
  ]
    where
      below : (i j : ℕ) → i ≤ j → suc last ≡ j → suc last ≢ i → i ≤ last
      below i j h e nf = ground arith

      below_ne : (j : ℕ) → j < suc (suc last) → suc last ≢ j → j < suc last
      below_ne j k ne = ground arith

  pub fill_splitters-IsAscending :
      (rounds last : ℕ) (x : A) (s : ℕ → A)
      → IsAscending comp s (suc last)
      → Le comp (s last) x
      → IsAscending comp (fill_splitters rounds last x s) (suc last + rounds)
  unfolding fill_splitters
  fill_splitters-IsAscending zero last x s asc le i j h k = asc i j h (omega arith)
  fill_splitters-IsAscending (suc rounds) last x s asc le i j h k =
      fill_splitters-IsAscending rounds (suc last) x (update s (suc last) x)
        (extend s last x asc le) (rw (update_self s (suc last) x (suc last) refl) (w.irrefl x)) i j
        h (omega arith)

  pub fill_splitters-low :
      (rounds last j : ℕ) (x : A) (s : ℕ → A) → j ≤ last → fill_splitters rounds last x s j ≡ s j
  unfolding fill_splitters
  fill_splitters-low zero last j x s h = refl
  fill_splitters-low (suc rounds) last j x s h =
      fill_splitters-low rounds (suc last) j x (update s (suc last) x) (omega arith)
      ∙ update_ne s (suc last) x j (λ e. omega (arith, h, e))

  -- The first splitter was read from the sample, and so was the second, which is above it.
  abbrev pub Ends : List A → (ℕ → A) → ℕ → Type ℓ
  Ends sample s last =
      ((place : ℕ) × (get_elem? sample place ≡ some (s 0)))
      × (1 ≤ last → (place : ℕ) × (get_elem? sample place ≡ some (s 1)) × (comp (s 0) (s 1) ≡ true))

  Ends-extend :
      (sample : List A) (s : ℕ → A) (last place : ℕ) (x : A)
      → Ends sample s last
      → get_elem? sample place ≡ some x
      → comp (s last) x ≡ true
      → Ends sample (update s (suc last) x) (suc last)
  Ends-extend sample s zero place x ends at above =
      let first = update_ne s 1 x 0 (λ e. omega (arith, e)) in
      let second = update_self s 1 x 1 refl in rw (first, second) (ends.0, λ h. (place, at, above))
  Ends-extend sample s (suc last) place x ends at above =
      let first = update_ne s (suc (suc last)) x 0 (λ e. omega (arith, e)) in
      let second = update_ne s (suc (suc last)) x 1 (λ e. omega (arith, e)) in
      rw (first, second) (ends.0, λ h. ends.1 (omega arith))

  -- The splitters chosen so far ascend, and the last one was read from the sample.
  pub record Good (sample : List A) (s : Chosen A) : Type ℓ where
    pub ascending : IsAscending comp s.sorted (suc s.last)
    pub place : ℕ
    pub reached : place ≤ s.splitter
    pub read : get_elem? sample place ≡ some (s.sorted s.last)
    pub ends : Ends sample s.sorted s.last

  module _ (sample : List A) (sorted : IsSorted comp sample) (step : ℕ) where
    pub choose_splitters-Good :
        (rounds : ℕ) (s : Chosen A)
        → Good sample s
        → s.splitter + rounds * step < length sample
        → (s' : Chosen A) × (choose_splitters comp sample step rounds s ≡ some s')
          × Good sample s'
          × (s'.last ≤ s.last + rounds)
          × (s'.splitter < length sample)
    unfolding choose_splitters
    choose_splitters-Good zero s ok h = (s, refl, ok, omega arith, omega arith)
    choose_splitters-Good (suc rounds) s ok h =
        let next = s.splitter + step in
        let (x, at_next) = get_elem?-some sample next (omega arith) in
        elim (Bool-cases (comp (s.sorted s.last) x)) [
          | inl above ↦
              let s₁ : Chosen A = record {
                sorted = update s.sorted (suc s.last) x;
                last = suc s.last;
                splitter = next;
              } in
              let (s', e, ok', few, inside) =
                choose_splitters-Good rounds s₁
                  (record {
                    ascending = extend s.sorted s.last x ok.ascending (
                        IsSorted-get comp w sample ok.place next sorted (omega (arith, ok.reached))
                          ok.read at_next);
                    place = next;
                    reached = omega arith;
                    read =
                        at_next
                        ∙ ap some (sym (update_self s.sorted (suc s.last) x (suc s.last) refl));
                    ends = Ends-extend sample s.sorted s.last next x ok.ends at_next above;
                  })
                  (omega arith) in
              (s', rw (at_next, above, choose_splitters) e, ok', omega arith, inside)
          | inr same ↦
              let s₁ : Chosen A = record s { splitter = next } in
              let (s', e, ok', few, inside) =
                choose_splitters-Good rounds s₁
                  (record {
                    ascending = ok.ascending;
                    place = ok.place;
                    reached = omega (arith, ok.reached);
                    read = ok.read;
                    ends = ok.ends;
                  })
                  (omega arith) in
              (s', rw (at_next, same, choose_splitters) e, ok', omega arith, inside)
        ]
