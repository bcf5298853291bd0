-- ===== src/LocalClassification/Lazy.antt =====
-- `classifyLocally` of include/ips4o/local_classification.hpp writes a buffer out only when the next
-- element of its bucket comes, so a bucket that has a block has an element in its buffer.
use ips4o.Prelude.{
  bind_inverse, ℕ, zero, suc, ◌+◌, ◌-◌, ◌≤◌, ◌≡◌, ◌≢◌, inl, inr, refl, sym, ap, ◌∙◌, arith, subst,
  Bool, true, false, Option, none, some, List, [], ◌∷◌, ◌++◌, length, length-append, get_elem?,
  update, update_self, update_ne, ℕ_discrete, Bool-cases, Option-cases, ltb, leb, ◌==◌,
  if◌then◌else◌, ◌>>=◌, dec_le,
}
use ips4o.Classifier.{is_unrollable}
use mathlib.Core.Option.{some-injective}
use ips4o.LocalClassification.{
  Local, flush, push, is_full, yield, classify_range, classify_locally, add_sizes, size,
}

-- What comes before a result that is defined.
if-inv {ℓ} :
    {X : Type ℓ} (b : Bool) (o : Option X) {y : X}
    → (if b then o else none) ≡ some y
    → (b ≡ true) × (o ≡ some y)
if-inv true o e = (refl, e)
if-inv false o e = absurd (cc)

module _ {ℓ} {A : Type ℓ} (B : ℕ) (classify : A → ℕ) where
  -- But for bucket `i`.
  abbrev LazyBut : (ℕ → Type 0) → Local A → Type 0
  LazyBut P l = (j : ℕ) → P j → 1 ≤ l.bucket_size j → 1 ≤ length (l.buffers j)

  abbrev pub Lazy : Local A → Type 0
  Lazy l = LazyBut (λ j. Unit) l

  push-Lazy :
      (l : Local A) (i : ℕ) (v : A) (bs : ℕ → List A)
      → push B l.buffers i v ≡ some bs
      → LazyBut (λ j. i ≢ j) l
      → Lazy (record l { buffers = bs })
  unfolding push
  push-Lazy l i v bs e h j u more =
      let (_, got) =
        if-inv (ltb (length (l.buffers i)) B) (some (update l.buffers i (l.buffers i ++ v ∷ [])))
          e in
      let at : bs j ≡ update l.buffers i (l.buffers i ++ v ∷ []) j =
        ap (λ f. f j) (sym (some-injective _ _ got)) in
      elim (ℕ_discrete i j) [
        | yes q ↦ omega (
          arith,
          ap length at,
          ap length (update_self l.buffers i (l.buffers i ++ v ∷ []) j q),
          length-append (l.buffers i) (v ∷ []),
        )
        | no ne ↦ omega (
          arith,
          ap length at,
          ap length (update_ne l.buffers i (l.buffers i ++ v ∷ []) j ne),
          h j ne more,
        )
      ]

  flush-Lazy : (i : ℕ) (l l' : Local A) → flush B i l ≡ some l' → Lazy l → LazyBut (λ j. i ≢ j) l'
  unfolding flush
  flush-Lazy i l l' e h j ne more =
      let (_, inside) = if-inv (length (l.buffers i) == B) _ e in
      let (_, got) = if-inv (leb (l.write + B) (length l.array)) _ inside in
      let same = some-injective _ _ got in
      let sizes : l'.bucket_size j ≡ l.bucket_size j =
        ap (λ z. z.bucket_size j) (sym same)
        ∙ update_ne l.bucket_size i (l.bucket_size i + B) j ne in
      let held : l'.buffers j ≡ l.buffers j =
        ap (λ z. z.buffers j) (sym same) ∙ update_ne l.buffers i [] j ne in
      omega (arith, ap length held, h j tt (omega (arith, sizes)))

  yield-Lazy : (i : ℕ) (v : A) (l l' : Local A) → yield B i v l ≡ some l' → Lazy l → Lazy l'
  unfolding yield
  yield-Lazy i v l l' e h =
      let (l1, first, second) =
        bind_inverse (if is_full B l.buffers i then flush B i l else some l) _ e in
      let (bs, pushed, third) = bind_inverse (push B l1.buffers i v) _ second in
      let kept : LazyBut (λ j. i ≢ j) l1 = flushed l1 first in
      subst Lazy (some-injective _ _ third) (push-Lazy l1 i v bs pushed kept)
    where
      flushed :
          (l1 : Local A)
          → (if is_full B l.buffers i then flush B i l else some l) ≡ some l1
          → LazyBut (λ j. i ≢ j) l1
      flushed l1 e = elim (Bool-cases (is_full B l.buffers i)) [
        | inl t ↦ flush-Lazy i l l1 (sym (ap (λ b. if b then flush B i l else some l) t) ∙ e) h
        | inr t ↦
            subst (LazyBut (λ j. i ≢ j))
              (some-injective _ _ (sym (ap (λ b. if b then flush B i l else some l) t) ∙ e))
              (λ j ne. h j tt)
      ]

  classify_range-Lazy :
      (n it : ℕ) (l l' : Local A) → classify_range B classify n it l ≡ some l' → Lazy l → Lazy l'
  unfolding classify_range
  classify_range-Lazy zero it l l' e h = subst Lazy (some-injective _ _ e) h
  classify_range-Lazy (suc n) it l l' e h = elim (Option-cases (get_elem? l.array it)) [
    | inl q ↦ absurd (none_some (sym (ap step q) ∙ e))
    | inr (v, q) ↦
        let (l1, first, second) = bind_inverse (yield B (classify v) v l) _ (sym (ap step q) ∙ e) in
        classify_range-Lazy n (suc it) l1 l' second (yield-Lazy (classify v) v l l1 first h)
  ]
    where
      step : Option A → Option (Local A)
      step o = elim o [
        | none ↦ none
        | some value ↦
            yield B (classify value) value l >>= (λ l'. classify_range B classify n (suc it) l')
      ]

      none_some : {X : Type ℓ} {x : X} → none ≡ some x → ⊥
      none_some q = absurd (cc)

  add_sizes-empty :
      (k : ℕ) (l : Local A) (i : ℕ) → length (l.buffers i) ≡ 0 → add_sizes B k l i ≡ l.bucket_size i
  unfolding add_sizes size
  add_sizes-empty k l i e = elim (Bool-cases (ltb i k)) [
    | inl t ↦ rw t (omega (arith, e))
    | inr t ↦ rw t refl
  ]

  -- With zero sizes at the start, a bucket that has an element has one in its buffer in the end.
  pub classify_locally-Lazy :
      (unroll k my_begin my_end : ℕ) (l l' : Local A)
      → classify_locally B classify unroll k my_begin my_end l ≡ some l'
      → ((i : ℕ) → l.bucket_size i ≡ 0)
      → (i : ℕ) → 1 ≤ l'.bucket_size i
      → 1 ≤ length (l'.buffers i)
  unfolding classify_locally add_sizes size
  classify_locally-Lazy unroll k my_begin my_end l l' e zeros i more =
      let (l1, first, second) =
        bind_inverse
          (classify_range B classify (my_end - my_begin) my_begin (record l { write = my_begin })) _
          (if-inv (is_unrollable unroll (my_end - my_begin)) _ e).1 in
      let lazy =
        classify_range-Lazy (my_end - my_begin) my_begin (record l { write = my_begin }) l1 first
          (λ j u p. absurd (omega (arith, zeros j, p))) in
      let same = some-injective _ _ second in
      let sizes : l'.bucket_size i ≡ add_sizes B k l1 i = ap (λ z. z.bucket_size i) (sym same) in
      let held : l'.buffers i ≡ l1.buffers i = ap (λ z. z.buffers i) (sym same) in
      elim (dec_le 1 (length (l1.buffers i))) [
        | yes p ↦ omega (arith, ap length held, p)
        | no p ↦ absurd (
            omega (
              arith,
              p,
              sizes,
              more,
              add_sizes-empty k l1 i (omega arith),
              lazy i tt (omega (arith, sizes, more, add_sizes-empty k l1 i (omega arith))),
            ))
      ]
