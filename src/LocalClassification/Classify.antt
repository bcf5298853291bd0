-- ===== src/LocalClassification/Classify.antt =====
-- `classifyLocally` of include/ips4o/local_classification.hpp, as a whole.
use mathlib.Core.List.Perm
use ips4o.Prelude.{
  le→leb, ℕ, zero, suc, ◌+◌, ◌-◌, ◌≤◌, ◌<◌, ◌≡◌, refl, ap, ◌∙◌, subst, arith, Bool-cases, false,
  inl, inr, some, List, [], ◌∷◌, ◌++◌, append_assoc, append-nil, Perm, length, length-append,
  length-perm, if◌then◌else◌, ◌==◌, lt→ltb, ==-true, bind-some, All, get_elem?,
}
use ips4o.LocalClassification.{
  Local, is_full, size, flush, yield, classify_range, add_sizes, classify_locally,
}
use ips4o.LocalClassification.Contents.{contents, flatten}
use ips4o.LocalClassification.Blocks.{count, IsBlock, Classified, flush-Classified, push-Classified}

module _ {ℓ} {A : Type ℓ} where
  get_elem?-length : (xs ys : List A) (v : A) → get_elem? (xs ++ v ∷ ys) (length xs) ≡ some v
  get_elem?-length [] ys v = refl
  get_elem?-length (x ∷ xs) ys v = get_elem?-length xs ys v

  contents-nil : (k : ℕ) (f : ℕ → List A) → ((i : ℕ) → f i ≡ []) → contents k f ≡ []
  contents-nil zero f h = refl
  contents-nil (suc k) f h = rw (h k, contents-nil k f h) refl

==-false : (m n : ℕ) → (m == n) ≡ false → m ≤ n → m < n
==-false m n e h = ground arith

module _ {ℓ} {A : Type ℓ} (B k : ℕ) (positive : 1 ≤ B) (classify : A → ℕ)
    (in_range : (v : A) → classify v < k) (pre seg post : List A) where
  yield-Classified :
      (rest : List A) (v : A) (l : Local A)
      → Classified B k classify pre seg (v ∷ rest) post l
      → (l' : Local A) × (yield B (classify v) v l ≡ some l')
        × Classified B k classify pre seg rest post l'
  unfolding yield is_full
  yield-Classified rest v l c =
      let i = classify v in
      let b = l.buffers i in
      elim (Bool-cases (length b == B)) [
        | inl full ↦
            let (l', e, c', none_left) =
              flush-Classified B k classify pre seg (v ∷ rest) post l i (in_range v)
                (==-true (length b) B full) c in
            let (bs, e', c'') =
              push-Classified B k classify pre seg rest post l' v (in_range v)
                (rw none_left positive) c' in
            (
              record l' { buffers = bs },
              bind-some _ (ap (λ z. if z then flush B i l else some l) full ∙ e)
                  (bind-some _ e' refl),
              c'',
            )
        | inr room ↦
            let (bs, e', c'') =
              push-Classified B k classify pre seg rest post l v (in_range v)
                (==-false (length b) B room (c.buffered i).1) c in
            (
              record l { buffers = bs },
              bind-some _ (ap (λ z. if z then flush B i l else some l) room) (bind-some _ e' refl),
              c'',
            )
      ]

  classify_range-Classified :
      (rest : List A) (it : ℕ) (l : Local A)
      → it + length rest ≡ length pre + length seg
      → Classified B k classify pre seg rest post l
      → (l' : Local A) × (classify_range B classify (length rest) it l ≡ some l')
        × Classified B k classify pre seg [] post l'
  unfolding classify_range
  classify_range-Classified [] it l h c = (l, refl, c)
  classify_range-Classified (v ∷ rest) it l h c =
      let front = pre ++ (flatten c.blocks ++ c.gap) in
      let total = length-perm c.same in
      let at_it : it ≡ length front = omega (
        arith,
        h,
        total,
        length-append pre (flatten c.blocks ++ c.gap),
        length-append (flatten c.blocks) c.gap,
        c.room,
        length-append (flatten c.blocks) (contents k l.buffers ++ v ∷ rest),
        length-append (contents k l.buffers) (v ∷ rest),
      ) in
      let read : get_elem? l.array it ≡ some v =
        rw (c.array, at_it)
          (subst (λ a. get_elem? a (length front) ≡ some v) (rw (append_assoc, append_assoc) refl)
            (get_elem?-length front (rest ++ post) v)) in
      let (l', e, c') = yield-Classified rest v l c in
      let (l'', e', c'') = classify_range-Classified rest (suc it) l' (omega (arith, h)) c' in
      (l'', rw (read, classify_range) (bind-some _ e e'), c'')

  -- When blocks hold at least one element and every value is classified as one of the k buckets, the
  -- local classification of a range of at least `kUnroll` elements, which is at least one, with empty buffers and zero sizes, is defined: no push to a
  -- full buffer, no flush of a partial one, no block outside the array. It leaves full blocks in front,
  -- each with elements of one bucket; after them a gap that is as large as the buffers' contents; the
  -- array outside the range as it was. No buffer is over its size or holds elements of another bucket,
  -- the blocks and the buffers together hold the elements of the range, the result is the end of the
  -- blocks, and `bucket_size` counts the elements of each bucket.
  pub classify_locally_lem :
      (unroll : ℕ) (l : Local A) (my_begin my_end : ℕ)
      → 1 ≤ unroll
      → unroll ≤ length seg
      → l.array ≡ pre ++ (seg ++ post)
      → my_begin ≡ length pre
      → my_end ≡ length pre + length seg
      → ((i : ℕ) → l.buffers i ≡ [])
      → ((i : ℕ) → l.bucket_size i ≡ 0)
      → (l' : Local A) × (blocks : List (List A)) × (gap : List A) × (classify_locally B classify
            unroll k my_begin my_end l
          ≡ some l')
        × (l'.array ≡ pre ++ (flatten blocks ++ (gap ++ post)))
        × (l'.write ≡ length pre + length (flatten blocks))
        × All (IsBlock B k classify) blocks
        × (length gap ≡ length (contents k l'.buffers))
        × ((i : ℕ) → All (λ v. classify v ≡ i) (l'.buffers i) × (length (l'.buffers i) ≤ B))
        × Perm (flatten blocks ++ contents k l'.buffers) seg
        × ((i : ℕ) → i < k → l'.bucket_size i ≡ count classify i seg)
  unfolding classify_locally add_sizes size
  classify_locally_lem unroll l my_begin my_end some_unroll enough e at_begin at_end empty zeros =
      let start : Local A = record l { write = my_begin } in
      let (l', done, c) = classify_range-Classified seg my_begin start (omega arith) (record {
        blocks = [];
        gap = [];
        array = e;
        write = omega arith;
        full = tt;
        room = rw (contents-nil k l.buffers empty) refl;
        buffered = λ i. rw (empty i) (tt, omega arith);
        same = rw (contents-nil k l.buffers empty) Perm.rfl;
        sizes = λ i. rw (zeros i, empty i) (omega arith);
      }) in
      let n : my_end - my_begin ≡ length seg = omega arith in
      (
        record l' { bucket_size = add_sizes B k l' },
        c.blocks,
        c.gap,
        rw (n, le→leb 1 unroll some_unroll, le→leb unroll (length seg) enough, done) refl,
        c.array,
        c.write,
        c.full,
        c.room,
        c.buffered,
        subst (λ z. Perm (flatten c.blocks ++ z) seg) (append-nil (contents k l'.buffers)) c.same,
        λ i h. rw (lt→ltb i k h) (omega (arith, c.sizes i, (c.buffered i).1)),
      )
