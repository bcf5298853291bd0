-- ===== src/CleanupMargins/Buffered.antt =====
-- The loop over the buffers of the threads in `writeMargins` of include/ips4o/cleanup_margins.hpp: first
-- the place that is left at the head of a bucket is filled, then the tail.
use ips4o.Prelude.{
  ℕ, ◌+◌, ◌-◌, ◌≤◌, ◌≡◌, ◌⊎◌, inl, inr, refl, sym, ap, ◌∙◌, arith, some, List, [], ◌∷◌, ◌++◌,
  append_assoc, length, take, drop, take-append-drop, range, write_range, length-append,
  length-take, length-drop, length-write_range, range-append, range-write_range,
  range-write_range_out, bind-some, le→leb, lt→leb, dec_le,
}
use ips4o.CleanupMargins.{move_to, write_buffers, max_diff}

module _ {ℓ} {A : Type ℓ} where
  -- What the buffers of bucket `i` hold, thread by thread.
  abbrev pub held : ℕ → List (ℕ → List A) → List A
  held i [] = []
  held i (b ∷ buffers) = b i ++ held i buffers

  -- Two arrays that differ at most between `a` and `b`.
  abbrev pub Within : (a b : ℕ) (xs ys : List A) → Type ℓ
  Within a b xs ys = (x y : ℕ) → x ≤ y → (y ≤ a) ⊎ (b ≤ x) → range ys x y ≡ range xs x y

  pub move_to-some :
      (array : List A) (dst : ℕ) (xs : List A)
      → dst + length xs ≤ length array
      → move_to array dst xs ≡ some (write_range array dst xs)
  unfolding move_to
  move_to-some array dst xs h = rw (le→leb (dst + length xs) (length array) h) refl

  -- An empty range.
  range-nil : (xs : List A) (a b : ℕ) → b ≤ a → range xs a b ≡ []
  range-nil xs a b h = let n : b - a ≡ 0 = omega arith in ap (λ k. take k (drop a xs)) n

  -- All of the buffers fit in one place.
  pub write_buffers-one :
      (i bwrite : ℕ) (buffers : List (ℕ → List A)) (array : List A) (dst remaining : ℕ)
      → length (held i buffers) ≤ remaining
      → dst + length (held i buffers) ≤ length array
      → (array' : List A) × (write_buffers i bwrite buffers
            (record { array = array; dst = dst; remaining = remaining })
          ≡ some array')
        × (length array' ≡ length array)
        × (range array' dst (dst + length (held i buffers)) ≡ held i buffers)
        × Within dst (dst + length (held i buffers)) array array'
  unfolding write_buffers
  write_buffers-one i bwrite [] array dst remaining h k =
      (array, refl, refl, range-nil array dst (dst + 0) (omega arith), λ x y l out. refl)
  write_buffers-one i bwrite (b ∷ buffers) array dst remaining h k =
      let len = length-append (b i) (held i buffers) in
      let all : dst + length (b i) + length (held i buffers)
          ≡ dst + length (b i ++ held i buffers) =
        omega (arith, len) in
      let array1 = write_range array dst (b i) in
      let size1 = length-write_range array (b i) dst (omega (arith, len)) in
      let (array', run, size, there, same) =
        write_buffers-one i bwrite buffers array1 (dst + length (b i)) (remaining - length (b i))
          (omega (arith, len)) (omega (arith, len, size1)) in
      (
        array',
        rw (le→leb (length (b i)) remaining (omega (arith, len)))
            (bind-some _ (move_to-some array dst (b i) (omega (arith, len))) run),
        size ∙ size1,
        range-append array' dst (dst + length (b i)) (dst + length (b i ++ held i buffers))
              (omega arith) (omega (arith, len))
            ∙ ap (λ z. range array' dst (dst + length (b i)) ++ z)
                (ap (range array' (dst + length (b i))) (sym all) ∙ there)
            ∙ ap (λ z. z ++ held i buffers)
                (same dst (dst + length (b i)) (omega arith) (inl (omega arith))
                  ∙ range-write_range array (b i) dst (omega (arith, len))),
        λ x y l out.
            same x y l (narrow x y len out)
            ∙ range-write_range_out array (b i) dst x y (omega (arith, len)) l (before x y len out),
      )
    where
      narrow :
          (x y : ℕ)
          → length (b i ++ held i buffers) ≡ length (b i) + length (held i buffers)
          → (y ≤ dst) ⊎ (dst + length (b i ++ held i buffers) ≤ x)
          → (y ≤ dst + length (b i)) ⊎ (dst + length (b i) + length (held i buffers) ≤ x)
      narrow x y len (inl le) = inl (omega arith)
      narrow x y len (inr le) = inr (omega (arith, len))

      before :
          (x y : ℕ)
          → length (b i ++ held i buffers) ≡ length (b i) + length (held i buffers)
          → (y ≤ dst) ⊎ (dst + length (b i ++ held i buffers) ≤ x)
          → (y ≤ dst) ⊎ (dst + length (b i) ≤ x)
      before x y len (inl le) = inl le
      before x y len (inr le) = inr (omega (arith, len))

  -- The buffers fill the place at the head, and the rest goes to the tail.
  pub write_buffers-two :
      (i bwrite : ℕ) (buffers : List (ℕ → List A)) (array : List A) (dst remaining : ℕ)
      → remaining ≤ length (held i buffers)
      → length (held i buffers) ≤ max_diff
      → dst + remaining ≤ bwrite
      → bwrite + (length (held i buffers) - remaining) ≤ length array
      → (array' : List A) × (write_buffers i bwrite buffers
            (record { array = array; dst = dst; remaining = remaining })
          ≡ some array')
        × (length array' ≡ length array)
        × (range array' dst (dst + remaining)
              ++ range array' bwrite (bwrite + (length (held i buffers) - remaining))
            ≡ held i buffers)
        × ((x y : ℕ)
            → x ≤ y
            → (y ≤ dst) ⊎ (dst + remaining ≤ x)
            → (y ≤ bwrite) ⊎ (bwrite + (length (held i buffers) - remaining) ≤ x)
            → range array' x y ≡ range array x y)
  unfolding write_buffers
  write_buffers-two i bwrite [] array dst remaining h k l r = (
    array,
    refl,
    refl,
    ap (λ z. z ++ range array bwrite (bwrite + (0 - remaining)))
          (range-nil array dst (dst + remaining) (omega arith))
        ∙ range-nil array bwrite (bwrite + (0 - remaining)) (omega arith),
    λ x y l out out'. refl,
  )
  write_buffers-two i bwrite (b ∷ buffers) array dst remaining h k l r =
      let len = length-append (b i) (held i buffers) in
      let n = length (b i) in
      elim (dec_le n remaining) [
        | yes le ↦
            let array1 = write_range array dst (b i) in
            let size1 = length-write_range array (b i) dst (omega arith) in
            let left : length (held i buffers) - (remaining - n)
                ≡ length (b i ++ held i buffers) - remaining =
              omega (arith, len) in
            let stop : dst + n + (remaining - n) ≡ dst + remaining = omega arith in
            let (array', run, size, there, same) =
              write_buffers-two i bwrite buffers array1 (dst + n) (remaining - n)
                (omega (arith, len, h)) (omega (arith, len, k)) (omega arith)
                (omega (arith, left, size1, r)) in
            (
              array',
              rw (le→leb n remaining le)
                  (bind-some _ (move_to-some array dst (b i) (omega arith)) run),
              size ∙ size1,
              ap
                    (λ z.
                      z
                      ++ range array' bwrite
                          (bwrite + (length (b i ++ held i buffers) - remaining)))
                    (range-append array' dst (dst + n) (dst + remaining) (omega arith) (omega arith)
                      ∙ ap (λ z. z ++ range array' (dst + n) (dst + remaining))
                          (same dst (dst + n) (omega arith) (inl (omega arith)) (inl (omega arith))
                            ∙ range-write_range array (b i) dst (omega arith)))
                  ∙ append_assoc (b i) (range array' (dst + n) (dst + remaining))
                      (range array' bwrite (bwrite + (length (b i ++ held i buffers) - remaining)))
                  ∙ ap (λ z. b i ++ z)
                      (ap
                          (λ z.
                            range array' (dst + n) z
                            ++ range array' bwrite
                                (bwrite + (length (b i ++ held i buffers) - remaining)))
                          (sym stop)
                        ∙ ap
                            (λ z.
                              range array' (dst + n) (dst + n + (remaining - n))
                              ++ range array' bwrite (bwrite + z))
                            (sym left)
                        ∙ there),
              λ x y q out out'.
                  same x y q (narrow x y le out) (narrow' x y left out')
                  ∙ range-write_range_out array (b i) dst x y (omega arith) q (before x y le out),
            )
        | no gt ↦
            let head = take remaining (b i) in
            let tail = drop remaining (b i) in
            let nh : length head ≡ remaining = omega (arith, length-take remaining (b i)) in
            let nt : length tail ≡ n - remaining = length-drop remaining (b i) in
            let array1 = write_range array dst head in
            let size1 = length-write_range array head dst (omega (arith, nh)) in
            let array2 = write_range array1 bwrite tail in
            let size2 = length-write_range array1 tail bwrite (omega (arith, nt, size1, len, r)) in
            let left : n - remaining + length (held i buffers)
                ≡ length (b i ++ held i buffers) - remaining =
              omega (arith, len) in
            let (array', run, size, there, same) =
              write_buffers-one i bwrite buffers array2 (bwrite + (n - remaining)) max_diff
                (omega (arith, len, k)) (omega (arith, left, size1, size2, r)) in
            (
              array',
              rw (lt→leb n remaining (omega arith)) (
                  bind-some _ (move_to-some array dst head (omega (arith, nh))) (
                    bind-some _ (move_to-some array1 bwrite tail (omega (arith, nt, size1, len, r)))
                      run)),
              size ∙ size2 ∙ size1,
              ap
                    (λ z.
                      z
                      ++ range array' bwrite
                          (bwrite + (length (b i ++ held i buffers) - remaining)))
                    (same dst (dst + remaining) (omega arith) (inl (omega arith))
                      ∙ range-write_range_out array1 tail bwrite dst (dst + remaining)
                          (omega (arith, nt, size1, len, r)) (omega arith) (inl l)
                      ∙ ap (λ z. range array1 dst (dst + z)) (sym nh)
                      ∙ range-write_range array head dst (omega arith))
                  ∙ ap (λ z. head ++ z)
                      (ap (λ z. range array' bwrite (bwrite + z)) (sym left)
                        ∙ range-append array' bwrite (bwrite + (n - remaining))
                            (bwrite + (n - remaining + length (held i buffers))) (omega arith)
                            (omega arith)
                        ∙ ap
                            (λ z.
                              z
                              ++ range array' (bwrite + (n - remaining))
                                  (bwrite + (n - remaining + length (held i buffers))))
                            (same bwrite (bwrite + (n - remaining)) (omega arith)
                                (inl (omega arith))
                              ∙ ap (λ z. range array2 bwrite (bwrite + z)) (sym nt)
                              ∙ range-write_range array1 tail bwrite (omega (arith, size1, r)))
                        ∙ ap (λ z. tail ++ z)
                            (ap (range array' (bwrite + (n - remaining))) (omega arith) ∙ there))
                  ∙ sym (append_assoc head tail (held i buffers))
                  ∙ ap (λ z. z ++ held i buffers) (take-append-drop remaining (b i)),
              λ x y q out out'.
                  same x y q (after x y (n - remaining) left out')
                  ∙ range-write_range_out array1 tail bwrite x y (omega (arith, nt, size1, len, r))
                      q (after_tail x y tail nt len (omega arith) out')
                  ∙ range-write_range_out array head dst x y (omega (arith, nh)) q
                      (at_head x y head nh out),
            )
      ]
    where
      narrow :
          (x y : ℕ)
          → length (b i) ≤ remaining
          → (y ≤ dst) ⊎ (dst + remaining ≤ x)
          → (y ≤ dst + length (b i)) ⊎ (dst + length (b i) + (remaining - length (b i)) ≤ x)
      narrow x y le (inl lt) = inl (omega arith)
      narrow x y le (inr lt) = inr (omega arith)

      narrow' :
          (x y : ℕ)
          → length (held i buffers) - (remaining - length (b i))
            ≡ length (b i ++ held i buffers) - remaining
          → (y ≤ bwrite) ⊎ (bwrite + (length (b i ++ held i buffers) - remaining) ≤ x)
          → (y ≤ bwrite) ⊎ (bwrite + (length (held i buffers) - (remaining - length (b i))) ≤ x)
      narrow' x y left (inl lt) = inl lt
      narrow' x y left (inr lt) = inr (omega (arith, left))

      before :
          (x y : ℕ)
          → length (b i) ≤ remaining
          → (y ≤ dst) ⊎ (dst + remaining ≤ x)
          → (y ≤ dst) ⊎ (dst + length (b i) ≤ x)
      before x y le (inl lt) = inl lt
      before x y le (inr lt) = inr (omega arith)

      after :
          (x y r : ℕ)
          → r + length (held i buffers) ≡ length (b i ++ held i buffers) - remaining
          → (y ≤ bwrite) ⊎ (bwrite + (length (b i ++ held i buffers) - remaining) ≤ x)
          → (y ≤ bwrite + r) ⊎ (bwrite + r + length (held i buffers) ≤ x)
      after x y r left (inl lt) = inl (omega arith)
      after x y r left (inr lt) = inr (omega (arith, left))

      after_tail :
          (x y : ℕ) (tail : List A)
          → length tail ≡ length (b i) - remaining
          → length (b i ++ held i buffers) ≡ length (b i) + length (held i buffers)
          → remaining ≤ length (b i)
          → (y ≤ bwrite) ⊎ (bwrite + (length (b i ++ held i buffers) - remaining) ≤ x)
          → (y ≤ bwrite) ⊎ (bwrite + length tail ≤ x)
      after_tail x y tail nt len le (inl lt) = inl lt
      after_tail x y tail nt len le (inr lt) = inr (omega (arith, nt, len))

      at_head :
          (x y : ℕ) (head : List A)
          → length head ≡ remaining
          → (y ≤ dst) ⊎ (dst + remaining ≤ x)
          → (y ≤ dst) ⊎ (dst + length head ≤ x)
      at_head x y head nh (inl lt) = inl lt
      at_head x y head nh (inr lt) = inr (omega (arith, nh))
