-- ===== src/BlockPermutation/Reading.antt =====
-- `classifyAndReadBlock` and the two loops around it, of include/ips4o/block_permutation.hpp.
use ips4o.Prelude.{
  ℕ, suc, ◌+◌, ◌*◌, ◌^◌, ◌≤◌, ◌<◌, ◌≡◌, ◌⊎◌, inl, inr, refl, ap, ◌∙◌, arith, subst, false, none,
  some, List, [], ◌∷◌, ◌++◌, length, length-append, append_assoc, get_elem?, All-append_right,
  update, total, total-append,
}
use ips4o.BlockPermutation.{Sorter, signed_lt, classify_and_read_block, update_swap}
use ips4o.BlockPermutation.Slots.{read_from-Slot}
use ips4o.BlockPermutation.Invariant.{Bucket, InBucket, ReadPointer, get-append_head}
use ips4o.BlockPermutation.Steps.{
  signed_lt-behind, signed_lt-ahead, write-small, Bucket-take, Bucket-miss,
}
use ips4o.BlockPermutation.Branches.{
  most, read_pointers, classify_and_read_block-miss, classify_and_read_block-hit,
}
use ips4o.BlockPermutation.State.{Setting, State-update, OverflowFrom-update}
use ips4o.BlockPermutation.Swapping.{At, Hand, Hand-head}

pub snoc-cases {ℓ} :
    {X : Type ℓ} (xs : List X) → (xs ≡ []) ⊎ ((ys : List X) × (y : X) × (xs ≡ ys ++ y ∷ []))
snoc-cases [] = inl refl
snoc-cases (x ∷ xs) = elim (snoc-cases xs) [
  | inl e ↦ inr ([], x, ap (◌∷◌ x) e)
  | inr (ys, y, e) ↦ inr (x ∷ ys, y, ap (◌∷◌ x) e)
]

module _ {ℓ} {A : Type ℓ} (p : Setting A) where
  -- A shorthand.
  abbrev Pointer : (drift word write stop : ℕ) → List (List A) → Type 0
  Pointer = ReadPointer p.B p.classify p.m p.k p.first

  last-Pointer :
      (d w l t : ℕ) (us : List (List A)) (x : List A)
      → Pointer d w l t (us ++ x ∷ [])
      → l + length (us ++ x ∷ []) * p.B < 2 ^ 63
      → (w ≡ l + length us * p.B) × (t ≤ p.m) × (signed_lt w l ≡ false)
  last-Pointer d w l t [] x r h = (
    omega (arith, r.0),
    r.1,
    signed_lt-ahead p.B p.classify p.m p.k p.first p.some_elements p.small d w l t x [] h r,
  )
  last-Pointer d w l t (y ∷ us) x r h =
      let e : suc (length (us ++ x ∷ [])) * p.B ≡ suc (length us) * p.B + p.B =
        rw (length-append us (x ∷ [])) (omega arith) in
      (
        omega (arith, r.0, e),
        r.1,
        signed_lt-ahead p.B p.classify p.m p.k p.first p.some_elements p.small d w l t y
            (us ++ x ∷ []) h r,
      )

  module _ {d : ℕ} (s : Sorter A) {moved unread : ℕ → List (List A)} (b : ℕ)
      (h : At p d s moved unread []) (hb : b < p.k) where
    -- No block is left in the bucket.
    pub classify_and_read_block-empty :
        d + 2 * p.B ≤ 2 ^ 63
        → unread b ≡ []
        → (s' : Sorter A) × (classify_and_read_block p.B p.classify b s ≡ some (none, s'))
          × At p (d + p.B) s' (update moved b (moved b)) (update unread b []) []
    classify_and_read_block-empty low none_left =
        let bucket = h.buckets b hb in
        let j = p.first b + length (moved b) in
        let small_write =
          write-small p.B p.classify p.m p.k p.first p.some_elements p.small bucket in
        let read =
          subst (Pointer d (most p.B p.classify s b) (j * p.B) (j + length (unread b))) none_left
            bucket.read in
        let bucket' =
          subst
            (λ us.
              Bucket p.B p.classify p.m p.k p.first d s.array s.overflow (s.bucket_pointers b) b
                (moved b) us)
            none_left bucket in
        (
          record s { bucket_pointers = read_pointers p.B p.classify s b },
          classify_and_read_block-miss p.B p.classify s b (
              rw bucket.write (
                signed_lt-behind p.B p.classify p.m p.k p.first p.some_elements p.small d
                  (most p.B p.classify s b) (j * p.B) (j + length (unread b)) (omega arith) read)),
          State-update p.B p.classify p.some_elements p.m p.k p.first p.n p.rest p.W p.ascending b h
              hb (omega arith) h.size h.behind (λ i y out t. t)
              (Bucket-miss p.B p.classify p.m p.k p.first p.some_elements p.small low bucket')
              (λ f. omega (arith, ap (total f) none_left))
              (OverflowFrom-update p.B p.classify p.some_elements p.m p.k p.first p.n p.rest p.W
                s.overflow moved b (moved b) h.spill (λ q. refl)),
        )

    -- The last block of the bucket comes in hand.
    pub classify_and_read_block-some :
        (us : List (List A)) (x : List A)
        → unread b ≡ us ++ x ∷ []
        → (c : ℕ) × (s' : Sorter A) × (classify_and_read_block p.B p.classify b s
            ≡ some (some c, s'))
          × Hand p c (s'.swap false)
          × At p d s' (update moved b (moved b)) (update unread b us) (s'.swap false ∷ [])
    classify_and_read_block-some us x e =
        let bucket = h.buckets b hb in
        let j = p.first b + length (moved b) in
        let len = length-append us (x ∷ []) in
        let count : length (unread b) ≡ suc (length us) = omega (arith, ap length e, len) in
        let (at, fits, ahead) =
          last-Pointer d (most p.B p.classify s b) (j * p.B) (j + length (unread b)) us x
            (subst (Pointer d (most p.B p.classify s b) (j * p.B) (j + length (unread b))) e
              bucket.read)
            (subst (λ z. j * p.B + length z * p.B < 2 ^ 63) e
              (write-small p.B p.classify p.m p.k p.first p.some_elements p.small bucket)) in
        let i = p.first b + (length (moved b) + length us) in
        let at_slot : most p.B p.classify s b ≡ i * p.B = omega (arith, at) in
        let place : get_elem? (moved b ++ unread b) (length (moved b) + length us) ≡ some x =
          rw (e, ← append_assoc (moved b) us (x ∷ []), ← length-append (moved b) us)
            (get-append_head (moved b ++ us) [] x) in
        let bucket' =
          subst
            (λ us.
              Bucket p.B p.classify p.m p.k p.first d s.array s.overflow (s.bucket_pointers b) b
                (moved b) us)
            e bucket in
        let (c, hc, yc) =
          (All-append_right (λ y. (c : ℕ) × (c < p.k) × InBucket p.B p.classify c y) us (x ∷ [])
            bucket'.pending).0 in
        let (v, head, of_c) = Hand-head p c x yc in
        (
          c,
          record s {
            bucket_pointers = read_pointers p.B p.classify s b;
            swap = update_swap s.swap false x;
          },
          classify_and_read_block-hit p.B p.classify s b x v (rw bucket.write ahead)
                (rw at_slot (
                  read_from-Slot p.B p.m s.array s.overflow (omega (arith, h.size, p.whole)) i x
                    (omega (arith, fits, count))
                    (bucket.slots (length (moved b) + length us) place)))
                head
              ∙ ap
                  (λ z. some (
                    some z,
                    record s {
                      bucket_pointers = read_pointers p.B p.classify s b;
                      swap = update_swap s.swap false x;
                    },
                  ))
                  of_c,
          (hc, yc),
          State-update p.B p.classify p.some_elements p.m p.k p.first p.n p.rest p.W p.ascending b h
              hb (omega arith) h.size h.behind (λ i y out t. t)
              (Bucket-take p.B p.classify p.m p.k p.first p.some_elements p.small us x bucket')
              (λ f. omega (arith, ap (total f) e, total-append f us (x ∷ [])))
              (OverflowFrom-update p.B p.classify p.some_elements p.m p.k p.first p.n p.rest p.W
                s.overflow moved b (moved b) h.spill (λ q. refl)),
        )
