-- ===== src/BlockPermutation/Displacing.antt =====
-- `swapBlock` of include/ips4o/block_permutation.hpp with its loop over the blocks that are in place.
use ips4o.Prelude.{
  ℕ, zero, suc, ◌+◌, ◌*◌, ◌^◌, ◌≤◌, ◌<◌, ◌≡◌, ◌≢◌, inl, inr, refl, sym, ap, ◌∙◌, arith, subst, Bool,
  true, false, not, Option, some, List, [], ◌∷◌, ◌++◌, length, All, update, update_self, ℕ_discrete,
  total, write_range, ◌==◌,
}
use ips4o.BlockPermutation.{Sorter, signed_lt, swap_block, update_swap}
use ips4o.BlockPermutation.Slots.{
  Slot, read_from-Slot, write_to-slot, get-Slot, Slot-written, Slot-kept, write_to-length,
  write_to-behind,
}
use ips4o.BlockPermutation.Invariant.{InBucket, ReadPointer, tail, get-append_head}
use ips4o.BlockPermutation.Steps.{signed_lt-ahead, write-small}
use ips4o.BlockPermutation.Branches.{
  most, least, written_pointers, swap_block-skip, swap_block-swap,
}
use ips4o.BlockPermutation.State.{
  Shrinks, Shrinks-tail, left-Shrinks, Setting, State, front, left, left-update,
}
use ips4o.BlockPermutation.Swapping.{
  At, Hand, Hand-head, State-put, Swapped, swap_block-free, List-cases, ==-self, ==-other,
  fits_array, write_is,
}

swap_self {ℓ} : {X : Type ℓ} (swap : Bool → X) (cur : Bool) (x : X) → update_swap swap cur x cur ≡ x
swap_self swap true x = refl
swap_self swap false x = refl

module _ {ℓ} {A : Type ℓ} (p : Setting A) where
  -- A shorthand for the section of the module above.
  abbrev Here :
      (drift : ℕ) (s : Sorter A) (moved unread : ℕ → List (List A)) (hand : List (List A)) → Type ℓ
  Here = At p

  abbrev InHand : ℕ → List A → Type 0
  InHand = Hand p

  module _ {d : ℕ} (s : Sorter A) {moved unread : ℕ → List (List A)} (b fuel : ℕ) (cur : Bool)
      (h : Here d s moved unread (s.swap cur ∷ [])) (hand : InHand b (s.swap cur)) (y : List A)
      (us : List (List A)) (next_is : unread b ≡ y ∷ us) where
    -- The block at the write pointer, which is yet to be read.
    next_block :
        (signed_lt (most p.B p.classify s b) (least p.B p.classify s b) ≡ false)
        × (p.first b + length (moved b) < p.m)
        × Slot p.B p.m s.array s.overflow (p.first b + length (moved b)) y
        × ((c : ℕ) × InHand c y)
        × (p.first b + suc (length (moved b)) ≤ p.first (suc b))
    next_block =
        let bucket = h.buckets b hand.0 in
        let j = p.first b + length (moved b) in
        let read =
          subst
            (ReadPointer p.B p.classify p.m p.k p.first d (most p.B p.classify s b) (j * p.B)
              (j + length (unread b)))
            next_is bucket.read in
        let count : length (unread b) ≡ suc (length us) = ap length next_is in
        let small_write =
          write-small p.B p.classify p.m p.k p.first p.some_elements p.small bucket in
        let small_write' = subst (λ us. j * p.B + length us * p.B < 2 ^ 63) next_is small_write in
        let (c, hc, yc) =
          (subst (All (λ y. (c : ℕ) × (c < p.k) × InBucket p.B p.classify c y)) next_is
            bucket.pending).0 in
        (
          rw (write_is p s b fuel cur h hand) (
              signed_lt-ahead p.B p.classify p.m p.k p.first p.some_elements p.small d
                (most p.B p.classify s b) (j * p.B) (j + length (unread b)) y us small_write' read),
          omega (arith, read.1, count),
          bucket.slots (length (moved b)) (rw next_is (get-append_head (moved b) us y)),
          (c, (hc, yc)),
          omega (arith, bucket.room, count),
        )

    -- It is of another bucket.
    swap_block-other :
        (c : ℕ)
        → InHand c y
        → c ≢ b
        → (r : Option ℕ × Sorter A) × (swap_block p.B p.classify (suc fuel) (p.m * p.B) b cur s
            ≡ some r)
          × Swapped p d cur unread r
    swap_block-other c yc ne =
        let j = p.first b + length (moved b) in
        let (ahead, lt, slot, _, free) = next_block in
        let fits = fits_array p s b fuel cur h hand in
        let at = write_is p s b fuel cur h hand in
        let (v, head, of_c) = Hand-head p c y yc.1 in
        let len = hand.1.0 in
        let array = write_range s.array (j * p.B) (s.swap cur) in
        let fewer : left p.k (update unread b (tail (unread b))) < left p.k unread = omega (
          arith,
          left-update p.k unread b (tail (unread b)) hand.0,
          ap (λ z. length (tail z)) next_is,
          ap length next_is,
        ) in
        let same = swap_self s.swap (not cur) y in
        let after =
          State-put p s b (s.swap cur) array s.overflow (y ∷ []) h hand free
            (write_to-length p.B p.m s.array s.overflow fits j (s.swap cur) lt len ∙ h.size)
            (write_to-behind p.B p.m s.array s.overflow fits j (s.swap cur) lt len ∙ h.behind)
            (λ i z ne. Slot-kept p.B p.m s.array s.overflow fits j i (s.swap cur) z lt len ne)
            (Slot-written p.B p.m s.array s.overflow fits j (s.swap cur) lt len)
            (λ f. omega (arith, ap (λ z. total f (front z)) next_is)) (inl refl) in
        (
          (
            some (p.classify v),
            record s {
              bucket_pointers = written_pointers p.B p.classify s b;
              array = array;
              swap = update_swap s.swap (not cur) y;
            },
          ),
          swap_block-swap p.B p.classify s b fuel (p.m * p.B) cur v y array ahead
              (rw at (get-Slot p.B p.m s.array s.overflow fits j y lt slot head))
              (==-other (p.classify v) b (λ e. ne (sym of_c ∙ e)))
              (rw at (read_from-Slot p.B p.m s.array s.overflow fits j y lt slot))
              (rw at (write_to-slot p.B p.m s.array s.overflow fits j (s.swap cur) lt len)),
          (
            update moved b (moved b ++ s.swap cur ∷ []),
            update unread b (tail (unread b)),
            Shrinks-tail unread b,
            inr (
              c,
              ap some of_c,
              subst (InHand c) (sym same) yc,
              fewer,
              subst
                  (λ z.
                    State p.B p.classify p.some_elements p.m p.k p.first p.n p.rest p.W d array
                      s.overflow (written_pointers p.B p.classify s b)
                      (update moved b (moved b ++ s.swap cur ∷ []))
                      (update unread b (tail (unread b))) (z ∷ []))
                  (sym same) after,
            ),
          ),
        )

    -- It is in its place.
    swap_block-own :
        InHand b y
        → (swap_block p.B p.classify (suc fuel) (p.m * p.B) b cur s
            ≡ swap_block p.B p.classify fuel
                (p.m * p.B)
                b
                cur
                (record s { bucket_pointers = written_pointers p.B p.classify s b }))
          × State p.B p.classify p.some_elements p.m p.k p.first p.n p.rest p.W d s.array s.overflow
              (written_pointers p.B p.classify s b)
              (update moved b (moved b ++ y ∷ []))
              (update unread b (tail (unread b)))
              (s.swap cur ∷ [])
          × (suc (length (update unread b (tail (unread b)) b)) ≡ length (unread b))
          × (left p.k (update unread b (tail (unread b))) < left p.k unread)
    swap_block-own yb =
        let j = p.first b + length (moved b) in
        let (ahead, lt, slot, _, free) = next_block in
        let fits = fits_array p s b fuel cur h hand in
        let at = write_is p s b fuel cur h hand in
        let (v, head, of_b) = Hand-head p b y yb.1 in
        let count = ap length next_is in
        let shorter = ap (λ z. length (tail z)) next_is in
        (
          swap_block-skip p.B p.classify s b fuel (p.m * p.B) cur v ahead
              (rw at (get-Slot p.B p.m s.array s.overflow fits j y lt slot head))
              (ap (λ z. z == b) of_b ∙ ==-self b),
          State-put p s b y s.array s.overflow (s.swap cur ∷ []) h yb free h.size h.behind
              (λ i z ne t. t) slot (λ f. omega (arith, ap (λ z. total f (front z)) next_is))
              (inl refl),
          omega (arith, ap length (update_self unread b (tail (unread b)) b refl), count, shorter),
          omega (arith, left-update p.k unread b (tail (unread b)) hand.0, count, shorter),
        )

  -- With fuel for each block that is yet to be read in the bucket, `swapBlock` is defined and keeps the invariant.
  pub swap_block-State :
      {d : ℕ} (fuel : ℕ) (s : Sorter A) {moved unread : ℕ → List (List A)} (b : ℕ) (cur : Bool)
      → Here d s moved unread (s.swap cur ∷ [])
      → InHand b (s.swap cur)
      → length (unread b) < fuel
      → (r : Option ℕ × Sorter A) × (swap_block p.B p.classify fuel (p.m * p.B) b cur s ≡ some r)
        × Swapped p d cur unread r
  swap_block-State zero s b cur h hand enough = absurd (omega arith)
  swap_block-State {d} (suc fuel) s {moved} {unread} b cur h hand enough =
      elim (List-cases (unread b)) [
        | inl e ↦ swap_block-free p s b fuel cur h hand e
        | inr (y, us, e) ↦
            let (c, yc) = (next_block s b fuel cur h hand y us e).3 in
            elim (ℕ_discrete c b) [
              | yes q ↦
                  let (step, after, shorter, fewer) =
                    swap_block-own s b fuel cur h hand y us e (subst (λ z. InHand z y) q yc) in
                  let (r, run, result) =
                    swap_block-State fuel
                      (record s { bucket_pointers = written_pointers p.B p.classify s b }) b cur
                      after hand (omega (arith, shorter, enough)) in
                  (r, step ∙ run, weaken unread _ cur r (Shrinks-tail unread b) result)
              | no ne ↦ swap_block-other s b fuel cur h hand y us e c yc ne
            ]
      ]
    where
      weaken :
          (before after : ℕ → List (List A)) (cur : Bool) (r : Option ℕ × Sorter A)
          → Shrinks before after
          → Swapped p d cur after r
          → Swapped p d cur before r
      weaken before after cur r less (mv, un, h, inl a) =
          (mv, un, λ c. omega (arith, h c, less c), inl a)
      weaken before after cur r less (mv, un, h, inr (c, e, i, l, a)) = (
        mv,
        un,
        λ c. omega (arith, h c, less c),
        inr (c, e, i, omega (arith, l, left-Shrinks p.k before after less), a),
      )
