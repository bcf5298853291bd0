-- ===== src/BlockPermutation/Swapping.antt =====
-- `swapBlock` of include/ips4o/block_permutation.hpp, on all its branches.
use ips4o.Prelude.{
  ℕ, suc, ◌+◌, ◌*◌, ◌≤◌, ◌<◌, ◌≡◌, ◌≢◌, ◌⊎◌, inl, inr, refl, ap, ◌∙◌, arith, subst, Bool, true,
  false, not, Option, none, some, List, [], ◌∷◌, ◌++◌, length, drop, get_elem?, update, dec_lt,
  total, write_range, ◌==◌, total-append, sym,
}
use ips4o.BlockPermutation.{Sorter, signed_lt, swap_block, write_to}
use ips4o.Prelude.{length-append, update_self}
use ips4o.BlockPermutation.Slots.{
  Slot, slot-le, write_to-slot, Slot-written, Slot-kept, write_to-length, write_to-behind,
}
use ips4o.BlockPermutation.Invariant.{InBucket, ReadPointer, tail, first-le}
use ips4o.BlockPermutation.Steps.{
  signed_lt-small, signed_le-small, signed_lt-behind, write-small, Bucket-put,
}
use ips4o.BlockPermutation.Branches.{
  most, least, written_pointers, swap_block-overflow, swap_block-write,
}
use ips4o.BlockPermutation.State.{
  OverflowFrom, OverflowFrom-update, Shrinks, Shrinks-tail, Setting, State, State-room,
  State-update, front, left,
}

pub List-cases {ℓ} :
    {X : Type ℓ} (xs : List X) → (xs ≡ []) ⊎ ((x : X) × (ys : List X) × (xs ≡ x ∷ ys))
List-cases [] = inl refl
List-cases (x ∷ xs) = inr (x, xs, refl)

tail-le {ℓ} :
    {X : Type ℓ} (xs : List X) → (length (tail xs) ≡ 0) ⊎ (suc (length (tail xs)) ≡ length xs)
tail-le [] = inl refl
tail-le (x ∷ xs) = inr refl

total-front {ℓ} :
    {X : Type ℓ} (f : X → ℕ) (xs : List X) → total f xs ≡ total f (front xs) + total f (tail xs)
total-front f [] = refl
total-front f (x ∷ xs) = omega arith

pub ==-self : (a : ℕ) → (a == a) ≡ true
==-self a = ground arith

pub ==-other : (a b : ℕ) → a ≢ b → (a == b) ≡ false
==-other a b ne = ground arith

module _ {ℓ} {A : Type ℓ} (p : Setting A) where
  -- Shorthands.
  abbrev pub At :
      (drift : ℕ) (s : Sorter A) (moved unread : ℕ → List (List A)) (hand : List (List A)) → Type ℓ
  At drift s moved unread hand =
      State p.B p.classify p.some_elements p.m p.k p.first p.n p.rest p.W drift s.array s.overflow
        s.bucket_pointers moved unread hand

  abbrev pub Hand : ℕ → List A → Type 0
  Hand b x = (b < p.k) × InBucket p.B p.classify b x

  -- A full block has a first element, whose bucket is that of the block.
  pub Hand-head :
      (b : ℕ) (x : List A)
      → InBucket p.B p.classify b x
      → (v : A) × (get_elem? x 0 ≡ some v) × (p.classify v ≡ b)
  Hand-head b [] h = absurd (omega (arith, h.0, p.some_elements))
  Hand-head b (v ∷ x) h = (v, refl, h.1.0)

  -- A block goes to the slot that `incWrite` hands out.
  pub State-put :
      {d : ℕ} (s : Sorter A) {moved unread : ℕ → List (List A)} {hand : List (List A)} (b : ℕ)
      (z : List A) (array : List A) (overflow : Option (List A)) (hand' : List (List A))
      → At d s moved unread hand
      → Hand b z
      → p.first b + suc (length (moved b)) ≤ p.first (suc b)
      → length array ≡ p.n
      → drop (p.m * p.B) array ≡ p.rest
      → ((i : ℕ) (y : List A)
          → (i < p.first b + length (moved b)) ⊎ (p.first b + length (moved b) < i)
          → Slot p.B p.m s.array s.overflow i y
          → Slot p.B p.m array overflow i y)
      → Slot p.B p.m array overflow (p.first b + length (moved b)) z
      → ((f : List A → ℕ) → f z + total f hand' ≡ total f (front (unread b)) + total f hand)
      → (overflow ≡ s.overflow) ⊎ (p.first b + length (moved b) ≡ p.m)
      → State p.B p.classify p.some_elements p.m p.k p.first p.n p.rest p.W d array overflow
          (written_pointers p.B p.classify s b)
          (update moved b (moved b ++ z ∷ []))
          (update unread b (tail (unread b)))
          hand'
  State-put s {moved} {unread} {hand} b z array overflow hand' h (hb, here) free size behind keep
        new same spilled =
      let bucket = h.buckets b hb in
      let up =
        first-le p.B p.classify p.m p.k p.first p.ascending (suc b) p.k (omega arith)
          (omega arith) in
      let enough : p.first b + length (moved b) + suc (length (tail (unread b))) ≤ p.first (suc b) =
        elim (tail-le (unread b)) [
          | inl e ↦ omega (arith, e, free)
          | inr e ↦ omega (arith, e, bucket.room)
        ] in
      State-update p.B p.classify p.some_elements p.m p.k p.first p.n p.rest p.W p.ascending b h hb
        (omega arith) size behind (λ i y out. keep i y (outside i out free))
        (Bucket-put p.B p.classify p.m p.k p.first p.some_elements p.small z bucket here enough
          (omega (arith, enough, up, p.last)) keep new)
        (λ f. omega (arith, same f, total-front f (unread b), total-append f (moved b) (z ∷ [])))
        (elim spilled [
          | inl e ↦
              OverflowFrom-update p.B p.classify p.some_elements p.m p.k p.first p.n p.rest p.W
                overflow moved b (moved b ++ z ∷ [])
                (subst
                  (λ o.
                    OverflowFrom p.B p.classify p.some_elements p.m p.k p.first p.n p.rest p.W o
                      moved)
                  (sym e) h.spill)
                (λ q. absurd (omega (arith, q, free, up, p.last)))
          | inr e ↦
              let len : length (update moved b (moved b ++ z ∷ []) b) ≡ suc (length (moved b)) =
                ap length (update_self moved b (moved b ++ z ∷ []) b refl)
                ∙ length-append (moved b) (z ∷ [])
                ∙ omega arith in
              inr (b, hb, omega (arith, len), omega (arith, len, e))
        ])
    where
      outside :
          (i : ℕ)
          → (i < p.first b) ⊎ (p.first (suc b) ≤ i)
          → p.first b + suc (length (moved b)) ≤ p.first (suc b)
          → (i < p.first b + length (moved b)) ⊎ (p.first b + length (moved b) < i)
      outside i (inl lt) free = inl (omega arith)
      outside i (inr le) free = inr (omega arith)

  -- What `swapBlock` returns, and what it leaves: nothing in hand, or the block that it has displaced.
  abbrev pub Swapped :
      (drift : ℕ) (cur : Bool) (before : ℕ → List (List A)) (r : Option ℕ × Sorter A) → Type ℓ
  Swapped drift cur before r =
      (moved : ℕ → List (List A)) × (unread : ℕ → List (List A)) × Shrinks before unread
      × (((r.0 ≡ none) × At drift r.1 moved unread [])
          ⊎ ((c : ℕ) × (r.0 ≡ some c)
              × Hand c (r.1.swap (not cur))
              × (left p.k unread < left p.k before)
              × At drift r.1 moved unread (r.1.swap (not cur) ∷ [])))

  module _ {d : ℕ} (s : Sorter A) {moved unread : ℕ → List (List A)} (b fuel : ℕ) (cur : Bool)
      (h : At d s moved unread (s.swap cur ∷ [])) (hand : Hand b (s.swap cur)) where
    slot : ℕ
    slot = p.first b + length (moved b)

    pub fits_array : p.m * p.B ≤ length s.array
    fits_array = omega (arith, h.size, p.whole)

    pub write_is : least p.B p.classify s b ≡ (p.first b + length (moved b)) * p.B
    write_is = (h.buckets b hand.0).write

    -- No block is left where the one in hand goes.
    pub swap_block-free :
        unread b ≡ []
        → (r : Option ℕ × Sorter A) × (swap_block p.B p.classify (suc fuel) (p.m * p.B) b cur s
            ≡ some r)
          × Swapped d cur unread r
    swap_block-free none_left =
        let j = p.first b + length (moved b) in
        let bucket = h.buckets b hand.0 in
        let small_write =
          write-small p.B p.classify p.m p.k p.first p.some_elements p.small bucket in
        let free =
          State-room p.B p.classify p.some_elements p.m p.k p.first p.n p.rest p.W p.room
            (s.swap cur) b h hand.0 hand.1 in
        let up =
          first-le p.B p.classify p.m p.k p.first p.ascending (suc b) p.k (omega (arith, hand.0))
            (omega arith) in
        let past : signed_lt (most p.B p.classify s b) (least p.B p.classify s b) ≡ true =
          rw write_is (
            signed_lt-behind p.B p.classify p.m p.k p.first p.some_elements p.small d _ (j * p.B)
              (j + length (unread b)) (omega arith)
              (subst
                (ReadPointer p.B p.classify p.m p.k p.first d (most p.B p.classify s b) (j * p.B)
                  (j + length (unread b)))
                none_left bucket.read)) in
        let stock : (f : List A → ℕ)
            → f (s.swap cur) + 0 ≡ total f (front (unread b)) + (f (s.swap cur) + 0) =
          λ f. omega (arith, ap (λ z. total f (front z)) none_left) in
        elim (dec_lt j p.m) [
          | yes lt ↦
              let below = slot-le p.B j p.m lt in
              let len = hand.1.0 in
              let array = write_range s.array (j * p.B) (s.swap cur) in
              let inside : signed_lt (least p.B p.classify s b) (p.m * p.B) ≡ true =
                rw write_is (signed_lt-small (j * p.B) (p.m * p.B) (omega arith) (omega arith)) in
              let stored : write_to p.B s.array (least p.B p.classify s b) (s.swap cur)
                  ≡ some array =
                rw write_is
                  (write_to-slot p.B p.m s.array s.overflow fits_array j (s.swap cur) lt len) in
              (
                (
                  none,
                  record s { bucket_pointers = written_pointers p.B p.classify s b; array = array },
                ),
                swap_block-write p.B p.classify s b fuel (p.m * p.B) cur array past inside stored,
                (
                  update moved b (moved b ++ s.swap cur ∷ []),
                  update unread b (tail (unread b)),
                  Shrinks-tail unread b,
                  inl (
                    refl,
                    State-put s b (s.swap cur) array s.overflow [] h hand free
                        (write_to-length p.B p.m s.array s.overflow fits_array j (s.swap cur) lt len
                          ∙ h.size)
                        (write_to-behind p.B p.m s.array s.overflow fits_array j (s.swap cur) lt len
                          ∙ h.behind)
                        (λ i y ne.
                          Slot-kept p.B p.m s.array s.overflow fits_array j i (s.swap cur) y lt len
                            ne)
                        (Slot-written p.B p.m s.array s.overflow fits_array j (s.swap cur) lt len)
                        stock (inl refl),
                  ),
                ),
              )
          | no ge ↦
              let at_end : j ≡ p.m = omega (arith, free, up, p.last) in
              let outside : signed_lt (least p.B p.classify s b) (p.m * p.B) ≡ false =
                rw (write_is, at_end)
                  (signed_le-small (p.m * p.B) (p.m * p.B) (omega arith) (omega arith)) in
              (
                (
                  none,
                  record s {
                    bucket_pointers = written_pointers p.B p.classify s b;
                    overflow = some (s.swap cur);
                  },
                ),
                swap_block-overflow p.B p.classify s b fuel (p.m * p.B) cur past outside,
                (
                  update moved b (moved b ++ s.swap cur ∷ []),
                  update unread b (tail (unread b)),
                  Shrinks-tail unread b,
                  inl (
                    refl,
                    State-put s b (s.swap cur) s.array (some (s.swap cur)) [] h hand free h.size
                        h.behind (λ i y ne. kept i y at_end ne) (inr (at_end, refl)) stock
                        (inr at_end),
                  ),
                ),
              )
        ]
      where
        kept :
            (i : ℕ) (y : List A)
            → p.first b + length (moved b) ≡ p.m
            → (i < p.first b + length (moved b)) ⊎ (p.first b + length (moved b) < i)
            → Slot p.B p.m s.array s.overflow i y
            → Slot p.B p.m s.array (some (s.swap cur)) i y
        kept i y e ne (inl t) = inl t
        kept i y e (inl lt) (inr (q, t)) = absurd (omega (arith, e, q))
        kept i y e (inr lt) (inr (q, t)) = absurd (omega (arith, e, q))
