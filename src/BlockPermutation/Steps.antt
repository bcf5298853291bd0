-- ===== src/BlockPermutation/Steps.antt =====
-- What `incWrite` and `decRead` hand out in the block permutation of
-- include/ips4o/block_permutation.hpp, and what they make of a bucket.
use native.Mathlib.Nat.{mul-le-mul_right}
use ips4o.Prelude.{
  ℕ, suc, ◌+◌, ◌-◌, ◌*◌, ◌%◌, ◌^◌, ◌≤◌, ◌<◌, ◌≡◌, ◌⊎◌, inl, inr, refl, sym, arith, subst, true,
  false, Option, List, [], ◌∷◌, ◌++◌, append_assoc, length, length-append, All, All-append,
  All-append_left, lt→ltb, le→ltb,
}
use ips4o.BucketPointers.{BucketPointers}
use ips4o.BlockPermutation.{signed_lt}
use ips4o.BlockPermutation.Slots.{Slot}
use ips4o.BlockPermutation.Invariant.{Bucket, InBucket, ReadPointer, tail, get-put, get-append_left}

pub signed_lt-small : (a b : ℕ) → a < b → b < 2 ^ 63 → signed_lt a b ≡ true
unfolding signed_lt
signed_lt-small a b h k = lt→ltb _ _ (omega arith)

pub signed_le-small : (a b : ℕ) → b ≤ a → a < 2 ^ 63 → signed_lt a b ≡ false
unfolding signed_lt
signed_le-small a b h k = le→ltb _ _ (omega arith)

-- The read pointer less one block.
lower : ℕ → ℕ → ℕ
lower B word = (word + (2 ^ 64 - B)) % 2 ^ 64

module _ {ℓ} {A : Type ℓ} (B : ℕ) (classify : A → ℕ) (m k : ℕ) (first : ℕ → ℕ)
    (some_elements : 1 ≤ B) (small : m * B + 2 * B ≤ 2 ^ 63) where
  -- A shorthand.
  abbrev Read : (drift word write stop : ℕ) → List (List A) → Type 0
  Read = ReadPointer B classify m k first

  pub signed_lt-behind : (d w l t : ℕ) → l < 2 ^ 63 → Read d w l t [] → signed_lt w l ≡ true
  unfolding signed_lt
  signed_lt-behind d w l t h r = lt→ltb _ _ (omega (arith, r.0))

  pub signed_lt-ahead :
      (d w l t : ℕ) (x : List A) (us : List (List A))
      → l + length (x ∷ us) * B < 2 ^ 63
      → Read d w l t (x ∷ us)
      → signed_lt w l ≡ false
  signed_lt-ahead d w l t x us h r = signed_le-small w l (omega (arith, r.0)) (omega (arith, r.0))

  ReadPointer-put :
      (d w l t l' t' : ℕ) (us : List (List A))
      → l' ≡ l + B
      → (1 ≤ length us → t' ≤ t)
      → l + length us * B < 2 ^ 63
      → Read d w l t us
      → Read d w l' t' (tail us)
  ReadPointer-put d w l t l' t' [] e h k r = (omega (arith, r.0, e), r.1)
  ReadPointer-put d w l t l' t' (x ∷ []) e h k r = (omega (arith, r.0, e), omega (arith, r.0))
  ReadPointer-put d w l t l' t' (x ∷ y ∷ us) e h k r =
      (omega (arith, r.0, e), omega (arith, r.1, h (omega arith)))

  ReadPointer-take :
      (d w l t t' : ℕ) (us : List (List A)) (x : List A)
      → t' ≤ t
      → l + length (us ++ x ∷ []) * B < 2 ^ 63
      → Read d w l t (us ++ x ∷ [])
      → Read d (lower B w) l t' us
  unfolding lower
  ReadPointer-take d w l t t' [] x h k r = (omega (arith, r.0), omega (arith, r.0))
  ReadPointer-take d w l t t' (y ∷ us) x h k r =
      let last : suc (length (us ++ x ∷ [])) * B ≡ suc (length us) * B + B =
        rw (length-append us (x ∷ [])) (omega arith) in
      (omega (arith, r.0, last), omega (arith, r.1))

  ReadPointer-miss :
      (d w l t : ℕ) → d + 2 * B ≤ 2 ^ 63 → Read d w l t [] → Read (d + B) (lower B w) l t []
  unfolding lower
  ReadPointer-miss d w l t h r = (omega (arith, r.0, r.1), omega (arith, r.0, r.1))

  module _ {d : ℕ} {array : List A} {overflow : Option (List A)} {bp : BucketPointers} {b : ℕ}
      {ms us : List (List A)} (h : Bucket B classify m k first d array overflow bp b ms us) where
    -- The write pointer is below the sign bit.
    pub write-small : (first b + length ms) * B + length us * B < 2 ^ 63
    write-small =
        let le : (first b + length ms + length us) * B ≤ suc m * B = mul-le-mul_right B h.fits in
        omega (arith, le, small, some_elements)

  -- `incWrite`, when the block `x` is in the slot that it hands out afterwards.
  pub Bucket-put :
      {d : ℕ} {array array' : List A} {overflow overflow' : Option (List A)} {bp : BucketPointers}
      {b : ℕ} {ms us : List (List A)} (x : List A)
      → Bucket B classify m k first d array overflow bp b ms us
      → InBucket B classify b x
      → first b + length ms + suc (length (tail us)) ≤ first (suc b)
      → first b + length ms + suc (length (tail us)) ≤ suc m
      → ((i : ℕ) (y : List A)
          → (i < first b + length ms) ⊎ (first b + length ms < i)
          → Slot B m array overflow i y
          → Slot B m array' overflow' i y)
      → Slot B m array' overflow' (first b + length ms) x
      → Bucket B classify m k first d array' overflow'
          (record bp { ptr = record bp.ptr { least = (bp.ptr.least + B) % 2 ^ 64 } })
          b
          (ms ++ x ∷ [])
          (tail us)
  Bucket-put {d} {array' = array'} {overflow' = overflow'} {bp} {b} {ms} {us} x h here room fits
        keep new =
      let len = length-append ms (x ∷ []) in
      let below = write-small h in
      let moved : (first b + length (ms ++ x ∷ [])) * B ≡ (first b + length ms) * B + B =
        rw len (omega arith) in
      record {
        slots = λ i {y} e. elim (get-put ms us x i e) [
          | inl (p, q) ↦
              subst (λ z. Slot B m array' overflow' (first b + z) y) (sym p)
                (subst (Slot B m array' overflow' (first b + length ms)) q new)
          | inr (inl lt, q) ↦ keep (first b + i) y (inl (omega (arith, lt))) (h.slots i q)
          | inr (inr lt, q) ↦ keep (first b + i) y (inr (omega (arith, lt))) (h.slots i q)
        ];
        room = omega (arith, room, len);
        fits = omega (arith, fits, len);
        write = omega (arith, h.write, moved, below);
        read =
            ReadPointer-put d bp.ptr.most ((first b + length ms) * B)
              (first b + length ms + length us) _ _ us moved
              (λ p. omega (arith, len, length-tail us p)) below h.read;
        placed = All-append (InBucket B classify b) ms (x ∷ []) h.placed (here, tt);
        pending = All-tail _ us h.pending;
      }
    where
      length-tail : {X : Type ℓ} (xs : List X) → 1 ≤ length xs → suc (length (tail xs)) ≡ length xs
      length-tail [] p = absurd (omega arith)
      length-tail (x ∷ xs) p = refl

      All-tail : {X : Type ℓ} (P : X → Type 0) (xs : List X) → All P xs → All P (tail xs)
      All-tail P [] p = tt
      All-tail P (x ∷ xs) p = p.1

  -- `decRead`, when a block is left to be read.
  pub Bucket-take :
      {d : ℕ} {array : List A} {overflow : Option (List A)} {bp : BucketPointers} {b : ℕ}
      {ms : List (List A)} (us : List (List A)) (x : List A)
      → Bucket B classify m k first d array overflow bp b ms (us ++ x ∷ [])
      → Bucket B classify m k first d array overflow
          (record bp { ptr = record bp.ptr { most = (bp.ptr.most + (2 ^ 64 - B)) % 2 ^ 64 } })
          b
          ms
          us
  unfolding lower
  Bucket-take {d} {bp = bp} {b} {ms} us x h =
      let len = length-append us (x ∷ []) in
      record {
        slots = λ i {y} e.
            h.slots i
              (rw (← append_assoc ms us (x ∷ [])) (get-append_left (ms ++ us) (x ∷ []) i e));
        room = omega (arith, h.room, len);
        fits = omega (arith, h.fits, len);
        write = h.write;
        read =
            ReadPointer-take d bp.ptr.most _ (first b + length ms + length (us ++ x ∷ [])) _ us x
              (omega (arith, len)) (write-small h) h.read;
        placed = h.placed;
        pending = All-append_left _ us (x ∷ []) h.pending;
      }

  -- `decRead`, when none is left.
  pub Bucket-miss :
      {d : ℕ} {array : List A} {overflow : Option (List A)} {bp : BucketPointers} {b : ℕ}
      {ms : List (List A)}
      → d + 2 * B ≤ 2 ^ 63
      → Bucket B classify m k first d array overflow bp b ms []
      → Bucket B classify m k first
          (d + B)
          array
          overflow
          (record bp { ptr = record bp.ptr { most = (bp.ptr.most + (2 ^ 64 - B)) % 2 ^ 64 } })
          b
          ms
          []
  unfolding lower
  Bucket-miss {d} {bp = bp} {b} {ms} low h = record {
    slots = h.slots;
    room = h.room;
    fits = h.fits;
    write = h.write;
    read =
        ReadPointer-miss d bp.ptr.most ((first b + length ms) * B) (first b + length ms + 0) low
          h.read;
    placed = h.placed;
    pending = tt;
  }
