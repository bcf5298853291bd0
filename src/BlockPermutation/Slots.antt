-- ===== src/BlockPermutation/Slots.antt =====
-- Blocks in an array, for the block permutation of include/ips4o/block_permutation.hpp: slot `j` holds
-- the `B` elements from `j * B` on, and slot `m`, behind the last that fits, is the overflow buffer.
use native.Mathlib.Nat.{mul-le-mul_right}
use ips4o.Prelude.{
  ℕ, zero, suc, ◌+◌, ◌-◌, ◌*◌, ◌≤◌, ◌<◌, ◌≡◌, ◌⊎◌, inl, inr, refl, sym, ap, ◌∙◌, arith, Option,
  some, List, [], ◌∷◌, ◌++◌, length, get_elem?, take, drop, range, write_range, length-take,
  range-split, range_before, drop_after, length-write_range, le→leb,
}
use ips4o.BlockPermutation.{read_from, write_to}

-- Slots do not overlap.
pub slot-le : (B i j : ℕ) → i < j → i * B + B ≤ j * B
slot-le B i j h = let le : suc i * B ≤ j * B = mul-le-mul_right B (omega arith) in omega (arith, le)

module _ {ℓ} {A : Type ℓ} where
  get-range :
      (off len : ℕ) (xs : List A) {v : A}
      → get_elem? (take len (drop off xs)) 0 ≡ some v
      → get_elem? xs off ≡ some v
  get-range zero zero xs e = absurd (cc)
  get-range zero (suc len) [] e = e
  get-range zero (suc len) (x ∷ xs) e = e
  get-range (suc off) zero [] e = absurd (cc)
  get-range (suc off) (suc len) [] e = e
  get-range (suc off) len (x ∷ xs) e = get-range off len xs e

  module _ (B m : ℕ) where
    -- What slot `j` holds, if it has been written.
    abbrev pub Slot : (array : List A) (overflow : Option (List A)) → ℕ → List A → Type ℓ
    Slot array overflow j block =
        ((j < m) × (range array (j * B) (j * B + B) ≡ block)) ⊎ ((j ≡ m) × (overflow ≡ some block))

    module _ (array : List A) (overflow : Option (List A)) (room : m * B ≤ length array) where
      pub read_from-Slot :
          (j : ℕ) (block : List A)
          → j < m
          → Slot array overflow j block
          → read_from B array (j * B) ≡ some block
      unfolding read_from
      read_from-Slot j block h (inl (_, e)) =
          rw (le→leb (j * B + B) (length array) (omega (arith, slot-le B j m h)), e) refl
      read_from-Slot j block h (inr (e, _)) = absurd (omega (arith, e))

      pub get-Slot :
          (j : ℕ) (block : List A) {v : A}
          → j < m
          → Slot array overflow j block
          → get_elem? block 0 ≡ some v
          → get_elem? array (j * B) ≡ some v
      get-Slot j block h (inl (_, e)) head =
          get-range (j * B) (j * B + B - j * B) array (ap (λ z. get_elem? z 0) e ∙ head)
      get-Slot j block h (inr (e, _)) head = absurd (omega (arith, e))

      pub write_to-slot :
          (j : ℕ) (block : List A)
          → j < m
          → length block ≡ B
          → write_to B array (j * B) block ≡ some (write_range array (j * B) block)
      unfolding write_to
      write_to-slot j block h _ =
          rw (le→leb (j * B + B) (length array) (omega (arith, slot-le B j m h))) refl

      pub write_to-length :
          (j : ℕ) (block : List A)
          → j < m
          → length block ≡ B
          → length (write_range array (j * B) block) ≡ length array
      write_to-length j block h len =
          length-write_range array block (j * B) (omega (arith, len, slot-le B j m h))

      pub write_to-behind :
          (j : ℕ) (block : List A)
          → j < m
          → length block ≡ B
          → drop (m * B) (write_range array (j * B) block) ≡ drop (m * B) array
      write_to-behind j block h len =
          let fits = slot-le B j m h in
          let place : m * B ≡ j * B + (length block + (m * B - (j * B + B))) = omega (arith, len) in
          ap (λ z. drop z (write_range array (j * B) block)) place
          ∙ drop_after (j * B) (m * B - (j * B + B)) array block (omega arith)
          ∙ ap (λ z. drop z array) (sym place)

      pub Slot-written :
          (j : ℕ) (block : List A)
          → j < m
          → length block ≡ B
          → Slot (write_range array (j * B) block) overflow j block
      Slot-written j block h len =
          let below = slot-le B j m h in
          inl (
            h,
            range-split (take (j * B) array) block (drop (j * B + length block) array) (j * B)
                (j * B + B) (omega (arith, length-take (j * B) array))
                (omega (arith, length-take (j * B) array, len)),
          )

      pub Slot-kept :
          (j i : ℕ) (block other : List A)
          → j < m
          → length block ≡ B
          → (i < j) ⊎ (j < i)
          → Slot array overflow i other
          → Slot (write_range array (j * B) block) overflow i other
      Slot-kept j i block other h len ne (inr s) = inr s
      Slot-kept j i block other h len (inl lt) (inl (k, e)) =
          let below = slot-le B j m h in
          let apart = slot-le B i j lt in
          let n : i * B + B - i * B ≡ B = omega arith in
          inl (
            k,
            rw n (
                  range_before (i * B) B (j * B) array (block ++ drop (j * B + length block) array)
                    (omega arith) (omega arith))
                ∙ ap (λ z. take z (drop (i * B) array)) (sym n)
                ∙ e,
          )
      Slot-kept j i block other h len (inr lt) (inl (k, e)) =
          let below = slot-le B j m h in
          let apart = slot-le B j i lt in
          let place : i * B ≡ j * B + (length block + (i * B - (j * B + B))) = omega (arith, len) in
          inl (
            k,
            ap (λ z. take (i * B + B - i * B) (drop z (write_range array (j * B) block))) place
                ∙ ap (take (i * B + B - i * B))
                    (drop_after (j * B) (i * B - (j * B + B)) array block (omega arith))
                ∙ ap (λ z. take (i * B + B - i * B) (drop z array)) (sym place)
                ∙ e,
          )
