-- ===== src/Prelude/Ranges.antt =====
-- Ranges `[b, e)` of an array that is a list: reading one, and writing one in place.
use mathlib.Core.Path.{◌≡◌, refl, ap, sym, ◌∙◌}
use mathlib.Core.Logic.{◌⊎◌, inl, inr}
use mathlib.Core.List.{List, [], ◌∷◌, ◌++◌}
use Prim.Native.Nat.{ℕ, zero, suc, ◌+◌, ◌-◌, ◌≤◌}
use native.Mathlib.Omega.{arith}
use ips4o.Prelude.Lists.{length, take, drop, length-append, length-take, length-drop}

module _ {ℓ} {A : Type ℓ} where
  abbrev pub range : List A → ℕ → ℕ → List A
  range arr b e = take (e - b) (drop b arr)

  -- The elements from `b` on are overwritten by `xs`.
  abbrev pub write_range : List A → ℕ → List A → List A
  write_range arr b xs = take b arr ++ (xs ++ drop (b + length xs) arr)

  pub take-length : (xs ys : List A) → take (length xs) (xs ++ ys) ≡ xs
  take-length [] ys = refl
  take-length (x ∷ xs) ys = ap (◌∷◌ x) (take-length xs ys)

  pub drop-length : (xs ys : List A) (n : ℕ) → drop (length xs + n) (xs ++ ys) ≡ drop n ys
  drop-length [] ys n = ap (λ k. drop k ys) (omega arith)
  drop-length (x ∷ xs) ys n = rw suc_add (drop-length xs ys n)
    where
      suc_add : suc (length xs) + n ≡ suc (length xs + n)
      suc_add = omega arith

  pub drop-length_self : (xs ys : List A) → drop (length xs) (xs ++ ys) ≡ ys
  drop-length_self [] ys = refl
  drop-length_self (x ∷ xs) ys = drop-length_self xs ys

  -- An array that is split at the ends of a range.
  pub range-split :
      (pre seg post : List A) (b e : ℕ)
      → b ≡ length pre
      → e ≡ length pre + length seg
      → range (pre ++ (seg ++ post)) b e ≡ seg
  range-split pre seg post b e hb he =
      let n : e - b ≡ length seg = omega arith in rw (n, hb, drop-length_self, take-length)

  pub write_range-split :
      (pre seg r post : List A) (b : ℕ)
      → b ≡ length pre
      → length r ≡ length seg
      → write_range (pre ++ (seg ++ post)) b r ≡ pre ++ (r ++ post)
  write_range-split pre seg r post b hb hr = rw (hb, hr, take-length, drop-length, drop-length_self)

  take_before :
      (n p : ℕ) (xs ys : List A) → n ≤ p → p ≤ length xs → take n (take p xs ++ ys) ≡ take n xs
  take_before zero p xs ys h k = refl
  take_before (suc n) zero xs ys h k = absurd (omega arith)
  take_before (suc n) (suc p) [] ys h k = absurd (omega arith)
  take_before (suc n) (suc p) (x ∷ xs) ys h k =
      ap (◌∷◌ x) (take_before n p xs ys (omega arith) (omega arith))

  pub range_before :
      (m n p : ℕ) (xs ys : List A)
      → m + n ≤ p
      → p ≤ length xs
      → take n (drop m (take p xs ++ ys)) ≡ take n (drop m xs)
  range_before zero n p xs ys h k = take_before n p xs ys (omega arith) k
  range_before (suc m) n zero xs ys h k = absurd (omega arith)
  range_before (suc m) n (suc p) [] ys h k = absurd (omega arith)
  range_before (suc m) n (suc p) (x ∷ xs) ys h k =
      range_before m n p xs ys (omega arith) (omega arith)

  drop-nil : (n : ℕ) → drop {A = A} n [] ≡ []
  drop-nil zero = refl
  drop-nil (suc n) = refl

  drop-drop : (m n : ℕ) (xs : List A) → drop n (drop m xs) ≡ drop (m + n) xs
  drop-drop zero n xs = ap (λ k. drop k xs) (omega arith)
  drop-drop (suc m) n [] = drop-nil n ∙ sym (drop-nil (suc m + n))
  drop-drop (suc m) n (x ∷ xs) =
      let e : suc (m + n) ≡ suc m + n = omega arith in
      drop-drop m n xs ∙ ap (λ k. drop k (x ∷ xs)) e

  pub drop_after :
      (off r : ℕ) (xs ys : List A)
      → off ≤ length xs
      → drop (off + (length ys + r)) (write_range xs off ys) ≡ drop (off + (length ys + r)) xs
  drop_after off r xs ys h =
      let len : length (take off xs) ≡ off = omega (arith, length-take off xs) in
      let rest = drop (off + length ys) xs in
      ap (λ k. drop (k + (length ys + r)) (write_range xs off ys)) (sym len)
      ∙ drop-length (take off xs) (ys ++ rest) (length ys + r)
      ∙ drop-length ys rest r
      ∙ drop-drop (off + length ys) r xs
      ∙ ap (λ k. drop k xs) (omega arith)

  pub length-write_range :
      (xs ys : List A) (off : ℕ)
      → off + length ys ≤ length xs
      → length (write_range xs off ys) ≡ length xs
  length-write_range xs ys off h = omega (
    arith,
    length-append (take off xs) (ys ++ drop (off + length ys) xs),
    length-append ys (drop (off + length ys) xs),
    length-take off xs,
    length-drop (off + length ys) xs,
  )

  take-nil : (n : ℕ) → take {A = A} n [] ≡ []
  take-nil zero = refl
  take-nil (suc n) = refl

  take-add : (m n : ℕ) (xs : List A) → take (m + n) xs ≡ take m xs ++ take n (drop m xs)
  take-add zero n xs = ap (λ k. take k xs) (omega arith)
  take-add (suc m) n [] = take-nil (suc m + n) ∙ sym (take-nil n)
  take-add (suc m) n (x ∷ xs) =
      let e : suc m + n ≡ suc (m + n) = omega arith in
      ap (λ k. take k (x ∷ xs)) e ∙ ap (◌∷◌ x) (take-add m n xs)

  -- A range in two parts.
  pub range-append :
      (xs : List A) (a b c : ℕ) → a ≤ b → b ≤ c → range xs a c ≡ range xs a b ++ range xs b c
  range-append xs a b c h k =
      let n : c - a ≡ (b - a) + (c - b) = omega arith in
      let at : a + (b - a) ≡ b = omega arith in
      ap (λ z. take z (drop a xs)) n
      ∙ take-add (b - a) (c - b) (drop a xs)
      ∙ ap (λ z. take (b - a) (drop a xs) ++ take (c - b) z)
          (drop-drop a (b - a) xs ∙ ap (λ z. drop z xs) at)

  pub length-range : (xs : List A) (a b : ℕ) → b ≤ length xs → length (range xs a b) ≡ b - a
  length-range xs a b h = omega (arith, length-take (b - a) (drop a xs), length-drop a xs)

  -- The part that was written.
  pub range-write_range :
      (xs ys : List A) (off : ℕ)
      → off ≤ length xs
      → range (write_range xs off ys) off (off + length ys) ≡ ys
  range-write_range xs ys off h =
      range-split (take off xs) ys (drop (off + length ys) xs) off (off + length ys)
        (omega (arith, length-take off xs)) (omega (arith, length-take off xs))

  -- The parts beside it.
  pub range-write_range_out :
      (xs ys : List A) (off a b : ℕ)
      → off + length ys ≤ length xs
      → a ≤ b
      → (b ≤ off) ⊎ (off + length ys ≤ a)
      → range (write_range xs off ys) a b ≡ range xs a b
  range-write_range_out xs ys off a b h k (inl le) =
      range_before a (b - a) off xs (ys ++ drop (off + length ys) xs) (omega arith) (omega arith)
  range-write_range_out xs ys off a b h k (inr le) =
      let place : a ≡ off + (length ys + (a - (off + length ys))) = omega arith in
      ap (λ z. take (b - a) (drop z (write_range xs off ys))) place
      ∙ ap (take (b - a)) (drop_after off (a - (off + length ys)) xs ys (omega arith))
      ∙ ap (λ z. take (b - a) (drop z xs)) (sym place)
