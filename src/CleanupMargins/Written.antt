-- ===== src/CleanupMargins/Written.antt =====
-- One bucket of `writeMargins` of include/ips4o/cleanup_margins.hpp, in all cases and with the base
-- case sort.
use native.Mathlib.Nat.{div-add-mod, mul-le-mul_right}
use ips4o.BlockPermutation.Permutes.{get-lt}
use mathlib.Core.Option.{some-injective}
use ips4o.Prelude.{
  ℕ, suc, ◌+◌, ◌*◌, ◌/◌, ◌≤◌, ◌<◌, ◌≡◌, ◌⊎◌, inl, inr, sym, ap, ◌∙◌, arith, subst, Option, none,
  some, List, [], ◌∷◌, ◌++◌, length, get_elem?, range, length-append, dec_lt, All, All-append_right,
  Bool-cases, if◌then◌else◌,
}
use ips4o.Config.{Config, block_size}
use ips4o.BlockPermutation.Layout.{slot_of}
use ips4o.BlockPermutation.Invariant.{get-append_left, get-append_head}
use ips4o.BlockPermutation.Reading.{snoc-cases}
use ips4o.CleanupMargins.{Margins, overflow_of, is_bucket}
use ips4o.CleanupMargins.Margin.{Ready, Filled, Filled-tail, Filled-small, Filled-excess}
use ips4o.CleanupMargins.Overflowing.{Filled-overflow}

module _ {ℓ} {A : Type ℓ} (c : Config) (overflow_bucket : Option ℕ) (i bstart bend : ℕ)
    (s : Margins A) (blocks : List (List A)) (bwrite : ℕ)
    (h : Ready c overflow_bucket i bstart bend s blocks bwrite) where
  slots_end : ℕ
  slots_end = length s.array / block_size c

  -- Whether the last block of the bucket is in the overflow buffer.
  abbrev pub Overflow : Type ℓ
  Overflow =
      ((overflow_of c overflow_bucket none 0 s i ≡ none)
        × ((slot_of c bstart + length blocks ≤ length s.array / block_size c)
            ⊎ (length blocks ≡ 0)))
      ⊎ ((src : List A) × (overflow_of c overflow_bucket none 0 s i ≡ some src)
          × (1 ≤ length blocks)
          × (slot_of c bstart + length blocks ≡ suc (length s.array / block_size c)))

  overflow-src :
      (src : List A) → overflow_of c overflow_bucket none 0 s i ≡ some src → s.overflow ≡ some src
  unfolding overflow_of
  overflow-src src e = elim (Bool-cases (is_bucket overflow_bucket i)) [
    | inl t ↦ sym (ap (λ b. if b then s.overflow else none) t) ∙ e
    | inr f ↦ absurd (none_some (sym (ap (λ b. if b then s.overflow else none) f) ∙ e))
  ]
    where
      none_some : (none ≡ some src) → ⊥
      none_some q = absurd (cc)

  slot_range :
      (j : ℕ) (y : List A)
      → slot_of c bstart + j < length s.array / block_size c
      → get_elem? blocks j ≡ some y
      → range s.array
          ((slot_of c bstart + j) * block_size c)
          ((slot_of c bstart + j) * block_size c + block_size c)
        ≡ y
  slot_range j y lt e = elim (h.slots j y e) [
    | inl (_, r) ↦ r
    | inr (q, _) ↦ absurd (omega (arith, q))
  ]

  -- The end of the blocks is in the array.
  fits : slot_of c bstart + length blocks ≤ length s.array / block_size c → bwrite ≤ length s.array
  fits le =
      let up : (slot_of c bstart + length blocks) * block_size c
          ≤ length s.array / block_size c * block_size c =
        mul-le-mul_right (block_size c) le in
      omega (arith, h.write, up, div-add-mod (length s.array) (block_size c))

  pub Filled-any :
      Overflow → (array : List A) × Filled c overflow_bucket i bstart bend s blocks bwrite array
  Filled-any (inl (free, le)) =
      let here : (j : ℕ) (y : List A)
          → get_elem? blocks j ≡ some y
          → range s.array ((slot_of c bstart + j) * block_size c)
              ((slot_of c bstart + j) * block_size c + block_size c)
            ≡ y =
        λ j y e. slot_range j y (in_slots le j (get-lt blocks j e)) e in
      elim (dec_lt bend bwrite) [
        | no le' ↦
            Filled-tail c overflow_bucket i bstart bend s blocks bwrite h free here (omega arith)
        | yes lt ↦ elim (dec_lt 0 (length blocks)) [
          | yes more ↦
              Filled-excess c overflow_bucket i bstart bend s blocks bwrite h free here more
                (fits (some_fit le more)) lt
          | no empty ↦
              Filled-small c overflow_bucket i bstart bend s blocks bwrite h free here (omega arith)
                lt
        ]
      ]
    where
      in_slots :
          (slot_of c bstart + length blocks ≤ length s.array / block_size c) ⊎ (length blocks ≡ 0)
          → (j : ℕ) → j < length blocks
          → slot_of c bstart + j < length s.array / block_size c
      in_slots (inl le) j lt = omega arith
      in_slots (inr e) j lt = absurd (omega arith)

      some_fit :
          (slot_of c bstart + length blocks ≤ length s.array / block_size c) ⊎ (length blocks ≡ 0)
          → 0 < length blocks
          → slot_of c bstart + length blocks ≤ length s.array / block_size c
      some_fit (inl le) lt = le
      some_fit (inr e) lt = absurd (omega arith)
  Filled-any (inr (src, over, more, at)) = elim (snoc-cases blocks) [
    | inl e ↦ absurd (omega (arith, ap length e))
    | inr (init, y, e) ↦
        let len : length blocks ≡ suc (length init) =
          ap length e ∙ length-append init (y ∷ []) ∙ omega arith in
        let found : get_elem? blocks (length init) ≡ some y = rw e (get-append_head init [] y) in
        let stored : s.overflow ≡ some y =
          in_overflow (length init) y (omega (arith, len, at)) found in
        let same : y ≡ src = some-injective _ _ (sym stored ∙ overflow-src src over) in
        let blocks_are : blocks ≡ init ++ src ∷ [] = e ∙ ap (λ z. init ++ z ∷ []) same in
        subst (λ z. (array : List A) × Filled c overflow_bucket i bstart bend s z bwrite array)
          (sym blocks_are)
          (Filled-overflow c overflow_bucket i bstart bend s init src bwrite
            (subst (λ z. Ready c overflow_bucket i bstart bend s z bwrite) blocks_are h) over
            (subst (λ z. length z ≡ block_size c) same
              (All-append_right (λ z. length z ≡ block_size c) init (y ∷ [])
                (subst (All (λ z. length z ≡ block_size c)) e h.lengths)).0)
            (omega (arith, len, at))
            (λ j z q.
              slot_range j z (omega (arith, get-lt init j q, len, at))
                (rw e (get-append_left init (y ∷ []) j q))))
  ]
    where
      in_overflow :
          (j : ℕ) (y : List A)
          → slot_of c bstart + j ≡ length s.array / block_size c
          → get_elem? blocks j ≡ some y
          → s.overflow ≡ some y
      in_overflow j y q e = elim (h.slots j y e) [
        | inl (lt, _) ↦ absurd (omega (arith, q))
        | inr (_, o) ↦ o
      ]
