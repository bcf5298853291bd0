-- ===== src/BlockPermutation/Loops.antt =====
-- The loops of `permuteBlocks` of include/ips4o/block_permutation.hpp.
use native.Mathlib.Nat.{mod-add-mod, mod-eq_of_lt}
use ips4o.Prelude.{
  ℕ, zero, suc, ◌+◌, ◌*◌, ◌%◌, ◌^◌, ◌≤◌, ◌<◌, ◌≡◌, inl, inr, refl, ap, ◌∙◌, arith, subst, Bool,
  false, not, some, List, [], ◌∷◌, length, length-append, update, update_self, le-sum, bind-some,
}
use ips4o.BlockPermutation.{Sorter, write_blocks, read_blocks, permute_buckets}
use ips4o.BlockPermutation.State.{Setting, left, left-update, Shrinks, Shrinks-update, left-Shrinks}
use ips4o.BlockPermutation.Swapping.{At, Hand}
use ips4o.BlockPermutation.Displacing.{swap_block-State}
use ips4o.BlockPermutation.Reading.{
  classify_and_read_block-empty, classify_and_read_block-some, snoc-cases,
}

module _ {ℓ} {A : Type ℓ} (p : Setting A) where
  -- A state with nothing in hand, in which no more blocks are to be read than before.
  abbrev pub Reached : (drift : ℕ) (before : ℕ → List (List A)) (s : Sorter A) → Type ℓ
  Reached drift before s =
      (moved : ℕ → List (List A)) × (unread : ℕ → List (List A)) × Shrinks before unread
      × At p drift s moved unread []

  pub write_blocks-State :
      {d : ℕ} (fuel : ℕ) (s : Sorter A) {moved unread : ℕ → List (List A)} (b : ℕ) (cur : Bool)
      → At p d s moved unread (s.swap cur ∷ [])
      → Hand p b (s.swap cur)
      → left p.k unread < fuel
      → (s' : Sorter A) × (write_blocks p.B p.classify fuel (p.m * p.B) b cur s ≡ some s')
        × Reached d unread s'
  unfolding write_blocks
  write_blocks-State zero s b cur h hand enough = absurd (omega arith)
  write_blocks-State (suc fuel) s {moved} {unread} b cur h hand enough =
      let few : length (unread b) < suc fuel =
        omega (arith, le-sum p.k (λ c. length (unread c)) b hand.0) in
      let (r, run, swapped) = swap_block-State p (suc fuel) s b cur h hand few in
      let (mv, un, less, result) = swapped in
      let s' = r.1 in
      elim result [
        | inl (e, after) ↦ (s', bind-some _ run (rw e refl), (mv, un, less, after))
        | inr (c, e, hand', fewer, after) ↦
            let (s'', run', reached) =
              write_blocks-State fuel s' c (not cur) after hand' (omega (arith, fewer, enough)) in
            let (mv', un', less', after') = reached in
            (
              s'',
              bind-some _ run (rw e run'),
              (mv', un', λ c. omega (arith, less c, less' c), after'),
            )
      ]

  -- The blocks of one bucket.
  pub read_blocks-State :
      {d : ℕ} (fuel : ℕ) (s : Sorter A) {moved unread : ℕ → List (List A)} (b : ℕ)
      → At p d s moved unread []
      → b < p.k
      → d + 2 * p.B ≤ 2 ^ 63
      → left p.k unread < fuel
      → (s' : Sorter A) × (read_blocks p.B p.classify fuel (p.m * p.B) b s ≡ some s')
        × (moved' : ℕ → List (List A)) × (unread' : ℕ → List (List A)) × Shrinks unread unread'
        × (length (unread' b) ≡ 0)
        × At p (d + p.B) s' moved' unread' []
  unfolding read_blocks
  read_blocks-State zero s b h hb low enough = absurd (omega arith)
  read_blocks-State (suc fuel) s {moved} {unread} b h hb low enough = elim (snoc-cases (unread b)) [
    | inl e ↦
        let (s', run, after) = classify_and_read_block-empty p s b h hb low e in
        (
          s',
          bind-some _ run refl,
          update moved b (moved b),
          update unread b [],
          Shrinks-update unread b [] (omega arith),
          ap length (update_self unread b [] b refl),
          after,
        )
    | inr (us, x, e) ↦
        let (c, s', run, hand, after) = classify_and_read_block-some p s b h hb us x e in
        let count : length (unread b) ≡ suc (length us) =
          omega (arith, ap length e, length-append us (x ∷ [])) in
        let fewer = left-update p.k unread b us hb in
        let (s'', run', reached) =
          write_blocks-State (suc fuel) s' c false after hand
            (omega (arith, fewer, count, enough)) in
        let (mv, un, less, after') = reached in
        let now = left-Shrinks p.k (update unread b us) un less in
        let (s3, run3, mv3, un3, less3, empty, after3) =
          read_blocks-State fuel s'' b after' hb low (omega (arith, now, fewer, count, enough)) in
        let before = Shrinks-update unread b us (omega (arith, count)) in
        (
          s3,
          bind-some _ run (bind-some _ run' run3),
          mv3,
          un3,
          λ c. omega (arith, before c, less c, less3 c),
          empty,
          after3,
        )
  ]

  around : (b i : ℕ) → ((b + 1) % p.k + i) % p.k ≡ (b + suc i) % p.k
  around b i = mod-add-mod (b + 1) p.k i ∙ ap (λ z. z % p.k) (omega arith)

  mod_self : (b : ℕ) → b < p.k → b % p.k ≡ b
  mod_self b h = mod-eq_of_lt h

  -- `count` buckets in a row.
  pub permute_buckets-State :
      (fuel count : ℕ) {d : ℕ} (b : ℕ) (s : Sorter A) {moved unread : ℕ → List (List A)}
      → At p d s moved unread []
      → b < p.k
      → d + count * p.B + 2 * p.B ≤ 2 ^ 63
      → left p.k unread < fuel
      → (s' : Sorter A) × (permute_buckets p.B p.classify fuel (p.m * p.B) p.k count b s ≡ some s')
        × (moved' : ℕ → List (List A)) × (unread' : ℕ → List (List A)) × Shrinks unread unread'
        × ((i : ℕ) → i < count → length (unread' ((b + i) % p.k)) ≡ 0)
        × At p (d + count * p.B) s' moved' unread' []
  unfolding permute_buckets
  permute_buckets-State fuel zero {d} b s {moved} {unread} h hb low enough = (
    s,
    refl,
    moved,
    unread,
    λ c. omega arith,
    λ i l. absurd (omega arith),
    subst (λ z. At p z s moved unread []) e h,
  )
    where
      e : d ≡ d + 0 * p.B
      e = omega arith
  permute_buckets-State fuel (suc count) {d} b s {moved} {unread} h hb low enough =
      let (s', run, mv, un, less, empty, after) =
        read_blocks-State fuel s b h hb (omega arith) enough in
      let fewer = left-Shrinks p.k unread un less in
      let (s'', run', mv', un', less', empty', after') =
        permute_buckets-State fuel count ((b + 1) % p.k) s' after (omega (arith, hb))
          (omega (arith, low)) (omega (arith, fewer, enough)) in
      let sums : d + p.B + count * p.B ≡ d + suc count * p.B = omega arith in
      (
        s'',
        bind-some _ run run',
        mv',
        un',
        λ c. omega (arith, less c, less' c),
        λ i l. visited un' i l (omega (arith, empty, less' b)) empty',
        subst (λ z. At p z s'' mv' un' []) sums after',
      )
    where
      visited :
          (un' : ℕ → List (List A)) (i : ℕ)
          → i < suc count
          → length (un' b) ≡ 0
          → ((i : ℕ) → i < count → length (un' (((b + 1) % p.k + i) % p.k)) ≡ 0)
          → length (un' ((b + i) % p.k)) ≡ 0
      visited un' zero l e h =
          let here : (b + 0) % p.k ≡ b = ap (λ z. z % p.k) (omega arith) ∙ mod_self b hb in
          rw here e
      visited un' (suc i) l e h = rw (← around b i) (h i (omega arith))
