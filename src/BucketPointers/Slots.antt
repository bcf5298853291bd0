-- ===== src/BucketPointers/Slots.antt =====
-- Sequences of `incWrite`, `decRead` and `stopRead` of include/ips4o/bucket_pointers.hpp by
-- several threads.
use native.Mathlib.Nat.{mul-mod_left}
use ips4o.Prelude.{
  ℕ, zero, suc, ◌+◌, ◌-◌, ◌*◌, ◌%◌, ◌^◌, ◌≤◌, ◌<◌, ◌≡◌, refl, ap, ◌∙◌, arith, true, ◌⊎◌, inl, inr,
  List, [], ◌∷◌,
}
use ips4o.BucketPointers.{BucketPointers, inc_write, dec_read, stop_read}
use ips4o.BucketPointers.Packed.{inc_write-dec_read, dec_read-pointers, dec_read-slot}

abbrev pub pointers : ℕ → ℕ → ℕ → BucketPointers
pointers w r n = record { ptr = record { least = w; most = r }; num_reading = n }

below : (a : ℕ) → a < 2 ^ 64 → a % 2 ^ 64 ≡ a
below a h = omega arith

-- The steps on one bucket's pointers.
pub data Op : Type 0 where
  writing reading stopping : Op

abbrev pub num_writing : List Op → ℕ
num_writing [] = 0
num_writing (Op.writing ∷ ops) = suc (num_writing ops)
num_writing (Op.reading ∷ ops) = num_writing ops
num_writing (Op.stopping ∷ ops) = num_writing ops

abbrev pub num_reads : List Op → ℕ
num_reads [] = 0
num_reads (Op.writing ∷ ops) = num_reads ops
num_reads (Op.reading ∷ ops) = suc (num_reads ops)
num_reads (Op.stopping ∷ ops) = num_reads ops

module _ (B : ℕ) where
  -- The write slots and the read slots handed out by a sequence of steps.
  abbrev pub handed_out : List Op → BucketPointers → List ℕ × List ℕ
  handed_out [] bp = ([], [])
  handed_out (Op.writing ∷ ops) bp =
      let (old, bp') = inc_write B true bp in
      let (ws, rs) = handed_out ops bp' in (old.least ∷ ws, rs)
  handed_out (Op.reading ∷ ops) bp =
      let (old, bp') = dec_read B true bp in
      let (ws, rs) = handed_out ops bp' in (ws, old.most ∷ rs)
  handed_out (Op.stopping ∷ ops) bp = handed_out ops (stop_read bp)

  -- n slots upwards from w.
  abbrev pub upwards : ℕ → ℕ → List ℕ
  upwards zero w = []
  upwards (suc n) w = w ∷ upwards n (w + B)

  -- n slots downwards from r, in 64-bit words.
  abbrev pub downwards : ℕ → ℕ → List ℕ
  downwards zero r = []
  downwards (suc n) r = r ∷ downwards n ((r + (2 ^ 64 - B)) % 2 ^ 64)

  module _ (K : ℕ) (whole : 2 ^ 64 ≡ K * B) (few : 1 ≤ B) (small : B < 2 ^ 64) where
    product : (k : ℕ) → (k * B ≡ 0) ⊎ ((j : ℕ) × (k ≡ suc j) × (k * B ≡ j * B + B))
    product zero = inl (omega arith)
    product (suc k) = inr (k, refl, omega arith)

    down-multiple :
        (r : ℕ)
        → (k : ℕ) × (r ≡ k * B)
        → r < 2 ^ 64
        → (k : ℕ) × ((r + (2 ^ 64 - B)) % 2 ^ 64 ≡ k * B)
    down-multiple r (zero, e) h = elim (product K) [
      | inl z ↦ absurd (omega (arith, z))
      | inr (j, f, q) ↦ (j, omega (arith, f, q, e))
    ]
    down-multiple r (suc k, e) h = (k, omega arith)

    rest-zero : (r : ℕ) → (k : ℕ) × (r ≡ k * B) → r % B ≡ 0
    rest-zero r (k, e) = rw e (mul-mod_left k B)

    -- Blocks of B elements, where B divides 2 ^ 64; a read pointer that is a multiple of B; a write
    -- pointer that stays below 2 ^ 64. Whatever the order in which the threads' steps on a bucket happen,
    -- `incWrite` hands out the slots upwards from the write pointer and `decRead` those downwards from
    -- the read pointer, one block after the other, each once.
    pub handed_out-slots :
        (ops : List Op) (w r n : ℕ)
        → w + num_writing ops * B < 2 ^ 64
        → r < 2 ^ 64
        → (k : ℕ) × (r ≡ k * B)
        → handed_out ops (pointers w r n)
          ≡ (upwards (num_writing ops) w, downwards (num_reads ops) r)
    unfolding inc_write dec_read
    handed_out-slots [] w r n h hr m = refl
    handed_out-slots (Op.writing ∷ ops) w r n h hr m =
        let bp = pointers w r n in
        let (agree, _, _, _) =
          inc_write-dec_read B bp (omega arith, hr) small (omega arith) (rest-zero r m) in
        ap (λ z. (z.0.least ∷ (handed_out ops z.1).0, (handed_out ops z.1).1)) agree
        ∙ ap (λ z. (w ∷ (handed_out ops (pointers z r n)).0, (handed_out ops (pointers z r n)).1))
            (below (w + B) (omega arith))
        ∙ ap (λ z. (w ∷ z.0, z.1)) (handed_out-slots ops (w + B) r n (omega arith) hr m)
    handed_out-slots (Op.reading ∷ ops) w r n h hr m =
        let bp = pointers w r n in
        let value = dec_read-slot B bp (omega arith, hr) small (rest-zero r m) in
        ap
          (λ z. (
            (handed_out ops (dec_read B true bp).1).0,
            z.most ∷ (handed_out ops (dec_read B true bp).1).1,
          ))
          value
        ∙ ap (λ z. ((handed_out ops z).0, r ∷ (handed_out ops z).1))
            (dec_read-pointers B bp (omega arith, hr) small)
        ∙ ap (λ z. (z.0, r ∷ z.1))
            (handed_out-slots ops w ((r + (2 ^ 64 - B)) % 2 ^ 64) (suc n) h (omega arith)
              (down-multiple r m hr))
    handed_out-slots (Op.stopping ∷ ops) w r n h hr m = handed_out-slots ops w r (n - 1) h hr m
