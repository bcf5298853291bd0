-- ===== src/CleanupMargins/Margin.antt =====
-- One bucket of `writeMargins` of include/ips4o/cleanup_margins.hpp, up to the base case sort.
use native.Mathlib.Nat.{mul-le-mul_right}
use ips4o.Prelude.{
  ℕ, suc, ◌+◌, ◌-◌, ◌*◌, ◌/◌, ◌≤◌, ◌<◌, ◌≡◌, ◌⊎◌, inl, inr, refl, sym, ap, ◌∙◌, arith, true, false,
  ◌&&◌, not, Option, none, some, List, [], ◌∷◌, length, get_elem?, range, write_range,
  length-write_range, length-range, range-write_range, range-write_range_out, ltb, lt→ltb, le→ltb,
  dec_lt, ◌==◌, All, total, total-append,
}
use ips4o.Config.{Config, block_size, align_to_next_block}
use ips4o.BlockPermutation.Slots.{Slot}
use ips4o.BlockPermutation.Layout.{slot_of, slot_of-align, slot_of-ge, slot_of-lt, slot_of-least}
use ips4o.CleanupMargins.{
  Margins, Filling, write_buffers, fill_head, overflow_of, is_bucket, max_diff,
}
use ips4o.CleanupMargins.Buffered.{held, Within, move_to-some, write_buffers-one, write_buffers-two}
use ips4o.CleanupMargins.Heads.{fill_head-excess, fill_head-plain}
use ips4o.CleanupMargins.Weights.{weight, weight-add, weight-slots}

pub ==-of : (a b : ℕ) → a ≡ b → (a == b) ≡ true
==-of a b e = ground arith

pub apart : (x y a b a' b' : ℕ) → (y ≤ a) ⊎ (b ≤ x) → a ≤ a' → b' ≤ b → (y ≤ a') ⊎ (b' ≤ x)
apart x y a b a' b' (inl le) h k = inl (omega arith)
apart x y a b a' b' (inr le) h k = inr (omega arith)

-- An offset that is aligned to the end of a block.
pub align-end :
    (c : Config) (p k : ℕ)
    → p ≤ k * block_size c
    → k * block_size c < p + block_size c
    → align_to_next_block c p ≡ k * block_size c
align-end c p k h l =
    let s = slot_of c p in
    let le = slot_of-least c p k h in
    elim (dec_lt s k) [
      | yes lt ↦
          let short : suc s * block_size c ≤ k * block_size c =
            mul-le-mul_right (block_size c) lt in
          absurd (omega (arith, short, slot_of-ge c p, l))
      | no ge ↦ let e : s ≡ k = omega arith in slot_of-align c p ∙ ap (λ z. z * block_size c) e
    ]

module _ {ℓ} {A : Type ℓ} (c : Config) (overflow_bucket : Option ℕ) (i bstart bend : ℕ) where
  -- A bucket before its turn: its blocks from its first slot on, the last of which may be in the overflow
  -- buffer, and its other elements in the buffers.
  pub record Ready (s : Margins A) (blocks : List (List A)) (bwrite : ℕ) : Type ℓ where
    pub order : bstart ≤ bend
    pub inside : bend ≤ length s.array
    pub bounded : length s.array ≤ max_diff
    pub write : bwrite ≡ (slot_of c bstart + length blocks) * block_size c
    pub slots :
        (j : ℕ) (y : List A)
        → get_elem? blocks j ≡ some y
        → Slot
            (block_size c)
            (length s.array / block_size c)
            s.array
            s.overflow
            (slot_of c bstart + j)
            y
    pub lengths : All (λ y. length y ≡ block_size c) blocks
    pub count : bend ≡ bstart + length blocks * block_size c + length (held i s.buffers)
    pub lazy : 1 ≤ length blocks → 1 ≤ length (held i s.buffers)

  -- What the head and the buffers make of it.
  pub record Filled (s : Margins A) (blocks : List (List A)) (bwrite : ℕ) (array : List A)
      : Type ℓ where
    pub filling : Filling A
    pub head : fill_head c overflow_bucket none 0 i bstart bend bwrite s ≡ some filling
    pub rest : write_buffers i bwrite s.buffers filling ≡ some array
    pub size : length array ≡ length s.array
    pub weights :
        (w : A → ℕ)
        → weight w array bstart bend ≡ total (total w) blocks + total w (held i s.buffers)
    pub within : Within bstart bend s.array array

  module _ (s : Margins A) (blocks : List (List A)) (bwrite : ℕ) (h : Ready s blocks bwrite) where
    -- The first slot, and the place before it.
    from : ℕ
    from = slot_of c bstart * block_size c

    pub head_at :
        (bstart ≤ slot_of c bstart * block_size c)
        × (slot_of c bstart * block_size c < bstart + block_size c)
        × (align_to_next_block c bstart ≡ slot_of c bstart * block_size c)
        × (bwrite ≡ slot_of c bstart * block_size c + length blocks * block_size c)
    head_at =
        (slot_of-ge c bstart, slot_of-lt c bstart, slot_of-align c bstart, omega (arith, h.write))

    module _ (free : overflow_of c overflow_bucket none 0 s i ≡ none)
        (here : (j : ℕ) (y : List A)
          → get_elem? blocks j ≡ some y
          → range s.array
              ((slot_of c bstart + j) * block_size c)
              ((slot_of c bstart + j) * block_size c + block_size c)
            ≡ y) where
      not_swap : (is_bucket none i && not (0 == 0)) ≡ false
      unfolding is_bucket
      not_swap = refl

      blocks_weigh :
          (w : A → ℕ)
          → weight w s.array (slot_of c bstart * block_size c) bwrite ≡ total (total w) blocks
      blocks_weigh w =
          ap (weight w s.array (slot_of c bstart * block_size c)) h.write
          ∙ weight-slots w (block_size c) (slot_of c bstart) s.array blocks here

      -- The blocks end inside the bucket.
      pub Filled-tail : bwrite ≤ bend → (array : List A) × Filled s blocks bwrite array
      Filled-tail le =
          let (up, near, at, w_at) = head_at in
          let R = align_to_next_block c bstart - bstart in
          let n = length (held i s.buffers) in
          let (array, run, size, there, same) =
            write_buffers-two i bwrite s.buffers s.array bstart R (omega (arith, h.count))
              (omega (arith, h.bounded, h.count, h.inside)) (omega arith)
              (omega (arith, h.count, h.inside)) in
          let e1 : bstart + R ≡ slot_of c bstart * block_size c = omega (arith, at, up) in
          let e2 : bwrite + (n - R) ≡ bend = omega (arith, h.count) in
          (
            array,
            record {
              filling = record { array = s.array; dst = bstart; remaining = R };
              head =
                  fill_head-plain c overflow_bucket none 0 i bstart bend bwrite s free not_swap
                    (ap (λ z. z && ltb (block_size c) (bend - bstart)) (le→ltb bend bwrite le));
              rest = run;
              size = size;
              weights = λ w. omega (
                arith,
                weight-add w array bstart (slot_of c bstart * block_size c) bend up (omega arith),
                weight-add w array (slot_of c bstart * block_size c) bwrite bend (omega arith) le,
                blocks_weigh w,
                ap (total w) (
                    same (slot_of c bstart * block_size c) bwrite (omega arith)
                      (inr (omega (arith, e1))) (inl (omega arith))),
                total-append w (range array bstart (bstart + R))
                    (range array bwrite (bwrite + (n - R))),
                ap (total w) there,
                ap (weight w array bstart) e1,
                ap (weight w array bwrite) e2,
              );
              within = λ x y l out.
                  same x y l
                    (apart x y bstart bend bstart (bstart + R) out (omega arith) (omega arith))
                    (apart x y bstart bend bwrite (bwrite + (n - R)) out (omega arith)
                      (omega arith));
            },
          )

      -- No block is in its place, and the bucket ends before its first slot.
      pub Filled-small :
          length blocks ≡ 0 → bend < bwrite → (array : List A) × Filled s blocks bwrite array
      Filled-small empty lt =
          let (up, near, at, w_at) = head_at in
          let none_there : length blocks * block_size c ≡ 0 =
            ap (λ z. z * block_size c) empty ∙ omega arith in
          let R = align_to_next_block c bstart - bstart in
          let n = length (held i s.buffers) in
          let stop : bstart + n ≡ bend = omega (arith, h.count, none_there) in
          let (array, run, size, there, same) =
            write_buffers-one i bwrite s.buffers s.array bstart R
              (omega (arith, stop, w_at, none_there, at)) (omega (arith, stop, h.inside)) in
          let small : ltb (block_size c) (bend - bstart) ≡ false =
            le→ltb (block_size c) (bend - bstart) (omega (arith, w_at, none_there)) in
          (
            array,
            record {
              filling = record { array = s.array; dst = bstart; remaining = R };
              head = fill_head-plain c overflow_bucket none 0 i bstart bend bwrite s free not_swap (
                  ap (λ z. z && ltb (block_size c) (bend - bstart)) (lt→ltb bend bwrite lt)
                  ∙ small);
              rest = run;
              size = size;
              weights = λ w. omega (
                arith,
                no_blocks blocks w empty,
                ap (weight w array bstart) stop,
                ap (total w) there,
              );
              within = λ x y l out. same x y l (
                  apart x y bstart bend bstart (bstart + n) out (omega arith)
                    (omega (arith, stop)));
            },
          )
        where
          no_blocks :
              (blocks : List (List A)) (w : A → ℕ) → length blocks ≡ 0 → total (total w) blocks ≡ 0
          no_blocks [] w e = refl
          no_blocks (y ∷ blocks) w e = absurd (omega arith)

      -- The last block reaches beyond the end of the bucket.
      pub Filled-excess :
          1 ≤ length blocks
          → bwrite ≤ length s.array
          → bend < bwrite
          → (array : List A) × Filled s blocks bwrite array
      Filled-excess some_blocks fits lt =
          let (up, near, at, w_at) = head_at in
          let R = align_to_next_block c bstart - bstart in
          let n = length (held i s.buffers) in
          let lazy = h.lazy some_blocks in
          let one_block : 1 * block_size c ≤ length blocks * block_size c =
            mul-le-mul_right (block_size c) some_blocks in
          let excess = range s.array bend bwrite in
          let len : length excess ≡ bwrite - bend = length-range s.array bend bwrite fits in
          let rest : bwrite - bend + n ≡ R = omega (arith, h.count, w_at, at) in
          let array1 = write_range s.array bstart excess in
          let size1 =
            length-write_range s.array excess bstart
              (omega (arith, len, h.inside, rest, h.count, one_block)) in
          let (array, run, size, there, same) =
            write_buffers-one i bwrite s.buffers array1 (bstart + (bwrite - bend))
              (R - (bwrite - bend)) (omega (arith, rest))
              (omega (arith, rest, size1, h.inside, h.count, one_block)) in
          let e1 : bstart + (bwrite - bend) + n ≡ slot_of c bstart * block_size c =
            omega (arith, rest, at, up) in
          let end_slot : bwrite ≡ (slot_of c bstart + length blocks) * block_size c = h.write in
          let aligned : align_to_next_block c bend ≡ bwrite =
            align-end c bend (slot_of c bstart + length blocks) (omega (arith, end_slot))
              (omega (arith, end_slot, rest))
            ∙ sym end_slot in
          (
            array,
            record {
              filling = record {
                array = array1;
                dst = bstart + (bwrite - bend);
                remaining = R - (bwrite - bend);
              };
              head =
                  fill_head-excess c overflow_bucket none 0 i bstart bend bwrite s array1 free
                    not_swap
                    (ap (λ z. z && ltb (block_size c) (bend - bstart)) (lt→ltb bend bwrite lt)
                      ∙ lt→ltb (block_size c) (bend - bstart)
                          (omega (arith, h.count, one_block, lazy)))
                    (==-of (align_to_next_block c bend) bwrite aligned)
                    (le→ltb R (bwrite - bend) (omega (arith, rest)))
                    (le→ltb (length s.array) bwrite fits)
                    (move_to-some s.array bstart excess
                      (omega (arith, len, h.inside, rest, h.count, one_block)));
              rest = run;
              size = size ∙ size1;
              weights = λ w. omega (
                arith,
                weight-add w array bstart (bstart + (bwrite - bend)) bend (omega arith)
                    (omega (arith, e1, rest, h.count, one_block)),
                weight-add w array (bstart + (bwrite - bend)) (slot_of c bstart * block_size c) bend
                    (omega (arith, e1)) (omega (arith, h.count, one_block)),
                ap (weight w array (bstart + (bwrite - bend))) e1,
                ap (total w) there,
                blocks_weigh w,
                weight-add w s.array (slot_of c bstart * block_size c) bend bwrite
                    (omega (arith, h.count, one_block)) (omega arith),
                ap (total w) (
                    same (slot_of c bstart * block_size c) bend (omega (arith, h.count, one_block))
                      (inr (omega (arith, e1)))),
                ap (total w) (
                    range-write_range_out s.array excess bstart (slot_of c bstart * block_size c)
                      bend (omega (arith, len, h.inside, rest, h.count, one_block))
                      (omega (arith, h.count, one_block)) (inr (omega (arith, len, e1)))),
                ap (total w)
                    (same bstart (bstart + (bwrite - bend)) (omega arith) (inl (omega arith))),
                ap (λ z. weight w array1 bstart (bstart + z)) len,
                ap (total w)
                    (range-write_range s.array excess bstart (omega (arith, h.order, h.inside))),
              );
              within = λ x y l out.
                  same x y l (
                    apart x y bstart bend (bstart + (bwrite - bend)) (bstart + (bwrite - bend) + n)
                      out (omega arith) (omega (arith, e1, h.count, one_block)))
                  ∙ range-write_range_out s.array excess bstart x y
                      (omega (arith, len, h.inside, rest, h.count, one_block)) l
                      (apart x y bstart bend bstart (bstart + length excess) out (omega arith)
                        (omega (arith, len, e1, h.count, one_block)));
            },
          )
