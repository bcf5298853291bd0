-- ===== src/CleanupMargins/Overflowing.antt =====
-- The bucket of `writeMargins` of include/ips4o/cleanup_margins.hpp whose last block is in the overflow
-- buffer.
use native.Mathlib.Nat.{div-add-mod, mod-lt}
use ips4o.Prelude.{
  ℕ, suc, ◌+◌, ◌-◌, ◌*◌, ◌/◌, ◌≤◌, ◌<◌, ◌≡◌, inl, inr, sym, ap, ◌∙◌, arith, Option, none, some,
  List, [], ◌∷◌, ◌++◌, length, get_elem?, take, drop, range, write_range, length-append,
  length-take, length-drop, length-write_range, range-write_range, range-write_range_out, le→ltb,
  total, total-append,
}
use ips4o.Config.{Config, block_size, align_to_next_block}
use ips4o.Config.Sizes.{block_size-pos}
use ips4o.BlockPermutation.Layout.{slot_of}
use ips4o.CleanupMargins.{Margins, overflow_of, max_diff}
use ips4o.CleanupMargins.Buffered.{held, move_to-some, write_buffers-one}
use ips4o.CleanupMargins.Heads.{fill_head-overflow}
use ips4o.CleanupMargins.Weights.{weight, weight-add, weight-slots, total-take-drop}
use ips4o.CleanupMargins.Margin.{Ready, Filled, head_at, apart, align-end, ==-of}

module _ {ℓ} {A : Type ℓ} (c : Config) (overflow_bucket : Option ℕ) (i bstart bend : ℕ)
    (s : Margins A) (init : List (List A)) (src : List A) (bwrite : ℕ)
    (h : Ready c overflow_bucket i bstart bend s (init ++ src ∷ []) bwrite)
    (overflows : overflow_of c overflow_bucket none 0 s i ≡ some src)
    (full : length src ≡ block_size c)
    (last : slot_of c bstart + length init ≡ length s.array / block_size c)
    (here : (j : ℕ) (y : List A)
      → get_elem? init j ≡ some y
      → range s.array
          ((slot_of c bstart + j) * block_size c)
          ((slot_of c bstart + j) * block_size c + block_size c)
        ≡ y) where
  pub Filled-overflow :
      (array : List A) × Filled c overflow_bucket i bstart bend s (init ++ src ∷ []) bwrite array
  Filled-overflow =
      let B = block_size c in
      let (up, near, at, _) =
        head_at c overflow_bucket i bstart bend s (init ++ src ∷ []) bwrite h in
      let R = align_to_next_block c bstart - bstart in
      let n = length (held i s.buffers) in
      let f = slot_of c bstart * B in
      let slot = (slot_of c bstart + length init) * B in
      let len = length-append init (src ∷ []) in
      let blocks : length (init ++ src ∷ []) * B ≡ length init * B + B =
        ap (λ z. z * B) len ∙ omega arith in
      let write : bwrite ≡ slot + B =
        h.write ∙ ap (λ z. (slot_of c bstart + z) * B) len ∙ omega arith in
      let slot_at : slot ≡ f + length init * B = omega arith in
      let m_at : slot ≡ length s.array / B * B = ap (λ z. z * B) last in
      let array_ends : length s.array < slot + B =
        omega (
          arith,
          m_at,
          div-add-mod (length s.array) B,
          mod-lt (length s.array) (block_size-pos c),
        ) in
      let before : bwrite - B ≡ slot = omega (arith, write) in
      let bend_is : bend ≡ slot + (B - R) + n =
        omega (arith, h.count, blocks, slot_at, at, up, near) in
      let head = take R src in
      let tail = drop R src in
      let nh : length head ≡ R = omega (arith, length-take R src, full, at, up, near) in
      let nt : length tail ≡ B - R = omega (arith, length-drop R src, full) in
      let e1 : bstart + R ≡ f = omega (arith, at, up) in
      let array1 = write_range s.array bstart head in
      let fit1 : bstart + length head ≤ length s.array =
        omega (arith, nh, e1, slot_at, bend_is, h.inside) in
      let size1 = length-write_range s.array head bstart fit1 in
      let array2 = write_range array1 (bwrite - B) tail in
      let fit2 : bwrite - B + length tail ≤ length array1 =
        omega (arith, before, nt, bend_is, h.inside, size1) in
      let size2 = length-write_range array1 tail (bwrite - B) fit2 in
      let (array, run, size, there, same) =
        write_buffers-one i bwrite s.buffers array2 (bwrite - B + (B - R)) max_diff
          (omega (arith, bend_is, h.inside, h.bounded))
          (omega (arith, before, bend_is, h.inside, size1, size2)) in
      let stop : bwrite - B + (B - R) + n ≡ bend = omega (arith, before, bend_is) in
      let end_slot : (suc (slot_of c bstart + length init)) * B ≡ bwrite = omega (arith, write) in
      let aligned : align_to_next_block c bend ≡ bwrite =
        align-end c bend (suc (slot_of c bstart + length init))
          (omega (arith, end_slot, write, h.inside, array_ends))
          (omega (arith, end_slot, write, bend_is, at, up, near))
        ∙ end_slot in
      (
        array,
        record {
          filling = record { array = array2; dst = bwrite - B + (B - R); remaining = max_diff };
          head =
              fill_head-overflow c overflow_bucket none 0 i bstart bend bwrite s src array1 array2
                overflows (==-of (align_to_next_block c bend) bwrite aligned)
                (le→ltb (bend + R) bwrite (omega (arith, write, bend_is, at, up, near)))
                (move_to-some s.array bstart head fit1)
                (move_to-some array1 (bwrite - B) tail fit2);
          rest = run;
          size = size ∙ size2 ∙ size1;
          weights = λ w. omega (
            arith,
            weight-add w array bstart f bend (omega (arith, e1)) (omega (arith, bend_is, slot_at)),
            weight-add w array f slot bend (omega (arith, slot_at)) (omega (arith, bend_is)),
            weight-add w array slot (bwrite - B + (B - R)) bend (omega (arith, before))
                (omega (arith, before, bend_is)),
            ap (weight w array (bwrite - B + (B - R))) stop,
            ap (total w) there,
            total-append (total w) init (src ∷ []),
            weight-slots w B (slot_of c bstart) s.array init here,
            total-take-drop w R src,
            ap (total w) (same bstart f (omega (arith, e1)) (inl (omega (arith, before, slot_at)))),
            ap (total w) (
                range-write_range_out array1 tail (bwrite - B) bstart f fit2 (omega (arith, e1))
                  (inl (omega (arith, before, slot_at)))),
            ap (weight w array1 bstart) (sym e1),
            ap (λ z. weight w array1 bstart (bstart + z)) nh,
            ap (total w) (range-write_range s.array head bstart (omega (arith, h.order, h.inside))),
            ap (total w) (same f slot (omega (arith, slot_at)) (inl (omega (arith, before)))),
            ap (total w) (
                range-write_range_out array1 tail (bwrite - B) f slot fit2 (omega (arith, slot_at))
                  (inl (omega (arith, before)))),
            ap (total w) (
                range-write_range_out s.array head bstart f slot fit1 (omega (arith, slot_at))
                  (inr (omega (arith, nh, e1)))),
            ap (total w)
                (same slot (bwrite - B + (B - R)) (omega (arith, before)) (inl (omega arith))),
            ap (λ z. weight w array2 z (bwrite - B + (B - R))) before,
            ap (λ z. weight w array2 (bwrite - B) (bwrite - B + z)) nt,
            ap (total w) (range-write_range array1 tail (bwrite - B) (omega (arith, fit2))),
          );
          within = λ x y l out.
              same x y l (
                apart x y bstart bend (bwrite - B + (B - R)) (bwrite - B + (B - R) + n) out
                  (omega (arith, before, slot_at, e1)) (omega (arith, stop)))
              ∙ range-write_range_out array1 tail (bwrite - B) x y fit2 l (
                  apart x y bstart bend (bwrite - B) (bwrite - B + length tail) out
                    (omega (arith, before, slot_at, e1)) (omega (arith, nt, stop)))
              ∙ range-write_range_out s.array head bstart x y fit1 l (
                  apart x y bstart bend bstart (bstart + length head) out (omega arith)
                    (omega (arith, nh, e1, slot_at, bend_is)));
        },
      )
