-- ===== src/CleanupMargins/Heads.antt =====
-- The three cases before the buffers are written in `writeMargins` of
-- include/ips4o/cleanup_margins.hpp, each under its conditions.
use ips4o.Prelude.{
  ℕ, ◌+◌, ◌-◌, ◌≡◌, refl, true, false, not, ◌&&◌, Option, none, some, List, length, take, drop,
  range, ltb, ◌==◌,
}
use ips4o.Config.{Config, block_size, align_to_next_block}
use ips4o.CleanupMargins.{Margins, Filling, move_to, fill_head, overflow_of, is_bucket, max_diff}

module _ {ℓ} {A : Type ℓ} (c : Config) (overflow_bucket swap_bucket : Option ℕ) (in_swap_buffer : ℕ)
    (i bstart bend bwrite : ℕ) (s : Margins A) where
  abbrev remaining : ℕ
  remaining = align_to_next_block c bstart - bstart

  abbrev head_of : Option (Filling A)
  head_of = fill_head c overflow_bucket swap_bucket in_swap_buffer i bstart bend bwrite s

  pub fill_head-overflow :
      (src array array' : List A)
      → overflow_of c overflow_bucket swap_bucket in_swap_buffer s i ≡ some src
      → (align_to_next_block c bend == bwrite) ≡ true
      → ltb (bend + remaining) bwrite ≡ false
      → move_to s.array bstart (take remaining src) ≡ some array
      → move_to array (bwrite - block_size c) (drop remaining src) ≡ some array'
      → head_of
        ≡ some (record {
          array = array';
          dst = bwrite - block_size c + (block_size c - remaining);
          remaining = max_diff;
        })
  unfolding fill_head
  fill_head-overflow src array array' o a e m n = rw (o, a, e, m, n, fill_head) refl

  pub fill_head-excess :
      (array : List A)
      → overflow_of c overflow_bucket swap_bucket in_swap_buffer s i ≡ none
      → (is_bucket swap_bucket i && not (in_swap_buffer == 0)) ≡ false
      → (ltb bend bwrite && ltb (block_size c) (bend - bstart)) ≡ true
      → (align_to_next_block c bend == bwrite) ≡ true
      → ltb remaining (bwrite - bend) ≡ false
      → ltb (length s.array) bwrite ≡ false
      → move_to s.array bstart (range s.array bend bwrite) ≡ some array
      → head_of
        ≡ some (record {
          array = array;
          dst = bstart + (bwrite - bend);
          remaining = remaining - (bwrite - bend);
        })
  unfolding fill_head
  fill_head-excess array o w x a e l m = rw (o, w, x, a, e, l, m, fill_head) refl

  pub fill_head-plain :
      overflow_of c overflow_bucket swap_bucket in_swap_buffer s i ≡ none
      → (is_bucket swap_bucket i && not (in_swap_buffer == 0)) ≡ false
      → (ltb bend bwrite && ltb (block_size c) (bend - bstart)) ≡ false
      → head_of ≡ some (record { array = s.array; dst = bstart; remaining = remaining })
  unfolding fill_head
  fill_head-plain o w x = rw (o, w, x, fill_head) refl
