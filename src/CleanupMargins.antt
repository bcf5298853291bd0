-- ===== src/CleanupMargins.antt =====
-- include/ips4o/cleanup_margins.hpp: the elements that the block permutation has left in buffers, in the
-- overflow buffer or past the end of a bucket go where they belong. Offsets are from `begin_`; a bucket
-- that is -1 is `none`; `buffers` are those of the threads, in their order. `none` stands for undefined
-- behaviour: an access outside of the array, and an `IPS4OML_ASSUME_NOT` whose condition holds.
pub mod Weights
pub mod Buffered
pub mod Heads
pub mod Margin
pub mod Overflowing
pub mod Written
pub mod Loop
pub mod Saved
use ips4o.BaseCase.{base_case_sort}
use ips4o.Config.{Config, block_size, align_to_next_block, single_level_threshold}
use ips4o.BucketPointers.{BucketPointers, get_write}
use ips4o.Prelude.{
  ℕ, zero, suc, ◌+◌, ◌-◌, ◌*◌, ◌^◌, Bool, true, false, not, ◌&&◌, ◌||◌, Option, none, some, List,
  [], ◌∷◌, map, ◌>>=◌, if◌then◌else◌, ltb, leb, ◌==◌, length, take, drop, update, range,
  write_range,
}

unfoldable pub is_bucket : Option ℕ → ℕ → Bool
is_bucket none i = false
is_bucket (some b) i = b == i

-- The part of the sorter that the cleanup works on: `swap` is `local_.swap[0]`, and `overflow` is what
-- `overflow_` points to.
pub record Margins {ℓ} (A : Type ℓ) : Type ℓ where
  pub array : List A
  pub overflow : Option (List A)
  pub swap : List A
  pub buffers : List (ℕ → List A)

-- The local variables `dst` and `remaining`, and the array.
pub record Filling {ℓ} (A : Type ℓ) : Type ℓ where
  pub array : List A
  pub dst : ℕ
  pub remaining : ℕ

-- `std::numeric_limits<diff_t>::max()`.
abbrev pub max_diff : ℕ
max_diff = 2 ^ 63 - 1

module _ {ℓ} {A : Type ℓ} where
  -- `dst = std::move(…, dst)`, of the elements `xs`.
  unfoldable pub move_to : List A → ℕ → List A → Option (List A)
  move_to array dst xs =
      if leb (dst + length xs) (length array) then some (write_range array dst xs) else none

  -- The loop over the threads, for bucket `i`.
  unfoldable pub write_buffers : (i bwrite : ℕ) → List (ℕ → List A) → Filling A → Option (List A)
  unfolding move_to
  write_buffers i bwrite [] f = some f.array
  write_buffers i bwrite (b ∷ buffers) f =
      let src = b i in
      let count = length src in
      if leb count f.remaining
      then move_to f.array f.dst src >>= (λ array.
        write_buffers i bwrite buffers
          (record { array = array; dst = f.dst + count; remaining = f.remaining - count }))
      else move_to f.array f.dst (take f.remaining src) >>= (λ array.
        move_to array bwrite (drop f.remaining src) >>= (λ array'.
          write_buffers i bwrite buffers (record {
            array = array';
            dst = bwrite + (count - f.remaining);
            remaining = max_diff;
          })))

module _ (c : Config) where
  -- `saveMargins`: the loop that looks for the bucket of the last block, from `last_bucket` down.
  unfoldable pub bucket_of_block :
      (bucket_start : ℕ → ℕ) (start_of_last_block last_bucket : ℕ) → Option ℕ
  bucket_of_block bucket_start start_of_last_block zero = none
  bucket_of_block bucket_start start_of_last_block (suc last_bucket) =
      let rest = bucket_of_block bucket_start start_of_last_block last_bucket in
      if ltb start_of_last_block (bucket_start last_bucket) then rest else some last_bucket

  -- `saveMargins`: the bucket, how many elements are saved, and the swap buffer.
  unfoldable pub save_margins {ℓ} :
      {A : Type ℓ} (bucket_start : ℕ → ℕ) (pointers : ℕ → BucketPointers) (array swap : List A)
      (last_bucket : ℕ)
      → Option (Option ℕ × ℕ × List A)
  unfolding bucket_of_block
  save_margins bucket_start pointers array swap last_bucket =
      let tail = bucket_start last_bucket in
      let stop = align_to_next_block c tail in
      if (tail == stop) || ltb (length array) stop
      then some (none, 0, swap)
      else bucket_of_block bucket_start (stop - block_size c) last_bucket >>= (λ last.
        if ltb (get_write (pointers last)) stop
        then some (none, 0, swap)
        else let tail' = bucket_start (suc last) in
          if leb tail' stop && leb stop (length array)
          then some (some last, stop - tail', range array tail' stop)
          else none)

  module _ {ℓ} {A : Type ℓ} (overflow_bucket swap_bucket : Option ℕ) (in_swap_buffer : ℕ) where
    -- `i == overflow_bucket && overflow_`.
    unfoldable pub overflow_of : Margins A → ℕ → Option (List A)
    unfolding is_bucket
    overflow_of s i = if is_bucket overflow_bucket i then s.overflow else none

    -- The three cases before the buffers are written.
    unfoldable pub fill_head : (i bstart bend bwrite : ℕ) → Margins A → Option (Filling A)
    unfolding is_bucket overflow_of move_to
    fill_head i bstart bend bwrite s =
        let B = block_size c in
        let remaining = align_to_next_block c bstart - bstart in
        elim (overflow_of s i) [
          | some src ↦
              -- The second assumption, `(bend - (bwrite - B)) + remaining < B`, without the subtraction.
              if not (align_to_next_block c bend == bwrite) || ltb (bend + remaining) bwrite
              then none
              else move_to s.array bstart (take remaining src) >>= (λ array.
                move_to array (bwrite - B) (drop remaining src) >>= (λ array'. some (record {
                  array = array';
                  dst = bwrite - B + (B - remaining);
                  remaining = max_diff;
                })))
          | none ↦
              if is_bucket swap_bucket i && not (in_swap_buffer == 0)
              then if ltb remaining in_swap_buffer
                then none
                else move_to s.array bstart (take in_swap_buffer s.swap) >>= (λ array.
                  some (record {
                    array = array;
                    dst = bstart + in_swap_buffer;
                    remaining = remaining - in_swap_buffer;
                  }))
              else if ltb bend bwrite && ltb B (bend - bstart)
              then if not (align_to_next_block c bend == bwrite)
                  || ltb remaining (bwrite - bend)
                  || ltb (length s.array) bwrite
                then none
                else move_to s.array bstart (range s.array bend bwrite) >>= (λ array. some (record {
                  array = array;
                  dst = bstart + (bwrite - bend);
                  remaining = remaining - (bwrite - bend);
                }))
              else some (record { array = s.array; dst = bstart; remaining = remaining })
        ]

    module _ (comp : A → A → Bool) (is_parallel : Bool) (bucket_start : ℕ → ℕ)
        (pointers : ℕ → BucketPointers) where
      -- The base case sort at the end of the body of the loop.
      unfoldable pub sort_margin : (bstart bend : ℕ) → List A → Option (List A)
      sort_margin bstart bend array =
          if leb (length array) (single_level_threshold c)
            || (leb (bend - bstart) (2 * c.base_case_size) && not is_parallel)
          then base_case_sort comp (range array bstart bend)
            >>= (λ sorted. some (write_range array bstart sorted))
          else some array

      -- The body of the loop of `writeMargins`.
      unfoldable pub write_margin : ℕ → Margins A → Option (Margins A)
      unfolding fill_head write_buffers sort_margin
      write_margin i s =
          let bstart = bucket_start i in
          let bend = bucket_start (suc i) in
          let bwrite = get_write (pointers i) in
          fill_head i bstart bend bwrite s >>= (λ f.
            write_buffers i bwrite s.buffers f >>= (λ array.
              sort_margin bstart bend array >>= (λ array'.
                some (record s { array = array'; buffers = map (λ b. update b i []) s.buffers }))))

      -- `writeMargins`, for the `n` buckets from `first_bucket` on.
      unfoldable pub write_margins : (n first_bucket : ℕ) → Margins A → Option (Margins A)
      unfolding write_margin
      write_margins zero first_bucket s = some s
      write_margins (suc n) first_bucket s =
          write_margin first_bucket s >>= (λ s'. write_margins n (suc first_bucket) s')
