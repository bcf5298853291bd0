-- ===== src/BlockPermutation/Branches.antt =====
-- The branches of `classifyAndReadBlock` and of a round of `swapBlock`
-- (include/ips4o/block_permutation.hpp), each under its conditions.
use ips4o.Prelude.{
  ℕ, suc, ◌+◌, ◌-◌, ◌%◌, ◌^◌, ◌≡◌, refl, Bool, true, false, not, none, some, List, get_elem?,
  update, ◌==◌,
}
use ips4o.BucketPointers.{BucketPointers, inc_write, dec_read, fetch_add_least, fetch_sub_most}
use ips4o.BlockPermutation.{
  Sorter, signed_lt, read_from, write_to, classify_and_read_block, swap_block, update_swap,
}

module _ {ℓ} {A : Type ℓ} (B : ℕ) (classify : A → ℕ) (s : Sorter A) (b : ℕ) where
  abbrev pub most : ℕ
  most = (s.bucket_pointers b).ptr.most

  abbrev pub least : ℕ
  least = (s.bucket_pointers b).ptr.least

  abbrev pub read_pointers : ℕ → BucketPointers
  read_pointers =
      let bp = s.bucket_pointers b in
      update s.bucket_pointers b
        (record bp { ptr = record bp.ptr { most = (bp.ptr.most + (2 ^ 64 - B)) % 2 ^ 64 } })

  abbrev pub written_pointers : ℕ → BucketPointers
  written_pointers =
      let bp = s.bucket_pointers b in
      update s.bucket_pointers b
        (record bp { ptr = record bp.ptr { least = (bp.ptr.least + B) % 2 ^ 64 } })

  pub classify_and_read_block-miss :
      signed_lt most least ≡ true
      → classify_and_read_block B classify b s
        ≡ some (none, record s { bucket_pointers = read_pointers })
  unfolding classify_and_read_block dec_read fetch_sub_most
  classify_and_read_block-miss e = rw e refl

  pub classify_and_read_block-hit :
      (block : List A) (v : A)
      → signed_lt most least ≡ false
      → read_from B s.array most ≡ some block
      → get_elem? block 0 ≡ some v
      → classify_and_read_block B classify b s
        ≡ some (
          some (classify v),
          record s { bucket_pointers = read_pointers; swap = update_swap s.swap false block },
        )
  unfolding classify_and_read_block dec_read fetch_sub_most
  classify_and_read_block-hit block v e read head = rw (e, read, head) refl

  module _ (fuel max_off : ℕ) (cur : Bool) where
    pub swap_block-overflow :
        signed_lt most least ≡ true
        → signed_lt least max_off ≡ false
        → swap_block B classify (suc fuel) max_off b cur s
          ≡ some
              (none, record s { bucket_pointers = written_pointers; overflow = some (s.swap cur) })
    unfolding swap_block inc_write fetch_add_least
    swap_block-overflow e f = rw (e, f) refl

    pub swap_block-write :
        (array : List A)
        → signed_lt most least ≡ true
        → signed_lt least max_off ≡ true
        → write_to B s.array least (s.swap cur) ≡ some array
        → swap_block B classify (suc fuel) max_off b cur s
          ≡ some (none, record s { bucket_pointers = written_pointers; array = array })
    unfolding swap_block inc_write fetch_add_least
    swap_block-write array e f w = rw (e, f, w) refl

    pub swap_block-skip :
        (v : A)
        → signed_lt most least ≡ false
        → get_elem? s.array least ≡ some v
        → (classify v == b) ≡ true
        → swap_block B classify (suc fuel) max_off b cur s
          ≡ swap_block B classify fuel max_off b cur
              (record s { bucket_pointers = written_pointers })
    unfolding swap_block inc_write fetch_add_least
    swap_block-skip v e g c = rw (e, g, c) refl

    pub swap_block-swap :
        (v : A) (block array : List A)
        → signed_lt most least ≡ false
        → get_elem? s.array least ≡ some v
        → (classify v == b) ≡ false
        → read_from B s.array least ≡ some block
        → write_to B s.array least (s.swap cur) ≡ some array
        → swap_block B classify (suc fuel) max_off b cur s
          ≡ some (
            some (classify v),
            record s {
              bucket_pointers = written_pointers;
              array = array;
              swap = update_swap s.swap (not cur) block;
            },
          )
    unfolding swap_block inc_write fetch_add_least
    swap_block-swap v block array e g c r w = rw (e, g, c, r, w) refl
