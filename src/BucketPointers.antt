-- ===== src/BucketPointers.antt =====
-- include/ips4o/bucket_pointers.hpp: the write and read pointers of a bucket. A `diff_t` is a 64-bit
-- word in two's complement, so a negative read pointer is a word above 2 ^ 63, and each operation of
-- the atomic variant is one step on the 128-bit word that the union `all_` is. `B` is `kBlockSize`, a
-- power of two, so the mask `& ~(kBlockSize - 1)` takes off the remainder.
pub mod Packed
pub mod Slots
use ips4o.Prelude.{
  ℕ, suc, ◌+◌, ◌-◌, ◌*◌, ◌/◌, ◌%◌, ◌^◌, Bool, true, false, not, ◌==◌, if◌then◌else◌,
}

-- `Uint128`, by its member `single_`.
pub record Uint128 : Type 0 where
  pub least : ℕ
  pub most : ℕ

-- The member `all_`.
pub all_bits : Uint128 → ℕ
all_bits p = p.most * 2 ^ 64 + p.least

pub of_bits : ℕ → Uint128
of_bits a = record { least = a % 2 ^ 64; most = a / 2 ^ 64 }

-- `fetchSubMostSignificant<kAtomic>`: the old pair, and the new state.
unfoldable pub fetch_sub_most : Bool → ℕ → Uint128 → Uint128 × Uint128
unfolding all_bits of_bits
fetch_sub_most true m p =
    let atom_m = m * 2 ^ 64 % 2 ^ 128 in
    (of_bits (all_bits p), of_bits ((all_bits p + (2 ^ 128 - atom_m)) % 2 ^ 128))
fetch_sub_most false m p = (p, record p { most = (p.most + (2 ^ 64 - m)) % 2 ^ 64 })

-- `fetchAddLeastSignificant<kAtomic>`.
unfoldable pub fetch_add_least : Bool → ℕ → Uint128 → Uint128 × Uint128
unfolding all_bits of_bits
fetch_add_least true l p = (of_bits (all_bits p), of_bits ((all_bits p + l) % 2 ^ 128))
fetch_add_least false l p = (p, record p { least = (p.least + l) % 2 ^ 64 })

pub record BucketPointers : Type 0 where
  pub ptr : Uint128
  pub num_reading : ℕ

-- `set(w, r)`.
abbrev pub new_pointers : ℕ → ℕ → BucketPointers
new_pointers w r = record { ptr = record { least = w; most = r }; num_reading = 0 }

abbrev pub get_write : BucketPointers → ℕ
get_write bp = bp.ptr.least

module _ (B : ℕ) where
  unfoldable pub inc_write : Bool → BucketPointers → Uint128 × BucketPointers
  unfolding fetch_add_least
  inc_write is_atomic bp =
      let (old, new) = fetch_add_least is_atomic B bp.ptr in (old, record bp { ptr = new })

  unfoldable pub dec_read : Bool → BucketPointers → Uint128 × BucketPointers
  unfolding fetch_sub_most
  dec_read true bp =
      let (old, new) = fetch_sub_most true B bp.ptr in
      (
        record old { most = old.most - old.most % B },
        record { ptr = new; num_reading = suc bp.num_reading },
      )
  dec_read false bp =
      let (old, new) = fetch_sub_most false B bp.ptr in (old, record bp { ptr = new })

abbrev pub stop_read : BucketPointers → BucketPointers
stop_read bp = record bp { num_reading = bp.num_reading - 1 }

abbrev pub is_reading : BucketPointers → Bool
is_reading bp = not (bp.num_reading == 0)
