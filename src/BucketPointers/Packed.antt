-- ===== src/BucketPointers/Packed.antt =====
-- The two variants of the operations on the pointers of include/ips4o/bucket_pointers.hpp.
use ips4o.Prelude.{
  ℕ, suc, ◌+◌, ◌-◌, ◌%◌, ◌^◌, ◌<◌, ◌≡◌, refl, ap, ◌∙◌, arith, true, false, not, ◌==◌,
}
use ips4o.BucketPointers.{
  Uint128, all_bits, of_bits, fetch_sub_most, fetch_add_least, BucketPointers, inc_write, dec_read,
  stop_read, is_reading,
}

-- Both halves are 64-bit words.
abbrev pub IsPair : Uint128 → Type 0
IsPair p = (p.least < 2 ^ 64) × (p.most < 2 ^ 64)

abbrev pair : ℕ → ℕ → Uint128
pair l m = record { least = l; most = m }

pair_ext : {a b c d : ℕ} → a ≡ c → b ≡ d → pair a b ≡ pair c d
pair_ext e f = rw (e, f) refl

of_bits_lem : (p : Uint128) → IsPair p → of_bits (all_bits p) ≡ p
unfolding of_bits all_bits
of_bits_lem p h = pair_ext (omega arith) (omega arith)

sub_most :
    (p : Uint128) (m : ℕ)
    → IsPair p
    → m < 2 ^ 64
    → fetch_sub_most true m p ≡ fetch_sub_most false m p
unfolding fetch_sub_most of_bits all_bits
sub_most p m h small =
    rw (of_bits_lem p h) (ap (λ q. (p, q)) (pair_ext (omega arith) (omega arith)))

add_least :
    (p : Uint128) (l : ℕ)
    → IsPair p
    → p.least + l < 2 ^ 64
    → fetch_add_least true l p ≡ fetch_add_least false l p
unfolding fetch_add_least of_bits all_bits
add_least p l h small =
    rw (of_bits_lem p h) (ap (λ q. (p, q)) (pair_ext (omega arith) (omega arith)))

abbrev pointers : Uint128 → ℕ → BucketPointers
pointers p n = record { ptr = p; num_reading = n }

reading : (n : ℕ) → not (suc n == 0) ≡ true
reading n = ground arith

pub dec_read-pointers :
    (B : ℕ) (bp : BucketPointers)
    → IsPair bp.ptr
    → B < 2 ^ 64
    → (dec_read B true bp).1 ≡ record (dec_read B false bp).1 { num_reading = suc bp.num_reading }
unfolding dec_read
dec_read-pointers B bp h small =
    ap (λ r. pointers r.1 (suc bp.num_reading)) (sub_most bp.ptr B h small)

pub dec_read-slot :
    (B : ℕ) (bp : BucketPointers)
    → IsPair bp.ptr
    → B < 2 ^ 64
    → bp.ptr.most % B ≡ 0
    → (dec_read B true bp).0 ≡ (dec_read B false bp).0
unfolding dec_read
dec_read-slot B bp h small whole =
    ap (λ r. record r.0 { most = r.0.most - r.0.most % B }) (sub_most bp.ptr B h small)
    ∙ pair_ext refl (omega arith)

-- The parallel and the sequential variant agree, on pointers that are 64-bit words, when the write
-- pointer does not run over and the read pointer is a multiple of the block size: they hand out the
-- same pair and leave the same pointers, but for the counter of readers, which a parallel `decRead`
-- sets to reading and the following `stopRead` puts back.
pub inc_write-dec_read :
    (B : ℕ) (bp : BucketPointers)
    → IsPair bp.ptr
    → B < 2 ^ 64
    → bp.ptr.least + B < 2 ^ 64
    → bp.ptr.most % B ≡ 0
    → (inc_write B true bp ≡ inc_write B false bp)
      × ((dec_read B true bp).0 ≡ (dec_read B false bp).0)
      × (stop_read (dec_read B true bp).1 ≡ (dec_read B false bp).1)
      × (is_reading (dec_read B true bp).1 ≡ true)
unfolding inc_write dec_read
inc_write-dec_read B bp h small over whole =
    let e = sub_most bp.ptr B h small in
    (
      ap (λ r. (r.0, record bp { ptr = r.1 })) (add_least bp.ptr B h over),
      dec_read-slot B bp h small whole,
      ap (λ r. pointers r.1 (suc bp.num_reading - 1)) e
          ∙ ap (λ n. pointers (pair bp.ptr.least ((bp.ptr.most + (2 ^ 64 - B)) % 2 ^ 64)) n)
              (omega arith),
      reading bp.num_reading,
    )
