-- ===== src/Examples/BucketPointers.antt =====
-- Three blocks of four elements in a bucket that starts at 8, and two threads on them.
use ips4o.Prelude.{◌^◌, ◌≡◌, refl, arith, true, false, List, [], ◌∷◌}
use ips4o.BucketPointers.{BucketPointers, new_pointers, inc_write, dec_read, stop_read, is_reading}
use ips4o.BucketPointers.Packed.{inc_write-dec_read}
use ips4o.BucketPointers.Slots.{
  Op, handed_out, handed_out-slots, upwards, downwards, num_writing, num_reads,
}

abbrev pointers : BucketPointers
pointers = new_pointers 8 16

abbrev ops : List Op
ops = Op.reading ∷ Op.writing ∷ Op.reading ∷ Op.stopping ∷ Op.writing ∷ Op.stopping ∷ []

handed_out_run : handed_out 4 ops pointers ≡ (8 ∷ 12 ∷ [], 16 ∷ 12 ∷ [])
unfolding inc_write dec_read
handed_out_run = refl

handed_out-slots_example :
    handed_out 4 ops pointers ≡ (upwards 4 (num_writing ops) 8, downwards 4 (num_reads ops) 16)
handed_out-slots_example =
    handed_out-slots 4 (2 ^ 62) refl (omega arith) (omega arith) ops 8 16 0 (omega arith)
      (omega arith) (4, refl)

inc_write-dec_read_example :
    (inc_write 4 true pointers ≡ inc_write 4 false pointers)
    × ((dec_read 4 true pointers).0 ≡ (dec_read 4 false pointers).0)
    × (stop_read (dec_read 4 true pointers).1 ≡ (dec_read 4 false pointers).1)
    × (is_reading (dec_read 4 true pointers).1 ≡ true)
inc_write-dec_read_example =
    inc_write-dec_read 4 pointers (omega arith, omega arith) (omega arith) (omega arith) refl
