-- ===== src/Examples/CleanupMargins.antt =====
-- The margin of a boundary inside a block: blocks of two, and two buckets that meet at 3.
use ips4o.Prelude.{arith, ℕ, ◌*◌, ◌≡◌, refl, Option, some, List, [], ◌∷◌}
use ips4o.Config.{block_size, log2, align_to_next_block}
use ips4o.BucketPointers.{BucketPointers, new_pointers}
use ips4o.CleanupMargins.{save_margins}
use ips4o.CleanupMargins.Saved.{Saved, save_margins_lem}
use ips4o.Examples.BlockPermutation.{small_blocks}

abbrev thirds : ℕ → ℕ
thirds b = 3 * b

abbrev past_block : ℕ → BucketPointers
past_block b = new_pointers 4 0

abbrev permuted : List ℕ
permuted = 1 ∷ 2 ∷ 3 ∷ 4 ∷ 9 ∷ 8 ∷ []

save_margins_lem_example :
    (r : Option ℕ × ℕ × List ℕ) × (save_margins small_blocks thirds past_block permuted [] 1
      ≡ some r)
    × Saved small_blocks thirds past_block permuted [] 1 r
save_margins_lem_example =
    save_margins_lem small_blocks thirds past_block permuted [] 1 refl (λ d h. omega arith)

save_margins_run :
    save_margins small_blocks thirds past_block permuted [] 1 ≡ some (some 0, 1, 4 ∷ [])
unfolding save_margins align_to_next_block block_size log2
save_margins_run = refl
