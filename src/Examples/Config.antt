-- ===== src/Examples/Config.antt =====
-- The default configuration.
use ips4o.Prelude.{true, ℕ, suc, ◌+◌, ◌*◌, ◌/◌, ◌%◌, ◌^◌, ◌≤◌, ◌<◌, ◌≡◌, refl, arith}
use ips4o.Config.{
  max_buckets, default_config, log2, block_size, align_to_next_block, log_buckets_for,
  oversampling_factor, num_threads_for,
}
use ips4o.Config.Log.{log2_bounds}
use ips4o.Config.Sizes.{align_to_next_block_lem, log_buckets_for_bounds}

block_size_run : block_size default_config ≡ 512
unfolding block_size log2
block_size_run = refl

align_run : align_to_next_block default_config 513 ≡ 1024
unfolding align_to_next_block block_size log2
align_run = refl

log_buckets_run : log_buckets_for default_config 1000000 ≡ 8
unfolding log_buckets_for log2
log_buckets_run = refl

oversampling_run : oversampling_factor default_config 1000000 ≡ 3
unfolding oversampling_factor log2
oversampling_run = refl

num_threads_run : num_threads_for default_config 100 8 ≡ 1
unfolding num_threads_for
num_threads_run = refl

log2_bounds_example : (2 ^ log2 1000 ≤ 1000) × (1000 < 2 ^ suc (log2 1000))
log2_bounds_example = log2_bounds 1000 (omega arith) (omega arith)

align_to_next_block_lem_example :
    (align_to_next_block default_config 513 % block_size default_config ≡ 0)
    × (513 ≤ align_to_next_block default_config 513)
    × (align_to_next_block default_config 513 < 513 + block_size default_config)
    × ((k : ℕ)
        → 513 ≤ k * block_size default_config
        → align_to_next_block default_config 513 ≤ k * block_size default_config)
align_to_next_block_lem_example = align_to_next_block_lem default_config 513

log_buckets_for_bounds_example :
    (1 ≤ log_buckets_for default_config 1000)
    × (log_buckets_for default_config 1000 ≤ 8)
    × (default_config.allow_equal_buckets ≡ true
        → 2 ^ log_buckets_for default_config 1000 ≤ max_buckets default_config / 2)
log_buckets_for_bounds_example =
    log_buckets_for_bounds default_config 1000 (omega arith) (omega arith) (omega arith)
      (omega arith)
