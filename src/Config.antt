-- ===== src/Config.antt =====
-- include/ips4o/config.hpp: the tuning parameters and what is computed from them, and
-- include/ips4o/utils.hpp: `log2`. Sizes are below 2 ^ 63, so `std::ptrdiff_t` is a number here.
-- `kBlockSize` is a power of two (asserted there), so `& ~(kBlockSize - 1)` takes off the remainder.
-- `oversamplingFactor` is a `double` that its callers truncate: an integer division here, which is
-- the same at the default of 20 percent.
pub mod Log
pub mod Sizes
use ips4o.Prelude.{
  ℕ, zero, suc, ◌+◌, ◌-◌, ◌*◌, ◌/◌, ◌%◌, ◌^◌, min, max, Bool, true, false, if◌then◌else◌, ltb, leb,
  ◌==◌, to_int,
}

-- The number of binary digits of a word of at most `fuel` bits.
bit_length : ℕ → ℕ → ℕ
bit_length zero n = 0
bit_length (suc fuel) n = let rest = suc (bit_length fuel (n / 2)) in if n == 0 then 0 else rest

-- `__builtin_clzl`: the zero bits above the highest set bit of a 64-bit word.
clzl : ℕ → ℕ
unfolding bit_length
clzl n = 64 - bit_length 64 n

unfoldable pub log2 : ℕ → ℕ
unfolding clzl
log2 n = 64 - 1 - clzl n

-- `Config` and `ExtendedConfig`: `value_size` is `sizeof(value_type)`.
pub record Config : Type 0 where
  pub allow_equal_buckets : Bool
  pub base_case_size : ℕ
  pub base_case_multiplier : ℕ
  pub block_size_in_bytes : ℕ
  pub data_alignment : ℕ
  pub equal_buckets_threshold : ℕ
  pub log_buckets : ℕ
  pub min_parallel_blocks_per_thread : ℕ
  pub oversampling_factor_percent : ℕ
  pub unroll_classifier : ℕ
  pub value_size : ℕ

-- `Config<>` for elements of four bytes.
abbrev pub default_config : Config
default_config = record {
  allow_equal_buckets = true;
  base_case_size = 16;
  base_case_multiplier = 16;
  block_size_in_bytes = 2 * 2 ^ 10;
  data_alignment = 4 * 2 ^ 10;
  equal_buckets_threshold = 5;
  log_buckets = 8;
  min_parallel_blocks_per_thread = 4;
  oversampling_factor_percent = 20;
  unroll_classifier = 7;
  value_size = 4;
}

module _ (c : Config) where
  abbrev pub single_level_threshold : ℕ
  single_level_threshold = c.base_case_size * 2 ^ c.log_buckets

  abbrev pub two_level_threshold : ℕ
  two_level_threshold = single_level_threshold * 2 ^ c.log_buckets

  abbrev pub max_buckets : ℕ
  max_buckets = 2 ^ (c.log_buckets + to_int c.allow_equal_buckets)

  unfoldable pub block_size : ℕ
  block_size =
      2
      ^ log2 (
          if ltb c.block_size_in_bytes c.value_size
          then 1
          else c.block_size_in_bytes / c.value_size)

  -- Truncated, as at its uses.
  unfoldable pub oversampling_factor : ℕ → ℕ
  oversampling_factor n =
      let f = c.oversampling_factor_percent * log2 n in if ltb f 100 then 1 else f / 100

  -- `logBuckets`.
  unfoldable pub log_buckets_for : ℕ → ℕ
  log_buckets_for n =
      if leb n single_level_threshold
      then max 1 (log2 (n / c.base_case_size))
      else if leb n two_level_threshold
      then max 1 ((log2 (n / c.base_case_size) + 1) / 2)
      else c.log_buckets

  -- `numThreadsFor`, in the `_REENTRANT` build; `n` is `end - begin`.
  unfoldable pub num_threads_for : ℕ → ℕ → ℕ
  num_threads_for n max_threads =
      let blocks = n * c.value_size / c.block_size_in_bytes in
      if ltb blocks (c.min_parallel_blocks_per_thread * max_threads) then 1 else max_threads

  unfoldable pub align_to_next_block : ℕ → ℕ
  align_to_next_block p = (p + block_size - 1) / block_size * block_size
