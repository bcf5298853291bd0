-- ===== src/Sequential.antt =====
-- include/ips4o/sequential.hpp: the buckets into which the sequential sorter recurs after a partition,
-- and the tasks that it queues for them when several threads share the work. `n` is the size of the
-- range, and tasks are those of include/ips4o/task.hpp.
pub mod Order
use ips4o.Prelude.{
  ℕ, zero, suc, ◌+◌, ◌-◌, ◌*◌, Bool, List, [], ◌∷◌, ◌++◌, if◌then◌else◌, ltb, leb, to_int,
}
use ips4o.Config.{Config, single_level_threshold}
use ips4o.Scheduler.{PrivateQueue, push_range}

-- `end` is spelled `stop`.
pub record Task : Type 0 where
  pub begin : ℕ
  pub stop : ℕ

module _ (c : Config) (bucket_start : ℕ → ℕ) where
  -- The body of each loop: a task for a bucket that is larger than the base case.
  unfoldable pub task_of : (offset i : ℕ) → List Task
  task_of offset i =
      let start = bucket_start i in
      let stop = bucket_start (suc i) in
      if ltb (2 * c.base_case_size) (stop - start)
      then record { begin = offset + start; stop = offset + stop } ∷ []
      else []

  -- `for (int i = …; i < num_buckets; i += stride)`.
  unfoldable pub upwards : (fuel i stride num_buckets : ℕ) → List Task
  unfolding task_of
  upwards zero i stride num_buckets = []
  upwards (suc fuel) i stride num_buckets =
      let rest = upwards fuel (i + stride) stride num_buckets in
      if ltb i num_buckets then task_of 0 i ++ rest else []

  -- `for (int i = …; i >= 0; i -= stride)`.
  pub downwards : (fuel offset i stride : ℕ) → List Task
  unfolding task_of
  downwards zero offset i stride = []
  downwards (suc fuel) offset i stride =
      let rest = downwards fuel offset (i - stride) stride in
      task_of offset i ++ (if leb stride i then rest else [])

  -- The ranges into which `sequential_rec` recurs, in order.
  unfoldable pub recursion_ranges : (n num_buckets : ℕ) (equal_buckets : Bool) → List Task
  unfolding upwards task_of
  recursion_ranges n num_buckets equal_buckets =
      if leb n (single_level_threshold c)
      then []
      else upwards num_buckets 0 (1 + to_int equal_buckets) num_buckets
        ++ (if equal_buckets then task_of 0 (num_buckets - 1) else [])

  -- What `sequential(begin, task, queue)` puts into the queue after the partition of the task.
  unfoldable pub queued_tasks : Task → (num_buckets : ℕ) (equal_buckets : Bool) → List Task
  unfolding downwards task_of
  queued_tasks task num_buckets equal_buckets =
      if leb (task.stop - task.begin) (single_level_threshold c)
      then []
      else (if equal_buckets then task_of task.begin (num_buckets - 1) else [])
        ++ downwards num_buckets task.begin (num_buckets - 1 - to_int equal_buckets)
            (1 + to_int equal_buckets)

  unfoldable pub queue_tasks :
      PrivateQueue Task → Task → (num_buckets : ℕ) (equal_buckets : Bool) → PrivateQueue Task
  unfolding queued_tasks
  queue_tasks queue task num_buckets equal_buckets =
      push_range queue (queued_tasks task num_buckets equal_buckets)
