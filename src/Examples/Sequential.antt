-- ===== src/Examples/Sequential.antt =====
-- The buckets of a task that begins at 100, with and without equality buckets.
use ips4o.Prelude.{ℕ, ◌+◌, ◌*◌, ◌≡◌, refl, arith, true, false, to_int, [], ◌∷◌, map, reverse}
use ips4o.Config.{default_config}
use ips4o.Sequential.{Task, recursion_ranges, queued_tasks, queue_tasks}
use ips4o.Sequential.Order.{shift, queued_tasks-recursion_ranges}

abbrev starts : ℕ → ℕ
starts i = 1000 * i

abbrev task : Task
task = record { begin = 100; stop = 8100 }

recursion_ranges_run :
    recursion_ranges default_config starts 8000 4 true
    ≡ record { begin = 0; stop = 1000 }
      ∷ record { begin = 2000; stop = 3000 }
      ∷ record { begin = 3000; stop = 4000 }
      ∷ []
unfolding recursion_ranges
recursion_ranges_run = refl

queue_tasks_run :
    queue_tasks default_config starts (record { m_v = []; m_off = 0 }) task 2 false ≡ record {
      m_v = record { begin = 1100; stop = 2100 } ∷ record { begin = 100; stop = 1100 } ∷ [];
      m_off = 0;
    }
unfolding queue_tasks queued_tasks
queue_tasks_run = refl

queued_tasks-recursion_ranges_example :
    queued_tasks default_config starts task ((1 + to_int true) * 4) true
    ≡ map
        (shift 100)
        (reverse (recursion_ranges default_config starts 8000 ((1 + to_int true) * 4) true))
queued_tasks-recursion_ranges_example =
    queued_tasks-recursion_ranges default_config starts task 4 true (omega arith)
