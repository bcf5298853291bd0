-- ===== src/Scheduler.antt =====
-- include/ips4o/scheduler.hpp: the private queue of a thread, and the scheduler by which the threads
-- share the small tasks and find out that all work is done. `m_v` is a `std::vector`, and `none` stands
-- for a pop from an empty queue, which an assertion rules out. The atomic operations of the threads
-- interleave in any order; each is one step. `m_glob_queue` is a `tbb::concurrent_queue`, whose
-- documented operations are a push at the back and a pop at the front, each in one step.
pub mod Queue
pub mod Idle
use ips4o.Prelude.{
  ℕ, zero, suc, ◌+◌, ◌-◌, ◌<◌, ◌≡◌, ◌≢◌, Bool, true, Option, none, some, List, [], ◌∷◌, ◌++◌, ltb,
  ◌==◌, if◌then◌else◌, length, get_elem?, ◌>>=◌,
}

pub record PrivateQueue {ℓ} (T : Type ℓ) : Type ℓ where
  pub m_v : List T
  pub m_off : ℕ

module _ {ℓ} {T : Type ℓ} where
  -- `push(begin, end)`.
  abbrev pub push_range : PrivateQueue T → List T → PrivateQueue T
  push_range q xs = record q { m_v = q.m_v ++ xs }

  abbrev pub emplace : PrivateQueue T → T → PrivateQueue T
  emplace q e = record q { m_v = q.m_v ++ e ∷ [] }

  abbrev pub size : PrivateQueue T → ℕ
  size q = length q.m_v - q.m_off

  abbrev pub is_empty : PrivateQueue T → Bool
  is_empty q = size q == 0

  abbrev pub clear : PrivateQueue T → PrivateQueue T
  clear q = record { m_v = []; m_off = 0 }

  -- `m_v.back()` and `m_v.pop_back()`.
  pub vector_pop : List T → Option (T × List T)
  vector_pop [] = none
  vector_pop (x ∷ []) = some (x, [])
  vector_pop (x ∷ y ∷ xs) = vector_pop (y ∷ xs) >>= (λ r. some (r.0, x ∷ r.1))

  -- The last lines of both pops.
  pub clear_if_done : PrivateQueue T → PrivateQueue T
  clear_if_done q = if length q.m_v == q.m_off then clear q else q

  unfoldable pub pop_back : PrivateQueue T → Option (T × PrivateQueue T)
  unfolding vector_pop clear_if_done
  pop_back q =
      if ltb q.m_off (length q.m_v)
      then vector_pop q.m_v >>= (λ r. some (r.0, clear_if_done (record q { m_v = r.1 })))
      else none

  unfoldable pub pop_front : PrivateQueue T → Option (T × PrivateQueue T)
  unfolding clear_if_done
  pop_front q =
      if ltb q.m_off (length q.m_v)
      then get_elem? q.m_v q.m_off
        >>= (λ e. some (e, clear_if_done (record q { m_off = suc q.m_off })))
      else none

-- Where a thread is: at work on a job, or in `offerJob` or `getJob`.
pub data Phase : Type 0 where
  working : Phase
  -- `offerJob` has seen an idle thread, and its test of the global queue comes next.
  asking : Phase
  -- `offerJob` is past its tests.
  offering : Phase
  -- The own queue is empty, and the first `try_pop` comes next.
  polling : Phase
  -- A `try_pop` found nothing, and `fetch_add` comes next.
  failed : Phase
  -- The test of the loop comes next.
  waiting : Phase
  -- The test of the global queue comes next.
  looking : Phase
  -- The global queue was not empty, and `fetch_sub` comes next.
  leaving : Phase
  -- The `try_pop` inside of the loop comes next.
  retrying : Phase
  -- `getJob` has returned false.
  finished : Phase

pub record Thread {ℓ} (Job : Type ℓ) : Type ℓ where
  pub phase : Phase
  pub queue : PrivateQueue Job

abbrev pub at {ℓ} : {Job : Type ℓ} → Phase → PrivateQueue Job → Thread Job
at p q = record { phase = p; queue = q }

-- One step of a thread. The indices are the global queue, `m_num_idle_threads` and the thread, before
-- and after; `n` is `m_num_threads`.
pub data Act {ℓ} {Job : Type ℓ} (n : ℕ)
    : List Job → ℕ → Thread Job → List Job → ℕ → Thread Job → Type ℓ where
  -- A job puts new jobs into the thread's own queue.
  spawn :
      (g : List Job) (k : ℕ) (q : PrivateQueue Job) (jobs : List Job)
      → Act n g k (at working q) g k (at working (push_range q jobs))
  get_local :
      (g : List Job) (k : ℕ) (q q' : PrivateQueue Job) (j : Job)
      → is_empty q ≢ true
      → pop_back q ≡ some (j, q')
      → Act n g k (at working q) g k (at working q')
  own_empty :
      (g : List Job) (k : ℕ) (q : PrivateQueue Job)
      → is_empty q ≡ true
      → Act n g k (at working q) g k (at polling q)
  take_job :
      (g : List Job) (k : ℕ) (q : PrivateQueue Job) (j : Job)
      → Act n (j ∷ g) k (at polling q) g k (at working q)
  none_left : (k : ℕ) (q : PrivateQueue Job) → Act n [] k (at polling q) [] k (at failed q)
  signal :
      (g : List Job) (k : ℕ) (q : PrivateQueue Job)
      → Act n g k (at failed q) g (suc k) (at waiting q)
  all_idle :
      (g : List Job) (k : ℕ) (q : PrivateQueue Job)
      → k ≡ n
      → Act n g k (at waiting q) g k (at finished q)
  some_busy :
      (g : List Job) (k : ℕ) (q : PrivateQueue Job)
      → k ≢ n
      → Act n g k (at waiting q) g k (at looking q)
  nothing : (k : ℕ) (q : PrivateQueue Job) → Act n [] k (at looking q) [] k (at waiting q)
  something :
      (g : List Job) (k : ℕ) (q : PrivateQueue Job) (j : Job)
      → Act n (j ∷ g) k (at looking q) (j ∷ g) k (at leaving q)
  leave :
      (g : List Job) (k : ℕ) (q : PrivateQueue Job)
      → Act n g k (at leaving q) g (k - 1) (at retrying q)
  retake_job :
      (g : List Job) (k : ℕ) (q : PrivateQueue Job) (j : Job)
      → Act n (j ∷ g) k (at retrying q) g k (at working q)
  retake_none : (k : ℕ) (q : PrivateQueue Job) → Act n [] k (at retrying q) [] k (at failed q)
  offer :
      (g : List Job) (k : ℕ) (q : PrivateQueue Job)
      → 1 < size q
      → 0 < k
      → Act n g k (at working q) g k (at asking q)
  no_offer :
      (g : List Job) (k : ℕ) (q : PrivateQueue Job) (j : Job)
      → Act n (j ∷ g) k (at asking q) (j ∷ g) k (at working q)
  go_on : (k : ℕ) (q : PrivateQueue Job) → Act n [] k (at asking q) [] k (at offering q)
  add_job :
      (g : List Job) (k : ℕ) (q q' : PrivateQueue Job) (j : Job)
      → pop_front q ≡ some (j, q')
      → Act n g k (at offering q) (g ++ j ∷ []) k (at working q')

pub record Scheduler {ℓ} (Job : Type ℓ) : Type ℓ where
  pub glob_queue : List Job
  pub num_idle_threads : ℕ
  pub threads : List (Thread Job)

abbrev pub reset {ℓ} : {Job : Type ℓ} → Scheduler Job → Scheduler Job
reset s = record s { num_idle_threads = 0 }

-- One thread takes a step.
pub data Step {ℓ} {Job : Type ℓ} : Scheduler Job → Scheduler Job → Type ℓ where
  move :
      (pre post : List (Thread Job)) (t t' : Thread Job) (g g' : List Job) (k k' : ℕ)
      → Act (length (pre ++ t ∷ post)) g k t g' k' t'
      → Step
          (record { glob_queue = g; num_idle_threads = k; threads = pre ++ t ∷ post })
          (record { glob_queue = g'; num_idle_threads = k'; threads = pre ++ t' ∷ post })

-- What the threads come to, in any order.
pub data Reaches {ℓ} {Job : Type ℓ} (s : Scheduler Job) : Scheduler Job → Type ℓ where
  start : Reaches s s
  then_step : {t u : Scheduler Job} → Reaches s t → Step t u → Reaches s u
