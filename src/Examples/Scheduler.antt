-- ===== src/Examples/Scheduler.antt =====
-- A private queue, and two threads that run out of work.
use ips4o.Prelude.{ℕ, ◌≡◌, refl, arith, true, some, none, List, [], ◌∷◌, ◌++◌, All}
use ips4o.Scheduler.{
  PrivateQueue, push_range, emplace, size, is_empty, pop_back, pop_front, Phase, working, polling,
  failed, waiting, finished, at, Act, Scheduler, Step, Reaches,
}
use ips4o.Scheduler.Queue.{IsQueue, queue_lem}
use ips4o.Scheduler.Idle.{at_work, Reaches-returned}

abbrev held : List ℕ
held = 20 ∷ 30 ∷ []

abbrev jobs : PrivateQueue ℕ
jobs = record { m_v = 10 ∷ 20 ∷ 30 ∷ []; m_off = 1 }

pop_back_run : pop_back jobs ≡ some (30, record { m_v = 10 ∷ 20 ∷ []; m_off = 1 })
unfolding pop_back
pop_back_run = refl

pop_front_run : pop_front jobs ≡ some (20, record { m_v = 10 ∷ 20 ∷ 30 ∷ []; m_off = 2 })
unfolding pop_front
pop_front_run = refl

queue_lem_example :
    (size jobs ≡ 2)
    × ((xs : List ℕ) → IsQueue (push_range jobs xs) (held ++ xs))
    × ((x : ℕ) → IsQueue (emplace jobs x) (held ++ x ∷ []))
    × (held ≡ [] → (pop_back jobs ≡ none) × (pop_front jobs ≡ none))
    × ((xs : List ℕ) (x : ℕ)
        → held ≡ xs ++ x ∷ []
        → (q' : PrivateQueue ℕ) × (pop_back jobs ≡ some (x, q')) × IsQueue q' xs)
    × ((x : ℕ) (xs : List ℕ)
        → held ≡ x ∷ xs
        → (q' : PrivateQueue ℕ) × (pop_front jobs ≡ some (x, q')) × IsQueue q' xs)
queue_lem_example = queue_lem jobs held (10 ∷ [], refl, refl)

abbrev empty : PrivateQueue ℕ
empty = record { m_v = []; m_off = 0 }

abbrev two : Phase → Phase → ℕ → Scheduler ℕ
two p p' k = record {
  glob_queue = [];
  num_idle_threads = k;
  threads = at p empty ∷ at p' empty ∷ [];
}

first :
    (p p' r : Phase) (k k' : ℕ)
    → Act 2 [] k (at p empty) [] k' (at p' empty)
    → Step (two p r k) (two p' r k')
first p p' r k k' a = Step.move [] (at r empty ∷ []) (at p empty) (at p' empty) [] [] k k' a

second :
    (r p p' : Phase) (k k' : ℕ)
    → Act 2 [] k (at p empty) [] k' (at p' empty)
    → Step (two r p k) (two r p' k')
second r p p' k k' a = Step.move (at r empty ∷ []) [] (at p empty) (at p' empty) [] [] k k' a

-- Both threads run out of work, and the second is the first to be told.
until_returned : Reaches (two working working 0) (two waiting finished 2)
until_returned =
    Reaches.then_step
      (Reaches.then_step
        (Reaches.then_step
          (Reaches.then_step
            (Reaches.then_step
              (Reaches.then_step
                (Reaches.then_step Reaches.start
                  (first working polling working 0 0 (Act.own_empty [] 0 empty refl)))
                (first polling failed working 0 0 (Act.none_left 0 empty)))
              (first failed waiting working 0 1 (Act.signal [] 0 empty)))
            (second waiting working polling 1 1 (Act.own_empty [] 1 empty refl)))
          (second waiting polling failed 1 1 (Act.none_left 1 empty)))
        (second waiting failed waiting 1 2 (Act.signal [] 1 empty)))
      (second waiting waiting finished 2 2 (Act.all_idle [] 2 empty refl))

Reaches-returned_example :
    ((two waiting finished 2).glob_queue ≡ [])
    × All (λ t. (at_work t.phase ≡ 0) × (is_empty t.queue ≡ true)) (two waiting finished 2).threads
Reaches-returned_example =
    Reaches-returned (two working working 0) (two waiting finished 2)
      (record { all_working = (refl, (refl, tt)); some_thread = omega arith; none_idle = refl })
      until_returned (omega arith)
