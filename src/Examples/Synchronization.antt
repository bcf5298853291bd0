-- ===== src/Examples/Synchronization.antt =====
-- Two threads at a barrier for two.
use ips4o.Prelude.{◌≤◌, refl, arith, true, false, List, [], ◌∷◌, All}
use ips4o.Synchronization.{outside, waiting, Party, at, new_barrier, Act, Step, Reaches}
use ips4o.Synchronization.Rounds.{entered, Reaches-passed}

abbrev threads : List Party
threads = at outside 0 ∷ at outside 0 ∷ []

-- The first thread waits, the second is the last, and returns; the first has not woken up yet.
abbrev afterwards : List Party
afterwards = at (waiting false) 0 ∷ at outside 1 ∷ []

first_waits :
    Step
      (new_barrier 2 false)
      threads
      (record { init_count = 2; hit_count = 1; flag = false })
      (at (waiting false) 0 ∷ at outside 0 ∷ [])
first_waits =
    Step.move [] (at outside 0 ∷ []) _ _ _ _
      (Act.wait (new_barrier 2 false) 0 (λ e. omega (arith, e)))

second_is_last :
    Step
      (record { init_count = 2; hit_count = 1; flag = false })
      (at (waiting false) 0 ∷ at outside 0 ∷ [])
      (new_barrier 2 true)
      afterwards
second_is_last =
    Step.move (at (waiting false) 0 ∷ []) [] _ _ _ _
      (Act.last (record { init_count = 2; hit_count = 1; flag = false }) 0 refl)

both_called : Reaches (new_barrier 2 false) threads (new_barrier 2 true) afterwards
both_called = Reaches.then_step (Reaches.then_step Reaches.start first_waits) second_is_last

Reaches-passed_example : All (λ t. All (λ u. t.passed ≤ entered u) afterwards) afterwards
Reaches-passed_example =
    Reaches-passed false threads (omega arith) (refl, (refl, tt)) (new_barrier 2 true) afterwards
      both_called
