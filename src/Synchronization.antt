-- ===== src/Synchronization.antt =====
-- include/ips4o/synchronization.hpp: `Barrier::barrier`. The mutex makes each call one step up to the
-- return or to the wait on the condition variable, and the return from the wait another one, which
-- needs the waited-for condition. Spurious wake-ups test the condition again and change nothing.
pub mod Rounds
use ips4o.Prelude.{ℕ, suc, ◌-◌, ◌≡◌, ◌≢◌, Bool, not, List, ◌∷◌, ◌++◌}

-- `f` is the flag that the wait has captured.
pub data Place : Type 0 where
  outside : Place
  waiting : Bool → Place

-- A thread, and the calls of `barrier` that it has returned from.
pub record Party : Type 0 where
  pub place : Place
  pub passed : ℕ

abbrev pub at : Place → ℕ → Party
at p n = record { place = p; passed = n }

pub record Barrier : Type 0 where
  pub init_count : ℕ
  pub hit_count : ℕ
  pub flag : Bool

-- `notify_all`.
abbrev pub notify_all : Barrier → Barrier
notify_all b = record b { hit_count = b.init_count; flag = not b.flag }

-- `setNumThreads`.
abbrev pub set_num_threads : Barrier → ℕ → Barrier
set_num_threads b n = record b { init_count = n; hit_count = n }

-- The constructor.
abbrev pub new_barrier : ℕ → Bool → Barrier
new_barrier n flag = record { init_count = n; hit_count = n; flag = flag }

-- One step of one thread.
pub data Act : Barrier → Party → Barrier → Party → Type 0 where
  -- `--hit_count_ == 0`.
  last :
      (b : Barrier) (n : ℕ)
      → b.hit_count - 1 ≡ 0
      → Act b
          (at outside n)
          (notify_all (record b { hit_count = b.hit_count - 1 }))
          (at outside (suc n))
  wait :
      (b : Barrier) (n : ℕ)
      → b.hit_count - 1 ≢ 0
      → Act b (at outside n) (record b { hit_count = b.hit_count - 1 }) (at (waiting b.flag) n)
  wake :
      (b : Barrier) (f : Bool) (n : ℕ)
      → f ≢ b.flag
      → Act b (at (waiting f) n) b (at outside (suc n))

pub data Step : Barrier → List Party → Barrier → List Party → Type 0 where
  move :
      (pre post : List Party) (t t' : Party) (b b' : Barrier)
      → Act b t b' t'
      → Step b (pre ++ t ∷ post) b' (pre ++ t' ∷ post)

pub data Reaches (b : Barrier) (ts : List Party) : Barrier → List Party → Type 0 where
  start : Reaches b ts b ts
  then_step :
      {b' b'' : Barrier} {ts' ts'' : List Party}
      → Reaches b ts b' ts'
      → Step b' ts' b'' ts''
      → Reaches b ts b'' ts''
