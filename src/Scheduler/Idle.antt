-- ===== src/Scheduler/Idle.antt =====
-- `getJob` and `offerJob` of include/ips4o/scheduler.hpp, called by several threads.
use ips4o.Prelude.{
  ℕ, ◌+◌, ◌≤◌, ◌≡◌, refl, sym, ap, arith, true, List, [], ◌∷◌, ◌++◌, length, length-append, All,
  All-append, All-append_left, All-append_right,
}
use ips4o.Scheduler.{
  is_empty, Phase, working, asking, offering, polling, failed, waiting, looking, leaving, retrying,
  finished, Thread, Act, Scheduler, Step, Reaches,
}

-- Threads that are at work, or that have not tried the global queue since.
abbrev busy : Phase → ℕ
busy working = 1
busy asking = 1
busy offering = 1
busy polling = 1
busy _ = 0

-- Threads that `m_num_idle_threads` counts.
abbrev idle : Phase → ℕ
idle waiting = 1
idle looking = 1
idle leaving = 1
idle finished = 1
idle _ = 0

abbrev pub returned : Phase → ℕ
returned finished = 1
returned _ = 0

-- Threads that may hold jobs of their own.
abbrev pub at_work : Phase → ℕ
at_work working = 1
at_work asking = 1
at_work offering = 1
at_work _ = 0

busy-idle : (p : Phase) → busy p + idle p ≤ 1
busy-idle working = omega arith
busy-idle asking = omega arith
busy-idle offering = omega arith
busy-idle polling = omega arith
busy-idle failed = omega arith
busy-idle waiting = omega arith
busy-idle looking = omega arith
busy-idle leaving = omega arith
busy-idle retrying = omega arith
busy-idle finished = omega arith

at_work-busy : (p : Phase) → busy p ≡ 0 → at_work p ≡ 0
at_work-busy working h = h
at_work-busy asking h = h
at_work-busy offering h = h
at_work-busy polling h = refl
at_work-busy failed h = refl
at_work-busy waiting h = refl
at_work-busy looking h = refl
at_work-busy leaving h = refl
at_work-busy retrying h = refl
at_work-busy finished h = refl

module _ {ℓ} {Job : Type ℓ} where
  -- The number of threads in some phases.
  abbrev pub count : (Phase → ℕ) → List (Thread Job) → ℕ
  count f [] = 0
  count f (t ∷ ts) = f t.phase + count f ts

  count-append :
      (f : Phase → ℕ) (ts us : List (Thread Job)) → count f (ts ++ us) ≡ count f ts + count f us
  count-append f [] us = omega arith
  count-append f (t ∷ ts) us = omega (arith, count-append f ts us)

  count-busy-idle : (ts : List (Thread Job)) → count busy ts + count idle ts ≤ length ts
  count-busy-idle [] = omega arith
  count-busy-idle (t ∷ ts) = omega (arith, count-busy-idle ts, busy-idle t.phase)

  -- What holds of the sums over all threads.
  record Counts (g : List Job) (k b i r : ℕ) : Type 0 where
    counted : k ≡ i
    looked : b ≡ 0 → length g ≡ 0
    told : 1 ≤ r → b ≡ 0

  still_busy : (g g' : List Job) (k b i r : ℕ) → Counts g k (b + 1) i r → Counts g' k (b + 1) i r
  still_busy g g' k b i r c = record {
    counted = c.counted;
    looked = λ z. absurd (omega arith);
    told = c.told;
  }

  -- One thread's step, among others with the sums b, i and r.
  Act-Counts :
      (n : ℕ) (g g' : List Job) (k k' : ℕ) (t t' : Thread Job) (b i r : ℕ)
      → Act n g k t g' k' t'
      → Counts g k (b + busy t.phase) (i + idle t.phase) (r + returned t.phase)
      → b + i + 1 ≤ n
      → Counts g' k' (b + busy t'.phase) (i + idle t'.phase) (r + returned t'.phase)
  Act-Counts n g g' k k' t t' b i r (Act.spawn _ _ _ _) c room = c
  Act-Counts n g g' k k' t t' b i r (Act.get_local _ _ _ _ _ _ _) c room = c
  Act-Counts n g g' k k' t t' b i r (Act.own_empty _ _ _ _) c room = c
  Act-Counts n g g' k k' t t' b i r (Act.take_job _ _ _ _) c room = still_busy g g' k b _ _ c
  Act-Counts n g g' k k' t t' b i r (Act.none_left _ _) c room = record {
    counted = c.counted;
    looked = λ z. refl;
    told = λ h. absurd (omega (arith, c.told h));
  }
  Act-Counts n g g' k k' t t' b i r (Act.signal _ _ _) c room = record {
    counted = omega (arith, c.counted);
    looked = c.looked;
    told = c.told;
  }
  Act-Counts n g g' k k' t t' b i r (Act.all_idle _ _ _ e) c room = record {
    counted = c.counted;
    looked = c.looked;
    told = λ h. omega (arith, c.counted, e);
  }
  Act-Counts n g g' k k' t t' b i r (Act.some_busy _ _ _ _) c room = c
  Act-Counts n g g' k k' t t' b i r (Act.nothing _ _) c room = c
  Act-Counts n g g' k k' t t' b i r (Act.something _ _ _ _) c room = c
  Act-Counts n g g' k k' t t' b i r (Act.leave _ _ _) c room = record {
    counted = omega (arith, c.counted);
    looked = c.looked;
    told = c.told;
  }
  Act-Counts n g g' k k' t t' b i r (Act.retake_job _ _ _ _) c room = record {
    counted = c.counted;
    looked = λ z. absurd (omega arith);
    told = λ h. absurd (omega (arith, c.looked (c.told h)));
  }
  Act-Counts n g g' k k' t t' b i r (Act.retake_none _ _) c room = c
  Act-Counts n g g' k k' t t' b i r (Act.offer _ _ _ _ _) c room = c
  Act-Counts n g g' k k' t t' b i r (Act.no_offer _ _ _ _) c room = c
  Act-Counts n g g' k k' t t' b i r (Act.go_on _ _) c room = c
  Act-Counts n g g' k k' t t' b i r (Act.add_job _ _ _ _ _ _) c room = still_busy g g' k b _ _ c

  Counts-ext :
      (g : List Job) (k : ℕ) {b b' i i' r r' : ℕ}
      → b ≡ b'
      → i ≡ i'
      → r ≡ r'
      → Counts g k b i r
      → Counts g k b' i' r'
  Counts-ext g k e f h c = record {
    counted = omega (arith, c.counted);
    looked = λ z. c.looked (omega arith);
    told = λ q. omega (arith, c.told (omega arith));
  }

  abbrev AllCounts : Scheduler Job → Type 0
  AllCounts s =
      Counts s.glob_queue s.num_idle_threads (count busy s.threads) (count idle s.threads)
        (count returned s.threads)

  among :
      (f : Phase → ℕ) (pre post : List (Thread Job)) (t : Thread Job)
      → count f (pre ++ t ∷ post) ≡ count f pre + count f post + f t.phase
  among f pre post t = omega (arith, count-append f pre (t ∷ post))

  Step-AllCounts : (s s' : Scheduler Job) → Step s s' → AllCounts s → AllCounts s'
  Step-AllCounts s s' (Step.move pre post t t' g g' k k' act) c =
      Counts-ext g' k' (sym (among busy pre post t')) (sym (among idle pre post t'))
        (sym (among returned pre post t'))
        (Act-Counts (length (pre ++ t ∷ post)) g g' k k' t t' _ _ _ act
          (Counts-ext g k (among busy pre post t) (among idle pre post t)
            (among returned pre post t) c)
          (omega (arith, count-busy-idle pre, count-busy-idle post, length-append pre (t ∷ post))))

  -- A thread that is past the work has an empty queue of its own.
  abbrev EmptyHanded : Thread Job → Type 0
  EmptyHanded t = at_work t.phase ≡ 0 → is_empty t.queue ≡ true

  Act-EmptyHanded :
      (n : ℕ) (g g' : List Job) (k k' : ℕ) (t t' : Thread Job)
      → Act n g k t g' k' t'
      → EmptyHanded t
      → EmptyHanded t'
  Act-EmptyHanded n g g' k k' t t' (Act.spawn _ _ _ _) h = λ z. absurd (omega arith)
  Act-EmptyHanded n g g' k k' t t' (Act.get_local _ _ _ _ _ _ _) h = λ z. absurd (omega arith)
  Act-EmptyHanded n g g' k k' t t' (Act.own_empty _ _ _ e) h = λ z. e
  Act-EmptyHanded n g g' k k' t t' (Act.take_job _ _ _ _) h = λ z. absurd (omega arith)
  Act-EmptyHanded n g g' k k' t t' (Act.none_left _ _) h = h
  Act-EmptyHanded n g g' k k' t t' (Act.signal _ _ _) h = h
  Act-EmptyHanded n g g' k k' t t' (Act.all_idle _ _ _ _) h = h
  Act-EmptyHanded n g g' k k' t t' (Act.some_busy _ _ _ _) h = h
  Act-EmptyHanded n g g' k k' t t' (Act.nothing _ _) h = h
  Act-EmptyHanded n g g' k k' t t' (Act.something _ _ _ _) h = h
  Act-EmptyHanded n g g' k k' t t' (Act.leave _ _ _) h = h
  Act-EmptyHanded n g g' k k' t t' (Act.retake_job _ _ _ _) h = λ z. absurd (omega arith)
  Act-EmptyHanded n g g' k k' t t' (Act.retake_none _ _) h = h
  Act-EmptyHanded n g g' k k' t t' (Act.offer _ _ _ _ _) h = λ z. absurd (omega arith)
  Act-EmptyHanded n g g' k k' t t' (Act.no_offer _ _ _ _) h = λ z. absurd (omega arith)
  Act-EmptyHanded n g g' k k' t t' (Act.go_on _ _) h = λ z. absurd (omega arith)
  Act-EmptyHanded n g g' k k' t t' (Act.add_job _ _ _ _ _ _) h = λ z. absurd (omega arith)

  Step-EmptyHanded :
      (s s' : Scheduler Job) → Step s s' → All EmptyHanded s.threads → All EmptyHanded s'.threads
  Step-EmptyHanded s s' (Step.move pre post t t' g g' k k' act) h =
      let others = All-append_right EmptyHanded pre (t ∷ post) h in
      All-append EmptyHanded pre (t' ∷ post) (All-append_left EmptyHanded pre (t ∷ post) h)
        (Act-EmptyHanded (length (pre ++ t ∷ post)) g g' k k' t t' act others.0, others.1)

  -- All threads are at work, at least one, and none is counted as idle.
  pub record IsStart (s : Scheduler Job) : Type ℓ where
    pub all_working : All (λ t. t.phase ≡ working) s.threads
    pub some_thread : 1 ≤ length s.threads
    pub none_idle : s.num_idle_threads ≡ 0

  start-counts :
      (ts : List (Thread Job))
      → All (λ t. t.phase ≡ working) ts
      → (count busy ts ≡ length ts)
        × (count idle ts ≡ 0)
        × (count returned ts ≡ 0)
        × All EmptyHanded ts
  start-counts [] h = (refl, refl, refl, tt)
  start-counts (t ∷ ts) (e, h) =
      let (b, i, r, q) = start-counts ts h in
      (
        omega (arith, b, ap busy e),
        omega (arith, i, ap idle e),
        omega (arith, r, ap returned e),
        (λ z. absurd (omega (arith, ap at_work e)), q),
      )

  Reaches-invariant :
      (s s' : Scheduler Job) → IsStart s → Reaches s s' → AllCounts s' × All EmptyHanded s'.threads
  Reaches-invariant s s' ok Reaches.start =
      let (b, i, r, q) = start-counts s.threads ok.all_working in
      (
        record {
          counted = omega (arith, i, ok.none_idle);
          looked = λ z. absurd (omega (arith, b, ok.some_thread));
          told = λ h. absurd (omega (arith, r));
        },
        q,
      )
  Reaches-invariant s s' ok (Reaches.then_step before step) =
      let (c, q) = Reaches-invariant s _ ok before in
      (Step-AllCounts _ s' step c, Step-EmptyHanded _ s' step q)

  no_jobs :
      (ts : List (Thread Job))
      → count busy ts ≡ 0
      → All EmptyHanded ts
      → All (λ t. (at_work t.phase ≡ 0) × (is_empty t.queue ≡ true)) ts
  no_jobs [] e h = tt
  no_jobs (t ∷ ts) e (h, hs) =
      let idle_now = at_work-busy t.phase (omega arith) in
      ((idle_now, h idle_now), no_jobs ts (omega arith) hs)

  length-nil : (g : List Job) → length g ≡ 0 → g ≡ []
  length-nil [] h = refl
  length-nil (x ∷ g) h = absurd (omega arith)

  -- In every interleaving of the threads' steps, from a state in which all threads, at least one, are
  -- at work and none is counted as idle: once a `getJob` has returned false, no thread is at work or in
  -- `offerJob`, the global queue is empty, and so is the queue of every thread.
  pub Reaches-returned :
      (s s' : Scheduler Job)
      → IsStart s
      → Reaches s s'
      → 1 ≤ count returned s'.threads
      → (s'.glob_queue ≡ [])
        × All (λ t. (at_work t.phase ≡ 0) × (is_empty t.queue ≡ true)) s'.threads
  Reaches-returned s s' ok r told =
      let (c, q) = Reaches-invariant s s' ok r in
      let idle_now = c.told told in
      (length-nil s'.glob_queue (c.looked idle_now), no_jobs s'.threads idle_now q)
