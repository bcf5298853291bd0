-- ===== src/Sequential/Order.antt =====
-- The order of the recursion and of the queue of include/ips4o/sequential.hpp.
use mathlib.Core.List.{reverse-append, map, map-append}
use ips4o.Prelude.{
  ℕ, zero, suc, ◌+◌, ◌-◌, ◌*◌, ◌≤◌, ◌<◌, ◌≡◌, refl, sym, ap, ◌∙◌, arith, Bool, true, false,
  Bool-cases, inl, inr, List, [], ◌∷◌, ◌++◌, append_assoc, append-nil, reverse, if◌then◌else◌, ltb,
  lt→ltb, le→ltb, leb, le→leb, lt→leb, to_int,
}
use ips4o.Config.{Config, single_level_threshold}
use ips4o.Sequential.{Task, task_of, upwards, downwards, recursion_ranges, queued_tasks}

-- A range of the task, from the beginning of the whole array on.
abbrev pub shift : ℕ → Task → Task
shift offset t = record { begin = offset + t.begin; stop = offset + t.stop }

add_zero : (n : ℕ) → n + 0 ≡ n
add_zero n = omega arith

grow : (s m : ℕ) → 1 ≤ s → suc m ≤ s * suc m
grow s m h = grind arith

reversed :
    (f : Task → Task) (x y u d d' : List Task)
    → x ≡ map f y
    → reverse y ≡ y
    → d ≡ map f d'
    → d' ≡ reverse u
    → x ++ d ≡ map f (reverse (u ++ y))
reversed f x y u d d' ex ey ed eu =
    ap (λ z. z ++ d) ex
    ∙ ap (λ z. map f y ++ z) (ed ∙ ap (map f) eu)
    ∙ sym (map-append f y (reverse u))
    ∙ ap (λ z. map f (z ++ reverse u)) (sym ey)
    ∙ ap (map f) (sym (reverse-append u y))

module _ (c : Config) (bucket_start : ℕ → ℕ) where
  -- The tasks of the first m strides, in order.
  abbrev ascending : (s m : ℕ) → List Task
  ascending s zero = []
  ascending s (suc m) = ascending s m ++ task_of c bucket_start 0 (s * m)

  reverse-task_of : (i : ℕ) → reverse (task_of c bucket_start 0 i) ≡ task_of c bucket_start 0 i
  unfolding task_of
  reverse-task_of i =
      elim (Bool-cases (ltb (2 * c.base_case_size) (bucket_start (suc i) - bucket_start i))) [
        | inl big ↦ rw big refl
        | inr few ↦ rw few refl
      ]

  upwards-ascending :
      (fuel k j s i num : ℕ)
      → 1 ≤ s
      → k ≤ fuel
      → i ≡ s * j
      → num ≡ s * (j + k)
      → ascending s j ++ upwards c bucket_start fuel i s num ≡ ascending s (j + k)
  unfolding upwards
  upwards-ascending zero zero j s i num h f e q =
      append-nil (ascending s j) ∙ ap (ascending s) (sym (add_zero j))
  upwards-ascending zero (suc k) j s i num h f e q = absurd (omega arith)
  upwards-ascending (suc fuel) zero j s i num h f e q =
      let z : num ≤ i = omega (arith, e, q, ap (λ n. s * n) (add_zero j)) in
      rw (le→ltb i num z) (append-nil (ascending s j) ∙ ap (ascending s) (sym (add_zero j)))
  upwards-ascending (suc fuel) (suc k) j s i num h f e q =
      let shifted : j + suc k ≡ suc j + k = omega arith in
      let more : s * (j + suc k) ≡ s * j + s * k + s = omega arith in
      let next : s * suc j ≡ s * j + s = omega arith in
      let z : i < num = omega (arith, more) in
      rw (lt→ltb i num z) (
        sym (
          append_assoc (ascending s j) (task_of c bucket_start 0 i)
            (upwards c bucket_start fuel (i + s) s num))
        ∙ ap
            (λ n.
              (ascending s j ++ task_of c bucket_start 0 n)
              ++ upwards c bucket_start fuel (i + s) s num)
            e
        ∙ upwards-ascending fuel k (suc j) s (i + s) num h (omega arith) (omega (arith, next))
            (q ∙ ap (λ n. s * n) shifted)
        ∙ ap (ascending s) (sym shifted))

  downwards-ascending :
      (fuel m s i : ℕ)
      → 1 ≤ s
      → suc m ≤ fuel
      → i ≡ s * m
      → downwards c bucket_start fuel 0 i s ≡ reverse (ascending s (suc m))
  unfolding downwards
  downwards-ascending zero m s i h f e = absurd (omega arith)
  downwards-ascending (suc fuel) zero s i h f e = rw (lt→leb s i (omega (arith, e))) (
      append-nil (task_of c bucket_start 0 i)
      ∙ ap (task_of c bucket_start 0) e
      ∙ sym (reverse-task_of (s * 0)))
  downwards-ascending (suc fuel) (suc m) s i h f e =
      let next : s * suc m ≡ s * m + s = omega arith in
      rw (le→leb s i (omega (arith, next))) (
        ap (λ z. task_of c bucket_start 0 i ++ z)
          (downwards-ascending fuel m s (i - s) h (omega arith) (omega (arith, next)))
        ∙ ap (λ z. z ++ reverse (ascending s (suc m)))
            (ap (task_of c bucket_start 0) e ∙ sym (reverse-task_of (s * suc m)))
        ∙ sym (reverse-append (ascending s (suc m)) (task_of c bucket_start 0 (s * suc m))))

  task_of-shift :
      (offset i : ℕ)
      → task_of c bucket_start offset i ≡ map (shift offset) (task_of c bucket_start 0 i)
  unfolding task_of
  task_of-shift offset i =
      let start = bucket_start i in
      elim (Bool-cases (ltb (2 * c.base_case_size) (bucket_start (suc i) - start))) [
        | inl big ↦ rw big (ap (λ z. z ∷ []) (shifted offset start (bucket_start (suc i))))
        | inr few ↦ rw few refl
      ]
    where
      shifted :
          (o a b : ℕ)
          → record { begin = o + a; stop = o + b }
            ≡ (shift o (record { begin = 0 + a; stop = 0 + b }))
      shifted o a b =
          let e : (x : ℕ) → x ≡ 0 + x = λ x. omega arith in
          ap (λ z. (record { begin = o + z; stop = o + b })) (e a)
          ∙ ap (λ z. (record { begin = o + (0 + a); stop = o + z })) (e b)

  downwards-shift :
      (fuel offset i s : ℕ)
      → downwards c bucket_start fuel offset i s
        ≡ map (shift offset) (downwards c bucket_start fuel 0 i s)
  unfolding downwards
  downwards-shift zero offset i s = refl
  downwards-shift (suc fuel) offset i s = elim (Bool-cases (leb s i)) [
    | inl on ↦ rw on (
        ap (λ z. z ++ downwards c bucket_start fuel offset (i - s) s) (task_of-shift offset i)
        ∙ ap (λ z. map (shift offset) (task_of c bucket_start 0 i) ++ z)
            (downwards-shift fuel offset (i - s) s)
        ∙ sym (
            map-append (shift offset) (task_of c bucket_start 0 i)
              (downwards c bucket_start fuel 0 (i - s) s)))
    | inr off ↦ rw off (
        ap (λ z. z ++ []) (task_of-shift offset i)
        ∙ sym (map-append (shift offset) (task_of c bucket_start 0 i) []))
  ]

  -- For a number of buckets that is even where there are equality buckets: the tasks that the queueing
  -- variant puts into the queue are the ranges into which the recursive variant recurs, relative to
  -- the task, in reverse order, so that popping them from the back gives the order of the recursion.
  pub queued_tasks-recursion_ranges :
      (task : Task) (m : ℕ) (equal_buckets : Bool)
      → 1 ≤ m
      → let num_buckets = (1 + to_int equal_buckets) * m in
        queued_tasks c bucket_start task num_buckets equal_buckets
        ≡ map (shift task.begin) (
            reverse
              (recursion_ranges c bucket_start (task.stop - task.begin) num_buckets equal_buckets))
  unfolding queued_tasks recursion_ranges
  queued_tasks-recursion_ranges task zero equal_buckets h = absurd (omega arith)
  queued_tasks-recursion_ranges task (suc m) equal_buckets h =
      elim (Bool-cases (leb (task.stop - task.begin) (single_level_threshold c))) [
        | inl leaf ↦ rw leaf refl
        | inr inner ↦ rw inner (both equal_buckets)
      ]
    where
      last_bucket :
          (eq : Bool) (i : ℕ)
          → (if eq then task_of c bucket_start task.begin i else [])
            ≡ map (shift task.begin) (if eq then task_of c bucket_start 0 i else [])
      last_bucket true i = task_of-shift task.begin i
      last_bucket false i = refl

      last_reverse :
          (eq : Bool) (i : ℕ)
          → reverse (if eq then task_of c bucket_start 0 i else [])
            ≡ (if eq then task_of c bucket_start 0 i else [])
      last_reverse true i = reverse-task_of i
      last_reverse false i = refl

      both :
          (eq : Bool)
          → let num = (1 + to_int eq) * suc m in
            (if eq then task_of c bucket_start task.begin (num - 1) else [])
              ++ downwards c bucket_start num task.begin (num - 1 - to_int eq) (1 + to_int eq)
            ≡ map (shift task.begin) (
                reverse (
                  upwards c bucket_start num 0 (1 + to_int eq) num
                  ++ (if eq then task_of c bucket_start 0 (num - 1) else [])))
      both eq =
          let s = 1 + to_int eq in
          let num = s * suc m in
          let one : 1 ≤ s = omega arith in
          let size : num ≡ s * m + s = omega arith in
          let fits : suc m ≤ num = grow s m one in
          let all : suc m ≡ 0 + suc m = omega arith in
          let up =
            upwards-ascending num (suc m) 0 s 0 num one fits (omega arith) (ap (λ n. s * n) all) in
          let down =
            downwards-ascending num m s (num - 1 - to_int eq) one fits (omega (arith, size)) in
          reversed (shift task.begin)
            (if eq then task_of c bucket_start task.begin (num - 1) else [])
            (if eq then task_of c bucket_start 0 (num - 1) else [])
            (upwards c bucket_start num 0 s num)
            (downwards c bucket_start num task.begin (num - 1 - to_int eq) s)
            (downwards c bucket_start num 0 (num - 1 - to_int eq) s) (last_bucket eq (num - 1))
            (last_reverse eq (num - 1)) (downwards-shift num task.begin (num - 1 - to_int eq) s)
            (down ∙ ap reverse (ap (ascending s) all ∙ sym up))
