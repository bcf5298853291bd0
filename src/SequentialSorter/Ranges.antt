-- ===== src/SequentialSorter/Ranges.antt =====
-- The recursion into the buckets (`sequential_rec` of include/ips4o/sequential.hpp).
use ips4o.Prelude.{
  ℕ, zero, suc, ◌+◌, ◌-◌, ◌*◌, ◌≤◌, ◌<◌, ◌≡◌, ◌≢◌, none, ◌⊎◌, inl, inr, refl, sym, ap, ◌∙◌, arith,
  subst, Bool, true, false, Bool-cases, Option, some, List, [], ◌∷◌, ◌++◌, length, range,
  write_range, length-range, length-write_range, range-write_range, range-write_range_out, total,
  total-one, IsSorted, ltb, ltb→lt, ltb→le, leb, le→leb, bind-some, ℕ_discrete, ◌>>=◌, dec_lt,
}
use ips4o.Config.{Config}
use ips4o.Sequential.{Task, task_of, upwards}
use ips4o.SequentialSorter.{LocalData, Sort, sort_ranges}

module _ {ℓ} {A : Type ℓ} (comp : A → A → Bool) where
  -- The same elements, by any weight, in order.
  abbrev pub SortedOf : List A → List A → Type ℓ
  SortedOf xs ys = IsSorted comp ys × ((f : A → ℕ) → total f ys ≡ total f xs)

  pub SortedOf-length : (xs ys : List A) → SortedOf xs ys → length ys ≡ length xs
  SortedOf-length xs ys h = sym (total-one ys) ∙ h.1 (λ v. 1) ∙ total-one xs

module _ {ℓ} {A : Type ℓ} {G : Type 0} where
  -- Between two calls the buffers are empty and the sizes 0.
  abbrev pub Clean : LocalData A G → Type ℓ
  Clean d = ((i : ℕ) → d.buffers i ≡ []) × ((i : ℕ) → d.bucket_size i ≡ 0)

  -- The function sorts every range of fewer than `bound` elements.
  abbrev pub SortsBelow : (comp : A → A → Bool) → Sort A G → ℕ → Type ℓ
  SortsBelow comp sort bound =
      (xs : List A) (d : LocalData A G)
      → Clean d
      → length xs < bound
      → (ys : List A) × (d' : LocalData A G) × (sort xs d ≡ some (ys, d'))
        × SortedOf comp xs ys
        × Clean d'

  module _ (sort : Sort A G) (us : List Task) where
    after : List A × LocalData A G → Option (List A × LocalData A G)
    after r = sort_ranges sort us r.0 r.1

    bind_append :
        (ts : List Task) (xs : List A) (d : LocalData A G)
        → sort_ranges sort (ts ++ us) xs d ≡ (sort_ranges sort ts xs d >>= after)
    unfolding sort_ranges after
    bind_append [] xs d = refl
    bind_append (t ∷ ts) xs d = elim (Bool-cases (leb t.stop (length xs))) [
      | inr out ↦ rw out refl
      | inl inside ↦ rw inside (
          rest (λ r. bind_append ts (write_range xs t.begin r.0) r.1)
            (sort (range xs t.begin t.stop) d))
    ]
      where
        rest :
            ((r : List A × LocalData A G)
              → sort_ranges sort (ts ++ us) (write_range xs t.begin r.0) r.1
                ≡ (sort_ranges sort ts (write_range xs t.begin r.0) r.1 >>= after))
            → (o : Option (List A × LocalData A G))
            → (o >>= (λ r. sort_ranges sort (ts ++ us) (write_range xs t.begin r.0) r.1))
              ≡ (o >>= (λ r. sort_ranges sort ts (write_range xs t.begin r.0) r.1) >>= after)
        rest h none = refl
        rest h (some r) = h r

    sort_ranges-append :
        (ts : List Task) (xs ys : List A) (d d' : LocalData A G)
        → sort_ranges sort ts xs d ≡ some (ys, d')
        → sort_ranges sort (ts ++ us) xs d ≡ sort_ranges sort us ys d'
    unfolding after
    sort_ranges-append ts xs ys d d' e = bind_append ts xs d ∙ bind-some after e refl

  module _ (c : Config) (comp : A → A → Bool) (sort : Sort A G) (bound : ℕ)
      (sorts : SortsBelow comp sort bound) (starts : ℕ → ℕ) (k : ℕ)
      (up : (b : ℕ) → b < k → starts b ≤ starts (suc b)) where
    abbrev pub bucket : List A → ℕ → List A
    bucket xs b = range xs (starts b) (starts (suc b))

    abbrev pub Done : ℕ → List A → Type 0
    Done b xs = IsSorted comp (bucket xs b)

    pub record Kept (xs ys : List A) : Type ℓ where
      pub size : length ys ≡ length xs
      pub weight : (b : ℕ) → b < k → (f : A → ℕ) → total f (bucket ys b) ≡ total f (bucket xs b)
      pub done : (b : ℕ) → b < k → Done b xs → Done b ys

    pub starts-le : (i j : ℕ) → i ≤ j → j ≤ k → starts i ≤ starts j
    starts-le i zero h l = let e : i ≡ 0 = omega arith in rw e (omega arith)
    starts-le i (suc j) h l = elim (ℕ_discrete i (suc j)) [
      | yes e ↦ rw e (omega arith)
      | no ne ↦ omega (arith, starts-le i j (omega arith) (omega arith), up j (omega arith))
    ]

    pub Kept-refl : (xs : List A) → Kept xs xs
    Kept-refl xs = record { size = refl; weight = λ b h f. refl; done = λ b h e. e }

    Kept-trans : (xs ys zs : List A) → Kept xs ys → Kept ys zs → Kept xs zs
    Kept-trans xs ys zs p q = record {
      size = q.size ∙ p.size;
      weight = λ b h f. q.weight b h f ∙ p.weight b h f;
      done = λ b h e. q.done b h (p.done b h e);
    }

    -- A bucket is sorted in place.
    sort_bucket :
        (b : ℕ) (xs ys : List A)
        → b < k
        → starts k ≡ length xs
        → SortedOf comp (bucket xs b) ys
        → Kept xs (write_range xs (starts b) ys) × Done b (write_range xs (starts b) ys)
    sort_bucket b xs ys h top sorted =
        let order = up b h in
        let inside = starts-le (suc b) k (omega arith) (omega arith) in
        let len : length ys ≡ starts (suc b) - starts b =
          SortedOf-length comp (bucket xs b) ys sorted
          ∙ length-range xs (starts b) (starts (suc b)) (omega (arith, top)) in
        let end : starts b + length ys ≡ starts (suc b) = omega (arith, len) in
        let here : bucket (write_range xs (starts b) ys) b ≡ ys =
          ap (range (write_range xs (starts b) ys) (starts b)) (sym end)
          ∙ range-write_range xs ys (starts b) (omega (arith, top)) in
        let there : (j : ℕ)
            → j < k
            → b ≢ j
            → bucket (write_range xs (starts b) ys) j ≡ bucket xs j =
          λ j lt ne.
            range-write_range_out xs ys (starts b) (starts j) (starts (suc j))
              (omega (arith, top, end)) (up j lt) (beside j lt ne end) in
        (
          record {
            size = length-write_range xs ys (starts b) (omega (arith, top, end));
            weight = λ j lt f. elim (ℕ_discrete b j) [
              | yes e ↦
                  subst
                    (λ z. total f (bucket (write_range xs (starts b) ys) z) ≡ total f (bucket xs z))
                    e (ap (total f) here ∙ sorted.1 f)
              | no ne ↦ ap (total f) (there j lt ne)
            ];
            done = λ j lt was. elim (ℕ_discrete b j) [
              | yes e ↦
                  subst (λ z. Done z (write_range xs (starts b) ys)) e
                    (subst (IsSorted comp) (sym here) sorted.0)
              | no ne ↦ subst (IsSorted comp) (sym (there j lt ne)) was
            ];
          },
          subst (IsSorted comp) (sym here) sorted.0,
        )
      where
        beside :
            (j : ℕ)
            → j < k
            → b ≢ j
            → starts b + length ys ≡ starts (suc b)
            → (starts (suc j) ≤ starts b) ⊎ (starts b + length ys ≤ starts j)
        beside j lt ne end = elim (dec_lt j b) [
          | yes lower ↦ inl (starts-le (suc j) b (omega arith) (omega arith))
          | no ge ↦ inr (omega (arith, end, starts-le (suc b) j (omega arith) (omega arith)))
        ]

    -- What the recursion asks of a bucket: it is small enough to be sorted, or has been sorted already.
    abbrev pub Visitable : ℕ → List A → Type 0
    Visitable b xs =
        (b < k)
        × ((ltb (2 * c.base_case_size) (starts (suc b) - starts b) ≡ true)
            → starts (suc b) - starts b < bound)
        × ((ltb (2 * c.base_case_size) (starts (suc b) - starts b) ≡ false) → Done b xs)

    -- What the recursion has done with a bucket.
    abbrev pub Visited : (tasks : List Task) (xs : List A) → LocalData A G → (ℕ → Type 0) → Type ℓ
    Visited tasks xs d goal =
        (ys : List A) × (d' : LocalData A G) × (sort_ranges sort tasks xs d ≡ some (ys, d'))
        × Kept xs ys
        × Clean d'
        × ((b : ℕ) → goal b → Done b ys)

    pub task_of-Visited :
        (b : ℕ) (xs : List A) (d : LocalData A G)
        → starts k ≡ length xs
        → Clean d
        → Visitable b xs
        → Visited (task_of c starts 0 b) xs d (λ j. b ≡ j)
    unfolding task_of sort_ranges
    task_of-Visited b xs d top clean (h, large, small) =
        elim (Bool-cases (ltb (2 * c.base_case_size) (starts (suc b) - starts b))) [
          | inr few ↦
              rw few (xs, d, refl, Kept-refl xs, clean, λ j e. subst (λ z. Done z xs) e (small few))
          | inl many ↦
              let inside = starts-le (suc b) k (omega arith) (omega arith) in
              let len = length-range xs (starts b) (starts (suc b)) (omega (arith, top)) in
              let (ys, d', run, sorted, clean') =
                sorts (bucket xs b) d clean (omega (arith, len, large many)) in
              let (kept, done) = sort_bucket b xs ys h top sorted in
              let at : (x : ℕ) → 0 + x ≡ x = λ x. omega arith in
              rw
                (
                  many,
                  at (starts b),
                  at (starts (suc b)),
                  le→leb (starts (suc b)) (length xs) (omega (arith, top)),
                  run,
                )
                (
                  write_range xs (starts b) ys,
                  d',
                  refl,
                  kept,
                  clean',
                  λ j e. subst (λ z. Done z (write_range xs (starts b) ys)) e done,
                )
        ]

    pub Visitable-later : (b : ℕ) (xs ys : List A) → Kept xs ys → Visitable b xs → Visitable b ys
    Visitable-later b xs ys kept (h, large, small) = (h, large, λ e. kept.done b h (small e))

    pub Visited-append :
        (ts us : List Task) (xs : List A) (d : LocalData A G) (first next both : ℕ → Type 0)
        → Visited ts xs d first
        → ((ys : List A) (d' : LocalData A G) → Kept xs ys → Clean d' → Visited us ys d' next)
        → ((b : ℕ) → both b → (b < k) × (first b ⊎ next b))
        → Visited (ts ++ us) xs d both
    Visited-append ts us xs d first next both (ys, d', run, kept, clean, done) visit split =
        let (zs, d'', run', kept', clean', done') = visit ys d' kept clean in
        (
          zs,
          d'',
          sort_ranges-append sort us ts xs ys d d' run ∙ run',
          Kept-trans xs ys zs kept kept',
          clean',
          λ b h. one_of b (split b h) zs kept' done',
        )
      where
        one_of :
            (b : ℕ)
            → (b < k) × (first b ⊎ next b)
            → (zs : List A) → Kept ys zs
            → ((b : ℕ) → next b → Done b zs)
            → Done b zs
        one_of b (h, inl p) zs kept' done' = kept'.done b h (done b p)
        one_of b (h, inr p) zs kept' done' = done' b p

    -- The loop visits the buckets of its stride.
    pub upwards-Visited :
        (fuel i s num : ℕ) (xs : List A) (d : LocalData A G)
        → 1 ≤ s
        → num ≤ i + fuel
        → num ≤ k
        → starts k ≡ length xs
        → Clean d
        → ((j : ℕ) → i + s * j < num → Visitable (i + s * j) xs)
        → Visited (upwards c starts fuel i s num) xs d (λ b. (j : ℕ) × (b ≡ i + s * j) × (b < num))
    unfolding upwards sort_ranges
    upwards-Visited zero i s num xs d pos enough most top clean ok =
        (xs, d, refl, Kept-refl xs, clean, λ b (j, e, lt). absurd (omega arith))
    upwards-Visited (suc fuel) i s num xs d pos enough most top clean ok =
        elim (Bool-cases (ltb i num)) [
          | inr out ↦
              let ge = ltb→le i num out in
              rw out (xs, d, refl, Kept-refl xs, clean, λ b (j, e, lt). absurd (omega arith))
          | inl inside ↦
              let lt = ltb→lt i num inside in
              let start : i + s * 0 ≡ i = omega arith in
              rw inside (
                Visited-append (task_of c starts 0 i) (upwards c starts fuel (i + s) s num) xs d
                  (λ b. i ≡ b) (λ b. (j : ℕ) × (b ≡ i + s + s * j) × (b < num))
                  (λ b. (j : ℕ) × (b ≡ i + s * j) × (b < num))
                  (task_of-Visited i xs d top clean
                    (subst (λ z. Visitable z xs) start (ok 0 (omega (arith, start)))))
                  (λ ys d' kept clean'.
                    upwards-Visited fuel (i + s) s num ys d' pos (omega arith) most
                      (top ∙ sym kept.size) clean'
                      (λ j h.
                        let next : i + s * suc j ≡ i + s + s * j = omega arith in
                        Visitable-later (i + s + s * j) xs ys kept
                          (subst (λ z. Visitable z xs) next (ok (suc j) (omega (arith, next))))))
                  (λ b (j, e, h). (omega arith, one_more b j e h)))
        ]
      where
        one_more :
            (b j : ℕ)
            → b ≡ i + s * j
            → b < num
            → (i ≡ b) ⊎ ((j : ℕ) × (b ≡ i + s + s * j) × (b < num))
        one_more b zero e h = inl (omega arith)
        one_more b (suc j) e h = inr (j, omega arith, h)
