-- ===== src/Scheduler/Queue.antt =====
-- `PrivateQueue` of include/ips4o/scheduler.hpp, as a queue with two ends.
use ips4o.Prelude.{
  suc, ◌≡◌, refl, sym, ap, ◌∙◌, subst, arith, Bool-cases, inl, inr, some, none, List, [], ◌∷◌, ◌++◌,
  append_assoc, length, length-append, get_elem?, lt→ltb, le→ltb, ==-true, ◌==◌,
}
use ips4o.Scheduler.{
  PrivateQueue, push_range, emplace, size, vector_pop, clear_if_done, pop_back, pop_front,
}

module _ {ℓ} {T : Type ℓ} where
  -- The elements from `m_off` on are c.
  abbrev pub IsQueue : PrivateQueue T → List T → Type ℓ
  IsQueue q c = (pre : List T) × (q.m_v ≡ pre ++ c) × (q.m_off ≡ length pre)

  vector_pop-append : (xs : List T) (e : T) → vector_pop (xs ++ e ∷ []) ≡ some (e, xs)
  unfolding vector_pop
  vector_pop-append [] e = refl
  vector_pop-append (x ∷ []) e = refl
  vector_pop-append (x ∷ y ∷ xs) e = rw (vector_pop-append (y ∷ xs) e, vector_pop) refl

  clear_if_done-IsQueue :
      (q : PrivateQueue T) (c : List T) → IsQueue q c → IsQueue (clear_if_done q) c
  unfolding clear_if_done
  clear_if_done-IsQueue q c (pre, e, h) = elim (Bool-cases (length q.m_v == q.m_off)) [
    | inl gone ↦ rw gone (
      [],
      sym (
          all_gone c (
            omega
              (arith, h, ap length e, length-append pre c, ==-true (length q.m_v) q.m_off gone))),
      refl,
    )
    | inr more ↦ rw more (pre, e, h)
  ]
    where
      all_gone : (c : List T) → length c ≡ 0 → c ≡ []
      all_gone [] z = refl
      all_gone (x ∷ c) z = absurd (omega arith)

  get_elem?-length :
      (pre : List T) (e : T) (c : List T) → get_elem? (pre ++ e ∷ c) (length pre) ≡ some e
  get_elem?-length [] e c = refl
  get_elem?-length (x ∷ pre) e c = get_elem?-length pre e c

  pop_back-none : (q : PrivateQueue T) → IsQueue q [] → pop_back q ≡ none
  unfolding pop_back
  pop_back-none q (pre, e, h) =
      rw (le→ltb q.m_off (length q.m_v) (rw e (omega (arith, length-append pre [])))) refl

  pop_front-none : (q : PrivateQueue T) → IsQueue q [] → pop_front q ≡ none
  unfolding pop_front
  pop_front-none q (pre, e, h) =
      rw (le→ltb q.m_off (length q.m_v) (rw e (omega (arith, length-append pre [])))) refl

  pop_back-some :
      (q : PrivateQueue T) (c : List T) (x : T)
      → IsQueue q (c ++ x ∷ [])
      → (q' : PrivateQueue T) × (pop_back q ≡ some (x, q')) × IsQueue q' c
  unfolding pop_back
  pop_back-some q c x (pre, e, h) =
      let v : q.m_v ≡ (pre ++ c) ++ x ∷ [] = e ∙ sym (append_assoc pre c (x ∷ [])) in
      let rest = record q { m_v = pre ++ c } in
      (
        clear_if_done rest,
        rw
            (
              lt→ltb q.m_off (length q.m_v)
                  (rw v (omega (arith, length-append (pre ++ c) (x ∷ []), length-append pre c))),
              v,
              vector_pop-append (pre ++ c) x,
            )
            refl,
        clear_if_done-IsQueue rest c (pre, refl, h),
      )

  pop_front-some :
      (q : PrivateQueue T) (c : List T) (x : T)
      → IsQueue q (x ∷ c)
      → (q' : PrivateQueue T) × (pop_front q ≡ some (x, q')) × IsQueue q' c
  unfolding pop_front
  pop_front-some q c x (pre, e, h) =
      let rest = record q { m_off = suc q.m_off } in
      (
        clear_if_done rest,
        rw
            (
              lt→ltb q.m_off (length q.m_v) (rw e (omega (arith, length-append pre (x ∷ c)))),
              e,
              h,
              get_elem?-length pre x c,
            )
            refl,
        clear_if_done-IsQueue rest c (
          pre ++ x ∷ [],
          e ∙ sym (append_assoc pre (x ∷ []) c),
          omega (arith, length-append pre (x ∷ [])),
        ),
      )

  -- A private queue that holds the elements c, from front to back, in any representation: `size` is
  -- their number; a push puts the new elements behind them; `popBack` and `popFront` take the last and the
  -- first, and leave the others; and with no element both are undefined.
  pub queue_lem :
      (q : PrivateQueue T) (c : List T)
      → IsQueue q c
      → (size q ≡ length c)
        × ((xs : List T) → IsQueue (push_range q xs) (c ++ xs))
        × ((x : T) → IsQueue (emplace q x) (c ++ x ∷ []))
        × (c ≡ [] → (pop_back q ≡ none) × (pop_front q ≡ none))
        × ((xs : List T) (x : T)
            → c ≡ xs ++ x ∷ []
            → (q' : PrivateQueue T) × (pop_back q ≡ some (x, q')) × IsQueue q' xs)
        × ((x : T) (xs : List T)
            → c ≡ x ∷ xs
            → (q' : PrivateQueue T) × (pop_front q ≡ some (x, q')) × IsQueue q' xs)
  queue_lem q c (pre, e, h) = (
    rw e (omega (arith, length-append pre c)),
    λ xs. (pre, rw (e, append_assoc) refl, h),
    λ x. (pre, rw (e, append_assoc) refl, h),
    λ z.
        let empty = subst (λ d. IsQueue q d) z (pre, e, h) in
        (pop_back-none q empty, pop_front-none q empty),
    λ xs x z. pop_back-some q xs x (subst (λ d. IsQueue q d) z (pre, e, h)),
    λ x xs z. pop_front-some q xs x (subst (λ d. IsQueue q d) z (pre, e, h)),
  )
