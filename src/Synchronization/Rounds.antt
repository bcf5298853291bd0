-- ===== src/Synchronization/Rounds.antt =====
-- The rounds of `Barrier::barrier` of include/ips4o/synchronization.hpp.
use ips4o.Prelude.{
  ℕ, suc, ◌+◌, ◌≤◌, ◌≡◌, ◌≢◌, refl, sym, ap, subst, arith, Bool, true, false, not, List, [], ◌∷◌,
  ◌++◌, length, length-append, All, All-append, All-append_left, All-append_right, All-imp,
}
use ips4o.Synchronization.{
  Place, outside, waiting, Party, at, Barrier, new_barrier, Act, Step, Reaches,
}

-- The calls of `barrier` that a thread has made.
abbrev pub entered : Party → ℕ
entered t = elim t.place [ outside ↦ t.passed | waiting f ↦ suc t.passed ]

-- Whether the thread waits in the round of the flag.
abbrev here_in : Bool → Place → ℕ
here_in true (waiting true) = 1
here_in true (waiting false) = 0
here_in false (waiting true) = 0
here_in false (waiting false) = 1
here_in flag outside = 0

here_in-le : (flag : Bool) (p : Place) → here_in flag p ≤ 1
here_in-le true (waiting true) = omega arith
here_in-le true (waiting false) = omega arith
here_in-le false (waiting true) = omega arith
here_in-le false (waiting false) = omega arith
here_in-le true outside = omega arith
here_in-le false outside = omega arith

abbrev count : Bool → List Party → ℕ
count flag [] = 0
count flag (t ∷ ts) = here_in flag t.place + count flag ts

count-append :
    (flag : Bool) (ts us : List Party) → count flag (ts ++ us) ≡ count flag ts + count flag us
count-append flag [] us = omega arith
count-append flag (t ∷ ts) us = omega (arith, count-append flag ts us)

count-le : (flag : Bool) (ts : List Party) → count flag ts ≤ length ts
count-le flag [] = omega arith
count-le flag (t ∷ ts) = omega (arith, count-le flag ts, here_in-le flag t.place)

-- In round r, a thread is outside, or waits in this round, or is still to wake from the last one.
abbrev InRound : ℕ → Bool → Party → Type 0
InRound r flag t = elim t.place [
  | outside ↦ t.passed ≡ r
  | waiting f ↦ suc t.passed ≡ r + here_in flag (waiting f)
]

-- Everyone waits.
everyone_here :
    (flag : Bool) (ts : List Party)
    → count flag ts ≡ length ts
    → All (λ t. here_in flag t.place ≡ 1) ts
everyone_here flag [] e = tt
everyone_here flag (t ∷ ts) e =
    let one = here_in-le flag t.place in
    let few = count-le flag ts in (omega arith, everyone_here flag ts (omega arith))

next_round :
    (r : ℕ) (flag : Bool) (t : Party)
    → here_in flag t.place ≡ 1
    → InRound r flag t
    → InRound (suc r) (not flag) t × (here_in (not flag) t.place ≡ 0)
next_round r flag t here ok = go flag t.place t.passed here ok
  where
    go :
        (flag : Bool) (p : Place) (n : ℕ)
        → here_in flag p ≡ 1
        → InRound r flag (at p n)
        → InRound (suc r) (not flag) (at p n) × (here_in (not flag) p ≡ 0)
    go true outside n h ok = absurd (omega arith)
    go false outside n h ok = absurd (omega arith)
    go true (waiting true) n h ok = (omega (arith, ok), refl)
    go true (waiting false) n h ok = absurd (omega arith)
    go false (waiting true) n h ok = absurd (omega arith)
    go false (waiting false) n h ok = (omega (arith, ok), refl)

next_rounds :
    (r : ℕ) (flag : Bool) (ts : List Party)
    → All (λ t. here_in flag t.place ≡ 1) ts
    → All (InRound r flag) ts
    → All (InRound (suc r) (not flag)) ts × (count (not flag) ts ≡ 0)
next_rounds r flag [] h k = (tt, refl)
next_rounds r flag (t ∷ ts) (h, hs) (k, ks) =
    let (a, z) = next_round r flag t h k in
    let (others, zs) = next_rounds r flag ts hs ks in ((a, others), omega (arith, z, zs))

record Inv (b : Barrier) (ts : List Party) : Type 0 where
  round : ℕ
  in_round : All (InRound round b.flag) ts
  counted : b.hit_count + count b.flag ts ≡ length ts
  some_left : 1 ≤ b.hit_count
  everyone : b.init_count ≡ length ts

here_self : (flag : Bool) → here_in flag (waiting flag) ≡ 1
here_self true = refl
here_self false = refl

here_other : (f flag : Bool) → f ≢ flag → here_in flag (waiting f) ≡ 0
here_other true true ne = absurd (ne refl)
here_other true false ne = refl
here_other false true ne = refl
here_other false false ne = absurd (ne refl)

here_outside : (flag : Bool) → here_in flag outside ≡ 0
here_outside true = refl
here_outside false = refl

Step-Inv : {b b' : Barrier} {ts ts' : List Party} → Step b ts b' ts' → Inv b ts → Inv b' ts'
Step-Inv (Step.move pre post t t' b b' (Act.last _ n e)) inv =
    let l = All-append_left (InRound inv.round b.flag) pre (at outside n ∷ post) inv.in_round in
    let m = All-append_right (InRound inv.round b.flag) pre (at outside n ∷ post) inv.in_round in
    let long = length-append pre (at outside n ∷ post) in
    let sum = count-append b.flag pre (at outside n ∷ post) in
    let z = here_outside b.flag in
    let few = count-le b.flag pre in
    let few' = count-le b.flag post in
    let (front, none_front) =
      next_rounds inv.round b.flag pre
        (everyone_here b.flag pre (omega (arith, inv.counted, e, long, sum, z, few, few'))) l in
    let (back, none_back) =
      next_rounds inv.round b.flag post
        (everyone_here b.flag post (omega (arith, inv.counted, e, long, sum, z, few, few'))) m.1 in
    let after = at outside (suc n) ∷ post in
    record {
      round = suc inv.round;
      in_round =
          All-append (InRound (suc inv.round) (not b.flag)) pre after front
            (omega (arith, m.0), back);
      counted = omega (
        arith,
        inv.everyone,
        long,
        length-append pre after,
        count-append (not b.flag) pre after,
        none_front,
        none_back,
        here_outside (not b.flag),
      );
      some_left = omega (arith, inv.everyone, long);
      everyone = omega (arith, inv.everyone, long, length-append pre after);
    }
Step-Inv (Step.move pre post t t' b b' (Act.wait _ n ne)) inv =
    let l = All-append_left (InRound inv.round b.flag) pre (at outside n ∷ post) inv.in_round in
    let m = All-append_right (InRound inv.round b.flag) pre (at outside n ∷ post) inv.in_round in
    let z = here_outside b.flag in
    let o = here_self b.flag in
    record {
      round = inv.round;
      in_round =
          All-append (InRound inv.round b.flag) pre (at (waiting b.flag) n ∷ post) l
            (omega (arith, m.0), m.1);
      counted = omega (
        arith,
        inv.counted,
        count-append b.flag pre (at outside n ∷ post),
        count-append b.flag pre (at (waiting b.flag) n ∷ post),
        length-append pre (at outside n ∷ post),
        length-append pre (at (waiting b.flag) n ∷ post),
        inv.some_left,
      );
      some_left = omega (arith, inv.some_left);
      everyone = omega (
        arith,
        inv.everyone,
        length-append pre (at outside n ∷ post),
        length-append pre (at (waiting b.flag) n ∷ post),
      );
    }
Step-Inv (Step.move pre post t t' b b' (Act.wake _ f n ne)) inv =
    let l = All-append_left (InRound inv.round b.flag) pre (at (waiting f) n ∷ post) inv.in_round in
    let m =
      All-append_right (InRound inv.round b.flag) pre (at (waiting f) n ∷ post) inv.in_round in
    let z = here_other f b.flag ne in
    let after = at outside (suc n) ∷ post in
    let long = length-append pre (at (waiting f) n ∷ post) in
    record {
      round = inv.round;
      in_round = All-append (InRound inv.round b.flag) pre after l (omega (arith, m.0, z), m.1);
      counted = omega (
        arith,
        inv.counted,
        long,
        length-append pre after,
        count-append b.flag pre (at (waiting f) n ∷ post),
        count-append b.flag pre after,
        z,
        here_outside b.flag,
      );
      some_left = inv.some_left;
      everyone = omega (arith, inv.everyone, long, length-append pre after);
    }

start-Inv :
    (flag : Bool) (ts : List Party)
    → 1 ≤ length ts
    → All (λ t. t ≡ at outside 0) ts
    → Inv (new_barrier (length ts) flag) ts
start-Inv flag ts some h = record {
  round = 0;
  in_round = All-imp (λ t. t ≡ at outside 0) ts (λ t e. subst (InRound 0 flag) (sym e) refl) h;
  counted = omega (arith, none_here flag ts h);
  some_left = some;
  everyone = refl;
}
  where
    none_here : (flag : Bool) (ts : List Party) → All (λ t. t ≡ at outside 0) ts → count flag ts ≡ 0
    none_here flag [] h = refl
    none_here flag (t ∷ ts) (e, h) =
        omega (arith, ap (λ t. here_in flag t.place) e, here_outside flag, none_here flag ts h)

Reaches-Inv :
    {b : Barrier} {ts : List Party} {b' : Barrier} {ts' : List Party}
    → Reaches b ts b' ts'
    → Inv b ts
    → Inv b' ts'
Reaches-Inv Reaches.start inv = inv
Reaches-Inv (Reaches.then_step r s) inv = Step-Inv s (Reaches-Inv r inv)

-- A thread has returned from at most r calls, and made at least r.
between : (r : ℕ) (flag : Bool) (t : Party) → InRound r flag t → (t.passed ≤ r) × (r ≤ entered t)
between r flag t ok = go t.place t.passed ok
  where
    go : (p : Place) (n : ℕ) → InRound r flag (at p n) → (n ≤ r) × (r ≤ entered (at p n))
    go outside n ok = (omega arith, omega arith)
    go (waiting f) n ok =
        let few = here_in-le flag (waiting f) in (omega (arith, ok), omega (arith, ok))

-- For a barrier for all of at least one threads, in every interleaving of their steps: a thread returns
-- from a call of `barrier` only when every thread has made that call, for each call in turn: no thread
-- has returned from more calls than another has made.
pub Reaches-passed :
    (flag : Bool) (ts : List Party)
    → 1 ≤ length ts
    → All (λ t. t ≡ at outside 0) ts
    → (b' : Barrier) (ts' : List Party) → Reaches (new_barrier (length ts) flag) ts b' ts'
    → All (λ t. All (λ u. t.passed ≤ entered u) ts') ts'
Reaches-passed flag ts some h b' ts' r =
    let inv = Reaches-Inv r (start-Inv flag ts some h) in
    All-imp (InRound inv.round b'.flag) ts'
      (λ t ok.
        All-imp (InRound inv.round b'.flag) ts'
          (λ u ok'.
            omega (arith, (between inv.round b'.flag t ok).0, (between inv.round b'.flag u ok').1))
          inv.in_round)
      inv.in_round
