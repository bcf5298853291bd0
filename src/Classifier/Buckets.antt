-- ===== src/Classifier/Buckets.antt =====
-- The bucket numbers of `classify` of include/ips4o/classifier.hpp.
use ips4o.Prelude.{
  ℕ, ◌+◌, ◌-◌, ◌*◌, ◌^◌, ◌≤◌, ◌<◌, ◌≡◌, refl, ap, ◌∙◌, arith, Bool, true, false, not, ◌&&◌,
  Bool-cases, inl, inr, ltb, ltb→lt, ltb→le, lt→ltb, le→ltb, to_int, pow2-le, IsStrictWeak,
  lt_of_le_lt, lt_of_lt_le, if◌then◌else◌, dec_lt, update_self, update_ne,
}
use ips4o.Classifier.{Classifier, build, descend, classify, equal_step}
use ips4o.Classifier.Tree.{build-IsTree}
use ips4o.Classifier.Rank.{count_less, IsAscending, count_less-le, less-iff_rank, descend-rank}

module _ {ℓ} {A : Type ℓ} (comp : A → A → Bool) (w : IsStrictWeak comp) where
  -- Neither is less than the other.
  abbrev pub same : A → A → Bool
  same a b = not (comp a b) && not (comp b a)

  -- The bucket of `v` by counting, with the equality bucket of a splitter behind the bucket of the
  -- values below it. No splitter follows the last one: the odd bucket is taken there.
  abbrev pub bucket_of : (ℕ → A) → ℕ → Bool → A → ℕ
  bucket_of s n equal_buckets v =
      let r = count_less comp s n v in
      if equal_buckets then 2 * r + (if ltb r n then to_int (same v (s r)) else 1) else r

  module _ (c : Classifier A) (k : ℕ) (pos : 1 ≤ k) where
    abbrev n : ℕ
    n = 2 ^ k - 1

    one_splitter : 2 ≤ 2 ^ k
    one_splitter = pow2-le 1 k pos

    last_splitter : n - 1 < n
    last_splitter = omega (arith, one_splitter)

    log_buckets-build : (build c k).log_buckets ≡ k
    unfolding build
    log_buckets-build = refl

    num_buckets-build : (build c k).num_buckets ≡ 2 ^ k
    unfolding build
    num_buckets-build = refl

    sorted-low : (j : ℕ) → j < n → (build c k).sorted_storage j ≡ c.sorted_storage j
    unfolding build
    sorted-low j h = update_ne c.sorted_storage n (c.sorted_storage (n - 1)) j (omega arith)

    sorted-top : (build c k).sorted_storage n ≡ c.sorted_storage (n - 1)
    unfolding build
    sorted-top = update_self c.sorted_storage n (c.sorted_storage (n - 1)) n refl

    module _ (asc : IsAscending comp c.sorted_storage n) (v : A) where
      rank : ℕ
      rank = count_less comp c.sorted_storage n v

      descend-build : descend comp (build c k).storage v k 1 ≡ 2 ^ k + rank
      unfolding rank
      descend-build =
          descend-rank comp (build c k).storage (build c k).sorted_storage k rank v
            (build-IsTree c k)
            (λ j h.
              ap (λ x. comp x v) (sorted-low j h)
              ∙ less-iff_rank comp w c.sorted_storage n v asc j h)
            k 0 0 (omega arith) (omega arith) (omega arith) (omega arith)
            (omega (arith, count_less-le comp c.sorted_storage n v, one_splitter))

      step-build :
          equal_step comp (build c k).sorted_storage (2 ^ k) v (2 ^ k + rank)
          ≡ 2 * (2 ^ k + rank) + to_int (not (comp v ((build c k).sorted_storage rank)))
      unfolding equal_step
      step-build = let e : 2 ^ k + rank - 2 ^ k ≡ rank = omega arith in rw e

      -- The comparison with the splitter at the rank, or with the duplicate of the last one.
      step-test :
          to_int (not (comp v ((build c k).sorted_storage rank)))
          ≡ (if ltb rank n then to_int (same v (c.sorted_storage rank)) else 1)
      unfolding rank
      step-test = elim (Bool-cases (ltb rank n)) [
        | inl low ↦
            let h = ltb→lt rank n low in
            ground (arith, sorted-low rank h, less-iff_rank comp w c.sorted_storage n v asc rank h)
        | inr top ↦
            let e : rank ≡ n =
              omega (arith, ltb→le rank n top, count_less-le comp c.sorted_storage n v) in
            let below = less-iff_rank comp w c.sorted_storage n v asc (n - 1) last in
            rw (e, sorted-top)
              (ground (arith, below, w.trans v (c.sorted_storage (n - 1)) v, w.irrefl v, last, e))
      ]
        where
          last : n - 1 < n
          last = last_splitter

      -- For a strict weak order and 2^k - 1 ascending splitters, where k is at least one, the
      -- branch-free walk over the built tree gives the bucket found by counting the splitters that
      -- are less than the value, with and without equality buckets.
      pub classify_lem :
          (equal_buckets : Bool)
          → classify comp (build c k) equal_buckets v ≡ bucket_of c.sorted_storage n equal_buckets v
      unfolding classify rank
      classify_lem true =
          rw (log_buckets-build, num_buckets-build, descend-build, step-build, step-test)
            (drop_base (2 ^ k) rank _)
        where
          drop_base : (a r x : ℕ) → 2 * (a + r) + x - 2 * a ≡ 2 * r + x
          drop_base a r x = omega arith
      classify_lem false = rw (log_buckets-build, num_buckets-build, descend-build) (omega arith)

      -- The bucket number stays below the number of buckets, doubled with equality buckets.
      bucket_of-lt :
          (equal_buckets : Bool)
          → bucket_of c.sorted_storage n equal_buckets v
            < (if equal_buckets then 2 * 2 ^ k else 2 ^ k)
      bucket_of-lt true = ground (arith, count_less-le comp c.sorted_storage n v, one_splitter)
      bucket_of-lt false = omega (arith, count_less-le comp c.sorted_storage n v, one_splitter)

    module _ (asc : IsAscending comp c.sorted_storage n) (a b : A) where
      rank-separates :
          count_less comp c.sorted_storage n a < count_less comp c.sorted_storage n b
          → comp a b ≡ true
      rank-separates h =
          let s = c.sorted_storage in
          let r = count_less comp s n a in
          let inside : r < n = omega (arith, count_less-le comp s n b) in
          let ge = less-iff_rank comp w s n a asc r inside ∙ le→ltb r r (omega arith) in
          let lt = less-iff_rank comp w s n b asc r inside ∙ lt→ltb r _ h in
          lt_of_le_lt comp w a (s r) b ge lt

      -- At one rank only the equality bucket tells values apart.
      equal-separates :
          (r : ℕ)
          → r < n
          → count_less comp c.sorted_storage n a ≡ r
          → to_int (same a (c.sorted_storage r)) < to_int (same b (c.sorted_storage r))
          → comp a b ≡ true
      equal-separates r h e lt =
          let s = c.sorted_storage in
          let ge : comp (s r) a ≡ false =
            less-iff_rank comp w s n a asc r h ∙ le→ltb r _ (omega arith) in
          let below : comp a (s r) ≡ true = ground arith in
          let above : comp b (s r) ≡ false = ground arith in
          lt_of_lt_le comp w a (s r) b below above

      bucket_of-separates :
          (equal_buckets : Bool)
          → bucket_of c.sorted_storage n equal_buckets a
            < bucket_of c.sorted_storage n equal_buckets b
          → comp a b ≡ true
      bucket_of-separates false h = rank-separates h
      bucket_of-separates true h =
          elim (dec_lt (count_less comp c.sorted_storage n a)
            (count_less comp c.sorted_storage n b)) [
              | yes lt ↦ rank-separates lt
              | no ge ↦ ground (
                arith,
                count_less-le comp c.sorted_storage n b,
                equal-separates (count_less comp c.sorted_storage n b),
              )
            ]

    -- For a strict weak order and 2^k - 1 ascending splitters, where k is at least one,
    -- partitioning by bucket numbers is sound, with and without equality buckets: bucket numbers
    -- are below the number of buckets, and a value in a lower bucket is less than every value in a
    -- higher one.
    pub classify-separates :
        IsAscending comp c.sorted_storage n
        → (equal_buckets : Bool) (a b : A)
        → (classify comp (build c k) equal_buckets a < (if equal_buckets then 2 * 2 ^ k else 2 ^ k))
          × (classify comp (build c k) equal_buckets a < classify comp (build c k) equal_buckets b
              → comp a b ≡ true)
    classify-separates asc equal_buckets a b =
        rw (classify_lem asc a equal_buckets, classify_lem asc b equal_buckets)
          (bucket_of-lt asc a equal_buckets, bucket_of-separates asc a b equal_buckets)
