-- ===== src/BlockPermutation/State.antt =====
-- The whole state of the block permutation of include/ips4o/block_permutation.hpp: its buckets, and the
-- weight of all blocks, whether in the array, in the overflow buffer or in hand.
use ips4o.Prelude.{
  ℕ, zero, suc, ◌+◌, ◌*◌, ◌^◌, ◌≤◌, ◌<◌, ◌≡◌, ◌⊎◌, ◌∙◌, refl, ap, arith, Option, List, [], ◌∷◌,
  ◌++◌, length, drop, All, update, update_self, update_ne, ℕ_discrete, sum, sum-update, le-sum,
  total, total-append, ◌==◌, to_int, none, inl, inr,
}
use ips4o.BucketPointers.{BucketPointers}
use ips4o.BlockPermutation.Slots.{Slot}
use ips4o.BlockPermutation.Invariant.{Bucket, Buckets, Buckets-update, InBucket, tail}

-- The block at the front, if there is one.
abbrev pub front {ℓ} : {X : Type ℓ} → List X → List X
front [] = []
front (x ∷ xs) = x ∷ []

module _ {ℓ} {A : Type ℓ} (B : ℕ) (classify : A → ℕ) where
  -- Whether the first element of a block is of bucket `b`, as a weight.
  abbrev pub weigh : ℕ → List A → ℕ
  weigh b [] = 0
  weigh b (x ∷ xs) = to_int (classify x == b)

  module _ (some_elements : 1 ≤ B) where
    weigh-one : (b : ℕ) (x : List A) → InBucket B classify b x → weigh b x ≡ 1
    weigh-one b [] h = absurd (omega (arith, h.0, some_elements))
    weigh-one b (x ∷ xs) h = let e = h.1.0 in ground arith

    total-weigh :
        (b : ℕ) (ms : List (List A))
        → All (InBucket B classify b) ms
        → total (weigh b) ms ≡ length ms
    total-weigh b [] h = refl
    total-weigh b (x ∷ ms) h = omega (arith, weigh-one b x h.0, total-weigh b ms h.1)

    module _ (m k : ℕ) (first : ℕ → ℕ) (n : ℕ) (rest : List A) (W : (List A → ℕ) → ℕ) where
      -- The overflow buffer, once it is in use, holds the last block of a bucket that has reached the end.
      abbrev pub OverflowFrom : Option (List A) → (ℕ → List (List A)) → Type ℓ
      OverflowFrom overflow moved =
          (overflow ≡ none)
          ⊎ ((o : ℕ) × (o < k) × (1 ≤ length (moved o)) × (first o + length (moved o) ≡ suc m))

      pub OverflowFrom-update :
          (overflow : Option (List A)) (moved : ℕ → List (List A)) (b : ℕ) (ms : List (List A))
          → OverflowFrom overflow moved
          → (first b + length (moved b) ≡ suc m → length ms ≡ length (moved b))
          → OverflowFrom overflow (update moved b ms)
      OverflowFrom-update overflow moved b ms (inl e) h = inl e
      OverflowFrom-update overflow moved b ms (inr (o, ho, more, at)) h =
          let len : length (update moved b ms o) ≡ length (moved o) = elim (ℕ_discrete b o) [
            | yes e ↦
                ap length (update_self moved b ms o e)
                ∙ h (ap (λ z. first z + length (moved z)) e ∙ at)
                ∙ ap (λ z. length (moved z)) e
            | no ne ↦ ap length (update_ne moved b ms o ne)
          ] in
          inr (o, ho, omega (arith, len, more), omega (arith, len, at))

      pub record State (drift : ℕ) (array : List A) (overflow : Option (List A))
          (pointers : ℕ → BucketPointers) (moved unread : ℕ → List (List A)) (hand : List (List A))
          : Type ℓ where
        pub size : length array ≡ n
        pub behind : drop (m * B) array ≡ rest
        pub buckets : Buckets B classify m k first drift array overflow pointers moved unread
        pub stock :
            (f : List A → ℕ)
            → sum k (λ b. total f (moved b)) + sum k (λ b. total f (unread b)) + total f hand ≡ W f
        pub spill : OverflowFrom overflow moved

      -- A bucket has room for the blocks in it and for that in hand.
      pub State-room :
          (room : (b : ℕ) → b < k → first b + W (weigh b) ≤ first (suc b))
          → {drift : ℕ} {array : List A} {overflow : Option (List A)}
            {pointers : ℕ → BucketPointers}
          → {moved unread : ℕ → List (List A)} → (x : List A) (b : ℕ)
          → State drift array overflow pointers moved unread (x ∷ [])
          → b < k
          → InBucket B classify b x
          → first b + suc (length (moved b)) ≤ first (suc b)
      State-room room {moved = moved} {unread} x b h hb here = omega (
        arith,
        room b hb,
        h.stock (weigh b),
        weigh-one b x here,
        total-weigh b (moved b) (h.buckets b hb).placed,
        le-sum k (λ c. total (weigh b) (moved c)) b hb,
      )

      total-put :
          (f : List A → ℕ) (ms : List (List A)) (x : List A)
          → total f (ms ++ x ∷ []) ≡ total f ms + f x
      total-put f ms x = omega (arith, total-append f ms (x ∷ []))

      total-front :
          (f : List A → ℕ) (us : List (List A))
          → total f us ≡ total f (front us) + total f (tail us)
      total-front f [] = refl
      total-front f (x ∷ us) = omega arith

      -- What the step of a bucket makes of the whole.
      pub State-update :
          (ascending : (b : ℕ) → b < k → first b ≤ first (suc b))
          → {d d' : ℕ} {array array' : List A} {overflow overflow' : Option (List A)}
          → {pointers : ℕ → BucketPointers} {bp : BucketPointers} {moved unread : ℕ → List (List A)}
          → {ms us : List (List A)} {hand hand' : List (List A)} (b : ℕ)
          → State d array overflow pointers moved unread hand
          → b < k
          → d ≤ d'
          → length array' ≡ n
          → drop (m * B) array' ≡ rest
          → ((i : ℕ) (y : List A)
              → (i < first b) ⊎ (first (suc b) ≤ i)
              → Slot B m array overflow i y
              → Slot B m array' overflow' i y)
          → Bucket B classify m k first d' array' overflow' bp b ms us
          → ((f : List A → ℕ)
              → total f ms + total f us + total f hand'
                ≡ total f (moved b) + total f (unread b) + total f hand)
          → OverflowFrom overflow' (update moved b ms)
          → State d' array' overflow'
              (update pointers b bp)
              (update moved b ms)
              (update unread b us)
              hand'
      State-update ascending {moved = moved} {unread} {ms} {us} b h hb le size behind keep new same
            spill =
          record {
            size = size;
            behind = behind;
            buckets = Buckets-update B classify m k first ascending b hb h.buckets le keep new;
            stock = λ f. omega (
              arith,
              same f,
              h.stock f,
              sum-update k (total f) moved b ms hb,
              sum-update k (total f) unread b us hb,
            );
            spill = spill;
          }

-- How many blocks are left to be read.
abbrev pub left {ℓ} : {X : Type ℓ} → ℕ → (ℕ → List X) → ℕ
left k unread = sum k (λ b. length (unread b))

pub left-update {ℓ} :
    {X : Type ℓ} (k : ℕ) (unread : ℕ → List X) (b : ℕ) (us : List X)
    → b < k
    → left k (update unread b us) + length (unread b) ≡ left k unread + length us
left-update k unread b us h = sum-update k length unread b us h

-- Blocks that are to be read only become fewer.
abbrev pub Shrinks {ℓ} : {X : Type ℓ} → (before after : ℕ → List X) → Type 0
Shrinks before after = (c : ℕ) → length (after c) ≤ length (before c)

pub Shrinks-update {ℓ} :
    {X : Type ℓ} (unread : ℕ → List X) (b : ℕ) (us : List X)
    → length us ≤ length (unread b)
    → Shrinks unread (update unread b us)
Shrinks-update unread b us h c = elim (ℕ_discrete b c) [
  | yes e ↦ omega (arith, ap length (update_self unread b us c e), ap (λ z. length (unread z)) e)
  | no ne ↦ omega (arith, ap length (update_ne unread b us c ne))
]

tail_le {ℓ} : {X : Type ℓ} (xs : List X) → length (tail xs) ≤ length xs
tail_le [] = omega arith
tail_le (x ∷ xs) = omega arith

pub Shrinks-tail {ℓ} :
    {X : Type ℓ} (unread : ℕ → List X) (b : ℕ) → Shrinks unread (update unread b (tail (unread b)))
Shrinks-tail unread b = Shrinks-update unread b (tail (unread b)) (tail_le (unread b))

pub left-Shrinks {ℓ} :
    {X : Type ℓ} (k : ℕ) (before after : ℕ → List X)
    → Shrinks before after
    → left k after ≤ left k before
left-Shrinks zero before after h = omega arith
left-Shrinks (suc k) before after h = omega (arith, h k, left-Shrinks k before after h)

-- The layout that a run works on: the blocks of bucket `b` belong to the slots from `first b` on, of
-- which there are enough, by the weights `W` of all blocks together; `m` slots fit into the array.
pub record Setting {ℓ} (A : Type ℓ) : Type ℓ where
  pub B : ℕ
  pub classify : A → ℕ
  pub some_elements : 1 ≤ B
  pub m : ℕ
  pub k : ℕ
  pub first : ℕ → ℕ
  pub n : ℕ
  pub rest : List A
  pub W : (List A → ℕ) → ℕ
  pub small : m * B + 2 * B ≤ 2 ^ 63
  pub ascending : (b : ℕ) → b < k → first b ≤ first (suc b)
  pub last : first k ≤ suc m
  pub room : (b : ℕ) → b < k → first b + W (weigh B classify b) ≤ first (suc b)
  pub whole : m * B ≤ n
