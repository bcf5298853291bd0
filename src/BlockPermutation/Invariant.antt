-- ===== src/BlockPermutation/Invariant.antt =====
-- The state between the steps of the block permutation of include/ips4o/block_permutation.hpp, and how
-- a step on one bucket changes it.
use mathlib.Core.Option.{some-injective}
use ips4o.Prelude.{
  ℕ, zero, suc, ◌+◌, ◌*◌, ◌%◌, ◌^◌, ◌≤◌, ◌<◌, ◌≡◌, ◌≢◌, ◌⊎◌, inl, inr, refl, arith, subst, Option,
  some, List, [], ◌∷◌, ◌++◌, length, length-append, get_elem?, All, update, update_self, update_ne,
  ℕ_discrete, dec_lt,
}
use ips4o.BucketPointers.{BucketPointers}
use ips4o.BlockPermutation.Slots.{Slot}

-- The tail that is left when a block has been taken from the front.
abbrev pub tail {ℓ} : {X : Type ℓ} → List X → List X
tail [] = []
tail (x ∷ xs) = xs

pub get-put {ℓ} :
    {X : Type ℓ} (xs ys : List X) (h : X) (i : ℕ) {y : X}
    → get_elem? ((xs ++ h ∷ []) ++ tail ys) i ≡ some y
    → ((i ≡ length xs) × (h ≡ y))
      ⊎ (((i < length xs) ⊎ (length xs < i)) × (get_elem? (xs ++ ys) i ≡ some y))
get-put [] [] h zero e = inl (refl, some-injective _ _ e)
get-put [] [] h (suc i) e = absurd (cc)
get-put [] (z ∷ ys) h zero e = inl (refl, some-injective _ _ e)
get-put [] (z ∷ ys) h (suc i) e = inr (inr (omega arith), e)
get-put (x ∷ xs) ys h zero e = inr (inl (omega arith), e)
get-put (x ∷ xs) ys h (suc i) e = elim (get-put xs ys h i e) [
  | inl (p, q) ↦ inl (omega (arith, p), q)
  | inr (inl lt, q) ↦ inr (inl (omega (arith, lt)), q)
  | inr (inr lt, q) ↦ inr (inr (omega (arith, lt)), q)
]

pub get-append_left {ℓ} :
    {X : Type ℓ} (xs ys : List X) (i : ℕ) {y : X}
    → get_elem? xs i ≡ some y
    → get_elem? (xs ++ ys) i ≡ some y
get-append_left [] ys i e = absurd (cc)
get-append_left (x ∷ xs) ys zero e = e
get-append_left (x ∷ xs) ys (suc i) e = get-append_left xs ys i e

pub get-append_head {ℓ} :
    {X : Type ℓ} (xs ys : List X) (y : X) → get_elem? (xs ++ y ∷ ys) (length xs) ≡ some y
get-append_head [] ys y = refl
get-append_head (x ∷ xs) ys y = get-append_head xs ys y

module _ {ℓ} {A : Type ℓ} (B : ℕ) (classify : A → ℕ) where
  -- A full block of elements of bucket `b`.
  abbrev pub InBucket : ℕ → List A → Type 0
  InBucket b block = (length block ≡ B) × All (λ v. classify v ≡ b) block

  module _ (m k : ℕ) (first : ℕ → ℕ) where
    -- A read pointer `word`, where the write pointer is `write` and some blocks are yet to be read: it is
    -- at the last of them. Where none is left it is in front of the write pointer; each attempt to read
    -- lets it drift down.
    abbrev pub ReadPointer : (drift word write stop : ℕ) → List (List A) → Type 0
    ReadPointer drift word write stop [] =
        ((word + 2 ^ 63) % 2 ^ 64 < 2 ^ 63 + write)
        × (2 ^ 63 ≤ (word + 2 ^ 63) % 2 ^ 64 + drift + B)
    ReadPointer drift word write stop (x ∷ xs) =
        (word + B ≡ write + length (x ∷ xs) * B) × (stop ≤ m)

    -- Bucket `b`, from its first slot on: blocks that are in their place, then those to be read.
    pub record Bucket (drift : ℕ) (array : List A) (overflow : Option (List A))
        (bp : BucketPointers) (b : ℕ) (moved unread : List (List A)) : Type ℓ where
      pub slots :
          (i : ℕ) {y : List A}
          → get_elem? (moved ++ unread) i ≡ some y
          → Slot B m array overflow (first b + i) y
      pub room : first b + length moved + length unread ≤ first (suc b)
      pub fits : first b + length moved + length unread ≤ suc m
      pub write : bp.ptr.least ≡ (first b + length moved) * B
      pub read :
          ReadPointer drift bp.ptr.most
            ((first b + length moved) * B)
            (first b + length moved + length unread)
            unread
      pub placed : All (InBucket b) moved
      pub pending : All (λ y. (c : ℕ) × (c < k) × InBucket c y) unread

    abbrev pub Buckets :
        (drift : ℕ) (array : List A) (overflow : Option (List A)) (pointers : ℕ → BucketPointers)
        → (moved unread : ℕ → List (List A)) → Type ℓ
    Buckets drift array overflow pointers moved unread =
        (b : ℕ) → b < k → Bucket drift array overflow (pointers b) b (moved b) (unread b)

    -- What a step elsewhere leaves alone.
    Bucket-frame :
        {d d' : ℕ} {array array' : List A} {overflow overflow' : Option (List A)}
        {bp : BucketPointers} {b : ℕ} {moved unread : List (List A)}
        → Bucket d array overflow bp b moved unread
        → d ≤ d'
        → ((i : ℕ) (y : List A)
            → first b ≤ i
            → i < first (suc b)
            → Slot B m array overflow i y
            → Slot B m array' overflow' i y)
        → Bucket d' array' overflow' bp b moved unread
    Bucket-frame {d} {d'} {bp = bp} {b = b} {moved} {unread} h le keep = record {
      slots = λ i {y} e.
          keep (first b + i) y (omega arith)
            (omega (arith, below (moved ++ unread) i e, length-append moved unread, h.room))
            (h.slots i e);
      room = h.room;
      fits = h.fits;
      write = h.write;
      read =
          drift bp.ptr.most ((first b + length moved) * B) (first b + length moved + length unread)
            unread h.read;
      placed = h.placed;
      pending = h.pending;
    }
      where
        below : (xs : List (List A)) (i : ℕ) {y : List A} → get_elem? xs i ≡ some y → i < length xs
        below [] i e = absurd (cc)
        below (x ∷ xs) zero e = omega arith
        below (x ∷ xs) (suc i) e = omega (arith, below xs i e)

        drift :
            (word write stop : ℕ) (xs : List (List A))
            → ReadPointer d word write stop xs
            → ReadPointer d' word write stop xs
        drift word write stop [] r = (r.0, omega (arith, r.1))
        drift word write stop (x ∷ xs) r = r

    module _ (ascending : (b : ℕ) → b < k → first b ≤ first (suc b)) where
      pub first-le : (b c : ℕ) → b ≤ c → c ≤ k → first b ≤ first c
      first-le b zero h hc = let e : b ≡ 0 = omega arith in rw e (omega arith)
      first-le b (suc c) h hc = elim (ℕ_discrete b (suc c)) [
        | yes e ↦ rw e (omega arith)
        | no ne ↦ omega (arith, first-le b c (omega arith) (omega arith), ascending c (omega arith))
      ]

      -- A step on bucket `b` that changes at most the slots of that bucket.
      pub Buckets-update :
          {d d' : ℕ} {array array' : List A} {overflow overflow' : Option (List A)}
          {pointers : ℕ → BucketPointers} {bp : BucketPointers} {moved unread : ℕ → List (List A)}
          {ms us : List (List A)} (b : ℕ)
          → b < k
          → Buckets d array overflow pointers moved unread
          → d ≤ d'
          → ((i : ℕ) (y : List A)
              → (i < first b) ⊎ (first (suc b) ≤ i)
              → Slot B m array overflow i y
              → Slot B m array' overflow' i y)
          → Bucket d' array' overflow' bp b ms us
          → Buckets d' array' overflow'
              (update pointers b bp)
              (update moved b ms)
              (update unread b us)
      Buckets-update {d' = d'} {array' = array'} {overflow' = overflow'} {pointers} {bp} {moved}
            {unread} {ms} {us} b hb h le keep new c hc =
          elim (ℕ_discrete b c) [
            | yes e ↦
                rw
                  (
                    update_self pointers b bp c e,
                    update_self moved b ms c e,
                    update_self unread b us c e,
                  )
                  (subst (λ z. Bucket d' array' overflow' bp z ms us) e new)
            | no ne ↦
                rw
                  (
                    update_ne pointers b bp c ne,
                    update_ne moved b ms c ne,
                    update_ne unread b us c ne,
                  )
                  (Bucket-frame (h c hc) le (λ i y lo hi. keep i y (outside i lo hi ne)))
          ]
        where
          outside :
              (i : ℕ)
              → first c ≤ i
              → i < first (suc c)
              → b ≢ c
              → (i < first b) ⊎ (first (suc b) ≤ i)
          outside i lo hi ne = elim (dec_lt c b) [
            | yes lt ↦ inl (omega (arith, first-le (suc c) b (omega arith) (omega arith)))
            | no ge ↦ inr (omega (arith, first-le (suc b) c (omega arith) (omega arith)))
          ]
