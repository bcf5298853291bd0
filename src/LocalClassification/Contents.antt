-- ===== src/LocalClassification/Contents.antt =====
-- What all buffers hold together, and full blocks one behind the other.
use mathlib.Core.List.Perm
use mathlib.Core.List.{perm_middle}
use ips4o.Prelude.{
  ℕ, zero, suc, ◌<◌, ◌≡◌, refl, sym, ap, ◌∙◌, subst, arith, List, [], ◌∷◌, ◌++◌, append_assoc, Perm,
  update, update_self, update_ne, ℕ_discrete,
}

module _ {ℓ} {A : Type ℓ} where
  -- The buffers of the first k buckets.
  abbrev pub contents : ℕ → (ℕ → List A) → List A
  contents zero f = []
  contents (suc k) f = f k ++ contents k f

  contents-ext :
      (k : ℕ) (f g : ℕ → List A) → ((i : ℕ) → i < k → f i ≡ g i) → contents k f ≡ contents k g
  contents-ext zero f g h = refl
  contents-ext (suc k) f g h =
      rw (h k (omega arith), contents-ext k f g (λ i l. h i (omega arith))) refl

  swap_blocks : (xs ys zs : List A) → Perm (xs ++ (ys ++ zs)) (ys ++ (xs ++ zs))
  swap_blocks [] ys zs = Perm.rfl
  swap_blocks (x ∷ xs) ys zs =
      Perm.trans (Perm.cons x (swap_blocks xs ys zs)) (Perm.symm (perm_middle ys (xs ++ zs)))

  pub contents-update :
      (k i : ℕ) (f : ℕ → List A) (v : List A)
      → i < k
      → Perm (contents k (update f i v)) (v ++ contents k (update f i []))
  contents-update zero i f v h = absurd (omega arith)
  contents-update (suc k) i f v h = elim (ℕ_discrete i k) [
    | yes e ↦
        rw (update_self f i v k e, update_self f i [] k e)
          (rw
            (contents-ext k (update f i v) (update f i []) (λ j l.
              update_ne f i v j (λ q. omega arith) ∙ sym (update_ne f i [] j (λ q. omega arith))))
            Perm.rfl)
    | no ne ↦
        rw (update_ne f i v k ne, update_ne f i [] k ne)
          (Perm.trans (Perm.append_left (f k) (contents-update k i f v (omega arith)))
            (swap_blocks (f k) v (contents k (update f i []))))
  ]

  -- One buffer, and the others.
  pub contents-split :
      (k i : ℕ) (f : ℕ → List A) → i < k → Perm (contents k f) (f i ++ contents k (update f i []))
  contents-split k i f h =
      subst (λ z. Perm z (f i ++ contents k (update f i [])))
        (contents-ext k (update f i (f i)) f (λ j l. same j)) (contents-update k i f (f i) h)
    where
      same : (j : ℕ) → update f i (f i) j ≡ f j
      same j = elim (ℕ_discrete i j) [
        | yes e ↦ update_self f i (f i) j e ∙ ap f e
        | no ne ↦ update_ne f i (f i) j ne
      ]

  abbrev pub flatten : List (List A) → List A
  flatten [] = []
  flatten (b ∷ blocks) = b ++ flatten blocks

  pub flatten-append : (bs cs : List (List A)) → flatten (bs ++ cs) ≡ flatten bs ++ flatten cs
  flatten-append [] cs = refl
  flatten-append (b ∷ bs) cs =
      ap (λ z. b ++ z) (flatten-append bs cs) ∙ sym (append_assoc b (flatten bs) (flatten cs))
