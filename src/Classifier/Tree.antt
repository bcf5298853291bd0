-- ===== src/Classifier/Tree.antt =====
-- `build` of include/ips4o/classifier.hpp: the tree in level order.
use ips4o.Prelude.{
  ℕ, zero, suc, ◌+◌, ◌-◌, ◌*◌, ◌/◌, ◌^◌, ◌≤◌, ◌<◌, ◌≡◌, refl, sym, ap, ◌∙◌, arith, ◌⊎◌, true, false,
  inl, inr, ltb, lt→ltb, le→ltb, pow2-suc, pow2-pos, le_of_pow2-lt, pow2-le, update, update_self,
  update_ne, ℕ_discrete, dec_lt,
}
use ips4o.Classifier.{Classifier, build_tree, build}

module _ {ℓ} {A : Type ℓ} (sorted : ℕ → A) (k : ℕ) where
  -- Node `i` of level `l`, with `m` levels below it, holds the middle of its range of splitters.
  abbrev pub IsNode : (ℕ → A) → ℕ → Type ℓ
  IsNode tree q =
      (l m i : ℕ)
      → l + suc m ≡ k
      → q ≡ 2 ^ l + i
      → i < 2 ^ l
      → tree q ≡ sorted ((2 * i + 1) * 2 ^ m - 1)

  -- A position has one level and one place in it.
  position_unique :
      (l i l' i' : ℕ) → i < 2 ^ l → i' < 2 ^ l' → 2 ^ l + i ≡ 2 ^ l' + i' → (l ≡ l') × (i ≡ i')
  position_unique l i l' i' h h' e =
      let a = le_of_pow2-lt l (suc l') (omega (arith, pow2-suc l')) in
      let b = le_of_pow2-lt l' (suc l) (omega (arith, pow2-suc l)) in
      let same : l ≡ l' = omega (arith, a, b) in (same, omega (arith, ap (λ n. 2 ^ n) same))

  update-IsNode :
      (tree : ℕ → A) (l m i q : ℕ)
      → l + suc m ≡ k
      → i < 2 ^ l
      → (IsNode tree q ⊎ (q ≡ 2 ^ l + i))
      → IsNode (update tree (2 ^ l + i) (sorted ((2 * i + 1) * 2 ^ m - 1))) q
  update-IsNode tree l m i q hk hi good l' m' i' hk' hq hi' = elim (ℕ_discrete (2 ^ l + i) q) [
    | yes same ↦
        let (el, ei) = position_unique l i l' i' hi hi' (same ∙ hq) in
        let em : m ≡ m' = omega arith in rw (update_self tree (2 ^ l + i) _ q same) (rw (ei, em))
    | no other ↦
        rw (update_ne tree (2 ^ l + i) _ q other)
          (elim good [ inl g ↦ g l' m' i' hk' hq hi' | inr e ↦ absurd (other (sym e)) ])
  ]

  -- The range of splitters of a node, from which the recursion computes its middle.
  node_mid :
      (i w : ℕ)
      → 1 ≤ w
      → i * (w + w) - 1 + ((suc i) * (w + w) - 1 - (i * (w + w) - 1)) / 2 ≡ (2 * i + 1) * w - 1
  node_mid zero w h = omega arith
  node_mid (suc i) w h = omega arith

  -- The arguments of a call for node `i` of level `l` with `m` levels below it.
  record IsCall (l m i left right pos : ℕ) : Type 0 where
    depth : l + suc m ≡ k
    place : i < 2 ^ l
    at_pos : pos ≡ 2 ^ l + i
    at_left : left ≡ i * 2 ^ suc m - 1
    at_right : right ≡ suc i * 2 ^ suc m - 1

  module _ {l m i left right pos : ℕ} where
    call_mid : IsCall l m i left right pos → left + (right - left) / 2 ≡ (2 * i + 1) * 2 ^ m - 1
    call_mid c = omega (
      arith,
      c.at_left,
      c.at_right,
      node_mid i (2 ^ m) (pow2-pos m),
      pow2-suc m,
      ap (λ (x : ℕ). i * x) (pow2-suc m),
    )

    write-IsNode :
        (tree : ℕ → A) (q : ℕ)
        → IsCall l m i left right pos
        → IsNode tree q ⊎ (q ≡ pos)
        → IsNode (update tree pos (sorted (left + (right - left) / 2))) q
    write-IsNode tree q c good = rw (call_mid c) (
        rw c.at_pos (
          update-IsNode tree l m i q c.depth c.place
            (elim good [ inl g ↦ inl g | inr e ↦ inr (e ∙ c.at_pos) ])))

  module _ {l m i left right pos : ℕ} (c : IsCall l (suc m) i left right pos) where
    IsCall-left : IsCall (suc l) m (2 * i) left (left + (right - left) / 2) (2 * pos)
    IsCall-left = record {
      depth = omega (arith, c.depth);
      place = omega (arith, c.place, pow2-suc l);
      at_pos = omega (arith, c.at_pos, pow2-suc l);
      at_left = omega (arith, c.at_left, ap (λ (x : ℕ). i * x) (pow2-suc (suc m)));
      at_right = omega (arith, call_mid c);
    }

    IsCall-right : IsCall (suc l) m (2 * i + 1) (left + (right - left) / 2) right (2 * pos + 1)
    IsCall-right = record {
      depth = omega (arith, c.depth);
      place = omega (arith, c.place, pow2-suc l);
      at_pos = omega (arith, c.at_pos, pow2-suc l);
      at_left = omega (arith, call_mid c);
      at_right =
          omega (arith, c.at_right, ap (λ (x : ℕ). i * x) (pow2-suc (suc m)), pow2-suc (suc m));
    }

    inner_test : ltb (2 * pos) (2 ^ k) ≡ true
    inner_test = lt→ltb _ _ (omega (arith, c.at_pos, c.place, bound, pow2-suc l, pow2-suc (suc l)))
      where
        bound : 2 ^ suc (suc l) ≤ 2 ^ k
        bound = pow2-le (suc (suc l)) k (omega (arith, c.depth))

  leaf_test : {l i left right pos : ℕ} → IsCall l 0 i left right pos → ltb (2 * pos) (2 ^ k) ≡ false
  leaf_test {l} {pos = pos} c =
      le→ltb _ _ (omega (arith, c.at_pos, pow2-suc l, ap (λ (n : ℕ). 2 ^ n) whole))
    where
      whole : suc l ≡ k
      whole = omega (arith, c.depth)

  build_tree_leaf :
      (tree : ℕ → A) {l i left right pos : ℕ}
      → IsCall l 0 i left right pos
      → build_tree sorted (2 ^ k) 1 left right pos tree
        ≡ update tree pos (sorted (left + (right - left) / 2))
  unfolding build_tree
  build_tree_leaf tree c = rw (leaf_test c, build_tree)

  build_tree_inner :
      (tree : ℕ → A) {l m i left right pos : ℕ}
      → IsCall l (suc m) i left right pos
      → build_tree sorted (2 ^ k) (suc (suc m)) left right pos tree
        ≡ build_tree sorted (2 ^ k) (suc m) (left + (right - left) / 2) right (2 * pos + 1) (
            build_tree sorted
              (2 ^ k)
              (suc m)
              left
              (left + (right - left) / 2)
              (2 * pos)
              (update tree pos (sorted (left + (right - left) / 2))))
  unfolding build_tree
  build_tree_inner tree c = ground (arith, inner_test c)

  -- A call keeps what is right: whatever it writes, it writes where it belongs.
  build_tree-keeps :
      (m : ℕ) (tree : ℕ → A) {l i left right pos : ℕ} (q : ℕ)
      → IsCall l m i left right pos
      → IsNode tree q ⊎ (q ≡ pos)
      → IsNode (build_tree sorted (2 ^ k) (suc m) left right pos tree) q
  build_tree-keeps zero tree q c good = rw (build_tree_leaf tree c) (write-IsNode tree q c good)
  build_tree-keeps (suc m) tree q c good = rw (build_tree_inner tree c) (
      build_tree-keeps m _ q (IsCall-right c)
        (inl (build_tree-keeps m _ q (IsCall-left c) (inl (write-IsNode tree q c good)))))

  -- A call writes every position below its own: those `d` levels down are `pos * 2^d + j`.
  build_tree-covers :
      (m d j : ℕ) (tree : ℕ → A) {l i left right pos : ℕ} (q : ℕ)
      → IsCall l m i left right pos
      → d ≤ m
      → j < 2 ^ d
      → q ≡ pos * 2 ^ d + j
      → IsNode (build_tree sorted (2 ^ k) (suc m) left right pos tree) q
  build_tree-covers m zero j tree q c hd hj e = build_tree-keeps m tree q c (inr (omega arith))
  build_tree-covers zero (suc d) j tree q c hd hj e = absurd (omega arith)
  build_tree-covers (suc m) (suc d) j tree {pos = pos} q c hd hj e = elim (dec_lt j (2 ^ d)) [
    | yes low ↦ rw (build_tree_inner tree c) (
        build_tree-keeps m _ q (IsCall-right c) (
          inl (
            build_tree-covers m d j _ q (IsCall-left c) (omega arith) low
              (omega (arith, e, ap (λ (x : ℕ). pos * x) (pow2-suc d))))))
    | no high ↦ rw (build_tree_inner tree c) (
        build_tree-covers m d (j - 2 ^ d) _ q (IsCall-right c) (omega arith)
          (omega (arith, hj, pow2-suc d)) (omega (arith, e, ap (λ (x : ℕ). pos * x) (pow2-suc d))))
  ]

-- After `build`, the tree holds at node `i` of level `l` the splitter in the middle of its range: the
-- splitter number `(2 i + 1) 2^m - 1`, where `m = log_buckets - l - 1` is the number of levels below.
pub build-IsTree {ℓ} :
    {A : Type ℓ} (c : Classifier A) (k l m i : ℕ)
    → l + suc m ≡ k
    → i < 2 ^ l
    → (build c k).storage (2 ^ l + i) ≡ (build c k).sorted_storage ((2 * i + 1) * 2 ^ m - 1)
unfolding build
build-IsTree {A} c zero l m i hk hi = absurd (omega arith)
build-IsTree {A} c (suc k') l m i hk hi =
    build_tree-covers sorted (suc k') k' l i c.storage (2 ^ l + i) root (omega arith) hi
      (omega arith) l m i hk refl hi
  where
    n : ℕ
    n = 2 ^ suc k' - 1

    sorted : ℕ → A
    sorted = update c.sorted_storage n (c.sorted_storage (n - 1))

    root : IsCall sorted (suc k') 0 k' 0 0 n 1
    root = record {
      depth = omega arith;
      place = omega arith;
      at_pos = omega arith;
      at_left = omega arith;
      at_right = omega arith;
    }
