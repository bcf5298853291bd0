-- ===== src/LocalClassification/Blocks.antt =====
-- One flush and one push of the callback of `classifyLocally`
-- (include/ips4o/local_classification.hpp).
use mathlib.Core.List.Perm
use mathlib.Core.List.{perm_middle}
use ips4o.Prelude.{
  ℕ, suc, ◌+◌, ◌≤◌, ◌<◌, ◌≡◌, ◌≢◌, refl, ap, ◌∙◌, subst, arith, true, some, List, [], ◌∷◌, ◌++◌,
  append_assoc, append-nil, Perm, length, length-append, length-perm, length-take, length-drop,
  take, drop, take-append-drop, update, update_self, update_ne, ℕ_discrete, ◌==◌, lt→ltb, le→leb,
  All, All-append, write_range, write_range-split, to_int,
}
use ips4o.LocalClassification.{Local, push, flush}
use ips4o.LocalClassification.Contents.{
  contents, contents-update, contents-split, flatten, flatten-append,
}

==-of : (m n : ℕ) → m ≡ n → (m == n) ≡ true
==-of m n e = ground arith

one_of : (m n : ℕ) → m ≡ n → to_int (m == n) ≡ 1
one_of m n e = ground arith

none_of : (m n : ℕ) → m ≢ n → to_int (m == n) ≡ 0
none_of m n ne = ground arith

module _ {ℓ} {A : Type ℓ} where
  -- A block written over the front of the gap.
  write-front :
      (pre f gap tail b array : List A) (write : ℕ)
      → array ≡ pre ++ (f ++ (gap ++ tail))
      → write ≡ length pre + length f
      → length b ≤ length gap
      → write_range array write b ≡ pre ++ ((f ++ b) ++ (drop (length b) gap ++ tail))
  write-front pre f gap tail b array write e at h =
      let t = take (length b) gap in
      let d = drop (length b) gap in
      let split : array ≡ (pre ++ f) ++ (t ++ (d ++ tail)) =
        e ∙ rw (append_assoc, ← append_assoc t d tail, take-append-drop) refl in
      ap (λ a. write_range a write b) split
      ∙ write_range-split (pre ++ f) t b (d ++ tail) write (omega (arith, length-append pre f))
          (omega (arith, length-take (length b) gap, h))
      ∙ rw (append_assoc, append_assoc) refl

  -- The value read is the last of its buffer.
  move :
      (b others rest : List A) (v : A)
      → Perm (((b ++ v ∷ []) ++ others) ++ rest) ((b ++ others) ++ v ∷ rest)
  move b others rest v =
      rw (append_assoc, append_assoc, append_assoc)
        (Perm.append_left b (Perm.symm (perm_middle others rest)))

module _ {ℓ} {A : Type ℓ} (classify : A → ℕ) where
  -- The number of elements of a bucket.
  abbrev pub count : ℕ → List A → ℕ
  count i [] = 0
  count i (x ∷ xs) = to_int (classify x == i) + count i xs

module _ {ℓ} {A : Type ℓ} (B k : ℕ) (classify : A → ℕ) where
  -- A full block of elements of one bucket.
  abbrev pub IsBlock : List A → Type 0
  IsBlock b = (length b ≡ B) × (i : ℕ) × All (λ v. classify v ≡ i) b

  -- `seg` is the input, of which `rest` is not yet read.
  pub record Classified (pre seg rest post : List A) (l : Local A) : Type ℓ where
    pub blocks : List (List A)
    pub gap : List A
    pub array : l.array ≡ pre ++ (flatten blocks ++ (gap ++ (rest ++ post)))
    pub write : l.write ≡ length pre + length (flatten blocks)
    pub full : All IsBlock blocks
    pub room : length gap ≡ length (contents k l.buffers)
    pub buffered : (i : ℕ) → All (λ v. classify v ≡ i) (l.buffers i) × (length (l.buffers i) ≤ B)
    pub same : Perm (flatten blocks ++ (contents k l.buffers ++ rest)) seg
    pub sizes :
        (i : ℕ)
        → l.bucket_size i + length (l.buffers i) + count classify i rest ≡ count classify i seg

  pub flush-Classified :
      (pre seg rest post : List A) (l : Local A) (i : ℕ)
      → i < k
      → length (l.buffers i) ≡ B
      → Classified pre seg rest post l
      → (l' : Local A) × (flush B i l ≡ some l')
        × Classified pre seg rest post l'
        × (l'.buffers i ≡ [])
  unfolding flush
  flush-Classified pre seg rest post l i h e c =
      let b = l.buffers i in
      let bs = update l.buffers i [] in
      let f = flatten c.blocks in
      let split = contents-split k i l.buffers h in
      let long = length-perm split in
      let room : B + length (contents k bs) ≡ length c.gap =
        omega (arith, long, length-append b (contents k bs), c.room) in
      let flat : flatten (c.blocks ++ b ∷ []) ≡ f ++ b =
        flatten-append c.blocks (b ∷ []) ∙ ap (λ z. f ++ z) (append-nil b) in
      let fits : l.write + B ≤ length l.array = rw c.array (
        omega (
          arith,
          length-append pre (f ++ (c.gap ++ (rest ++ post))),
          length-append f (c.gap ++ (rest ++ post)),
          length-append c.gap (rest ++ post),
          room,
          c.write,
        )) in
      let l' : Local A = record {
        array = write_range l.array l.write b;
        write = l.write + B;
        buffers = bs;
        bucket_size = update l.bucket_size i (l.bucket_size i + B);
      } in
      (
        l',
        rw (==-of (length b) B e, le→leb (l.write + B) (length l.array) fits) refl,
        record {
          blocks = c.blocks ++ b ∷ [];
          gap = drop B c.gap;
          array =
              write-front pre f c.gap (rest ++ post) b l.array l.write c.array c.write
                (omega (arith, room, e))
              ∙ rw (flat, e) refl;
          write = rw flat (omega (arith, c.write, length-append f b, e));
          full = All-append IsBlock c.blocks (b ∷ []) c.full ((e, i, (c.buffered i).0), tt);
          room = omega (arith, length-drop B c.gap, room);
          buffered = λ j. elim (ℕ_discrete i j) [
            | yes q ↦ rw (update_self l.buffers i [] j q) (tt, omega arith)
            | no ne ↦ rw (update_ne l.buffers i [] j ne) (c.buffered j)
          ];
          same =
              Perm.trans
                (rw (flat, append_assoc)
                  (Perm.append_left f (
                    rw (← append_assoc b (contents k bs) rest)
                      (Perm.append_right rest (Perm.symm split)))))
                c.same;
          sizes = λ j. elim (ℕ_discrete i j) [
            | yes q ↦
                rw
                  (
                    update_self l.buffers i [] j q,
                    update_self l.bucket_size i (l.bucket_size i + B) j q,
                  )
                  (omega (
                    arith,
                    c.sizes i,
                    e,
                    ap (λ n. count classify n rest) q,
                    ap (λ n. count classify n seg) q,
                  ))
            | no ne ↦
                rw
                  (
                    update_ne l.buffers i [] j ne,
                    update_ne l.bucket_size i (l.bucket_size i + B) j ne,
                  )
                  (c.sizes j)
          ];
        },
        update_self l.buffers i [] i refl,
      )

  pub push-Classified :
      (pre seg rest post : List A) (l : Local A) (v : A)
      → classify v < k
      → length (l.buffers (classify v)) < B
      → Classified pre seg (v ∷ rest) post l
      → (bs : ℕ → List A) × (push B l.buffers (classify v) v ≡ some bs)
        × Classified pre seg rest post (record l { buffers = bs })
  unfolding push
  push-Classified pre seg rest post l v h small c =
      let i = classify v in
      let b = l.buffers i in
      let new = b ++ v ∷ [] in
      let bs = update l.buffers i new in
      let others = contents k (update l.buffers i []) in
      let before = contents-split k i l.buffers h in
      let now = contents-update k i l.buffers new h in
      let long : length new ≡ suc (length b) = omega (arith, length-append b (v ∷ [])) in
      (
        bs,
        rw (lt→ltb (length b) B small) refl,
        record {
          blocks = c.blocks;
          gap = c.gap ++ v ∷ [];
          array = c.array ∙ rw (append_assoc c.gap (v ∷ []) (rest ++ post)) refl;
          write = c.write;
          full = c.full;
          room = omega (
            arith,
            length-append c.gap (v ∷ []),
            c.room,
            length-perm before,
            length-perm now,
            long,
            length-append b others,
            length-append new others,
          );
          buffered = λ j. elim (ℕ_discrete i j) [
            | yes q ↦ rw (update_self l.buffers i new j q) (
              All-append (λ u. classify u ≡ j) b (v ∷ [])
                  (subst (λ n. All (λ u. classify u ≡ n) b) q (c.buffered i).0) (q, tt),
              omega (arith, long),
            )
            | no ne ↦ rw (update_ne l.buffers i new j ne) (c.buffered j)
          ];
          same =
              Perm.trans
                (Perm.append_left (flatten c.blocks) (
                  Perm.trans (Perm.append_right rest now) (
                    Perm.trans (move b others rest v)
                      (Perm.append_right (v ∷ rest) (Perm.symm before)))))
                c.same;
          sizes = λ j. elim (ℕ_discrete i j) [
            | yes q ↦
                rw (update_self l.buffers i new j q)
                  (omega (arith, c.sizes j, long, ap (λ n. length (l.buffers n)) q, one_of i j q))
            | no ne ↦ rw (update_ne l.buffers i new j ne) (omega (arith, c.sizes j, none_of i j ne))
          ];
        },
      )
