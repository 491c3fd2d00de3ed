-- ===== src/Malloc/Delete/Lists.antt =====
-- delete_block of malloclab-s20-bhxxzp/mm.c on the lists that the links stand for.
use cmu.Common.{
  ℕ, ◌+◌, ◌^◌, ◌<◌, ◌≤◌, ◌≡◌, refl, ◌≢◌, ◌∙◌, sym, ap, subst, inl, inr, true, not, List, ◌&&◌, some,
  arith, ◌==◌, Bool-cases, eq_of_==, ne_of_==, ==-false, length, update,
}
use cmu.Malloc.Heap.{Heap}
use cmu.Malloc.SegList.{index_of, delete_block, unlink, unlink_mini, room}
use cmu.Malloc.Fit.{contains}
use cmu.Malloc.Lists.{
  once, Chain, Beyond, IsLists, IsUnlisted, both_of, index-lt, index-mini, IsBlock-header,
  Apart-header, size-header,
}
use cmu.Malloc.Delete.{Deleted, unlink-Deleted, unlink_mini-Deleted}
use cmu.Malloc.Delete.Without.{
  remove, pred, pred-in, contains-remove, remove_still, once-remove, before-pred, Chain-prev,
  Chain-small, Chain-next,
}
use cmu.Malloc.Delete.Frame.{header-listed, Chain-own, Chain-other, Beyond-dropped}

-- The lists with `b` taken out of list `i`.
abbrev pub dropped : (ℕ → List ℕ) → (i b : ℕ) → ℕ → List ℕ
dropped lists i b = update lists i (remove (lists i) b)

module _ (h g : Heap) (lists : ℕ → List ℕ) (b p : ℕ) (l : IsLists h lists)
    (m : contains (lists (index_of h b)) b ≡ true) (prior : p ≡ pred 0 (lists (index_of h b)) b)
    (w : Deleted h g (index_of h b) b p) where
  b_small : b < 2 ^ 64
  b_small =
      let i = index_of h b in
      Chain-small h (both_of i) 0 (h.seg_list i) (lists i) b (l.chain i (index-lt h b)) l.words
        (l.heads i (index-lt h b)) m

  -- What is still listed was listed, and is not `b`.
  dropped-cases :
      (j a : ℕ)
      → j < 14
      → contains (dropped lists (index_of h b) b j) a ≡ true
      → (contains (lists j) a ≡ true) × (a ≢ b)
  dropped-cases j a lt ma = elim (Bool-cases (index_of h b == j)) [
    | inl here ↦
        let e = eq_of_== (index_of h b) j here in
        let r =
          contains-remove (lists (index_of h b)) a b (l.once (index_of h b) (index-lt h b))
            (rw here at ma) in
        (subst (λ n. contains (lists n) a ≡ true) e r.0, r.1)
    | inr there ↦
        let ma' : contains (lists j) a ≡ true = rw there at ma in
        (
          ma',
          λ e.
              let k = l.block j b lt (subst (λ n. contains (lists j) n ≡ true) e ma') in
              absurd (ne_of_== (index_of h b) j there k.index),
        )
  ]

  dropped_still :
      (j a : ℕ)
      → j < 14
      → contains (lists j) a ≡ true
      → a ≢ b
      → contains (dropped lists (index_of h b) b j) a ≡ true
  dropped_still j a lt ma ne = elim (Bool-cases (index_of h b == j)) [
    | inl here ↦ rw here (
        remove_still (lists (index_of h b)) a b
          (subst (λ n. contains (lists n) a ≡ true) (sym (eq_of_== (index_of h b) j here)) ma) ne)
    | inr there ↦ rw there ma
  ]

  Chain-dropped :
      (j : ℕ) → j < 14 → Chain g (both_of j) 0 (g.seg_list j) (dropped lists (index_of h b) b j)
  Chain-dropped j lt = elim (Bool-cases (index_of h b == j)) [
    | inl here ↦ rw here (
        subst (λ n. Chain g (both_of n) 0 (g.seg_list n) (remove (lists (index_of h b)) b))
          (eq_of_== (index_of h b) j here) (Chain-own h g lists b p l m prior w))
    | inr there ↦
        rw there (Chain-other h g lists b p l m prior w j lt (ne_of_== (index_of h b) j there))
  ]

  once-dropped : (j : ℕ) → j < 14 → once (dropped lists (index_of h b) b j) ≡ true
  once-dropped j lt = elim (Bool-cases (index_of h b == j)) [
    | inl here ↦
        rw here (once-remove (lists (index_of h b)) b (l.once (index_of h b) (index-lt h b)))
    | inr there ↦ rw there (l.once j lt)
  ]

  words-dropped : p < 2 ^ 64 → (x : ℕ) → g.mem x < 2 ^ 64
  words-dropped small x =
      let i = index_of h b in
      let n = h.mem (b + 8) in
      elim (Bool-cases (not (p == 0) && (x == p + 8))) [
        | inl at ↦
            let e : x ≡ p + 8 = ground arith in
            let ne : p ≢ 0 = ground arith in
            subst (λ y. g.mem y < 2 ^ 64) (sym e) (rw (w.next ne) (l.words (b + 8)))
        | inr q ↦ elim (Bool-cases (both_of i && (not (n == 0) && (x == n + 16)))) [
          | inl at ↦
              let both : both_of i ≡ true = ground arith in
              let ne : n ≢ 0 = ground arith in
              let e : x ≡ n + 16 = ground arith in
              subst (λ y. g.mem y < 2 ^ 64) (sym e) (rw (w.prev both ne) small)
          | inr r ↦
              subst (λ y. y < 2 ^ 64)
                (sym
                  (w.rest x (λ ne e. absurd (ground arith)) (λ both ne e. absurd (ground arith))))
                (l.words x)
        ]
      ]

  heads-dropped : (j : ℕ) → j < 14 → g.seg_list j < 2 ^ 64
  heads-dropped j lt = elim (Bool-cases (index_of h b == j)) [
    | inl here ↦
        subst (λ n. g.seg_list n < 2 ^ 64) (eq_of_== (index_of h b) j here)
          (elim (Bool-cases (p == 0)) [
            | inl z ↦ rw (w.first (eq_of_== p 0 z)) (l.words (b + 8))
            | inr z ↦ rw (w.head (ne_of_== p 0 z)) (l.heads (index_of h b) (index-lt h b))
          ])
    | inr there ↦ rw (w.others j (ne_of_== (index_of h b) j there)) (l.heads j lt)
  ]

  prior_small : p < 2 ^ 64
  prior_small =
      let i = index_of h b in
      elim (pred-in 0 (lists i) b m) [
        | inl z ↦ omega arith
        | inr y ↦
            subst (λ n. n < 2 ^ 64) (sym prior)
              (Chain-small h (both_of i) 0 (h.seg_list i) (lists i) (pred 0 (lists i) b)
                (l.chain i (index-lt h b)) l.words (l.heads i (index-lt h b)) y)
      ]

  pub IsLists-dropped : IsLists g (dropped lists (index_of h b) b)
  IsLists-dropped = record {
    chain = Chain-dropped;
    block = λ j a lt ma.
        let r = dropped-cases j a lt ma in
        IsBlock-header h g j a (header-listed h g lists b p l m prior w j a lt r.0)
          (l.block j a lt r.0);
    apart = λ j k a d lt lt' ma md ne.
        let r = dropped-cases j a lt ma in
        let s = dropped-cases k d lt' md in
        Apart-header h g a d (header-listed h g lists b p l m prior w j a lt r.0)
          (header-listed h g lists b p l m prior w k d lt' s.0) (l.apart j k a d lt lt' r.0 s.0 ne);
    once = once-dropped;
    words = words-dropped prior_small;
    heads = heads-dropped;
  }

  pub IsUnlisted-dropped : IsUnlisted g (dropped lists (index_of h b) b) b
  IsUnlisted-dropped =
      let i = index_of h b in
      let k = l.block i b (index-lt h b) m in
      let e = header-listed h g lists b p l m prior w i b (index-lt h b) m in
      record {
        aligned = k.aligned;
        small = b_small;
        least = subst (λ n. 16 ≤ n) (sym (size-header h g b e)) k.least;
        apart = λ j a lt ma.
            let r = dropped-cases j a lt ma in
            Apart-header h g b a e (header-listed h g lists b p l m prior w j a lt r.0)
              (l.apart i j b a (index-lt h b) lt m r.0 (λ y. r.1 (sym y)));
      }

-- What delete_block leaves: the list without the block, and the block free to be inserted again.
pub record IsDeleted (h g : Heap) (lists : ℕ → List ℕ) (b : ℕ) : Type 0 where
  pub listed : IsLists g (dropped lists (index_of h b) b)
  pub unlisted : IsUnlisted g (dropped lists (index_of h b) b) b
  pub same_header : g.mem b ≡ h.mem b
  pub remaining :
      (j a : ℕ)
      → j < 14
      → contains (dropped lists (index_of h b) b j) a ≡ true
      → (contains (lists j) a ≡ true) × (a ≢ b)
  pub still :
      (j a : ℕ)
      → j < 14
      → contains (lists j) a ≡ true
      → a ≢ b
      → contains (dropped lists (index_of h b) b j) a ≡ true
  pub headers : (j a : ℕ) → j < 14 → contains (lists j) a ≡ true → g.mem a ≡ h.mem a
  pub untouched :
      (x : ℕ)
      → ((j a : ℕ) → j < 14 → contains (lists j) a ≡ true → Beyond h a x)
      → g.mem x ≡ h.mem x

IsDeleted-Deleted :
    (h g : Heap) (lists : ℕ → List ℕ) (b p : ℕ)
    → IsLists h lists
    → contains (lists (index_of h b)) b ≡ true
    → p ≡ pred 0 (lists (index_of h b)) b
    → Deleted h g (index_of h b) b p
    → IsDeleted h g lists b
IsDeleted-Deleted h g lists b p l m prior w = record {
  listed = IsLists-dropped h g lists b p l m prior w;
  unlisted = IsUnlisted-dropped h g lists b p l m prior w;
  same_header = header-listed h g lists b p l m prior w (index_of h b) b (index-lt h b) m;
  remaining = dropped-cases h g lists b p l m prior w;
  headers = header-listed h g lists b p l m prior w;
  still = dropped_still h g lists b p l m prior w;
  untouched = Beyond-dropped h g lists b p l m prior w;
}

-- A block that its list holds is taken out by delete_block, wherever it stands in the list and however
-- the list is linked: the call never reads through a null pointer, the list is the same without the
-- block, the other lists are as before, all are well formed, the block overlaps none that is still
-- listed, its header stays, and no word outside the free blocks' bodies is written. The list is at most
-- as long as the heap has room for blocks.
pub delete_block_lem :
    (h : Heap) (lists : ℕ → List ℕ) (b : ℕ)
    → IsLists h lists
    → contains (lists (index_of h b)) b ≡ true
    → length (lists (index_of h b)) < room h
    → (g : Heap) × (delete_block b h ≡ some g) × IsDeleted h g lists b
unfolding delete_block
delete_block_lem h lists b l m short =
    let i = index_of h b in
    let k = l.block i b (index-lt h b) m in
    let mini = index-mini h b (l.words b) k.least in
    let c = l.chain i (index-lt h b) in
    let nz : b ≢ 0 = omega (arith, k.aligned) in
    elim (Bool-cases (i == 0)) [
      | inl one_way ↦
          let g = unlink_mini b (pred 0 (lists i) b) h in
          (
            g,
            rw
                (
                  ==-false b 0 nz,
                  mini ∙ one_way,
                  before-pred h (both_of i) 0 (h.seg_list i) (lists i) b (room h) c m short,
                )
                refl,
            IsDeleted-Deleted h g lists b (pred 0 (lists i) b) l m refl
                (unlink_mini-Deleted h b (pred 0 (lists i) b) (ap not one_way)),
          )
      | inr two_way ↦
          let both : both_of i ≡ true = ap not two_way in
          let c' : Chain h true 0 (h.seg_list i) (lists i) =
            subst (λ y. Chain h y 0 (h.seg_list i) (lists i)) both c in
          let e = Chain-prev h 0 (h.seg_list i) (lists i) b c' m in
          let prior-IsBlock = λ (ne : h.mem (b + 16) ≢ 0).
            let at : contains (lists i) (h.mem (b + 16)) ≡ true = elim (pred-in 0 (lists i) b m) [
              | inl z ↦ absurd (ne (e ∙ z))
              | inr y ↦ subst (λ n. contains (lists i) n ≡ true) (sym e) y
            ] in
            l.block i (h.mem (b + 16)) (index-lt h b) at in
          let next-IsBlock = λ (ne : h.mem (b + 8) ≢ 0).
            l.block i (h.mem (b + 8)) (index-lt h b)
              (Chain-next h (both_of i) 0 (h.seg_list i) (lists i) b c m ne) in
          let far =
            λ (ne : h.mem (b + 16) ≢ 0) (ne' : h.mem (b + 8) ≢ 0)
                (z : h.mem (b + 16) + 8 ≡ h.mem (b + 8) + 16).
              absurd {A = ⊥}
                (omega (arith, (prior-IsBlock ne).aligned, (next-IsBlock ne').aligned)) in
          (
            unlink b h,
            rw (==-false b 0 nz, mini ∙ two_way) refl,
            IsDeleted-Deleted h (unlink b h) lists b (h.mem (b + 16)) l m e
                (unlink-Deleted h b both far),
          )
    ]
