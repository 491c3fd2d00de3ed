-- ===== src/Malloc/Delete/Frame.antt =====
-- What delete_block of malloclab-s20-bhxxzp/mm.c leaves alone: the headers, and the links of all blocks
-- but the two neighbours in the list.
use cmu.Common.{
  ℕ, ◌+◌, ◌<◌, ◌≤◌, ◌≡◌, refl, ◌≢◌, ◌∙◌, sym, ap, subst, ◌⊎◌, inl, inr, true, false, List, [], ◌∷◌,
  arith, ◌==◌, if◌then◌else◌, Bool-cases, eq_of_==, ne_of_==,
}
use cmu.Malloc.Heap.{Heap, get_size}
use cmu.Malloc.SegList.{index_of}
use cmu.Malloc.Fit.{contains}
use cmu.Malloc.Lists.{
  Chain, Beyond, IsBlock, IsLists, Same, both_of, index-lt, size-wide, Chain-Same,
}
use cmu.Malloc.Delete.{Deleted}
use cmu.Malloc.Delete.Without.{remove, pred, pred-in, Chain-next}
use cmu.Malloc.Delete.Bypass.{Bypass, Chain-Bypass}

module _ (h g : Heap) (lists : ℕ → List ℕ) (b p : ℕ) (l : IsLists h lists)
    (m : contains (lists (index_of h b)) b ≡ true) (before : p ≡ pred 0 (lists (index_of h b)) b)
    (w : Deleted h g (index_of h b) b p) where
  prev_listed : p ≢ 0 → contains (lists (index_of h b)) p ≡ true
  prev_listed ne = elim (pred-in 0 (lists (index_of h b)) b m) [
    | inl z ↦ absurd (ne (before ∙ z))
    | inr y ↦ subst (λ n. contains (lists (index_of h b)) n ≡ true) (sym before) y
  ]

  next_listed : h.mem (b + 8) ≢ 0 → contains (lists (index_of h b)) (h.mem (b + 8)) ≡ true
  next_listed =
      let i = index_of h b in
      Chain-next h (both_of i) 0 (h.seg_list i) (lists i) b (l.chain i (index-lt h b)) m

  prev-IsBlock : p ≢ 0 → IsBlock h (index_of h b) p
  prev-IsBlock ne = l.block (index_of h b) p (index-lt h b) (prev_listed ne)

  pub next-IsBlock : h.mem (b + 8) ≢ 0 → IsBlock h (index_of h b) (h.mem (b + 8))
  next-IsBlock ne = l.block (index_of h b) (h.mem (b + 8)) (index-lt h b) (next_listed ne)

  next_wide : both_of (index_of h b) ≡ true → h.mem (b + 8) ≢ 0 → 32 ≤ get_size h (h.mem (b + 8))
  next_wide both ne =
      size-wide h (index_of h b) (h.mem (b + 8)) (l.words (h.mem (b + 8))) (next-IsBlock ne) both

  pub header-listed : (j a : ℕ) → j < 14 → contains (lists j) a ≡ true → g.mem a ≡ h.mem a
  header-listed j a lt ma =
      let k = l.block j a lt ma in
      let n = h.mem (b + 8) in
      w.rest a (λ ne e. absurd (omega (arith, k.aligned, (prev-IsBlock ne).aligned)))
        (λ both ne e. elim (Bool-cases (a == n)) [
          | inl at ↦ absurd (omega (arith, eq_of_== a n at))
          | inr past ↦ absurd (
              omega (
                arith,
                l.apart j (index_of h b) a n lt (index-lt h b) ma (next_listed ne)
                    (ne_of_== a n past),
                next_wide both ne,
                k.least,
              ))
        ])

  Bypass-listed : Bypass h g (index_of h b) b p (lists (index_of h b))
  Bypass-listed = record {
    headers = λ a ma. header-listed (index_of h b) a (index-lt h b) ma;
    nexts = λ a ma ne.
        w.rest (a + 8) (λ z e. absurd (ne (omega arith)))
          (λ both z e. absurd (
            omega (
              arith,
              (l.block (index_of h b) a (index-lt h b) ma).aligned,
              (next-IsBlock z).aligned,
            )));
    prevs = λ both a ma ne.
        w.rest (a + 16)
          (λ z e. absurd (
            omega (
              arith,
              (l.block (index_of h b) a (index-lt h b) ma).aligned,
              (prev-IsBlock z).aligned,
            )))
          (λ both' z e. absurd (ne (omega arith)));
    link = w.next;
    back = w.prev;
  }

  Same-other : (j a : ℕ) → j < 14 → contains (lists j) a ≡ true → index_of h b ≢ j → Same h g j a
  Same-other j a lt ma d =
      let k = l.block j a lt ma in
      record {
        header = header-listed j a lt ma;
        next =
            w.rest (a + 8)
              (λ z e.
                let y : p ≡ a = omega arith in
                absurd (d (sym (prev-IsBlock z).index ∙ ap (index_of h) y ∙ k.index)))
              (λ both z e. absurd (omega (arith, k.aligned, (next-IsBlock z).aligned)));
        prev = λ wide.
            w.rest (a + 16) (λ z e. absurd (omega (arith, k.aligned, (prev-IsBlock z).aligned)))
              (λ both z e.
                let y : h.mem (b + 8) ≡ a = omega arith in
                absurd (d (sym (next-IsBlock z).index ∙ ap (index_of h) y ∙ k.index)));
      }

  pub Chain-other :
      (j : ℕ) → j < 14 → index_of h b ≢ j → Chain g (both_of j) 0 (g.seg_list j) (lists j)
  Chain-other j lt ne =
      subst (λ n. Chain g (both_of j) 0 n (lists j)) (sym (w.others j ne))
        (Chain-Same h g j 0 (h.seg_list j) (lists j) (l.chain j lt)
          (λ a ma. Same-other j a lt ma ne))

  zero_unlisted : (j : ℕ) → j < 14 → contains (lists j) 0 ≡ false
  zero_unlisted j lt = elim (Bool-cases (contains (lists j) 0)) [
    | inl y ↦ absurd (omega (arith, (l.block j 0 lt y).aligned))
    | inr z ↦ z
  ]

  -- The first link: `b` stands first exactly when no block is before it.
  first_link :
      g.seg_list (index_of h b)
      ≡ (if h.seg_list (index_of h b) == b then h.mem (b + 8) else h.seg_list (index_of h b))
  first_link =
      let i = index_of h b in
      elim (start_lem (h.seg_list i) (lists i) (l.chain i (index-lt h b)) m
        (zero_unlisted i (index-lt h b))) [
          | inl (e, z) ↦ rw e (w.first (before ∙ z))
          | inr (e, z) ↦ rw e (w.head (λ y. z (sym before ∙ y)))
        ]
    where
      start_lem :
          (s : ℕ) (xs : List ℕ)
          → Chain h (both_of (index_of h b)) 0 s xs
          → contains xs b ≡ true
          → contains xs 0 ≡ false
          → ((s == b) ≡ true) × (pred 0 xs b ≡ 0) ⊎ ((s == b) ≡ false) × (pred 0 xs b ≢ 0)
      start_lem s [] c mb z = absurd (cc)
      start_lem s (a ∷ xs) c mb z = elim (Bool-cases (a == b)) [
        | inl at ↦ inl (rw c.0 at, rw at refl)
        | inr past ↦ inr (
          rw c.0 past,
          rw past (λ e. elim (pred-in a xs b (ground arith)) [
            | inl y ↦ absurd (c.1 (sym y ∙ e))
            | inr y ↦ absurd (
                let y' : contains xs 0 ≡ true = subst (λ n. contains xs n ≡ true) e y in
                ground arith)
          ]),
        )
      ]

  pub Chain-own :
      Chain g
        (both_of (index_of h b))
        0
        (g.seg_list (index_of h b))
        (remove (lists (index_of h b)) b)
  Chain-own =
      let i = index_of h b in
      subst (λ n. Chain g (both_of i) 0 n (remove (lists i) b)) (sym first_link)
        (Chain-Bypass h g i b p 0 (h.seg_list i) (lists i) (l.chain i (index-lt h b))
          (l.once i (index-lt h b)) m (zero_unlisted i (index-lt h b)) before Bypass-listed)

  pub Beyond-dropped :
      (x : ℕ)
      → ((j a : ℕ) → j < 14 → contains (lists j) a ≡ true → Beyond h a x)
      → g.mem x ≡ h.mem x
  Beyond-dropped x listed =
      w.rest x
        (λ z e. absurd (
          omega (
            arith,
            listed (index_of h b) p (index-lt h b) (prev_listed z),
            (prev-IsBlock z).least,
          )))
        (λ both z e. absurd (
          omega (
            arith,
            listed (index_of h b) (h.mem (b + 8)) (index-lt h b) (next_listed z),
            next_wide both z,
          )))
