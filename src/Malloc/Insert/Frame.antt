-- ===== src/Malloc/Insert/Frame.antt =====
-- What insert_block of malloclab-s20-bhxxzp/mm.c leaves alone: the headers, and the links of all blocks
-- but the new one and the one that was first.
use cmu.Common.{
  ℕ, ◌+◌, ◌<◌, ◌≤◌, ◌≡◌, ◌≢◌, sym, inl, inr, true, List, arith, ◌==◌, Bool-cases, eq_of_==,
  ne_of_==,
}
use cmu.Malloc.Heap.{Heap, get_size}
use cmu.Malloc.SegList.{index_of}
use cmu.Malloc.Fit.{contains}
use cmu.Malloc.Lists.{
  IsLists-first, Apart, IsBlock, both_of, IsLists, Same, size-wide, IsUnlisted, IsUnlisted-IsBlock,
  index-lt,
}
use cmu.Malloc.Insert.{Inserted}

module _ (h g : Heap) (lists : ℕ → List ℕ) (b : ℕ) (l : IsLists h lists) (u : IsUnlisted h lists b)
    (w : Inserted h g (index_of h b) b) where
  pub front_wide :
      both_of (index_of h b) ≡ true
      → h.seg_list (index_of h b) ≢ 0
      → 32 ≤ get_size h (h.seg_list (index_of h b))
  front_wide both ne =
      let i = index_of h b in
      let m = IsLists-first l i (index-lt h b) ne in
      size-wide h i (h.seg_list i) (l.words (h.seg_list i))
        (l.block i (h.seg_list i) (index-lt h b) m) both

  pub front-IsBlock :
      h.seg_list (index_of h b) ≢ 0 → IsBlock h (index_of h b) (h.seg_list (index_of h b))
  front-IsBlock ne =
      let i = index_of h b in
      l.block i (h.seg_list i) (index-lt h b) (IsLists-first l i (index-lt h b) ne)

  pub front-Apart :
      (j a : ℕ)
      → j < 14
      → contains (lists j) a ≡ true
      → h.seg_list (index_of h b) ≢ 0
      → a ≢ h.seg_list (index_of h b)
      → Apart h (h.seg_list (index_of h b)) a
  front-Apart j a lt m ne d =
      let i = index_of h b in
      l.apart i j (h.seg_list i) a (index-lt h b) lt (IsLists-first l i (index-lt h b) ne) m
        (λ e. d (sym e))

  pub own_wide : both_of (index_of h b) ≡ true → 32 ≤ get_size h b
  own_wide both = size-wide h (index_of h b) b (l.words b) (IsUnlisted-IsBlock u) both

  -- The headers stay.
  pub header-listed : (j a : ℕ) → j < 14 → contains (lists j) a ≡ true → g.mem a ≡ h.mem a
  header-listed j a lt m =
      let k = l.block j a lt m in
      let f = h.seg_list (index_of h b) in
      w.rest a (ground (arith, k.aligned, u.aligned))
        (λ both. λ e. absurd (omega (arith, u.apart j a lt m, own_wide both, k.least)))
        (λ both ne. λ e. elim (Bool-cases (a == f)) [
          | inl at ↦ absurd (omega (arith, eq_of_== a f at))
          | inr past ↦ absurd (
              omega
                (arith, front-Apart j a lt m ne (ne_of_== a f past), front_wide both ne, k.least))
        ])

  pub header-own : g.mem b ≡ h.mem b
  header-own =
      let i = index_of h b in
      let f = h.seg_list i in
      w.rest b (omega arith) (λ both. omega arith)
        (λ both ne. λ e.
          let m = IsLists-first l i (index-lt h b) ne in
          absurd (omega (arith, u.apart i f (index-lt h b) m, front_wide both ne, u.least)))

  pub Same-listed :
      (j a : ℕ)
      → j < 14
      → contains (lists j) a ≡ true
      → a ≢ h.seg_list (index_of h b)
      → Same h g j a
  Same-listed j a lt m d =
      let k = l.block j a lt m in
      record {
        header = header-listed j a lt m;
        next =
            w.rest (a + 8) (λ e. absurd (omega (arith, u.apart j a lt m, u.least, k.least)))
              (λ both. λ e. absurd (omega (arith, k.aligned, u.aligned)))
              (λ both ne. λ e. absurd (omega (arith, k.aligned, (front-IsBlock ne).aligned)));
        prev = λ wide.
            w.rest (a + 16) (λ e. absurd (omega (arith, k.aligned, u.aligned)))
              (λ both. λ e. absurd (
                omega (arith, u.apart j a lt m, own_wide both, size-wide h j a (l.words a) k wide)))
              (λ both ne. λ e. absurd (d (omega arith)));
      }
