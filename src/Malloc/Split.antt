-- ===== src/Malloc/Split.antt =====
-- split_block of malloclab-s20-bhxxzp/mm.c, once the block is out of its list: what it writes.
pub mod Listed
pub mod Taken
use cmu.Common.{
  ℕ, ◌+◌, ◌-◌, ◌*◌, ◌/◌, ◌%◌, ◌^◌, ◌<◌, ◌≤◌, ◌≡◌, refl, ◌≢◌, ◌∙◌, sym, ap, subst, ◌⊎◌, inl, inr,
  Bool, true, false, List, [], ◌∷◌, arith, ◌==◌, if◌then◌else◌, ==-false,
}
use cmu.Malloc.Word.{pack, extract_size, extract_alloc, extract_prev_alloc}
use cmu.Malloc.Heap.{
  Heap, get_size, get_alloc, get_prev_alloc, get_prev_mini, store, find_next, write_header,
  write_footer, header_to_footer, set_nextblock_prev_alloc,
}
use cmu.Malloc.SegList.{insert_block}
use cmu.Malloc.Alloc.{split_off, take_whole}
use cmu.Malloc.Fit.{contains}
use cmu.Malloc.Packing.{pack_lem}
use cmu.Malloc.Lists.{IsLists, IsUnlisted, size-aligned, size-header}
use cmu.Malloc.Quiet.{Outside, Quiet-IsLists, kept}
use cmu.Malloc.Way.{
  mem-store_self, mem-store_ne, OnTheWay, own-Outside, OnTheWay-refl, own_write, end_write,
}

-- The headers of the two parts.
abbrev pub taken_word : Heap → (b asize : ℕ) → ℕ
taken_word h b asize = pack asize true true (get_prev_mini h b)

abbrev pub spare_word : Heap → (b asize : ℕ) → ℕ
spare_word h b asize = pack (get_size h b - asize) false true (get_size h b == 16)

-- The four writes to the block, and the one to the header behind it.
abbrev pub taken_heap : Heap → (b asize : ℕ) → Heap
taken_heap h b asize =
    store (b + 8 + asize - 16) (taken_word h b asize) (store b (taken_word h b asize) h)

abbrev pub parted_heap : Heap → (b asize : ℕ) → Heap
parted_heap h b asize =
    store (b + asize + 8 + (get_size h b - asize) - 16) (spare_word h b asize)
      (store (b + asize) (spare_word h b asize) (taken_heap h b asize))

abbrev pub end_heap : Heap → ℕ → Heap → (prev_alloc mini : Bool) → Heap
end_heap h b t prev_alloc mini =
    let n = b + get_size h b in store n (pack (get_size t n) (get_alloc t n) prev_alloc mini) t

module _ (h : Heap) (lists : ℕ → List ℕ) (b asize : ℕ) (l : IsLists h lists)
    (u : IsUnlisted h lists b)
    (out : (j a : ℕ) → j < 14 → contains (lists j) a ≡ true → Outside h a (b + get_size h b))
    (even : asize % 16 ≡ 0) (least : 16 ≤ asize) (fit : asize ≤ get_size h b) where
  size_small : get_size h b ≤ 2 ^ 64 - 16
  unfolding get_size extract_size
  size_small = omega (arith, l.words b)

  taken_small : taken_word h b asize < 2 ^ 64
  taken_small = omega (arith, (pack_lem asize true true (get_prev_mini h b) even).4, size_small)

  pub taken_parts :
      (extract_size (taken_word h b asize) ≡ asize)
      × (extract_alloc (taken_word h b asize) ≡ true)
      × (extract_prev_alloc (taken_word h b asize) ≡ true)
  taken_parts = let r = pack_lem asize true true (get_prev_mini h b) even in (r.0, r.1, r.2)

  spare_even : (get_size h b - asize) % 16 ≡ 0
  spare_even = omega (arith, size-aligned h b)

  spare_small : spare_word h b asize < 2 ^ 64
  spare_small = omega (
    arith,
    (pack_lem (get_size h b - asize) false true (get_size h b == 16) spare_even).4,
    size_small,
  )

  pub spare_parts :
      (extract_size (spare_word h b asize) ≡ get_size h b - asize)
      × (extract_alloc (spare_word h b asize) ≡ false)
      × (extract_prev_alloc (spare_word h b asize) ≡ true)
  spare_parts =
      let r = pack_lem (get_size h b - asize) false true (get_size h b == 16) spare_even in
      (r.0, r.1, r.2)

  size_taken : (t : Heap) → t.mem b ≡ taken_word h b asize → get_size t b ≡ asize
  unfolding get_size
  size_taken t e = ap extract_size e ∙ taken_parts.0

  size_spare :
      (t : Heap)
      → t.mem (b + asize) ≡ spare_word h b asize
      → get_size t (b + asize) ≡ get_size h b - asize
  unfolding get_size
  size_spare t e = ap extract_size e ∙ spare_parts.0

  taken-OnTheWay :
      OnTheWay h (taken_heap h b asize) lists b
      × ((taken_heap h b asize).mem b ≡ taken_word h b asize)
  taken-OnTheWay =
      let w = own_write h lists b l u out in
      let x = b + 8 + asize - 16 in
      let h1 = store b (taken_word h b asize) h in
      (
        w h1 x (taken_word h b asize)
            (w h b (taken_word h b asize) (OnTheWay-refl h lists b l u out) (omega arith)
              (omega (arith, u.least)) taken_small)
            (omega arith) (omega arith) taken_small,
        mem-store_ne h1 x b (taken_word h b asize) (omega arith)
            ∙ mem-store_self h b (taken_word h b asize),
      )

  pub parted-OnTheWay :
      16 ≤ get_size h b - asize
      → OnTheWay h (parted_heap h b asize) lists b
        × ((parted_heap h b asize).mem b ≡ taken_word h b asize)
        × ((parted_heap h b asize).mem (b + asize) ≡ spare_word h b asize)
  parted-OnTheWay more =
      let w = own_write h lists b l u out in
      let v = spare_word h b asize in
      let x = b + asize + 8 + (get_size h b - asize) - 16 in
      let h1 = store (b + asize) v (taken_heap h b asize) in
      (
        w h1 x v
            (w (taken_heap h b asize) (b + asize) v taken-OnTheWay.0 (omega arith) (omega arith)
              spare_small)
            (omega arith) (omega arith) spare_small,
        mem-store_ne h1 x b v (omega arith)
            ∙ mem-store_ne (taken_heap h b asize) (b + asize) b v (omega arith)
            ∙ taken-OnTheWay.1,
        mem-store_ne h1 x (b + asize) v (omega arith)
            ∙ mem-store_self (taken_heap h b asize) (b + asize) v,
      )

  pub split_off_run :
      16 ≤ get_size h b - asize
      → split_off b (get_size h b) asize h
        ≡ insert_block
            (b + asize)
            (end_heap h b (parted_heap h b asize) false (get_size h b - asize == 16))
  unfolding split_off write_header write_footer header_to_footer find_next set_nextblock_prev_alloc
  split_off_run more =
      let v = spare_word h b asize in
      let p = parted-OnTheWay more in
      let e1 =
        size_taken (store b (taken_word h b asize) h) (mem-store_self h b (taken_word h b asize)) in
      let e2 = size_taken (taken_heap h b asize) taken-OnTheWay.1 in
      let e3 =
        size_spare (store (b + asize) v (taken_heap h b asize))
          (mem-store_self (taken_heap h b asize) (b + asize) v) in
      let e4 = size_spare (parted_heap h b asize) p.2 in
      let e5 : b + asize + (get_size h b - asize) ≡ b + get_size h b = omega arith in
      rw (e1, e2, e3, e4, e5) refl

-- A block taken whole.
abbrev pub whole_heap : Heap → ℕ → Heap
whole_heap h b = store b (taken_word h b (get_size h b)) h

module _ (h : Heap) (lists : ℕ → List ℕ) (b : ℕ) (l : IsLists h lists) (u : IsUnlisted h lists b)
    (out : (j a : ℕ) → j < 14 → contains (lists j) a ≡ true → Outside h a (b + get_size h b)) where
  pub whole-OnTheWay :
      OnTheWay h (whole_heap h b) lists b × ((whole_heap h b).mem b ≡ taken_word h b (get_size h b))
  whole-OnTheWay =
      let small =
        taken_small h lists b (get_size h b) l u out (size-aligned h b) u.least (omega arith) in
      (
        own_write h lists b l u out h b (taken_word h b (get_size h b))
            (OnTheWay-refl h lists b l u out) (omega arith) (omega (arith, u.least)) small,
        mem-store_self h b (taken_word h b (get_size h b)),
      )

  pub take_whole_run :
      take_whole b (get_size h b) h
      ≡ end_heap h b (whole_heap h b) true (get_prev_mini h (b + get_size h b))
  unfolding take_whole write_header find_next set_nextblock_prev_alloc get_prev_mini
  take_whole_run =
      let w = whole-OnTheWay in
      let e =
        size_taken h lists b (get_size h b) l u out (size-aligned h b) u.least (omega arith)
          (whole_heap h b) w.1 in
      let e2 =
        mem-store_ne h b (b + get_size h b) (taken_word h b (get_size h b))
          (omega (arith, u.least)) in
      rw (e, e2) refl
