-- ===== src/Malloc/Split/Taken.antt =====
-- split_block of malloclab-s20-bhxxzp/mm.c, the call of delete_block included.
use cmu.Common.{
  ℕ, ◌+◌, ◌-◌, ◌%◌, ◌^◌, ◌<◌, ◌≤◌, ◌≡◌, refl, ◌≢◌, ◌∙◌, ap, subst, inl, inr, true, false, some,
  List, arith, ◌==◌, if◌then◌else◌, length,
}
use cmu.Malloc.Word.{get_index, round_up, dsize, extract_size, extract_alloc}
use cmu.Malloc.Heap.{Heap, get_size, get_alloc, get_prev_alloc}
use cmu.Malloc.SegList.{index_of, room}
use cmu.Malloc.Alloc.{split_block}
use cmu.Malloc.Fit.{contains}
use cmu.Malloc.Lists.{IsLists, Beyond, index-lt, size-header}
use cmu.Malloc.Quiet.{Outside}
use cmu.Malloc.Insert.Lists.{pushed}
use cmu.Malloc.Delete.Lists.{dropped, delete_block_lem, IsDeleted}
use cmu.Malloc.Split.Listed.{with_spare, IsSplit, split_rest, split_rest-IsSplit}

-- What split_block leaves of a block at `b` that was listed.
pub record IsTaken (h g : Heap) (lists : ℕ → List ℕ) (b asize : ℕ) : Type 0 where
  pub listed : IsLists g (with_spare h (dropped lists (index_of h b) b) b asize)
  pub size : get_size g b ≡ asize
  pub alloc : get_alloc g b ≡ true
  pub spare_size : asize ≢ get_size h b → get_size g (b + asize) ≡ get_size h b - asize
  pub spare_alloc : asize ≢ get_size h b → get_alloc g (b + asize) ≡ false
  pub spare_prev : asize ≢ get_size h b → get_prev_alloc g (b + asize) ≡ true
  pub next_size : get_size g (b + get_size h b) ≡ get_size h (b + get_size h b)
  pub next_alloc : get_alloc g (b + get_size h b) ≡ get_alloc h (b + get_size h b)
  pub next_prev : get_prev_alloc g (b + get_size h b) ≡ (get_size h b == asize)
  pub headers : (j a : ℕ) → j < 14 → contains (lists j) a ≡ true → a ≢ b → g.mem a ≡ h.mem a
  pub untouched :
      (x : ℕ)
      → x ≢ b + get_size h b
      → ((j a : ℕ) → j < 14 → contains (lists j) a ≡ true → Outside h a x)
      → g.mem x ≡ h.mem x

IsTaken-IsSplit :
    (h h1 g : Heap) (lists : ℕ → List ℕ) (b asize : ℕ)
    → contains (lists (index_of h b)) b ≡ true
    → ((j a : ℕ) → j < 14 → contains (lists j) a ≡ true → Outside h a (b + get_size h b))
    → IsDeleted h h1 lists b
    → get_size h1 b ≡ get_size h b
    → IsSplit h1 g (dropped lists (index_of h b) b) b asize
    → IsTaken h g lists b asize
unfolding get_size get_alloc
IsTaken-IsSplit h h1 g lists b asize m out d e s =
    let rest = dropped lists (index_of h b) b in
    let n = b + get_size h b in
    let beyond =
      λ (x : ℕ) (o : (j a : ℕ) → j < 14 → contains (lists j) a ≡ true → Outside h a x) (j a : ℕ)
          (lt : j < 14) (ma : contains (lists j) a ≡ true).
        let r : Beyond h a x = elim (o j a lt ma) [
          | inl le ↦ inl (omega arith)
          | inr le ↦ inr le
        ] in
        r in
    let at_n : h1.mem n ≡ h.mem n = d.untouched n (beyond n out) in
    record {
      listed =
          subst
            (λ y. IsLists g (
              if y == asize
              then rest
              else pushed rest (get_index (round_up (y - asize) dsize)) (b + asize)))
            e s.listed;
      size = s.size;
      alloc = s.alloc;
      spare_size = λ ne. s.spare_size (λ z. ne (z ∙ e)) ∙ ap (λ y. y - asize) e;
      spare_alloc = λ ne. s.spare_alloc (λ z. ne (z ∙ e));
      spare_prev = λ ne. s.spare_prev (λ z. ne (z ∙ e));
      next_size =
          subst (λ y. get_size g (b + y) ≡ get_size h1 (b + y)) e s.next_size
          ∙ ap extract_size at_n;
      next_alloc =
          subst (λ y. get_alloc g (b + y) ≡ get_alloc h1 (b + y)) e s.next_alloc
          ∙ ap extract_alloc at_n;
      next_prev = subst (λ y. get_prev_alloc g (b + y) ≡ (y == asize)) e s.next_prev;
      headers = λ j a lt ma ne. s.headers j a lt (d.still j a lt ma ne) ∙ d.headers j a lt ma;
      untouched = λ x ne o.
          s.untouched x
            (elim (o (index_of h b) b (index-lt h b) m) [
              | inl le ↦ inl le
              | inr le ↦ inr (omega (arith, e))
            ])
            (λ z. ne (z ∙ ap (λ y. b + y) e))
            (λ j a lt ma.
              let r = d.remaining j a lt ma in
              let e' = size-header h h1 a (d.headers j a lt r.0) in
              elim (o j a lt r.0) [ inl le ↦ inl le | inr le ↦ inr (omega (arith, e')) ])
          ∙ d.untouched x (beyond x o);
    }

-- split_block of a listed block, for a multiple of 16 bytes from 16 up to the size of the block: it
-- always succeeds. First the block leaves its list; then its first `asize` bytes are an allocated block,
-- and what is left over, if anything, is a free block of its own at the front of the list of its size,
-- marked as lying behind an allocated one. The header behind keeps its size and flag and is told
-- whether the block before it is allocated now. The lists are well formed, and no word outside the block,
-- that header and the listed blocks is written.
pub split_block_lem :
    (h : Heap) (lists : ℕ → List ℕ) (b asize : ℕ)
    → IsLists h lists
    → contains (lists (index_of h b)) b ≡ true
    → length (lists (index_of h b)) < room h
    → ((j a : ℕ) → j < 14 → contains (lists j) a ≡ true → Outside h a (b + get_size h b))
    → asize % 16 ≡ 0
    → 16 ≤ asize
    → asize ≤ get_size h b
    → b + get_size h b < 2 ^ 64
    → (g : Heap) × (split_block b asize h ≡ some g) × IsTaken h g lists b asize
unfolding split_block split_rest
split_block_lem h lists b asize l m short out even least fit small =
    let (h1, run, d) = delete_block_lem h lists b l m short in
    let e : get_size h1 b ≡ get_size h b = size-header h h1 b d.same_header in
    let i = index_of h b in
    let out1 : (j a : ℕ)
        → j < 14
        → contains (dropped lists i b j) a ≡ true
        → Outside h1 a (b + get_size h1 b) =
      λ j a lt ma.
        let r = d.remaining j a lt ma in
        let e' = size-header h h1 a (d.headers j a lt r.0) in
        elim (out j a lt r.0) [
          | inl le ↦ inl (omega (arith, e))
          | inr le ↦ inr (omega (arith, e, e'))
        ] in
    let s =
      split_rest-IsSplit h1 (dropped lists i b) b asize d.listed d.unlisted out1 even least
        (omega (arith, e)) (omega (arith, e)) in
    (
      split_rest h1 b (get_size h b) asize,
      rw run refl,
      IsTaken-IsSplit h h1 (split_rest h1 b (get_size h b) asize) lists b asize m out d e
          (subst (λ y. IsSplit h1 (split_rest h1 b y asize) (dropped lists i b) b asize) e s),
    )
