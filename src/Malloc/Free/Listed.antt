-- ===== src/Malloc/Free/Listed.antt =====
-- free of malloclab-s20-bhxxzp/mm.c, for a block between two allocated ones, on the lists that the links
-- stand for.
use cmu.Common.{
  ℕ, ◌+◌, ◌-◌, ◌<◌, ◌≤◌, ◌≡◌, ◌≢◌, ◌∙◌, ap, subst, ◌⊎◌, inl, inr, true, false, some, List, arith,
  ◌==◌,
}
use cmu.Malloc.Word.{
  get_index, round_up, dsize, extract_size, extract_alloc, extract_prev_alloc, extract_prev_mini,
}
use cmu.Malloc.Heap.{Heap, get_size, get_alloc, get_prev_alloc, get_prev_mini, find_next}
use cmu.Malloc.SegList.{index_of, insert_block}
use cmu.Malloc.Alloc.{free}
use cmu.Malloc.Fit.{contains}
use cmu.Malloc.Lists.{IsLists, IsUnlisted}
use cmu.Malloc.Quiet.{Outside, Quiet-IsLists, Quiet-IsUnlisted}
use cmu.Malloc.Insert.Lists.{pushed, insert_block_lem}
use cmu.Malloc.Way.{OnTheWay, own-Outside, insert_rest}
use cmu.Malloc.Free.{
  freed_word, cleared, told_once, told_twice, free_run, word_parts, size_word, cleared-OnTheWay,
  told-OnTheWay,
}

-- What free leaves for a block at `b` between two allocated ones.
pub record IsFreed (h g : Heap) (lists : ℕ → List ℕ) (b : ℕ) : Type 0 where
  pub listed : IsLists g (pushed lists (index_of h b) b)
  pub size : get_size g b ≡ get_size h b
  pub alloc : get_alloc g b ≡ false
  pub next_size : get_size g (b + get_size h b) ≡ get_size h (b + get_size h b)
  pub next_alloc : get_alloc g (b + get_size h b) ≡ true
  pub next_told : get_prev_alloc g (b + get_size h b) ≡ false
  pub next_mini : get_prev_mini g (b + get_size h b) ≡ (get_size h b == 16)
  pub untouched :
      (x : ℕ)
      → Outside h b x
      → x ≢ b + get_size h b
      → ((j a : ℕ) → j < 14 → contains (lists j) a ≡ true → Outside h a x)
      → g.mem x ≡ h.mem x

module _ (h : Heap) (lists : ℕ → List ℕ) (b : ℕ) (l : IsLists h lists) (u : IsUnlisted h lists b)
    (out : (j a : ℕ) → j < 14 → contains (lists j) a ≡ true → Outside h a (b + get_size h b)) where
  told_once-OnTheWay : OnTheWay h (told_once h b) lists b × ((told_once h b).mem b ≡ freed_word h b)
  told_once-OnTheWay =
      let c = cleared-OnTheWay h lists b l u out in
      let r = told-OnTheWay h lists b l u out (cleared h b) (get_size h b == 16) c.0 c.1 in
      (r.0, r.1)

  told_twice-OnTheWay :
      OnTheWay h (told_twice h b) lists b
      × ((told_twice h b).mem b ≡ freed_word h b)
      × (get_prev_alloc (told_twice h b) (b + get_size h b) ≡ false)
      × (get_prev_mini (told_twice h b) (b + get_size h b) ≡ (get_size h b == 16))
  told_twice-OnTheWay =
      let c = told_once-OnTheWay in
      let r =
        told-OnTheWay h lists b l u out (told_once h b) (get_size (told_once h b) b == 16) c.0
          c.1 in
      (r.0, r.1, r.2, r.3 ∙ ap (λ n. n == 16) (size_word h lists b l u out (told_once h b) c.1))

  -- The words that insert_block leaves alone, seen from the first heap.
  after_insert :
      (x : ℕ)
      → (x ≤ b) ⊎ (b + get_size h b ≤ x)
      → ((j a : ℕ) → j < 14 → contains (lists j) a ≡ true → Outside h a x)
      → (insert_block b (told_twice h b)).mem x ≡ (told_twice h b).mem x
  after_insert x own listed =
      let c = told_twice-OnTheWay in
      let t = told_twice h b in
      let e = size_word h lists b l u out t c.1 in
      insert_rest h lists b l u out t b x c.0 (Quiet-IsUnlisted h t lists l c.0.quiet b u e)
        (elim own [ inl le ↦ inl le | inr le ↦ inr (omega arith) ]) listed

  freed :
      get_alloc h (b + get_size h b) ≡ true → IsFreed h (insert_block b (told_twice h b)) lists b
  unfolding get_size get_alloc get_prev_alloc get_prev_mini
  freed behind =
      let c = told_twice-OnTheWay in
      let t = told_twice h b in
      let q = c.0.quiet in
      let e = size_word h lists b l u out t c.1 in
      let i =
        insert_block_lem t lists b (Quiet-IsLists h t lists l q)
          (Quiet-IsUnlisted h t lists l q b u e) in
      let at_b =
        after_insert b (inl (omega arith))
          (own-Outside h lists b l u out b (omega arith) (omega (arith, u.least))) in
      let at_n = after_insert (b + get_size h b) (inr (omega arith)) out in
      let w = word_parts h lists b l u out in
      record {
        listed =
            subst (λ n. IsLists (insert_block b t) (pushed lists (get_index (round_up n dsize)) b))
              e i.0;
        size = ap extract_size at_b ∙ e;
        alloc = ap extract_alloc at_b ∙ ap extract_alloc c.1 ∙ w.2;
        next_size = ap extract_size at_n ∙ c.0.next_size;
        next_alloc = ap extract_alloc at_n ∙ c.0.next_alloc ∙ behind;
        next_told = ap extract_prev_alloc at_n ∙ c.2;
        next_mini = ap extract_prev_mini at_n ∙ c.3;
        untouched = λ x o ne listed.
            after_insert x (elim o [ inl le ↦ inl (omega arith) | inr le ↦ inr le ]) listed
            ∙ c.0.rest x o ne;
      }

-- free of a block that no list holds, whose neighbours in the heap are allocated, always succeeds. It
-- puts the block at the front of the list of its size, the lists are well formed again, the block keeps
-- its size and is marked free, and the block behind keeps its size and stays allocated, and knows now
-- that the block before it is free and whether that one is of 16 bytes. Words outside the block, the
-- header behind it and the listed blocks are not written.
pub free_lem :
    (h : Heap) (lists : ℕ → List ℕ) (bp : ℕ)
    → bp ≢ 0
    → let b = bp - 8 in
      IsLists h lists
      → IsUnlisted h lists b
      → ((j a : ℕ) → j < 14 → contains (lists j) a ≡ true → Outside h a (b + get_size h b))
      → get_prev_alloc h b ≡ true
      → get_alloc h (b + get_size h b) ≡ true
      → (g : Heap) × (free bp h ≡ some g) × IsFreed h g lists b
unfolding get_prev_alloc find_next
free_lem h lists bp ne l u out before behind =
    let b = bp - 8 in
    let c = told_once-OnTheWay h lists b l u out in
    let t = told_once h b in
    let w = word_parts h lists b l u out in
    (
      insert_block b (told_twice h b),
      free_run h bp ne (ap extract_prev_alloc c.1 ∙ w.1 ∙ before) (
          ap (λ n. get_alloc t (b + n)) (size_word h lists b l u out t c.1)
          ∙ c.0.next_alloc
          ∙ behind),
      freed h lists b l u out behind,
    )
