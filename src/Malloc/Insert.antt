-- ===== src/Malloc/Insert.antt =====
-- insert_block of malloclab-s20-bhxxzp/mm.c on the lists that the links stand for.
pub mod Push
pub mod Frame
pub mod Lists
use cmu.Common.{
  ℕ, zero, suc, ◌+◌, ◌-◌, ◌*◌, ◌/◌, ◌%◌, ◌^◌, ◌<◌, ◌≤◌, ◌≡◌, refl, ◌≢◌, ◌∙◌, sym, ap, subst, ◌⊎◌,
  inl, inr, Bool, true, false, not, ◌||◌, Option, none, some, List, [], ◌∷◌, ◌++◌, arith, ◌==◌,
  if◌then◌else◌, Bool-cases, eq_of_==, ne_of_==, ==-false, ==-true, update, update_self, update_ne,
}
use cmu.Malloc.Heap.{Heap, get_size, next_of, prev_of, set_next, set_prev, set_list, store}
use cmu.Malloc.SegList.{index_of, insert_block, insert_only, insert_front}
use cmu.Malloc.Index.{get_index_lem}
use cmu.Malloc.Fit.{contains}
use cmu.Malloc.Lists.{
  first, once, Chain, Apart, IsBlock, both_of, IsLists, index-mini, Same, Chain-Same, size-header,
  index-header, Apart-sym, IsBlock-header, Apart-header, size-wide, Chain-first, Beyond, IsUnlisted,
  IsUnlisted-IsBlock, index-lt,
}

-- What the call writes.
pub record Inserted (h g : Heap) (i b : ℕ) : Type 0 where
  pub head : g.seg_list i ≡ b
  pub others : (j : ℕ) → i ≢ j → g.seg_list j ≡ h.seg_list j
  pub next : g.mem (b + 8) ≡ h.seg_list i
  pub prev : both_of i ≡ true → g.mem (b + 16) ≡ 0
  pub back : both_of i ≡ true → h.seg_list i ≢ 0 → g.mem (h.seg_list i + 16) ≡ b
  pub rest :
      (x : ℕ)
      → x ≢ b + 8
      → (both_of i ≡ true → x ≢ b + 16)
      → (both_of i ≡ true → h.seg_list i ≢ 0 → x ≢ h.seg_list i + 16)
      → g.mem x ≡ h.mem x

only-Inserted :
    (h : Heap) (mini : Bool) (i b : ℕ)
    → both_of i ≡ not mini
    → h.seg_list i ≡ 0
    → Inserted h (insert_only mini i b h) i b
unfolding insert_only set_next set_prev set_list store
only-Inserted h true i b m e = record {
  head = ground arith;
  others = λ j ne. ground arith;
  next = ground arith;
  prev = λ both. absurd (ground arith);
  back = λ both ne. absurd (ne e);
  rest = λ x n p q. ground arith;
}
only-Inserted h false i b m e = record {
  head = ground arith;
  others = λ j ne. ground arith;
  next = ground arith;
  prev = λ both. ground arith;
  back = λ both ne. absurd (ne e);
  rest = λ x n p q. ground (arith, p m);
}

front-Inserted :
    (h : Heap) (mini : Bool) (i b : ℕ)
    → both_of i ≡ not mini
    → h.seg_list i ≢ 0
    → h.seg_list i ≢ b
    → h.seg_list i + 8 ≢ b
    → Inserted h (insert_front mini i (h.seg_list i) b h) i b
unfolding insert_front set_next set_prev set_list store
front-Inserted h true i b m e d d' = record {
  head = ground arith;
  others = λ j ne. ground arith;
  next = ground arith;
  prev = λ both. absurd (ground arith);
  back = λ both. absurd (ground arith);
  rest = λ x n p q. ground arith;
}
front-Inserted h false i b m e d d' = record {
  head = ground arith;
  others = λ j ne. ground arith;
  next = ground arith;
  prev = λ both. ground arith;
  back = λ both ne. ground arith;
  rest = λ x n p q. ground (arith, p m, q m e);
}

pub insert_block-Inserted :
    (h : Heap) (b : ℕ)
    → b ≢ 0
    → (get_size h b == 16) ≡ (index_of h b == 0)
    → (h.seg_list (index_of h b) ≢ 0
        → (h.seg_list (index_of h b) ≢ b) × (h.seg_list (index_of h b) + 8 ≢ b))
    → Inserted h (insert_block b h) (index_of h b) b
unfolding insert_block
insert_block-Inserted h b ne mini d =
    let both : both_of (index_of h b) ≡ not (get_size h b == 16) = ap not (sym mini) in
    elim (Bool-cases (h.seg_list (index_of h b) == 0)) [
      | inl empty ↦
          rw (==-false b 0 ne, empty)
            (only-Inserted h (get_size h b == 16) (index_of h b) b both (eq_of_== _ _ empty))
      | inr more ↦
          rw (==-false b 0 ne, more)
            (front-Inserted h (get_size h b == 16) (index_of h b) b both (ne_of_== _ _ more)
              (d (ne_of_== _ _ more)).0 (d (ne_of_== _ _ more)).1)
    ]
