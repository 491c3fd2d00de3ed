-- ===== src/Malloc/Delete.antt =====
-- delete_block of malloclab-s20-bhxxzp/mm.c: what unlinking a block writes.
pub mod Without
pub mod Bypass
pub mod Frame
pub mod Lists
use cmu.Common.{
  ℕ, zero, suc, ◌+◌, ◌≡◌, refl, ◌≢◌, inl, inr, true, false, Bool, arith, ◌==◌, if◌then◌else◌,
  Bool-cases, eq_of_==, ne_of_==, ==-false, ==-true, update,
}
use cmu.Malloc.Heap.{Heap, next_of, prev_of, set_next, set_prev, set_list, store}
use cmu.Malloc.SegList.{index_of, unlink, unlink_mini}
use cmu.Malloc.Lists.{both_of}

-- Block `b` of list `i`, with `p` before it (0 if it is the first), is taken out of its list.
pub record Deleted (h g : Heap) (i b p : ℕ) : Type 0 where
  pub first : p ≡ 0 → g.seg_list i ≡ h.mem (b + 8)
  pub head : p ≢ 0 → g.seg_list i ≡ h.seg_list i
  pub others : (j : ℕ) → i ≢ j → g.seg_list j ≡ h.seg_list j
  pub next : p ≢ 0 → g.mem (p + 8) ≡ h.mem (b + 8)
  pub prev : both_of i ≡ true → h.mem (b + 8) ≢ 0 → g.mem (h.mem (b + 8) + 16) ≡ p
  pub rest :
      (x : ℕ)
      → (p ≢ 0 → x ≢ p + 8)
      → (both_of i ≡ true → h.mem (b + 8) ≢ 0 → x ≢ h.mem (b + 8) + 16)
      → g.mem x ≡ h.mem x

pub unlink_mini-Deleted :
    (h : Heap) (b p : ℕ)
    → both_of (index_of h b) ≡ false
    → Deleted h (unlink_mini b p h) (index_of h b) b p
unfolding unlink_mini next_of set_next set_list store
unlink_mini-Deleted h b p one_way = record {
  first = λ e. ground arith;
  head = λ ne. ground arith;
  others = λ j ne. ground arith;
  next = λ ne. ground arith;
  prev = λ both. absurd (ground arith);
  rest = λ x q r. elim (Bool-cases (p == 0)) [
    | inl z ↦ rw z refl
    | inr z ↦ ground (arith, q (ne_of_== p 0 z))
  ];
}

pub unlink-Deleted :
    (h : Heap) (b : ℕ)
    → both_of (index_of h b) ≡ true
    → (h.mem (b + 16) ≢ 0 → h.mem (b + 8) ≢ 0 → h.mem (b + 16) + 8 ≢ h.mem (b + 8) + 16)
    → Deleted h (unlink b h) (index_of h b) b (h.mem (b + 16))
unfolding unlink next_of prev_of set_next set_prev set_list store
unlink-Deleted h b both d = elim (Bool-cases (h.mem (b + 16) == 0)) [
  | inl z ↦ elim (Bool-cases (h.mem (b + 8) == 0)) [
    | inl w ↦
        rw (z, w)
          (record {
            first = λ e. ground arith;
            head = λ ne. absurd (ground arith);
            others = λ j ne. ground arith;
            next = λ ne. absurd (ground arith);
            prev = λ e ne. absurd (ground arith);
            rest = λ x q r. refl;
          })
    | inr w ↦
        rw (z, w)
          (record {
            first = λ e. ground arith;
            head = λ ne. absurd (ground arith);
            others = λ j ne. ground arith;
            next = λ ne. absurd (ground arith);
            prev = λ e ne. ground arith;
            rest = λ x q r. ground (arith, r both (ne_of_== (h.mem (b + 8)) 0 w));
          })
  ]
  | inr z ↦ elim (Bool-cases (h.mem (b + 8) == 0)) [
    | inl w ↦
        rw (z, w)
          (record {
            first = λ e. absurd (ground arith);
            head = λ ne. refl;
            others = λ j ne. refl;
            next = λ ne. ground arith;
            prev = λ e ne. absurd (ground arith);
            rest = λ x q r. ground (arith, q (ne_of_== (h.mem (b + 16)) 0 z));
          })
    | inr w ↦
        rw (z, w)
          (record {
            first = λ e. absurd (ground arith);
            head = λ ne. refl;
            others = λ j ne. refl;
            next = λ ne.
                ground (arith, d (ne_of_== (h.mem (b + 16)) 0 z) (ne_of_== (h.mem (b + 8)) 0 w));
            prev = λ e ne. ground arith;
            rest = λ x q r.
                ground
                  (arith, q (ne_of_== (h.mem (b + 16)) 0 z), r both (ne_of_== (h.mem (b + 8)) 0 w));
          })
  ]
]
