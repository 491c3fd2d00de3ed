-- ===== src/Malloc/Free.antt =====
-- free of malloclab-s20-bhxxzp/mm.c for a block between two allocated ones, where nothing is merged.
pub mod Listed
mod Tests
use cmu.Common.{
  ℕ, ◌+◌, ◌-◌, ◌*◌, ◌/◌, ◌%◌, ◌^◌, ◌<◌, ◌≤◌, ◌≡◌, refl, ◌≢◌, ◌∙◌, sym, ap, subst, ◌⊎◌, inl, inr,
  Bool, true, false, Option, some, none, List, [], ◌∷◌, arith, ◌==◌, if◌then◌else◌, Bool-cases,
  eq_of_==, ne_of_==, ==-false, update, update_ne, update_self,
}
use cmu.Malloc.Word.{
  get_index, round_up, dsize, pack, extract_size, extract_alloc, extract_prev_alloc,
  extract_prev_mini,
}
use cmu.Malloc.Heap.{
  Heap, get_size, get_alloc, get_prev_alloc, get_prev_mini, store, find_next, write_header,
  write_footer, header_to_footer, set_nextblock_prev_alloc,
}
use cmu.Malloc.SegList.{index_of, insert_block}
use cmu.Malloc.Alloc.{◌>>=◌, free, coalesce_block, coalesce_none}
use cmu.Malloc.Fit.{contains}
use cmu.Malloc.Packing.{pack_lem}
use cmu.Malloc.Lists.{IsLists, IsUnlisted, Beyond, size-aligned, size-header}
use cmu.Malloc.Way.{
  pack-small, mem-store_self, mem-store_ne, OnTheWay, own-Outside, OnTheWay-refl, own_write,
  end_write,
}
use cmu.Malloc.Quiet.{
  Outside, Quiet, Quiet-refl, Quiet-store, Quiet-IsLists, Quiet-IsUnlisted, kept,
}

-- The header that free writes over the block at `b`.
abbrev pub freed_word : Heap → ℕ → ℕ
freed_word h b = pack (get_size h b) false (get_prev_alloc h b) (get_prev_mini h b)

-- The heap once free has written header and footer.
abbrev pub cleared : Heap → ℕ → Heap
cleared h b =
    let h1 = write_header b (get_size h b) false (get_prev_alloc h b) (get_prev_mini h b) h in
    if get_size h b == 16
    then h1
    else write_footer b (get_size h b) false (get_prev_alloc h b) (get_prev_mini h b) h1

-- The heap before the block goes into its list: the next block is told twice.
abbrev pub told_once : Heap → ℕ → Heap
told_once h b = set_nextblock_prev_alloc b false (get_size h b == 16) (cleared h b)

abbrev pub told_twice : Heap → ℕ → Heap
told_twice h b = set_nextblock_prev_alloc b false (get_size (told_once h b) b == 16) (told_once h b)

pub free_run :
    (h : Heap) (bp : ℕ)
    → bp ≢ 0
    → get_prev_alloc (told_once h (bp - 8)) (bp - 8) ≡ true
    → get_alloc (told_once h (bp - 8)) (find_next (told_once h (bp - 8)) (bp - 8)) ≡ true
    → free bp h ≡ some (insert_block (bp - 8) (told_twice h (bp - 8)))
unfolding free coalesce_block coalesce_none
free_run h bp ne before behind = rw (==-false bp 0 ne, before, behind) refl

module _ (h : Heap) (lists : ℕ → List ℕ) (b : ℕ) (l : IsLists h lists) (u : IsUnlisted h lists b)
    (out : (j a : ℕ) → j < 14 → contains (lists j) a ≡ true → Outside h a (b + get_size h b)) where
  pub word_parts :
      (extract_size (freed_word h b) ≡ get_size h b)
      × (extract_prev_alloc (freed_word h b) ≡ get_prev_alloc h b)
      × (extract_alloc (freed_word h b) ≡ false)
  word_parts =
      let r =
        pack_lem (get_size h b) false (get_prev_alloc h b) (get_prev_mini h b) (size-aligned h b) in
      (r.0, r.2, r.1)

  pub size_word : (t : Heap) → t.mem b ≡ freed_word h b → get_size t b ≡ get_size h b
  unfolding get_size
  size_word t e = ap extract_size e ∙ word_parts.0

  pub cleared-OnTheWay : OnTheWay h (cleared h b) lists b × ((cleared h b).mem b ≡ freed_word h b)
  unfolding write_header write_footer header_to_footer
  cleared-OnTheWay =
      let small = pack-small h b false (get_prev_alloc h b) (get_prev_mini h b) (l.words b) in
      let h1 = store b (freed_word h b) h in
      let w1 =
        own_write h lists b l u out h b (freed_word h b) (OnTheWay-refl h lists b l u out)
          (omega arith) (omega (arith, u.least)) small in
      let e1 : h1.mem b ≡ freed_word h b = mem-store_self h b (freed_word h b) in
      elim (Bool-cases (get_size h b == 16)) [
        | inl mini ↦ rw mini (w1, e1)
        | inr wide ↦
            let x = b + 8 + get_size h b - 16 in
            rw (wide, size_word h1 e1)
              (
                own_write h lists b l u out h1 x (freed_word h b) w1 (omega (arith, u.least))
                    (omega (arith, u.least)) small,
                mem-store_ne h1 x b (freed_word h b) (omega (arith, u.least)) ∙ e1,
              )
      ]

  -- The two calls that tell the block behind.
  pub told-OnTheWay :
      (t : Heap) (mini : Bool)
      → OnTheWay h t lists b
      → t.mem b ≡ freed_word h b
      → let t' = set_nextblock_prev_alloc b false mini t in
        OnTheWay h t' lists b
        × (t'.mem b ≡ freed_word h b)
        × (get_prev_alloc t' (b + get_size h b) ≡ false)
        × (get_prev_mini t' (b + get_size h b) ≡ mini)
  unfolding set_nextblock_prev_alloc write_header find_next
  told-OnTheWay t mini w e =
      let n = b + get_size h b in
      let r = end_write h lists b l u out t false mini w in
      rw (size_word t e) (r.0, r.3 b (omega (arith, u.least)) ∙ e, r.1, r.2)
