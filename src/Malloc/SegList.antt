-- ===== src/Malloc/SegList.antt =====
-- The segregated free lists of malloclab-s20-bhxxzp/mm.c: insert_block, delete_block and find_fit.
-- Blocks of 16 bytes have no room for a back link, so their list is linked one way.
use cmu.Common.{
  ℕ, zero, suc, ◌-◌, ◌/◌, ◌^◌, Bool, not, ◌&&◌, Option, none, some, ◌==◌, ltb, leb, if◌then◌else◌,
}
use cmu.Malloc.Word.{round_up, get_index, dsize, min_block_size, list_number}
use cmu.Malloc.Heap.{Heap, set_list, get_size, get_alloc, next_of, prev_of, set_next, set_prev}

abbrev pub index_of : Heap → ℕ → ℕ
index_of h block = get_index (round_up (get_size h block) dsize)

-- Into an empty list, and in front of a block.
unfoldable pub insert_only : (mini : Bool) → (index block : ℕ) → Heap → Heap
insert_only mini index block h =
    let h1 = set_list index block h in set_next block 0 (if mini then h1 else set_prev block 0 h1)

unfoldable pub insert_front : (mini : Bool) → (index first block : ℕ) → Heap → Heap
insert_front mini index first block h =
    let h1 = set_next block first h in
    set_list index block (if mini then h1 else set_prev first block (set_prev block 0 h1))

unfoldable pub insert_block : ℕ → Heap → Heap
unfolding insert_only insert_front
insert_block block h =
    let index = index_of h block in
    let mini = get_size h block == min_block_size in
    if block == 0
    then h
    else if h.seg_list index == 0
    then insert_only mini index block h
    else insert_front mini index (h.seg_list index) block h

-- The loop that looks for a block of 16 bytes in its list: the block before it, 0 if it is the first.
-- `none` when the list ends, where the code reads through the null pointer.
unfoldable pub before : Heap → ℕ → (fuel : ℕ) → (prevpoint temp : ℕ) → Option ℕ
before h block zero prevpoint temp = none
before h block (suc fuel) prevpoint temp =
    let rest = before h block fuel temp (next_of h temp) in
    if temp == block then some prevpoint else if temp == 0 then none else rest

-- No list is longer than the heap has room for blocks.
abbrev pub room : Heap → ℕ
room h = suc (h.brk / 16)

unfoldable pub unlink : ℕ → Heap → Heap
unlink block h =
    let prev = prev_of h block in
    let next = next_of h block in
    if prev == 0
    then if next == 0
      then set_list (index_of h block) 0 h
      else set_list (index_of h block) next (set_prev next 0 h)
    else if next == 0
    then set_next prev 0 h
    else set_prev next prev (set_next prev next h)

unfoldable pub unlink_mini : ℕ → ℕ → Heap → Heap
unlink_mini block prevpoint h =
    if prevpoint == 0
    then set_list (index_of h block) (next_of h block) h
    else set_next prevpoint (next_of h block) h

unfoldable pub delete_block : ℕ → Heap → Option Heap
unfolding before unlink unlink_mini
delete_block block h =
    if block == 0
    then some h
    else if not (get_size h block == min_block_size)
    then some (unlink block h)
    else elim (before h block (room h) 0 (h.seg_list (index_of h block))) [
      | none ↦ none
      | some prevpoint ↦ some (unlink_mini block prevpoint h)
    ]

-- The best block that a walk over a list has found so far, with what it has to spare; 0 is none.
pub record Best : Type 0 where
  pub block : ℕ
  pub num : ℕ

abbrev pub no_best : Best
no_best = record { block = 0; num = 2 ^ 64 - 1 }

-- `while (block)` of `find_fit`: it ends at an exact fit (with nothing to spare) or at the end.
unfoldable pub walk : Heap → ℕ → (fuel : ℕ) → ℕ → Best → Best
walk h asize zero block best = best
walk h asize (suc fuel) block best =
    let size = get_size h block in
    let fits = not (get_alloc h block) && leb asize size in
    let better = fits && ltb (size - asize) best.num in
    let best' : Best = if better then record { block = block; num = size - asize } else best in
    let rest = walk h asize fuel (next_of h block) best' in
    if block == 0
    then best
    else if fits && (size - asize == 0)
    then record { block = block; num = 0 }
    else rest

-- `for (; index < list_number; index++)`
unfoldable pub fit_from : Heap → ℕ → (index rounds : ℕ) → ℕ
fit_from h asize index zero = 0
fit_from h asize index (suc rounds) =
    let best = walk h asize (room h) (h.seg_list index) no_best in
    let rest = fit_from h asize (suc index) rounds in if best.block == 0 then rest else best.block

unfoldable pub find_fit : Heap → ℕ → ℕ
unfolding fit_from walk
find_fit h asize = fit_from h asize (get_index asize) (list_number - get_index asize)
