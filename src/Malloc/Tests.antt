-- ===== src/Malloc/Tests.antt =====
-- The theorems on malloclab-s20-bhxxzp/mm.c at concrete words and heaps, and test runs.
use mathlib.Core.Option
use cmu.Common.{
  ℕ, ◌+◌, ◌<◌, ◌≡◌, refl, inl, inr, Bool, true, false, some, List, [], ◌∷◌, arith, ◌==◌,
  if◌then◌else◌, length, Bool-cases,
}
use cmu.Malloc.Word.{
  pack, extract_size, extract_alloc, extract_prev_alloc, extract_prev_mini, get_index, index_from,
  adjusted, round_up, max,
}
use cmu.Malloc.Heap.{
  Heap, store, mem_sbrk, get_size, get_alloc, get_prev_alloc, get_prev_mini, header_to_footer,
  find_next, find_prev, write_header, write_footer, set_nextblock_prev_alloc, set_list, next_of,
  prev_of, set_next, set_prev,
}
use cmu.Malloc.SegList.{
  find_fit, fit_from, walk, insert_block, insert_only, insert_front, delete_block, unlink,
  unlink_mini, before,
}
use cmu.Malloc.Alloc.{
  ◌>>=◌, mm_init, malloc, free, extend_heap, new_block, coalesce_block, coalesce_none,
  coalesce_next, coalesce_prev, coalesce_both, write_free, split_block, split_off, take_whole,
  obtain, place,
}
use cmu.Malloc.Packing.{pack_lem}
use cmu.Malloc.Fit.{Linked, HasLists, Answer, find_fit_lem}

pack_lem_example :
    let w = pack 48 true false true in
    (extract_size w ≡ 48)
    × (extract_alloc w ≡ true)
    × (extract_prev_alloc w ≡ false)
    × (extract_prev_mini w ≡ true)
    × (w < 48 + 8)
pack_lem_example = pack_lem 48 true false true refl

-- A heap with one free block, of 64 bytes, in the list of its size.
abbrev one_block : Heap
one_block = record {
  mem = λ a. if a == 4096 then 66 else 0;
  seg_list = λ i. if i == 3 then 4096 else 0;
  heap_start = 8;
  brk = 8192;
  max_addr = 100000;
}

abbrev one_list : ℕ → List ℕ
one_list i = if i == 3 then 4096 ∷ [] else []

one_block-Linked : (i : ℕ) → i < 14 → Linked one_block (one_block.seg_list i) (one_list i)
unfolding next_of
one_block-Linked i h = elim (Bool-cases (i == 3)) [
  | inl here ↦ rw here (refl, λ e. omega arith, refl)
  | inr there ↦ rw there refl
]

one_block_short : (i : ℕ) → i < 14 → length (one_list i) < 513
one_block_short i h = elim (Bool-cases (i == 3)) [
  | inl here ↦ rw here (omega arith)
  | inr there ↦ rw there (omega arith)
]

one_block-HasLists : HasLists one_block one_list
one_block-HasLists = record {
  linked = one_block-Linked;
  short = one_block_short;
  words = λ a. ground arith;
}

find_fit_lem_example : Answer one_block 48 one_list (get_index 48) (find_fit one_block 48)
find_fit_lem_example = find_fit_lem one_block 48 one_list one_block-HasLists

found : find_fit one_block 48 ≡ 4096
unfolding find_fit fit_from walk get_index index_from get_size get_alloc extract_size extract_alloc
    next_of
found = refl

-- A heap before the first call.
abbrev raw : Heap
raw = record { mem = λ a. 0; seg_list = λ i. 0; heap_start = 0; brk = 4096; max_addr = 100000 }

-- The first `malloc` sets the heap up and splits the first chunk; `free` makes it whole again.
first_call :
    Option.map {B = ℕ × ℕ × ℕ} (λ (p, h). (p, get_size h 4104, get_size h 4136)) (malloc 20 raw)
    ≡ some (4112, 32, 4064)
unfolding malloc obtain place mm_init extend_heap new_block coalesce_block coalesce_none
    coalesce_next coalesce_prev coalesce_both write_free split_block split_off take_whole
    insert_block insert_only insert_front delete_block unlink unlink_mini before find_fit fit_from
    walk get_index index_from adjusted round_up max pack extract_size extract_alloc
    extract_prev_alloc extract_prev_mini store mem_sbrk get_size get_alloc get_prev_alloc
    get_prev_mini header_to_footer find_next find_prev write_header write_footer
    set_nextblock_prev_alloc set_list next_of prev_of set_next set_prev
first_call = refl

freed :
    Option.map {B = ℕ × ℕ × Bool}
      (λ h. (get_size h 4104, h.seg_list 9, get_alloc h 4104))
      (malloc 20 raw >>= λ (p, h). free p h)
    ≡ some (4096, 4104, false)
unfolding malloc free obtain place mm_init extend_heap new_block coalesce_block coalesce_none
    coalesce_next coalesce_prev coalesce_both write_free split_block split_off take_whole
    insert_block insert_only insert_front delete_block unlink unlink_mini before find_fit fit_from
    walk get_index index_from adjusted round_up max pack extract_size extract_alloc
    extract_prev_alloc extract_prev_mini store mem_sbrk get_size get_alloc get_prev_alloc
    get_prev_mini header_to_footer find_next find_prev write_header write_footer
    set_nextblock_prev_alloc set_list next_of prev_of set_next set_prev
freed = refl
