-- ===== src/Malloc/Copy/Tests.antt =====
-- realloc and calloc of malloclab-s20-bhxxzp/mm.c at a heap before the first call.
use mathlib.Core.Option.{map}
use cmu.Common.{
  ◌⊎◌, ℕ, ◌+◌, ◌*◌, ◌^◌, ◌≤◌, ◌<◌, ◌≡◌, refl, ◌≢◌, inl, Bool, false, none, some, arith, Option,
}
use cmu.Malloc.Word.{
  pack, extract_size, extract_alloc, extract_prev_alloc, extract_prev_mini, get_index, index_from,
  adjusted, round_up, max,
}
use cmu.Malloc.Heap.{
  Heap, store, mem_sbrk, get_size, get_alloc, get_prev_alloc, get_prev_mini, header_to_footer,
  find_next, find_prev, write_header, write_footer, set_nextblock_prev_alloc, set_list, next_of,
  prev_of, set_next, set_prev,
}
use cmu.Malloc.SegList.{
  find_fit, fit_from, walk, insert_block, insert_only, insert_front, delete_block, unlink,
  unlink_mini, before,
}
use cmu.Malloc.Alloc.{
  ◌>>=◌, mm_init, malloc, free, calloc_size, extend_heap, new_block, coalesce_block, coalesce_none,
  coalesce_next, coalesce_prev, coalesce_both, write_free, split_block, split_off, take_whole,
  obtain, place,
}
use cmu.Malloc.Heap.{get_payload_size}
use cmu.Malloc.Copy.{
  copysize_of, copy_bytes, copy_words, clear_bytes, clear_words, clear_new, calloc, realloc,
  move_to,
}
use cmu.Malloc.Copy.Bytes.{IsFilled, realloc_lem, calloc_lem}

-- A heap before the first call.
abbrev raw : Heap
raw = record { mem = λ a. 0; seg_list = λ i. 0; heap_start = 0; brk = 4096; max_addr = 100000 }

abbrev heap_of : Option (ℕ × Heap) → Heap
heap_of none = raw
heap_of (some (p, h)) = h

abbrev first_heap : Heap
first_heap = heap_of (malloc 20 raw)

abbrev second_heap : Heap
second_heap = heap_of (malloc 50 first_heap)

first_block : malloc (5 * 4) raw ≡ some (4112, first_heap)
unfolding malloc obtain place mm_init extend_heap new_block coalesce_block coalesce_none
    coalesce_next coalesce_prev coalesce_both write_free split_block split_off take_whole
    insert_block insert_only insert_front delete_block unlink unlink_mini before find_fit fit_from
    walk get_index index_from adjusted round_up max pack extract_size extract_alloc
    extract_prev_alloc extract_prev_mini store mem_sbrk get_size get_alloc get_prev_alloc
    get_prev_mini header_to_footer find_next find_prev write_header write_footer
    set_nextblock_prev_alloc set_list next_of prev_of set_next set_prev
first_block = refl

second_block : malloc 50 first_heap ≡ some (4144, second_heap)
unfolding malloc obtain place mm_init extend_heap new_block coalesce_block coalesce_none
    coalesce_next coalesce_prev coalesce_both write_free split_block split_off take_whole
    insert_block insert_only insert_front delete_block unlink unlink_mini before find_fit fit_from
    walk get_index index_from adjusted round_up max pack extract_size extract_alloc
    extract_prev_alloc extract_prev_mini store mem_sbrk get_size get_alloc get_prev_alloc
    get_prev_mini header_to_footer find_next find_prev write_header write_footer
    set_nextblock_prev_alloc set_list next_of prev_of set_next set_prev
second_block = refl

copied : copysize_of second_heap 4112 50 ≡ 24
unfolding copysize_of malloc free get_payload_size obtain place mm_init extend_heap new_block
    coalesce_block coalesce_none coalesce_next coalesce_prev coalesce_both write_free split_block
    split_off take_whole insert_block insert_only insert_front delete_block unlink unlink_mini
    before find_fit fit_from walk get_index index_from adjusted round_up max pack extract_size
    extract_alloc extract_prev_alloc extract_prev_mini store mem_sbrk get_size get_alloc
    get_prev_alloc get_prev_mini header_to_footer find_next find_prev write_header write_footer
    set_nextblock_prev_alloc set_list next_of prev_of set_next set_prev
copied = refl

calloc_lem_example :
    let n : ℕ = 5 in
    let new : ℕ = 4112 in
    (n ≡ 0 → calloc n 4 raw ≡ none)
    × (n ≢ 0 → 2 ^ 64 ≤ n * 4 → calloc n 4 raw ≡ some (0, raw))
    × (n ≢ 0 → n * 4 < 2 ^ 64 → new ≡ 0 → calloc n 4 raw ≡ some (0, first_heap))
    × (n ≢ 0
        → n * 4 < 2 ^ 64
        → new ≢ 0
        → (g : Heap) × (calloc n 4 raw ≡ some (new, g))
          × IsFilled first_heap g (n * 4) new (λ k. 0))
calloc_lem_example = calloc_lem 5 4 4112 raw first_heap first_block

realloc_lem_example :
    let new : ℕ = 4144 in
    let n = copysize_of second_heap 4112 50 in
    (new ≡ 0 → realloc 4112 50 first_heap ≡ some (0, second_heap))
    × (new ≢ 0
        → (h2 : Heap) × (realloc 4112 50 first_heap ≡ (free 4112 h2 >>= λ h3. some (new, h3)))
          × IsFilled second_heap h2 n new (λ k. second_heap.mem (4112 + 8 * k))
          × (n ≤ 50)
          × (n ≤ get_payload_size second_heap 4104)
          × ((n ≡ 50) ⊎ (n ≡ get_payload_size second_heap 4104)))
realloc_lem_example =
    realloc_lem 4112 50 4144 first_heap second_heap (λ e. omega arith) (λ e. omega arith)
      second_block (λ ne. inl (omega (arith, copied)))

-- The first word of 20 cleared bytes, where the memory held 7 before.
cleared_run :
    map {B = ℕ × ℕ} (λ (p, h). (p, h.mem 4112)) (calloc 5 4 (store 4112 7 raw)) ≡ some (4112, 0)
unfolding calloc calloc_size clear_new clear_bytes clear_words malloc free get_payload_size obtain
    place mm_init extend_heap new_block coalesce_block coalesce_none coalesce_next coalesce_prev
    coalesce_both write_free split_block split_off take_whole insert_block insert_only insert_front
    delete_block unlink unlink_mini before find_fit fit_from walk get_index index_from adjusted
    round_up max pack extract_size extract_alloc extract_prev_alloc extract_prev_mini store mem_sbrk
    get_size get_alloc get_prev_alloc get_prev_mini header_to_footer find_next find_prev
    write_header write_footer set_nextblock_prev_alloc set_list next_of prev_of set_next set_prev
cleared_run = refl

-- The old block's word comes along, and the old block is free again.
moved_run :
    map {B = ℕ × ℕ × Bool}
      (λ (p, h). (p, h.mem 4144, get_alloc h 4104))
      (realloc 4112 50 (store 4112 7 first_heap))
    ≡ some (4144, 7, false)
unfolding realloc move_to copysize_of copy_bytes copy_words malloc free get_payload_size obtain
    place mm_init extend_heap new_block coalesce_block coalesce_none coalesce_next coalesce_prev
    coalesce_both write_free split_block split_off take_whole insert_block insert_only insert_front
    delete_block unlink unlink_mini before find_fit fit_from walk get_index index_from adjusted
    round_up max pack extract_size extract_alloc extract_prev_alloc extract_prev_mini store mem_sbrk
    get_size get_alloc get_prev_alloc get_prev_mini header_to_footer find_next find_prev
    write_header write_footer set_nextblock_prev_alloc set_list next_of prev_of set_next set_prev
moved_run = refl
