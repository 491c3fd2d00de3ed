-- ===== src/Malloc/Alloc.antt =====
-- coalesce_block, extend_heap, split_block and the entry points of malloclab-s20-bhxxzp/mm.c. `none`
-- is a read through the null pointer in delete_block.
use cmu.Common.{
  ℕ, ◌+◌, ◌-◌, ◌*◌, ◌/◌, ◌%◌, Bool, true, false, not, Option, none, some, ◌==◌, ltb, leb,
  if◌then◌else◌,
}
use cmu.Malloc.Word.{
  max, round_up, pack, adjusted, wsize, dsize, min_block_size, chunksize, word_mod,
}
use cmu.Malloc.Heap.{
  Heap, store, mem_sbrk, get_size, get_alloc, get_prev_alloc, get_prev_mini, payload_to_header,
  header_to_payload, find_next, find_prev, find_prev_mini, write_header, write_footer,
  set_nextblock_prev_alloc,
}
use cmu.Malloc.SegList.{insert_block, delete_block, find_fit}

infixl 5 ◌>>=◌
abbrev pub ◌>>=◌ : {A B : Type 0} → Option A → (A → Option B) → Option B
none >>= f = none
some a >>= f = f a

-- The header and the footer of a free block whose previous block is allocated.
unfoldable pub write_free : (block size : ℕ) → (prev_mini : Bool) → Heap → Heap
write_free block size prev_mini h =
    write_footer block size false true prev_mini (write_header block size false true prev_mini h)

-- The four cases, on the blocks before and behind.
unfoldable pub coalesce_none : (block size : ℕ) → Heap → Option (ℕ × Heap)
coalesce_none block size h =
    some
      (block, insert_block block (set_nextblock_prev_alloc block false (size == min_block_size) h))

unfoldable pub coalesce_next : (block size next : ℕ) → Heap → Option (ℕ × Heap)
coalesce_next block size next h = do
  h1 ← delete_block next h
  let total = size + get_size h1 next
  let h2 = write_free block total (get_prev_mini h1 block) h1
  some (block, insert_block block (set_nextblock_prev_alloc block false false h2))

-- The code takes the `mini` bit of `block`, not of `prev`, and asks for the block behind `block`.
unfoldable pub coalesce_prev : (block size prev : ℕ) → Heap → Option (ℕ × Heap)
coalesce_prev block size prev h = do
  h1 ← delete_block prev h
  let total = size + get_size h1 prev
  let h2 = write_free prev total (get_prev_mini h1 block) h1
  some (prev, insert_block prev (set_nextblock_prev_alloc block false false h2))

unfoldable pub coalesce_both : (block size prev next : ℕ) → Heap → Option (ℕ × Heap)
coalesce_both block size prev next h = do
  h1 ← delete_block prev h
  h2 ← delete_block next h1
  let total = size + get_size h2 prev + get_size h2 next
  let h3 = write_free prev total (get_prev_mini h2 prev) h2
  some (prev, insert_block prev (set_nextblock_prev_alloc prev false false h3))

unfoldable pub coalesce_block : ℕ → Heap → Option (ℕ × Heap)
coalesce_block block h =
    let size = get_size h block in
    let next = find_next h block in
    let prev = if get_prev_mini h block then find_prev_mini block else find_prev h block in
    if get_prev_alloc h block
    then (if get_alloc h next then coalesce_none block size h else coalesce_next block size next h)
    else if get_alloc h next
    then coalesce_prev block size prev h
    else coalesce_both block size prev next h

-- The free block that `extend_heap` makes of the new memory at `bp`, and the new epilogue.
unfoldable pub new_block : (bp size : ℕ) → Heap → Option (ℕ × Heap)
new_block bp size h =
    let block = payload_to_header bp in
    let prev_alloc = get_prev_alloc h block in
    let prev_mini = get_prev_mini h block in
    let h1 = write_header block size false prev_alloc prev_mini h in
    let h2 = write_footer block size false prev_alloc prev_mini h1 in
    let h3 = write_header (find_next h2 block) 0 true false false h2 in coalesce_block block h3

-- Block 0 is the null pointer, when the break cannot go up.
unfoldable pub extend_heap : ℕ → Heap → Option (ℕ × Heap)
extend_heap size h = elim (mem_sbrk (round_up size dsize) h) [
  | none ↦ some (0, h)
  | some (bp, h1) ↦ new_block bp (round_up size dsize) h1
]

-- What `split_block` does to a block of at least 16 bytes more than asked for. The footer of the
-- allocated part goes where its payload ends.
unfoldable pub split_off : (block block_size asize : ℕ) → Heap → Heap
split_off block block_size asize h =
    let prev_mini = get_prev_mini h block in
    let h1 = write_header block asize true true prev_mini h in
    let h2 = write_footer block asize true true prev_mini h1 in
    let next = find_next h2 block in
    let next_prev_mini = block_size == min_block_size in
    let h3 = write_header next (block_size - asize) false true next_prev_mini h2 in
    let h4 = write_footer next (block_size - asize) false true next_prev_mini h3 in
    let h5 = set_nextblock_prev_alloc next false (block_size - asize == min_block_size) h4 in
    insert_block next h5

unfoldable pub take_whole : (block block_size : ℕ) → Heap → Heap
take_whole block block_size h =
    let h1 = write_header block block_size true true (get_prev_mini h block) h in
    let temp_mini = get_prev_mini h1 (find_next h1 block) in
    set_nextblock_prev_alloc block true temp_mini h1

-- `block_size - asize` is a `size_t`: at a block too small it would wrap to a large number.
unfoldable pub split_block : (block asize : ℕ) → Heap → Option Heap
split_block block asize h = do
  h1 ← delete_block block h
  let block_size = get_size h block
  let spare = (block_size + word_mod - asize) % word_mod
  some (
      if leb min_block_size spare
      then split_off block block_size asize h1
      else take_whole block block_size h1)

unfoldable pub mm_init : Heap → Option (Bool × Heap)
mm_init h = elim (mem_sbrk (2 * wsize) h) [
  | none ↦ some (false, h)
  | some (start, h1) ↦ do
    let h2 =
        store (start + wsize) (pack 0 true true false) (store start (pack 0 true true false) h1)
    let h3 : Heap = record h2 {
      heap_start = start + wsize;
      seg_list = λ i. if ltb i 14 then 0 else h2.seg_list i;
    }
    (block, h4) ← extend_heap chunksize h3
    some (not (block == 0), h4)
]

-- A block that fits, from the lists or from new memory; 0 if there is none.
unfoldable pub obtain : ℕ → Heap → Option (ℕ × Heap)
obtain asize h =
    if find_fit h asize == 0
    then extend_heap (max asize chunksize) h
    else some (find_fit h asize, h)

unfoldable pub place : ℕ → ℕ × Heap → Option (ℕ × Heap)
place asize (block, h) =
    if block == 0
    then some (0, h)
    else do h1 ← split_block block asize h; some (header_to_payload block, h1)

-- `mm_init` runs at the first call; its answer is not looked at.
unfoldable pub malloc : ℕ → Heap → Option (ℕ × Heap)
unfolding obtain place
malloc size h = do
  (_, h1) ← if h.heap_start == 0 then mm_init h else some (true, h)
  if size == 0 then some (0, h1) else (obtain (adjusted size) h1 >>= place (adjusted size))

unfoldable pub free : ℕ → Heap → Option Heap
free bp h = if bp == 0 then some h else do
  let block = payload_to_header bp
  let size = get_size h block
  let prev_alloc = get_prev_alloc h block
  let prev_mini = get_prev_mini h block
  let h1 = write_header block size false prev_alloc prev_mini h
  let mini = size == min_block_size
  let h2 = if mini then h1 else write_footer block size false prev_alloc prev_mini h1
  (_, h3) ← coalesce_block block (set_nextblock_prev_alloc block false mini h2)
  some h3

-- The size that `calloc` asks `malloc` for, or nothing if the product overflows. `none` is the division
-- by zero at no elements.
unfoldable pub calloc_size : (elements size : ℕ) → Option (Option ℕ)
calloc_size elements size =
    let asize = elements * size % word_mod in
    if elements == 0
    then none
    else if asize / elements == size
    then some (some asize)
    else some none
