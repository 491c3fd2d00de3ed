-- ===== src/Malloc/Heap.antt =====
-- The heap of malloclab-s20-bhxxzp/mm.c: words at byte addresses, the free lists' first blocks, and
-- the break of malloclab-s20-bhxxzp/memlib.c. A block is the address of its header, 0 is the null
-- pointer.
use cmu.Common.{ℕ, ◌+◌, ◌-◌, Bool, Option, none, some, ltb, if◌then◌else◌, update}
use cmu.Malloc.Word.{
  pack, extract_size, extract_alloc, extract_prev_alloc, extract_prev_mini, wsize, dsize,
}

pub record Heap : Type 0 where
  pub mem : ℕ → ℕ
  pub seg_list : ℕ → ℕ
  pub heap_start : ℕ
  pub brk : ℕ
  pub max_addr : ℕ

unfoldable pub store : ℕ → ℕ → Heap → Heap
store a w h = record h { mem = update h.mem a w }

unfoldable pub set_list : ℕ → ℕ → Heap → Heap
set_list index block h = record h { seg_list = update h.seg_list index block }

-- `mem_sbrk`, whose argument is never negative here, with a system `sbrk` that gives what is asked.
unfoldable pub mem_sbrk : ℕ → Heap → Option (ℕ × Heap)
mem_sbrk incr h =
    if ltb h.max_addr (h.brk + incr) then none else some (h.brk, record h { brk = h.brk + incr })

unfoldable pub get_size : Heap → ℕ → ℕ
get_size h block = extract_size (h.mem block)

unfoldable pub get_alloc : Heap → ℕ → Bool
get_alloc h block = extract_alloc (h.mem block)

unfoldable pub get_prev_alloc : Heap → ℕ → Bool
get_prev_alloc h block = extract_prev_alloc (h.mem block)

unfoldable pub get_prev_mini : Heap → ℕ → Bool
get_prev_mini h block = extract_prev_mini (h.mem block)

abbrev pub payload_to_header : ℕ → ℕ
payload_to_header bp = bp - wsize

abbrev pub header_to_payload : ℕ → ℕ
header_to_payload block = block + wsize

unfoldable pub header_to_footer : Heap → ℕ → ℕ
header_to_footer h block = block + wsize + get_size h block - dsize

unfoldable pub get_payload_size : Heap → ℕ → ℕ
get_payload_size h block = get_size h block - wsize

unfoldable pub find_next : Heap → ℕ → ℕ
find_next h block = block + get_size h block

-- The size stands in the word before the header.
unfoldable pub find_prev : Heap → ℕ → ℕ
find_prev h block = block - extract_size (h.mem (block - wsize))

abbrev pub find_prev_mini : ℕ → ℕ
find_prev_mini block = block - dsize

unfoldable pub write_header : ℕ → ℕ → (alloc prev_alloc prev_mini : Bool) → Heap → Heap
write_header block size alloc prev_alloc prev_mini =
    store block (pack size alloc prev_alloc prev_mini)

unfoldable pub write_footer : ℕ → ℕ → (alloc prev_alloc prev_mini : Bool) → Heap → Heap
write_footer block size alloc prev_alloc prev_mini h =
    store (header_to_footer h block) (pack size alloc prev_alloc prev_mini) h

unfoldable pub set_nextblock_prev_alloc : ℕ → (prev_alloc prev_mini : Bool) → Heap → Heap
set_nextblock_prev_alloc block prev_alloc prev_mini h =
    let next = find_next h block in
    write_header next (get_size h next) (get_alloc h next) prev_alloc prev_mini h

-- The links of a free block.
unfoldable pub next_of : Heap → ℕ → ℕ
next_of h block = h.mem (block + 8)

unfoldable pub prev_of : Heap → ℕ → ℕ
prev_of h block = h.mem (block + 16)

unfoldable pub set_next : ℕ → ℕ → Heap → Heap
set_next block p = store (block + 8) p

unfoldable pub set_prev : ℕ → ℕ → Heap → Heap
set_prev block p = store (block + 16) p
