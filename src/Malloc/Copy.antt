-- ===== src/Malloc/Copy.antt =====
-- realloc and calloc of malloclab-s20-bhxxzp/mm.c, with memcpy and memset on whole words and on the
-- low bytes of a last word (the machine is little-endian).
pub mod Bytes
mod Tests
use cmu.Common.{
  ℕ, zero, suc, ◌+◌, ◌-◌, ◌*◌, ◌/◌, ◌%◌, ◌^◌, Option, none, some, ◌==◌, ltb, if◌then◌else◌,
}
use cmu.Malloc.Heap.{Heap, store, payload_to_header, get_payload_size}
use cmu.Malloc.Alloc.{◌>>=◌, malloc, free, calloc_size}

-- The first `n` words, one by one.
unfoldable pub copy_words : (n from to : ℕ) → Heap → Heap
copy_words zero from to h = h
copy_words (suc n) from to h = copy_words n (from + 8) (to + 8) (store to (h.mem from) h)

-- The low `r` bytes of a word from `w`, the others from `old`.
abbrev pub low_bytes : (r w old : ℕ) → ℕ
low_bytes r w old = old - old % 2 ^ (8 * r) + w % 2 ^ (8 * r)

-- `memcpy(to, from, n)`
unfoldable pub copy_bytes : (n from to : ℕ) → Heap → Heap
copy_bytes n from to h =
    let q = n / 8 in
    let h1 = copy_words q from to h in
    if n % 8 == 0
    then h1
    else store (to + 8 * q) (low_bytes (n % 8) (h1.mem (from + 8 * q)) (h1.mem (to + 8 * q))) h1

unfoldable pub clear_words : (n to : ℕ) → Heap → Heap
clear_words zero to h = h
clear_words (suc n) to h = clear_words n (to + 8) (store to 0 h)

-- `memset(to, 0, n)`
unfoldable pub clear_bytes : (n to : ℕ) → Heap → Heap
clear_bytes n to h =
    let q = n / 8 in
    let h1 = clear_words q to h in
    if n % 8 == 0 then h1 else store (to + 8 * q) (low_bytes (n % 8) 0 (h1.mem (to + 8 * q))) h1

unfoldable pub copysize_of : Heap → (ptr size : ℕ) → ℕ
copysize_of h ptr size =
    let old = get_payload_size h (payload_to_header ptr) in if ltb size old then size else old

-- `realloc` once `malloc` has given `new`.
unfoldable pub move_to : (ptr size : ℕ) → ℕ × Heap → Option (ℕ × Heap)
move_to ptr size (new, h) =
    if new == 0
    then some (0, h)
    else do h1 ← free ptr (copy_bytes (copysize_of h ptr size) ptr new h); some (new, h1)

unfoldable pub realloc : (ptr size : ℕ) → Heap → Option (ℕ × Heap)
realloc ptr size h =
    if size == 0
    then (do h1 ← free ptr h; some (0, h1))
    else if ptr == 0
    then malloc size h
    else (malloc size h >>= move_to ptr size)

unfoldable pub clear_new : (asize : ℕ) → ℕ × Heap → Option (ℕ × Heap)
clear_new asize (bp, h) = if bp == 0 then some (0, h) else some (bp, clear_bytes asize bp h)

unfoldable pub calloc : (elements size : ℕ) → Heap → Option (ℕ × Heap)
calloc elements size h = elim (calloc_size elements size) [
  | none ↦ none
  | some none ↦ some (0, h)
  | some (some asize) ↦ (malloc asize h >>= clear_new asize)
]
