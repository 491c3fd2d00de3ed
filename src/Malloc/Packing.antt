-- ===== src/Malloc/Packing.antt =====
-- pack and the extractors of malloclab-s20-bhxxzp/mm.c undo one another.
use cmu.Common.{ℕ, ◌+◌, ◌%◌, ◌≡◌, Bool, true, arith, ◌<◌}
use cmu.Malloc.Word.{pack, extract_size, extract_alloc, extract_prev_alloc, extract_prev_mini}

-- The size of a block and its three flags can be read back from the word that pack makes of them, if
-- the size is a multiple of 16; and the word is the size plus less than 8.
pub pack_lem :
    (size : ℕ) (alloc prev_alloc prev_mini : Bool)
    → size % 16 ≡ 0
    → let w = pack size alloc prev_alloc prev_mini in
      (extract_size w ≡ size)
      × (extract_alloc w ≡ alloc)
      × (extract_prev_alloc w ≡ prev_alloc)
      × (extract_prev_mini w ≡ prev_mini)
      × (w < size + 8)
unfolding pack extract_size extract_alloc extract_prev_alloc extract_prev_mini
pack_lem size true true true h =
    (ground arith, ground arith, ground arith, ground arith, ground arith)
pack_lem size a p m h = (ground arith, ground arith, ground arith, ground arith, ground arith)
