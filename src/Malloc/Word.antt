-- ===== src/Malloc/Word.antt =====
-- Header words, sizes and list indices of malloclab-s20-bhxxzp/mm.c, on 64-bit words. A bit mask is
-- written as the remainder or quotient by the power of two that it stands for.
use cmu.Common.{
  ℕ, zero, suc, ◌+◌, ◌-◌, ◌*◌, ◌/◌, ◌%◌, ◌^◌, Bool, not, ◌&&◌, ◌==◌, ltb, leb, if◌then◌else◌,
}

abbrev pub word_mod : ℕ
word_mod = 2 ^ 64

abbrev pub wsize : ℕ
wsize = 8

abbrev pub dsize : ℕ
dsize = 16

abbrev pub min_block_size : ℕ
min_block_size = 16

abbrev pub chunksize : ℕ
chunksize = 4096

abbrev pub list_number : ℕ
list_number = 14

-- `(x > y) ? x : y`
unfoldable pub max : ℕ → ℕ → ℕ
max x y = if ltb y x then x else y

-- `n * ((size + (n - 1)) / n)` on `size_t`, for `n > 0`.
unfoldable pub round_up : ℕ → ℕ → ℕ
round_up size n = n * ((size + (n - 1)) % word_mod / n) % word_mod

-- `word | (1 << k)`: the bit is added if it is not there.
abbrev pub with_bit : ℕ → ℕ → ℕ
with_bit word bit = if word / bit % 2 == 0 then word + bit else word

-- `(bool)(word & bit)`
abbrev pub has_bit : ℕ → ℕ → Bool
has_bit word bit = not (word / bit % 2 == 0)

unfoldable pub pack : ℕ → (alloc prev_alloc prev_mini : Bool) → ℕ
pack size alloc prev_alloc prev_mini =
    let w1 = if alloc then with_bit size 1 else size in
    let w2 = if prev_alloc then with_bit w1 2 else w1 in if prev_mini then with_bit w2 4 else w2

-- `word & ~0xF`
unfoldable pub extract_size : ℕ → ℕ
extract_size word = word - word % 16

unfoldable pub extract_alloc : ℕ → Bool
extract_alloc word = has_bit word 1

unfoldable pub extract_prev_alloc : ℕ → Bool
extract_prev_alloc word = has_bit word 2

unfoldable pub extract_prev_mini : ℕ → Bool
extract_prev_mini word = has_bit word 4

-- The loop of `get_index`, from `j` on.
unfoldable pub index_from : ℕ → (j rounds : ℕ) → ℕ
index_from asize j zero = 0
index_from asize j (suc rounds) =
    if leb (dsize * 2 ^ (j - 1)) asize && ltb asize (dsize * 2 ^ j)
    then j
    else index_from asize (suc j) rounds

unfoldable pub get_index : ℕ → ℕ
unfolding index_from
get_index asize =
    if leb asize min_block_size
    then 0
    else if leb (dsize * 2 ^ (list_number - 2)) asize
    then list_number - 1
    else index_from asize 1 (list_number - 2)

-- The block size that `malloc` looks for.
unfoldable pub adjusted : ℕ → ℕ
unfolding round_up
adjusted size = round_up ((size + wsize) % word_mod) dsize
