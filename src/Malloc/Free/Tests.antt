-- ===== src/Malloc/Free/Tests.antt =====
-- The theorems on the free lists of malloclab-s20-bhxxzp/mm.c at a concrete heap.
use cmu.Common.{
  ℕ, ◌+◌, ◌≤◌, ◌<◌, ◌≡◌, refl, ◌⊎◌, inl, inr, true, false, some, List, [], ◌∷◌, arith, ◌==◌,
  if◌then◌else◌, length, Bool-cases, eq_of_==, ltb,
}
use cmu.Malloc.Word.{
  extract_size, extract_alloc, extract_prev_alloc, get_index, index_from, round_up,
}
use cmu.Malloc.Heap.{Heap, get_size, get_alloc, get_prev_alloc, next_of, prev_of}
use cmu.Malloc.SegList.{index_of, room, insert_block, delete_block}
use cmu.Malloc.Alloc.{free}
use cmu.Malloc.Lists.{Apart, IsLists, IsBlock, IsUnlisted, Beyond}
use cmu.Malloc.Insert.Lists.{pushed, insert_block_lem}
use cmu.Malloc.Delete.Lists.{IsDeleted, delete_block_lem}
use cmu.Malloc.Serve.{IsCoalesced, malloc_lem}
use cmu.Malloc.Split.Listed.{with_spare}
use cmu.Malloc.Split.Taken.{IsTaken}
use cmu.Malloc.Delete.Lists.{dropped}
use cmu.Malloc.Alloc.{malloc}
use cmu.Malloc.SegList.{find_fit, fit_from, walk}
use cmu.Malloc.Word.{adjusted}
use cmu.Malloc.Free.Listed.{IsFreed, free_lem}
use cmu.Malloc.Fit.{contains}

-- Two free blocks of 64 bytes in list 3, and a block of 32 bytes between allocated ones.
abbrev two_blocks : Heap
two_blocks = record {
  mem = λ a.
      if a == 4104
      then 66
      else if a == 4112
      then 4504
      else if a == 4504
      then 66
      else if a == 4520
      then 4104
      else if a == 5000
      then 35
      else if a == 5032
      then 19
      else 0;
  seg_list = λ i. if i == 3 then 4104 else 0;
  heap_start = 8;
  brk = 8192;
  max_addr = 9000;
}

abbrev two_lists : ℕ → List ℕ
two_lists i = if i == 3 then 4104 ∷ 4504 ∷ [] else []

two_blocks-member :
    (i a : ℕ) → contains (two_lists i) a ≡ true → (i ≡ 3) × ((a ≡ 4104) ⊎ (a ≡ 4504))
two_blocks-member i a m = elim (Bool-cases (i == 3)) [
  | inl here ↦ (
    eq_of_== i 3 here,
    elim (Bool-cases (a == 4104)) [
      | inl at ↦ inl (eq_of_== a 4104 at)
      | inr past ↦ inr (ground arith)
    ],
  )
  | inr there ↦ absurd (let z : false ≡ true = rw there at m in cc)
]

two_blocks-size : (i a : ℕ) → contains (two_lists i) a ≡ true → get_size two_blocks a ≡ 64
unfolding get_size extract_size
two_blocks-size i a m = elim (two_blocks-member i a m).1 [ inl e ↦ rw e refl | inr e ↦ rw e refl ]

two_blocks-IsBlock : (i a : ℕ) → contains (two_lists i) a ≡ true → IsBlock two_blocks i a
unfolding get_index index_from round_up
two_blocks-IsBlock i a m =
    let e = two_blocks-size i a m in
    record {
      aligned = omega (arith, (two_blocks-member i a m).1);
      index = rw (e, (two_blocks-member i a m).0) refl;
      least = omega arith;
    }

two_blocks-IsLists : IsLists two_blocks two_lists
unfolding next_of prev_of
two_blocks-IsLists = record {
  chain = λ i lt. elim (Bool-cases (i == 3)) [
    | inl here ↦
        rw here (refl, λ e. omega arith, λ b. refl, (refl, λ e. omega arith, λ b. refl, refl))
    | inr there ↦ rw there refl
  ];
  block = λ i a lt m. two_blocks-IsBlock i a m;
  apart = λ i j a b lt lt' m m' ne.
      let s = two_blocks-size i a m in
      let s' = two_blocks-size j b m' in
      elim (Bool-cases (ltb a b)) [
        | inl less ↦ inl (ground (arith, two_blocks-member i a m, two_blocks-member j b m'))
        | inr more ↦ inr (ground (arith, two_blocks-member i a m, two_blocks-member j b m'))
      ];
  once = λ i lt. elim (Bool-cases (i == 3)) [ inl here ↦ rw here refl | inr there ↦ rw there refl ];
  words = λ a. ground arith;
  heads = λ i lt. ground arith;
}

two_blocks-IsUnlisted : IsUnlisted two_blocks two_lists 5000
unfolding get_size extract_size
two_blocks-IsUnlisted = record {
  aligned = refl;
  small = omega arith;
  least = omega arith;
  apart = λ j a lt m. inr (omega (arith, two_blocks-size j a m, two_blocks-member j a m));
}

insert_block_lem_example :
    IsLists (insert_block 5000 two_blocks) (pushed two_lists (index_of two_blocks 5000) 5000)
    × ((x : ℕ)
        → Beyond two_blocks 5000 x
        → ((j a : ℕ) → j < 14 → contains (two_lists j) a ≡ true → Beyond two_blocks a x)
        → (insert_block 5000 two_blocks).mem x ≡ two_blocks.mem x)
insert_block_lem_example =
    insert_block_lem two_blocks two_lists 5000 two_blocks-IsLists two_blocks-IsUnlisted

second_listed : contains (two_lists (index_of two_blocks 4504)) 4504 ≡ true
unfolding get_index index_from round_up get_size extract_size
second_listed = refl

second_short : length (two_lists (index_of two_blocks 4504)) < room two_blocks
unfolding get_index index_from round_up get_size extract_size
second_short = omega arith

delete_block_lem_example :
    (g : Heap) × (delete_block 4504 two_blocks ≡ some g) × IsDeleted two_blocks g two_lists 4504
delete_block_lem_example =
    delete_block_lem two_blocks two_lists 4504 two_blocks-IsLists second_listed second_short

free_lem_example :
    (g : Heap) × (free 5008 two_blocks ≡ some g) × IsFreed two_blocks g two_lists 5000
unfolding get_size extract_size get_prev_alloc get_alloc extract_prev_alloc extract_alloc
free_lem_example =
    free_lem two_blocks two_lists 5008 (λ e. omega arith) two_blocks-IsLists two_blocks-IsUnlisted
      (λ j a lt m. inr (omega (arith, two_blocks-size j a m, two_blocks-member j a m))) refl refl

two_blocks-IsCoalesced : IsCoalesced two_blocks two_lists
two_blocks-IsCoalesced = record {
  listed = two_blocks-IsLists;
  gaps = λ i j a b lt lt' m m'.
      let s = two_blocks-size i a m in
      let s' = two_blocks-size j b m' in
      elim (Bool-cases (ltb (a + 64) b)) [
        | inl less ↦ inl (ground (arith, two_blocks-member i a m, two_blocks-member j b m'))
        | inr more ↦ inr (ground (arith, two_blocks-member i a m, two_blocks-member j b m'))
      ];
  inside = λ i a lt m. omega (arith, two_blocks-size i a m, two_blocks-member i a m);
}

two_blocks_short : (i : ℕ) → i < 14 → length (two_lists i) < room two_blocks
two_blocks_short i lt = elim (Bool-cases (i == 3)) [
  | inl here ↦ rw here (omega arith)
  | inr there ↦ rw there (omega arith)
]

found_first : find_fit two_blocks (adjusted 20) ≡ 4104
unfolding find_fit fit_from walk get_index index_from get_size get_alloc extract_size extract_alloc
    next_of adjusted round_up
found_first = refl

malloc_lem_example :
    let b = find_fit two_blocks (adjusted 20) in
    (g : Heap) × (malloc 20 two_blocks ≡ some (b + 8, g))
    × (contains (two_lists (index_of two_blocks b)) b ≡ true)
    × (get_alloc two_blocks b ≡ false)
    × (20 + 8 ≤ get_size g b)
    × (get_size g b < 20 + 24)
    × IsTaken two_blocks g two_lists b (adjusted 20)
    × IsCoalesced g
        (with_spare two_blocks (dropped two_lists (index_of two_blocks b) b) b (adjusted 20))
    × ((j a : ℕ)
        → j < 14
        → contains
            (with_spare two_blocks (dropped two_lists (index_of two_blocks b) b) b (adjusted 20) j)
            a
          ≡ true
        → Apart g b a)
malloc_lem_example =
    malloc_lem two_blocks two_lists 20 two_blocks-IsCoalesced two_blocks_short (λ e. omega arith)
      (λ e. omega arith) (omega arith) (λ e. omega (arith, found_first))
