-- ===== src/Malloc.antt =====
-- The allocator malloclab-s20-bhxxzp/mm.c over a memory of 64-bit words: the block layout, the
-- segregated free lists, and the operations built on them, each in a child.
pub mod Word
pub mod Heap
pub mod SegList
pub mod Alloc
pub mod Copy
pub mod Packing
pub mod Index
pub mod Sizes
pub mod Fit
pub mod Lists
pub mod Insert
pub mod Delete
pub mod Quiet
pub mod Way
pub mod Free
pub mod Split
pub mod Serve
mod Tests
